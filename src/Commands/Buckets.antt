-- ===== src/Commands/Buckets.antt =====
-- What the buckets of hlist/hlist1/hlist.c hold, and what is freed.
use linux_labs.Prelude.{
  ℕ, zero, suc, ◌+◌, ◌-◌, ◌<◌, ◌≡◌, refl, ap, ◌∙◌, ◌≢◌, ◌⊎◌, inl, inr, ◌&&◌, some, List, [], ◌∷◌,
  ◌++◌, arith, leb, length, Bool-cases, get_elem?, ==-eq-false, length-append, take-append,
}
use linux_labs.Commands.{
  Head, Table, init_head, init_from, cmd_hash_init, node_type, copied, first_byte,
  cmd_hash_head_size,
}

get_elem?-init_from :
    (n index i : ℕ) → i < n → get_elem? (init_from n index) i ≡ some (init_head (index + i))
unfolding init_from
get_elem?-init_from zero index i h = absurd (omega arith)
get_elem?-init_from (suc n) index zero h = ap (λ k. some (init_head k)) (omega arith)
get_elem?-init_from (suc n) index (suc i) h =
    get_elem?-init_from n (index + 1) i (omega arith) ∙ ap (λ k. some (init_head k)) (omega arith)

-- Every bucket of a fresh table, the last one included, has the letter that is its index behind 'a':
-- none has '?'.
pub cmd_hash_init-ch :
    (t : Table) (i : ℕ)
    → i < cmd_hash_head_size
    → (h : Head) × (get_elem? (cmd_hash_init t).heads i ≡ some h)
      × (h.ch ≡ b'a' + i)
      × (h.ch ≢ b'?')
      × (h.count ≡ 0)
      × (h.nodes ≡ [])
unfolding cmd_hash_init
cmd_hash_init-ch t i small = (
  init_head i,
  get_elem?-init_from cmd_hash_head_size 0 i small ∙ ap (λ k. some (init_head k)) (omega arith),
  rw (==-eq-false i cmd_hash_head_size (omega arith)),
  rw (==-eq-false i cmd_hash_head_size (omega arith)) (omega arith),
  refl,
  refl,
)

-- Every name has a bucket: that of its first letter, if it is one from 'a' to 'z', else the last.
pub node_type_lem :
    (name : List ℕ)
    → (i : ℕ) × (node_type (some name) ≡ some i)
      × (i < cmd_hash_head_size)
      × ((i ≡ 26) ⊎ (first_byte name ≡ b'a' + i))
unfolding node_type
node_type_lem name = elim (Bool-cases (leb b'a' (first_byte name) && leb (first_byte name) b'z')) [
  | inl letter ↦ (first_byte name - b'a', rw letter, ground arith, inr (ground arith))
  | inr other ↦ (26, rw other, omega arith, inl refl)
]

-- A name is stored without its last byte.
pub copied_lem : (name : List ℕ) (c : ℕ) → copied (name ++ c ∷ []) ≡ name
unfolding copied
copied_lem name c =
    let n : length (name ++ c ∷ []) - 1 ≡ length name =
      omega (arith, length-append name (c ∷ [])) in
    rw n (take-append name (c ∷ []))
