-- ===== src/Commands/Accounts.antt =====
-- What hlist/hlist1/hlist.c allocates is in a bucket, and `cmd_hash_cleanup` frees it.
use linux_labs.Prelude.{
  ℕ, zero, suc, ◌+◌, ◌≤◌, ◌<◌, ◌≡◌, refl, sym, ap, ◌∙◌, inl, inr, false, Option, some, List, [],
  ◌∷◌, ◌++◌, arith, ltb, if◌then◌else◌, length, Bool-cases, ◌^◌,
}
use linux_labs.Resources.{
  Res, takes, memory, taken, given, taken-append, given-append, one_if, is_res,
}
use linux_labs.Commands.{
  Node, Head, Table, init_from, cmd_hash_init, copied, add_node, at_head, returned, put, taken_node,
  cmd_hash_node_add_one, free_nodes, free_heads, cmd_hash_cleanup, cmd_hash_head_size, name_size,
  is_empty_count, count_mod, add_each,
}
use linux_labs.Commands.Buckets.{node_type_lem}
use native.Mathlib.Nat.{add-zero, add_assoc}
use mathlib.Core.Path.{subst}

-- How many nodes in the buckets are the resource `r`.
unfoldable pub held : Res → List Head → ℕ
unfolding free_nodes
held r [] = 0
held r (h ∷ hs) = given r (free_nodes h.nodes) + held r hs

-- Every count is the number of the nodes, which is at most `n`.
abbrev pub AreCounted : ℕ → List Head → Type 0
AreCounted n [] = Unit {0}
AreCounted n (h ∷ hs) = (h.count ≡ length h.nodes) × (length h.nodes ≤ n) × AreCounted n hs

-- The buckets have all that was allocated, and there are 27.
pub record IsWhole (n : ℕ) (t : Table) : Type 0 where
  pub counted : AreCounted n t.heads
  pub size : length t.heads ≡ cmd_hash_head_size
  pub kept : (r : Res) → taken r t.events ≡ given r t.events + held r t.heads

AreCounted-weaken : (n : ℕ) (hs : List Head) → AreCounted n hs → AreCounted (n + 1) hs
AreCounted-weaken n [] a = tt
AreCounted-weaken n (h ∷ hs) (c, l, a) = (c, omega arith, AreCounted-weaken n hs a)

AreCounted-at_head :
    (n i : ℕ) (x : Node) (hs : List Head)
    → n + 1 < count_mod
    → AreCounted n hs
    → AreCounted (n + 1) (at_head i (add_node x) hs)
unfolding at_head
AreCounted-at_head n i x [] small a = tt
AreCounted-at_head n zero x (h ∷ hs) small (c, l, a) =
    (omega arith, omega arith, AreCounted-weaken n hs a)
AreCounted-at_head n (suc i) x (h ∷ hs) small (c, l, a) =
    (c, omega arith, AreCounted-at_head n i x hs small a)

length-at_head : (i : ℕ) (f : Head → Head) (hs : List Head) → length (at_head i f hs) ≡ length hs
unfolding at_head
length-at_head i f [] = refl
length-at_head zero f (h ∷ hs) = refl
length-at_head (suc i) f (h ∷ hs) = ap suc (length-at_head i f hs)

held-at_head :
    (r : Res) (i : ℕ) (x : Node) (hs : List Head)
    → i < length hs
    → held r (at_head i (add_node x) hs) ≡ one_if (is_res r (memory x.addr)) + held r hs
unfolding at_head held free_nodes given
held-at_head r i x [] small = absurd (omega arith)
held-at_head r zero x (h ∷ hs) small = omega arith
held-at_head r (suc i) x (h ∷ hs) small = omega (arith, held-at_head r i x hs (omega arith))

put-IsWhole :
    (n p : ℕ) (name : List ℕ) (i : ℕ) (t : Table)
    → n + 1 < count_mod
    → length name ≤ name_size
    → i < cmd_hash_head_size
    → IsWhole n t
    → let (r, t') = put (some p) name i (record t { events = t.events ++ taken_node (some p) }) in
      (r ≡ returned) × IsWhole (n + 1) t'
unfolding taken given
put-IsWhole n p name i t small short bucket w =
    let fits : ltb name_size (length name) ≡ false = ground arith in
    let x : Node = record { addr = p; name = copied name } in
    rw fits (
      refl,
      record {
        counted = AreCounted-at_head n i x t.heads small w.counted;
        size = length-at_head i (add_node x) t.heads ∙ w.size;
        kept = λ r. omega (
          arith,
          w.kept r,
          taken-append r t.events (takes (memory p) ∷ []),
          given-append r t.events (takes (memory p) ∷ []),
          held-at_head r i x t.heads (omega (arith, w.size, bucket)),
        );
      },
    )

cmd_hash_node_add_one-IsWhole :
    (n p : ℕ) (name : List ℕ) (t : Table)
    → n + 1 < count_mod
    → length name ≤ name_size
    → IsWhole n t
    → let (r, t') = cmd_hash_node_add_one (some p) (some name) t in
      (r ≡ returned) × IsWhole (n + 1) t'
unfolding cmd_hash_node_add_one
cmd_hash_node_add_one-IsWhole n p name t small short w =
    let (i, is_i, bucket, _) = node_type_lem name in
    rw is_i (put-IsWhole n p name i t small short bucket w)

-- The names, each with memory for its node.
abbrev pub served : List (ℕ × List ℕ) → List (Option ℕ × List ℕ)
served [] = []
served ((p, name) ∷ more) = (some p, name) ∷ served more

abbrev pub AreShort : List (ℕ × List ℕ) → Type 0
AreShort [] = Unit {0}
AreShort ((p, name) ∷ more) = (length name ≤ name_size) × AreShort more

suc-one : (n : ℕ) → 1 + n ≡ suc n
suc-one n = omega arith

add_each-IsWhole :
    (items : List (ℕ × List ℕ)) (n : ℕ) (t : Table)
    → n + length items < count_mod
    → AreShort items
    → IsWhole n t
    → let (r, t') = add_each (served items) t in (r ≡ returned) × IsWhole (n + length items) t'
unfolding add_each
add_each-IsWhole [] n t small short w = (refl, subst (λ k. IsWhole k t) (sym (add-zero n)) w)
add_each-IsWhole ((p, name) ∷ more) n t small (s, short) w =
    let (is_ok, w1) = cmd_hash_node_add_one-IsWhole n p name t (omega arith) s w in
    let t1 = (cmd_hash_node_add_one (some p) (some name) t).1 in
    let (is_done, w2) = add_each-IsWhole more (n + 1) t1 (omega arith) short w1 in
    rw (add_each, is_ok)
      (
        is_done,
        subst (λ k. IsWhole k (add_each (served more) t1).1)
            (add_assoc n 1 (length more) ∙ ap (λ k. n + k) (suc-one (length more))) w2,
      )

pub length-nil : (ns : List Node) → length ns ≡ 0 → ns ≡ []
length-nil [] h = refl
length-nil (n ∷ ns) h = absurd (omega arith)

given-nil-of-empty :
    (r : Res) (h : Head)
    → h.count ≡ length h.nodes
    → h.count < 2 ^ 15
    → given r (if is_empty_count h.count then [] else free_nodes h.nodes)
      ≡ given r (free_nodes h.nodes)
unfolding free_nodes given
given-nil-of-empty r h c l = elim (Bool-cases (is_empty_count h.count)) [
  | inl is_empty ↦
      let none_there : h.nodes ≡ [] = length-nil h.nodes (ground arith) in rw (is_empty, none_there)
  | inr full ↦ rw full
]

free_heads_lem :
    (r : Res) (n : ℕ) (hs : List Head)
    → n < 2 ^ 15
    → AreCounted n hs
    → given r (free_heads hs) ≡ held r hs
unfolding free_heads held given
free_heads_lem r n [] small a = refl
free_heads_lem r n (h ∷ hs) small (c, l, a) =
    given-append r (if is_empty_count h.count then [] else free_nodes h.nodes) (free_heads hs)
    ∙ omega (arith, given-nil-of-empty r h c (omega arith), free_heads_lem r n hs small a)

taken-free_nodes : (r : Res) (ns : List Node) → taken r (free_nodes ns) ≡ 0
unfolding taken free_nodes
taken-free_nodes r [] = refl
taken-free_nodes r (n ∷ ns) = taken-free_nodes r ns

taken-free_heads : (r : Res) (hs : List Head) → taken r (free_heads hs) ≡ 0
unfolding taken free_heads
taken-free_heads r [] = refl
taken-free_heads r (h ∷ hs) =
    taken-append r (if is_empty_count h.count then [] else free_nodes h.nodes) (free_heads hs)
    ∙ elim (Bool-cases (is_empty_count h.count)) [
      | inl is_empty ↦ rw is_empty (omega (arith, taken-free_heads r hs))
      | inr full ↦ rw full (omega (arith, taken-free_nodes r h.nodes, taken-free_heads r hs))
    ]

init_from_lem :
    (n i : ℕ)
    → AreCounted 0 (init_from n i)
      × (length (init_from n i) ≡ n)
      × ((r : Res) → held r (init_from n i) ≡ 0)
unfolding init_from held free_nodes given
init_from_lem zero i = (tt, refl, λ r. refl)
init_from_lem (suc n) i =
    let (a, l, h) = init_from_lem n (i + 1) in
    ((refl, omega arith, a), ap suc l, λ r. omega (arith, h r))

init-IsWhole : (t : Table) → t.events ≡ [] → IsWhole 0 (cmd_hash_init t)
unfolding cmd_hash_init taken given
init-IsWhole t none_yet =
    let (a, l, h) = init_from_lem cmd_hash_head_size 0 in
    record { counted = a; size = l; kept = λ r. rw none_yet (omega (arith, h r)) }

-- After `cmd_hash_init`, fewer than 2 ^ 15 names of at most 20 bytes, each with memory for its node,
-- are all stored, and the cleanup then frees every node as often as it was allocated.
pub cmd_hash_frees :
    (items : List (ℕ × List ℕ)) (t : Table)
    → t.events ≡ []
    → length items < 2 ^ 15
    → AreShort items
    → let (r, t') = add_each (served items) (cmd_hash_init t) in
      let done = (cmd_hash_cleanup t').events in
      (r ≡ returned) × ((x : Res) → taken x done ≡ given x done)
unfolding cmd_hash_cleanup
cmd_hash_frees items t none_yet few short =
    let (is_ok, w) =
      add_each-IsWhole items 0 (cmd_hash_init t) (omega arith) short (init-IsWhole t none_yet) in
    let t1 = (add_each (served items) (cmd_hash_init t)).1 in
    (
      is_ok,
      λ x. omega (
        arith,
        w.kept x,
        taken-append x t1.events (free_heads t1.heads),
        given-append x t1.events (free_heads t1.heads),
        taken-free_heads x t1.heads,
        free_heads_lem x (0 + length items) t1.heads (omega arith) w.counted,
      ),
    )
