-- ===== src/ServiceManager/Registry.antt =====
-- The service list of binder/service_manager.c as a map from names to handles: what
-- `do_add_service` does to it and what `do_find_service` reads from it.
use mathlib.Core.Bool.{false≢true}
use mathlib.Core.Option.{some-injective}
use linux_labs.Prelude.{
  ℕ, ◌≡◌, refl, sym, ap, ◌∙◌, ◌≢◌, inl, inr, Bool, true, false, Option, none, some, List, [], ◌∷◌,
  ◌++◌, arith, if◌then◌else◌, length, Bool-cases, ==-eq-false, map, Bool-false, ==-refl, ◌==◌,
}
use linux_labs.ServiceManager.Names.{key_of, same_key, IsEntry, is_svc-same_key, same_key_iff}
use linux_labs.ServiceManager.{SvcInfo, find_svc, set_handle, is_svc, with_handle, handle_at}
use mathlib.Core.Path.{ap₂, subst}

-- A handle and the `allow_isolated` of the service.
abbrev pub Entry : Type 0
Entry = ℕ × ℕ

unfoldable pub lookup : List SvcInfo → List ℕ → Option Entry
lookup [] k = none
lookup (si ∷ rest) k =
    if same_key k (key_of si) then some (si.handle, si.allow_isolated) else lookup rest k

abbrev pub AreEntries : List SvcInfo → Type 0
AreEntries [] = Unit {0}
AreEntries (si ∷ rest) = IsEntry si × AreEntries rest

-- No object of the list stands at `p`; all stand at addresses of their own.
abbrev pub IsFresh : ℕ → List SvcInfo → Type 0
IsFresh p [] = Unit {0}
IsFresh p (si ∷ rest) = (si.addr ≢ p) × IsFresh p rest

abbrev pub AreDistinct : List SvcInfo → Type 0
AreDistinct [] = Unit {0}
AreDistinct (si ∷ rest) = IsFresh si.addr rest × AreDistinct rest

pub record IsList (l : List SvcInfo) : Type 0 where
  pub entries : AreEntries l
  pub distinct : AreDistinct l

abbrev pub to_entry : Option SvcInfo → Option Entry
to_entry none = none
to_entry (some si) = some (si.handle, si.allow_isolated)

pub find_svc-lookup :
    (k t : List ℕ) (l : List SvcInfo)
    → AreEntries l
    → to_entry (find_svc (k ++ t) (length k) l) ≡ lookup l k
unfolding find_svc lookup
find_svc-lookup k t [] h = refl
find_svc-lookup k t (si ∷ rest) h =
    rw (is_svc-same_key k t si h.0) (elim (Bool-cases (same_key k (key_of si))) [
      | inl hit ↦ rw hit
      | inr miss ↦ rw miss (find_svc-lookup k t rest h.1)
    ])

pub find_svc-key :
    (k t : List ℕ) (l : List SvcInfo) (si : SvcInfo)
    → AreEntries l
    → find_svc (k ++ t) (length k) l ≡ some si
    → IsEntry si × (key_of si ≡ k)
unfolding find_svc
find_svc-key k t [] si h e = cc
find_svc-key k t (x ∷ rest) si h e =
    let test = is_svc-same_key k t x h.0 in
    elim (Bool-cases (same_key k (key_of x))) [
      | inl hit ↦
          let is : x ≡ si = ground arith in
          (subst IsEntry is h.0, ap key_of (sym is) ∙ sym ((same_key_iff k (key_of x)).0 hit))
      | inr miss ↦ find_svc-key k t rest si h.1 (ground arith)
    ]

find_svc-nil : (s : List ℕ) (len : ℕ) (si : SvcInfo) → ¬ (find_svc s len [] ≡ some si)
unfolding find_svc
find_svc-nil s len si e = cc e

pub find_svc-ne :
    (s : List ℕ) (len p : ℕ) (l : List SvcInfo) (si : SvcInfo)
    → IsFresh p l
    → find_svc s len l ≡ some si
    → si.addr ≢ p
unfolding find_svc
find_svc-ne s len p [] si f e = cc
find_svc-ne s len p (x ∷ rest) si f e = elim (Bool-cases (is_svc s len x)) [
  | inl hit ↦ let is : x ≡ si = ground arith in subst (λ y. y.addr ≢ p) is f.0
  | inr miss ↦ find_svc-ne s len p rest si f.1 (ground arith)
]

pub handle_at-find_svc :
    (s : List ℕ) (len : ℕ) (l : List SvcInfo) (si : SvcInfo)
    → AreDistinct l
    → find_svc s len l ≡ some si
    → handle_at si.addr l ≡ si.handle
unfolding handle_at find_svc
handle_at-find_svc s len [] si d e = cc
handle_at-find_svc s len (x ∷ rest) si d e = elim (Bool-cases (is_svc s len x)) [
  | inl hit ↦
      let is : x ≡ si = ground arith in
      subst (λ y. (if x.addr == y.addr then x.handle else handle_at y.addr rest) ≡ y.handle) is
        (rw (==-refl x.addr))
  | inr miss ↦
      let later : find_svc s len rest ≡ some si = ground arith in
      let ne = find_svc-ne s len x.addr rest si d.0 later in
      rw (==-eq-false x.addr si.addr (λ q. ne (sym q))) (handle_at-find_svc s len rest si d.1 later)
]

pub set_handle_fresh : (p h : ℕ) (l : List SvcInfo) → IsFresh p l → set_handle p h l ≡ l
unfolding set_handle
set_handle_fresh p h [] f = refl
set_handle_fresh p h (x ∷ rest) f =
    ap₂ ◌∷◌ (rw (==-eq-false x.addr p f.0)) (set_handle_fresh p h rest f.1)

pub set_handle-set_handle :
    (p g h : ℕ) (l : List SvcInfo) → set_handle p h (set_handle p g l) ≡ set_handle p h l
unfolding set_handle
set_handle-set_handle p g h [] = refl
set_handle-set_handle p g h (x ∷ rest) = ap₂ ◌∷◌ (ground arith) (set_handle-set_handle p g h rest)

find_svc_step :
    (k t : List ℕ) (x : SvcInfo) (rest : List SvcInfo) (b : Bool)
    → IsEntry x
    → same_key k (key_of x) ≡ b
    → find_svc (k ++ t) (length k) (x ∷ rest)
      ≡ (if b then some x else find_svc (k ++ t) (length k) rest)
unfolding find_svc
find_svc_step k t x rest b h e = rw (is_svc-same_key k t x h, e)

lookup-set_handle_hit :
    (k j : List ℕ) (h : ℕ) (x : SvcInfo) (rest : List SvcInfo)
    → IsFresh x.addr rest
    → k ≡ key_of x
    → lookup (set_handle x.addr h (x ∷ rest)) j
      ≡ (if same_key j k then some (h, x.allow_isolated) else lookup (x ∷ rest) j)
unfolding lookup set_handle
lookup-set_handle_hit k j h x rest f e =
    let tail : map (with_handle x.addr h) rest ≡ rest = set_handle_fresh x.addr h rest f in
    rw (==-refl x.addr, tail, e)
      (elim (Bool-cases (same_key j (key_of x))) [ inl same ↦ rw same | inr other ↦ rw other ])

lookup-set_handle_miss :
    (k j : List ℕ) (h p : ℕ) (x : SvcInfo) (rest : List SvcInfo) (e : Option Entry)
    → x.addr ≢ p
    → same_key k (key_of x) ≡ false
    → lookup (set_handle p h rest) j ≡ (if same_key j k then e else lookup rest j)
    → lookup (set_handle p h (x ∷ rest)) j ≡ (if same_key j k then e else lookup (x ∷ rest) j)
unfolding lookup set_handle
lookup-set_handle_miss k j h p x rest e ne miss ih =
    rw (==-eq-false x.addr p ne) (elim (Bool-cases (same_key j (key_of x))) [
      | inl same ↦
          let other : same_key j k ≡ false = Bool-false _ λ both. false≢true (
            sym miss
            ∙ (same_key_iff k (key_of x)).1
                (sym ((same_key_iff j k).0 both) ∙ (same_key_iff j (key_of x)).0 same)) in
          rw (same, other)
      | inr other ↦ rw other ih
    ])

-- A write to the object that was found changes the entry of its name only.
pub lookup-set_handle :
    (k t j : List ℕ) (h : ℕ) (l : List SvcInfo) (si : SvcInfo)
    → IsList l
    → find_svc (k ++ t) (length k) l ≡ some si
    → lookup (set_handle si.addr h l) j
      ≡ (if same_key j k then some (h, si.allow_isolated) else lookup l j)
lookup-set_handle k t j h [] si w e = absurd (find_svc-nil (k ++ t) (length k) si e)
lookup-set_handle k t j h (x ∷ rest) si w e = elim (Bool-cases (same_key k (key_of x))) [
  | inl hit ↦
      let is : x ≡ si =
        some-injective x si (sym (find_svc_step k t x rest true w.entries.0 hit) ∙ e) in
      subst
        (λ y.
          lookup (set_handle y.addr h (x ∷ rest)) j
          ≡ (if same_key j k then some (h, y.allow_isolated) else lookup (x ∷ rest) j))
        is (lookup-set_handle_hit k j h x rest w.distinct.0 ((same_key_iff k (key_of x)).0 hit))
  | inr miss ↦
      let later = sym (find_svc_step k t x rest false w.entries.0 miss) ∙ e in
      let ne = find_svc-ne (k ++ t) (length k) x.addr rest si w.distinct.0 later in
      lookup-set_handle_miss k j h si.addr x rest _ (λ q. ne (sym q)) miss
        (lookup-set_handle k t j h rest si
          (record { entries = w.entries.1; distinct = w.distinct.1 }) later)
]
