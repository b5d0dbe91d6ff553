-- ===== src/ServiceManager/Names.antt =====
-- Service names of binder/service_manager.c: when `find_svc` takes two for one.
use linux_labs.Prelude.{
  ℕ, ◌≤◌, ◌<◌, ◌≡◌, refl, sym, ap, ◌∙◌, inl, inr, Bool, true, ◌&&◌, List, [], ◌∷◌, ◌++◌, arith,
  ◌==◌, length, Bool-cases, ◌↔◌, take,
}
use linux_labs.ServiceManager.{SvcInfo, same_units, is_svc}
use mathlib.Core.Path.{subst, ap₂}

-- The units of a service's name, without the NUL behind them.
abbrev pub key_of : SvcInfo → List ℕ
key_of si = take si.len si.name

-- What `do_add_service` makes: a name of 1 to 127 units and a NUL.
pub record IsEntry (si : SvcInfo) : Type 0 where
  pub named : si.name ≡ key_of si ++ 0 ∷ []
  pub measured : si.len ≡ length (key_of si)
  pub not_empty : 0 < si.len
  pub short : si.len ≤ 127

abbrev pub same_key : List ℕ → List ℕ → Bool
same_key j k = (length j == length k) && same_units (length j) j k

same_units-append :
    (j k t u : List ℕ)
    → length j ≡ length k
    → same_units (length j) (j ++ t) (k ++ u) ≡ same_units (length j) j k
unfolding same_units
same_units-append [] k t u e = refl
same_units-append (x ∷ j) [] t u e = absurd (omega arith)
same_units-append (x ∷ j) (y ∷ k) t u e =
    ap (λ b. (x == y) && b) (same_units-append j k t u (omega arith))

same_units-eq : (j k : List ℕ) → length j ≡ length k → same_units (length j) j k ≡ true → j ≡ k
unfolding same_units
same_units-eq [] [] e h = refl
same_units-eq [] (y ∷ k) e h = absurd (omega arith)
same_units-eq (x ∷ j) [] e h = absurd (omega arith)
same_units-eq (x ∷ j) (y ∷ k) e h = ground (arith, same_units-eq j k)

same_units_refl : (j : List ℕ) → same_units (length j) j j ≡ true
unfolding same_units
same_units_refl [] = refl
same_units_refl (x ∷ j) = ground (arith, same_units_refl j)

pub same_key_iff : (j k : List ℕ) → (same_key j k ≡ true) ↔ (j ≡ k)
same_key_iff j k =
    (λ h. ground (arith, same_units-eq j k), λ e. rw e (ground (arith, same_units_refl k)))

-- `find_svc` compares the name with the first `len` of the units that it is given.
pub is_svc-same_key :
    (k t : List ℕ) (si : SvcInfo)
    → IsEntry si
    → is_svc (k ++ t) (length k) si ≡ same_key k (key_of si)
is_svc-same_key k t si e = elim (Bool-cases (length k == si.len)) [
  | inr other ↦ ground (arith, e.measured)
  | inl fits ↦
      let same : length k ≡ length (key_of si) = ground (arith, e.measured) in
      let units : same_units (length k) (k ++ t) si.name ≡ same_units (length k) k (key_of si) =
        subst (λ n. same_units (length k) (k ++ t) n ≡ same_units (length k) k (key_of si))
          (sym e.named) (same_units-append k (key_of si) t (0 ∷ []) same) in
      let lens : (length k == length (key_of si)) ≡ true = ground arith in
      ap₂ ◌&&◌ (fits ∙ sym lens) units
]
