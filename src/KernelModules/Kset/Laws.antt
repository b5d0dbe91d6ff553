-- ===== src/KernelModules/Kset/Laws.antt =====
-- What kobject-example/kset_init_register/kset.c leaves behind, and what its attribute does.
use linux_labs.Prelude.{
  ℕ, ◌+◌, ◌-◌, ◌%◌, ◌≤◌, ◌<◌, ◌≡◌, refl, ap, ◌∙◌, inl, inr, Bool, true, false, Option, none, some,
  List, [], ◌∷◌, ◌++◌, arith, ltb, Option-cases, ◌^◌,
}
use linux_labs.Resources.{
  Res, ledger, give_back, memory, kobject, shown, kset, success, error, Rv, Event,
}
use linux_labs.KernelModules.Kset.{
  Answers, Started, example_init, example_exit, on_flag, child_attr_store, child_attr_show, Uevent,
  Event, char_value,
}

-- What a start that fails at the parent, at the child or at its file leaves held; and what an exit
-- after a start that did not fail leaves.
abbrev pub left_failed : (e : ℕ) → (p c : Option ℕ) → Rv → List Res
left_failed e none c added = kset e ∷ []
left_failed e (some p) none added = []
left_failed e (some p) (some c) (error _) = kobject c ∷ memory c ∷ shown p ∷ kobject p ∷ kset e ∷ []
left_failed e (some p) (some c) success =
    shown c ∷ kobject c ∷ memory c ∷ shown p ∷ kobject p ∷ kset e ∷ []

abbrev pub left : Answers → List Res
left k = elim k.kset_create_and_add [
  | none ↦ []
  | some e ↦ left_failed e k.kobject_create_and_add k.kzalloc k.kobject_init_and_add
]

-- How a start ended. Without a result, NULL was handed on for the child.
abbrev pub Leaves : Answers → Option Started → Type 0
Leaves k none = k.kzalloc ≡ none
Leaves k (some r) = elim r.rv [
  | error e ↦ ledger r.events [] ≡ some (left k)
  | success ↦
      (p c : ℕ) × (k.kobject_create_and_add ≡ some p)
      × (k.kzalloc ≡ some c)
      × ((es : List Event) × (example_exit r.statics ≡ some es)
          × (ledger (r.events ++ es) [] ≡ some (kobject c ∷ memory c ∷ kobject p ∷ [])))
]

started-Leaves :
    (e p c : ℕ) (added file : Rv)
    → let k : Answers = record {
      kset_create_and_add = some e;
      kobject_create_and_add = some p;
      kzalloc = some c;
      kobject_init_and_add = added;
      sysfs_create_file = file;
    } in
      Leaves k (example_init k)
unfolding example_init example_exit ledger give_back
started-Leaves e p c (error n) file = ground arith
started-Leaves e p c success (error n) = ground arith
started-Leaves e p c success success = (p, c, refl, refl, (_, refl, ground arith))

had-Leaves :
    (e : ℕ) (p c : Option ℕ) (added file : Rv)
    → let k : Answers = record {
      kset_create_and_add = some e;
      kobject_create_and_add = p;
      kzalloc = c;
      kobject_init_and_add = added;
      sysfs_create_file = file;
    } in
      Leaves k (example_init k)
unfolding example_init ledger give_back
had-Leaves e none c added file = refl
had-Leaves e (some p) none added file = refl
had-Leaves e (some p) (some c) added file = started-Leaves e p c added file

-- The start hands NULL to `kobject_init_and_add` only where `kzalloc` failed. Where it fails, all that
-- was taken stays held; where it succeeds, the exit leaves the child's memory and the first references
-- of the child and of the parent, and nothing else.
pub example_init-Leaves : (k : Answers) → Leaves k (example_init k)
unfolding example_init ledger
example_init-Leaves k = elim (Option-cases k.kset_create_and_add) [
  | inl no_kset ↦ rw no_kset refl
  | inr (e, h) ↦
      rw h
        (had-Leaves e k.kobject_create_and_add k.kzalloc k.kobject_init_and_add k.sysfs_create_file)
]

abbrev pub is_sent : Option Uevent → Bool
is_sent none = false
is_sent (some u) = true

-- The flag of a digit.
digit-flag :
    (c count flag : ℕ)
    → 48 ≤ c
    → c < 58
    → child_attr_store c count flag ≡ (count, c - 48, on_flag (c - 48))
unfolding child_attr_store
digit-flag c count flag low high =
    let value : (char_value c + 2 ^ 64 - 48) % 2 ^ 64 ≡ c - 48 = ground arith in rw value refl

shown_digit :
    (print_lu : ℕ → List ℕ) (d : ℕ)
    → print_lu d ≡ (d + 48) ∷ []
    → child_attr_show print_lu d ≡ (2, (d + 48) ∷ 10 ∷ [])
unfolding child_attr_show
shown_digit print_lu d prints = rw prints refl

is_sent-on_flag : (n : ℕ) → is_sent (on_flag n) ≡ ltb n 6
unfolding on_flag
is_sent-on_flag n = ground arith

-- The digit that was stored is shown, with a newline, where `print_lu` prints a number below 10 as its
-- digit; an event is sent exactly for the digits up to 5.
pub show-store :
    (print_lu : ℕ → List ℕ) (c count flag : ℕ)
    → 48 ≤ c
    → c < 58
    → ((n : ℕ) → n < 10 → print_lu n ≡ (n + 48) ∷ [])
    → let (written, flag1, event) = child_attr_store c count flag in
      (written ≡ count)
      × (child_attr_show print_lu flag1 ≡ (2, c ∷ 10 ∷ []))
      × (is_sent event ≡ ltb c 54)
show-store print_lu c count flag low high prints =
    let back : c - 48 + 48 ≡ c = omega arith in
    rw (digit-flag c count flag low high) (
      refl,
      shown_digit print_lu (c - 48) (prints (c - 48) (omega arith))
          ∙ ap (λ (x : ℕ). (2, x ∷ 10 ∷ [])) back,
      is_sent-on_flag (c - 48) ∙ ground arith,
    )
