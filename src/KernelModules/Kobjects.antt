-- ===== src/KernelModules/Kobjects.antt =====
-- The start and exit of kobject-example/kobj_create_add/kobj.c and of
-- kobject-example/kobj_init_add/kobj.c.
use linux_labs.Prelude.{ℕ, ◌≡◌, refl, ◌≢◌, Option, none, some, List, [], ◌∷◌, ◌++◌, arith}
use linux_labs.KernelModules.{Loaded}
use linux_labs.Resources.{
  Event, takes, gives, kobject, shown, Rv, success, error, ledger, give_back,
}

-- `kobject_create_and_add`, whose answer is `none` for NULL.
abbrev created : Option ℕ → List Event
created none = []
created (some p) = takes (kobject p) ∷ takes (shown p) ∷ []

abbrev deleted : Option ℕ → List Event
deleted none = []
deleted (some p) = gives (shown p) ∷ []

-- kobj_create_add/kobj.c: the result is 0 whether or not there is a parent. Its static pointers are the
-- arguments.
unfoldable example_create_and_add_seperate : (parent : Option ℕ) → Loaded
example_create_and_add_seperate parent = record { rv = success; events = created parent }

unfoldable example_create_and_add : (child : Option ℕ) → Loaded
example_create_and_add none = record { rv = error 1; events = [] }
example_create_and_add (some c) = record { rv = success; events = created (some c) }

unfoldable create_init : (parent child : Option ℕ) → Loaded
create_init parent child =
    let first = example_create_and_add_seperate parent in
    elim first.rv [
      | error e ↦ first
      | success ↦
          let second = example_create_and_add child in
          record second { events = first.events ++ second.events }
    ]

-- The exit tests and deletes `parent` two times.
unfoldable create_exit : (parent child : Option ℕ) → List Event
create_exit parent child = deleted parent ++ deleted parent

-- What is held at the end: nothing was held at the start of the module. `none` where something is
-- deleted that is not in sysfs.
abbrev create_end : (parent child : Option ℕ) → Option (List (ℕ × ℕ))
create_end parent child =
    let start = create_init parent child in
    elim start.rv [
      | error e ↦ ledger start.events []
      | success ↦ ledger (start.events ++ create_exit parent child) []
    ]

-- With both objects, the exit of kobj_create_add deletes the parent two times, and the child never.
-- Without the child, the start fails and leaves the parent; without the parent, it succeeds, and the
-- exit leaves the child.
create_end_lem :
    (p c : ℕ)
    → p ≢ c
    → (create_end none none ≡ some [])
      × (create_end (some p) none ≡ some (shown p ∷ kobject p ∷ []))
      × (create_end none (some c) ≡ some (shown c ∷ kobject c ∷ []))
      × (create_end (some p) (some c) ≡ none)
unfolding example_create_and_add_seperate example_create_and_add create_init create_exit ledger
    give_back
create_end_lem p c other = (refl, refl, refl, ground arith)

-- `kobject_add` or `kobject_init_and_add` of the static object `p`, which `kobject_init` gave its first
-- reference: both `example_init_and_add_seperate` and `example_init_and_add`.
unfoldable example_init_and_add : Rv → (p : ℕ) → Loaded
example_init_and_add success p = record {
  rv = success;
  events = takes (kobject p) ∷ takes (shown p) ∷ [];
}
example_init_and_add (error e) p = record { rv = error e; events = takes (kobject p) ∷ [] }

-- kobj_init_add/kobj.c: `example_kobj` stands at 0, and `example_kobj1` at 1.
unfoldable init_init : (kobject_add kobject_init_and_add : Rv) → Loaded
init_init kobject_add kobject_init_and_add =
    let first = example_init_and_add kobject_add 0 in
    elim first.rv [
      | error e ↦ first
      | success ↦
          let second = example_init_and_add kobject_init_and_add 1 in
          record second { events = first.events ++ second.events }
    ]

unfoldable init_exit : List Event
init_exit = gives (shown 0) ∷ gives (shown 1) ∷ []

abbrev init_end : (kobject_add kobject_init_and_add : Rv) → Option (List (ℕ × ℕ))
init_end first second =
    let start = init_init first second in
    elim start.rv [
      | error e ↦ ledger start.events []
      | success ↦ ledger (start.events ++ init_exit) []
    ]

abbrev init_left : (kobject_add kobject_init_and_add : Rv) → List (ℕ × ℕ)
init_left (error e) second = kobject 0 ∷ []
init_left success (error e) = kobject 1 ∷ shown 0 ∷ kobject 0 ∷ []
init_left success success = kobject 1 ∷ kobject 0 ∷ []

-- The exit of the module takes both objects from sysfs and leaves their first references; where the
-- second cannot be added, the first stays in sysfs.
init_end_lem : (first second : Rv) → init_end first second ≡ some (init_left first second)
unfolding example_init_and_add init_init init_exit ledger give_back
init_end_lem (error e) second = refl
init_end_lem success (error e) = refl
init_end_lem success success = refl
