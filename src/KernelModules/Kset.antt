-- ===== src/KernelModules/Kset.antt =====
-- kobject-example/kset_init_register/kset.c: the attribute of the child, and the start and exit of the
-- module.
pub mod Laws
use linux_labs.Prelude.{
  ℕ, zero, suc, ◌+◌, ◌-◌, ◌*◌, ◌/◌, ◌%◌, ◌≤◌, ◌<◌, ◌≡◌, refl, sym, ap, ◌∙◌, ◌≢◌, ◌⊎◌, inl, inr,
  Bool, true, false, not, ◌&&◌, ◌||◌, Option, none, some, List, [], ◌∷◌, ◌++◌, arith, ltb, leb,
  ◌==◌, if◌then◌else◌, length, Bool-cases, ◌^◌,
}
use linux_labs.Resources.{
  Res, Event, takes, gives, memory, kobject, shown, sysfs_file, kset, Rv, success, error,
}

-- The actions of `kobject_uevent`.
pub data Uevent : Type 0 where
  kobj_add kobj_remove kobj_change kobj_move kobj_online kobj_offline : Uevent

-- The value of a `char`, which has a sign, as an `unsigned long` of 64 bits.
abbrev pub char_value : ℕ → ℕ
char_value c = if ltb c 128 then c else (c + 2 ^ 64 - 256)

-- The switch on `flag`.
unfoldable pub on_flag : ℕ → Option Uevent
on_flag flag =
    if flag == 0
    then some kobj_add
    else if flag == 1
    then some kobj_remove
    else if flag == 2
    then some kobj_change
    else if flag == 3
    then some kobj_move
    else if flag == 4
    then some kobj_online
    else if flag == 5
    then some kobj_offline
    else none

-- The result is `count`, the new `flag`, and the event that is sent. `c` is the byte `buf[0]`.
unfoldable pub child_attr_store : (c count flag : ℕ) → ℕ × ℕ × Option Uevent
child_attr_store c count flag =
    let flag1 = (char_value c + 2 ^ 64 - 48) % 2 ^ 64 in (count, flag1, on_flag flag1)

-- `print_lu` is what `sprintf` writes for `%lu`.
unfoldable pub child_attr_show : (print_lu : ℕ → List ℕ) → (flag : ℕ) → ℕ × List ℕ
child_attr_show print_lu flag = let buf = print_lu flag ++ 10 ∷ [] in (length buf, buf)

-- What the kernel answers to the calls of `example_init` in turn: `none` is NULL.
pub record Answers : Type 0 where
  pub kset_create_and_add : Option ℕ
  pub kobject_create_and_add : Option ℕ
  pub kzalloc : Option ℕ
  pub kobject_init_and_add : Rv
  pub sysfs_create_file : Rv

-- The static pointers of the module.
pub record Statics : Type 0 where
  pub example_kset : Option ℕ
  pub parent : Option ℕ
  pub child : Option ℕ

pub record Started : Type 0 where
  pub rv : Rv
  pub statics : Statics
  pub events : List Event

abbrev pub after : List Event → Option Started → Option Started
after es none = none
after es (some r) = some (record r { events = es ++ r.events })

-- `sysfs_create_file`.
abbrev pub with_child : Statics → (c : ℕ) → Rv → Option Started
with_child st c success =
    some (record { rv = success; statics = st; events = takes (sysfs_file c) ∷ [] })
with_child st c (error e) = some (record { rv = error e; statics = st; events = [] })

-- `kobject_init_and_add`: the child has its reference also where it could not be added.
abbrev pub add_child : Answers → Statics → (c : ℕ) → Rv → Option Started
add_child k st c success =
    after (takes (kobject c) ∷ takes (shown c) ∷ []) (with_child st c k.sysfs_create_file)
add_child k st c (error e) =
    some (record { rv = error e; statics = st; events = takes (kobject c) ∷ [] })

-- From `kzalloc` on: `none` where NULL is handed to `kobject_init_and_add`.
abbrev pub with_parent : Answers → (e p : ℕ) → Option ℕ → Option Started
with_parent k e p none = none
with_parent k e p (some c) = after (takes (memory c) ∷ []) (
    add_child k (record { example_kset = some e; parent = some p; child = some c }) c
      k.kobject_init_and_add)

abbrev pub with_kset : Answers → (e : ℕ) → Option ℕ → Option Started
with_kset k e none = some (record {
  rv = error 1;
  statics = record { example_kset = some e; parent = none; child = none };
  events = [];
})
with_kset k e (some p) =
    after (takes (kobject p) ∷ takes (shown p) ∷ []) (with_parent k e p k.kzalloc)

abbrev pub on_kset : Answers → Option ℕ → Option Started
on_kset k none = some (record {
  rv = error 1;
  statics = record { example_kset = none; parent = none; child = none };
  events = [];
})
on_kset k (some e) = after (takes (kset e) ∷ []) (with_kset k e k.kobject_create_and_add)

unfoldable pub example_init : Answers → Option Started
example_init k = on_kset k k.kset_create_and_add

-- A call on a pointer that is tested for NULL.
abbrev pub if_had : (ℕ → Res) → Option ℕ → List Event
if_had f none = []
if_had f (some p) = gives (f p) ∷ []

-- `none` where NULL is handed to `sysfs_remove_file`.
unfoldable pub example_exit : Statics → Option (List Event)
example_exit st = elim st.child [
  | none ↦ none
  | some c ↦ some (
      (gives (sysfs_file c) ∷ if_had shown st.child)
      ++ if_had shown st.parent
      ++ if_had kset st.example_kset)
]
