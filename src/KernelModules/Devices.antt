-- ===== src/KernelModules/Devices.antt =====
-- The device demos: device-demo/device_class/device_demo.c, and the ones with a single device,
-- device-demo/device_init_and_add/device_demo.c and device-demo/device_register/device_demo.c.
use linux_labs.Prelude.{
  ℕ, ◌+◌, ◌<◌, ◌≡◌, refl, ◌∙◌, inl, inr, Bool, true, false, not, ◌&&◌, Option, none, some, List, [],
  ◌∷◌, ◌++◌, arith, ◌==◌, if◌then◌else◌, Bool-cases, codes, ==_iff,
}
use linux_labs.KernelModules.{Loaded}
use linux_labs.Resources.{
  Event, takes, gives, device, added_device, class, Rv, success, error, taken, given, taken-append,
  one_if, is_error,
}
use mathlib.Core.Path.{ap₂}

-- A static `struct device`, which stands at `ptr`, with what `device_demo_init_and_add` sets in it.
pub record Device : Type 0 where
  pub ptr : ℕ
  pub init_name : List ℕ
  pub parent : Option ℕ
  pub class : Option ℕ

-- `device_demo_init_and_add`, of which the device is given with its settings: `device_initialize`, and
-- `device_add` with its answer.
unfoldable pub device_demo_init_and_add : Device → Rv → Loaded
device_demo_init_and_add dev success = record {
  rv = success;
  events = takes (device dev.ptr) ∷ takes (added_device dev.ptr) ∷ [];
}
device_demo_init_and_add dev (error e) = record {
  rv = error e;
  events = takes (device dev.ptr) ∷ [];
}

-- The devices of device_class, in the order in which they are added, with `dev_demo` at 0.
abbrev pub devices : (class_demo : ℕ) → List Device
devices cls =
    record { ptr = 0; init_name = codes "dev-demo"; parent = none; class = none }
    ∷ record { ptr = 1; init_name = codes "dev-demo_noClass-noParent"; parent = none; class = none }
    ∷ record { ptr = 2; init_name = codes "dev-demo_parent"; parent = some 0; class = none }
    ∷ record { ptr = 3; init_name = codes "dev-demo_class"; parent = none; class = some cls }
    ∷ record {
      ptr = 4;
      init_name = codes "dev-demo_class-parent";
      parent = some 0;
      class = some cls;
    }
    ∷ []

-- The results are not looked at. `device_add` answers for the device at an address.
unfoldable pub add_each : (device_add : ℕ → Rv) → List Device → List Event
add_each device_add [] = []
add_each device_add (dev ∷ rest) =
    (device_demo_init_and_add dev (device_add dev.ptr)).events ++ add_each device_add rest

-- `class_create` answers with a pointer: NULL is `none`.
unfoldable pub class_init : (class_create : Option ℕ) → (device_add : ℕ → Rv) → Loaded
class_init none device_add = record { rv = error 1; events = [] }
class_init (some cls) device_add = record {
  rv = success;
  events = takes (class cls) ∷ add_each device_add (devices cls);
}

unfoldable pub class_exit : (class_demo : ℕ) → List Event
class_exit cls =
    gives (added_device 0)
    ∷ gives (added_device 1)
    ∷ gives (added_device 2)
    ∷ gives (added_device 3)
    ∷ gives (added_device 4)
    ∷ gives (class cls)
    ∷ []

-- `device_demo_init` of device_init_and_add and of device_register, where `device_register` is
-- `device_initialize` and `device_add`.
unfoldable pub single_init : (device_add : Rv) → Loaded
single_init device_add =
    let r =
      device_demo_init_and_add
        (record { ptr = 0; init_name = codes "dev-demo"; parent = none; class = none })
        device_add in
    record { rv = success; events = r.events }

unfoldable pub single_exit : List Event
single_exit = gives (added_device 0) ∷ []

-- How often a device stands in a list.
abbrev pub stands : ℕ → List Device → ℕ
stands p [] = 0
stands p (dev ∷ rest) = one_if (dev.ptr == p) + stands p rest

one_device-taken :
    (dev : Device) (a : Rv) (p : ℕ)
    → let es = (device_demo_init_and_add dev a).events in
      (taken (added_device p) es ≡ one_if ((dev.ptr == p) && not (is_error a)))
      × (taken (device p) es ≡ one_if (dev.ptr == p))
unfolding device_demo_init_and_add taken
one_device-taken dev success p = ground arith
one_device-taken dev (error e) p = ground arith

-- How many of the devices at `p` are added.
abbrev pub added_of : (device_add : ℕ → Rv) → ℕ → ℕ → ℕ
added_of device_add p n = if is_error (device_add p) then 0 else n

one_if-and_not : (b c : Bool) → one_if (b && not c) ≡ (if c then 0 else one_if b)
one_if-and_not true true = refl
one_if-and_not true false = refl
one_if-and_not false true = refl
one_if-and_not false false = refl

answer_of :
    (device_add : ℕ → Rv) (p q : ℕ)
    → one_if ((q == p) && not (is_error (device_add q))) ≡ added_of device_add p (one_if (q == p))
answer_of device_add p q = elim (Bool-cases (q == p)) [
  | inl same ↦ rw ((==_iff q p).0 same) (one_if-and_not (p == p) (is_error (device_add p)))
  | inr other ↦ ground (arith, other)
]

added_of-add :
    (device_add : ℕ → Rv) (p m n : ℕ)
    → added_of device_add p m + added_of device_add p n ≡ added_of device_add p (m + n)
added_of-add device_add p m n = ground arith

add_each-taken :
    (device_add : ℕ → Rv) (p : ℕ) (ds : List Device)
    → let es = add_each device_add ds in
      (taken (added_device p) es ≡ added_of device_add p (stands p ds))
      × (taken (device p) es ≡ stands p ds)
unfolding add_each taken
add_each-taken device_add p [] = (ground arith, refl)
add_each-taken device_add p (dev ∷ rest) =
    let es = (device_demo_init_and_add dev (device_add dev.ptr)).events in
    let fs = add_each device_add rest in
    let (one, one') = one_device-taken dev (device_add dev.ptr) p in
    let (more, more') = add_each-taken device_add p rest in
    (
      taken-append (added_device p) es fs
          ∙ ap₂ (λ (a b : ℕ). a + b) (one ∙ answer_of device_add p dev.ptr) more
          ∙ added_of-add device_add p (one_if (dev.ptr == p)) (stands p rest),
      taken-append (device p) es fs ∙ ap₂ (λ (a b : ℕ). a + b) one' more',
    )

one_device-class :
    (dev : Device) (a : Rv) (cls : ℕ)
    → taken (class cls) (device_demo_init_and_add dev a).events ≡ 0
unfolding device_demo_init_and_add taken
one_device-class dev success cls = refl
one_device-class dev (error e) cls = refl

add_each-class :
    (device_add : ℕ → Rv) (cls : ℕ) (ds : List Device)
    → taken (class cls) (add_each device_add ds) ≡ 0
unfolding add_each taken
add_each-class device_add cls [] = refl
add_each-class device_add cls (dev ∷ rest) =
    taken-append (class cls) (device_demo_init_and_add dev (device_add dev.ptr)).events
      (add_each device_add rest)
    ∙ ap₂ (λ (a b : ℕ). a + b) (one_device-class dev (device_add dev.ptr) cls)
        (add_each-class device_add cls rest)

each_stands : (cls p : ℕ) → p < 5 → stands p (devices cls) ≡ 1
each_stands cls p small = ground arith

class_exit-given :
    (cls p : ℕ)
    → p < 5
    → (given (added_device p) (class_exit cls) ≡ 1)
      × (given (device p) (class_exit cls) ≡ 0)
      × (given (class cls) (class_exit cls) ≡ 1)
unfolding class_exit given
class_exit-given cls p small = (ground arith, ground arith, ground arith)

-- Once there is a class the start succeeds, whatever becomes of the devices: each of the five gets its
-- first reference, which is never given back; the exit deletes each once, added or not, and destroys
-- the class.
pub class_init-exit :
    (cls : ℕ) (device_add : ℕ → Rv) (p : ℕ)
    → p < 5
    → let r = class_init (some cls) device_add in
      let es = class_exit cls in
      (r.rv ≡ success)
      × (taken (added_device p) r.events ≡ one_if (not (is_error (device_add p))))
      × (given (added_device p) es ≡ 1)
      × (taken (device p) r.events ≡ 1)
      × (given (device p) es ≡ 0)
      × (taken (class cls) r.events ≡ given (class cls) es)
unfolding class_init taken
class_init-exit cls device_add p small =
    let (is_added, is_had) = add_each-taken device_add p (devices cls) in
    let once = each_stands cls p small in
    let (del, put, destroyed) = class_exit-given cls p small in
    (
      refl,
      ground (arith, is_added, once),
      del,
      omega (arith, is_had, once),
      put,
      ground (arith, add_each-class device_add cls (devices cls), destroyed),
    )
