-- ===== src/Binder/Device.antt =====
-- `binder_open` and `binder_close` of binder/binder.c: what is taken from the system and given back.
use linux_labs.Prelude.{
  ℕ, ◌≡◌, refl, inl, inr, Bool, true, false, ◌&&◌, Option, none, some, List, [], ◌∷◌, ◌++◌, arith,
  if◌then◌else◌, Option-cases,
}
use linux_labs.Resources.{
  Res, Event, takes, gives, memory, descriptor, mapping, ledger, give_back, Res,
}

-- `struct binder_state` at the address `ptr`.
pub record BinderState : Type 0 where
  pub ptr : ℕ
  pub fd : ℕ
  pub mapped : ℕ
  pub mapsize : ℕ

-- What the system answers to the calls of `binder_open` in turn, `malloc`, `open`, `ioctl` and `mmap`: `none` is NULL, an error or
-- MAP_FAILED. `version_ok` says that the driver's version is had and is the expected one.
pub record Answers : Type 0 where
  pub malloc : Option ℕ
  pub opened_fd : Option ℕ
  pub version_ok : Bool
  pub mmap : Option ℕ

-- `binder_open`'s result with what was taken and given back.
pub record Opened : Type 0 where
  pub state : Option BinderState
  pub events : List Event

-- `mmap` and the label `fail_map`.
abbrev pub with_mapping : Option ℕ → (mapsize p fd : ℕ) → Opened
with_mapping none mapsize p fd = record {
  state = none;
  events = gives (descriptor fd) ∷ gives (memory p) ∷ [];
}
with_mapping (some a) mapsize p fd = record {
  state = some (record { ptr = p; fd = fd; mapped = a; mapsize = mapsize });
  events = takes (mapping a) ∷ [];
}

abbrev pub after_events : List Event → Opened → Opened
after_events es r = record r { events = es ++ r.events }

-- From `open` on; the label `fail_open` frees the structure only.
abbrev pub with_fd : Answers → Option ℕ → (mapsize p : ℕ) → Opened
with_fd k none mapsize p = record { state = none; events = gives (memory p) ∷ [] }
with_fd k (some fd) mapsize p = after_events (takes (descriptor fd) ∷ []) (
    if k.version_ok
    then with_mapping k.mmap mapsize p fd
    else record { state = none; events = gives (memory p) ∷ [] })

abbrev pub with_state : Answers → Option ℕ → (mapsize : ℕ) → Opened
with_state k none mapsize = record { state = none; events = [] }
with_state k (some p) mapsize =
    after_events (takes (memory p) ∷ []) (with_fd k k.opened_fd mapsize p)

unfoldable pub binder_open : Answers → (mapsize : ℕ) → Opened
binder_open k mapsize = with_state k k.malloc mapsize

unfoldable pub binder_close : BinderState → List Event
binder_close bs = gives (mapping bs.mapped) ∷ gives (descriptor bs.fd) ∷ gives (memory bs.ptr) ∷ []

-- What a failure leaves: the descriptor, where the device was opened and its version is another.
abbrev pub left_open : Answers → List Res
left_open k = elim k.malloc [
  | none ↦ []
  | some p ↦ elim k.opened_fd [
    | none ↦ []
    | some fd ↦ if k.version_ok then [] else descriptor fd ∷ []
  ]
]

-- After a failure `held` is still held; after a success nothing is, once `binder_close` is done.
abbrev pub Leaves : List Res → Opened → Type 0
Leaves held r = elim r.state [
  | none ↦ ledger r.events [] ≡ some held
  | some bs ↦ ledger (r.events ++ binder_close bs) [] ≡ some []
]

abbrev pub is_had : Option ℕ → Bool
is_had none = false
is_had (some n) = true

-- All that `binder_open` asks for is had.
abbrev pub is_all_had : Answers → Bool
is_all_had k = is_had k.malloc && is_had k.opened_fd && k.version_ok && is_had k.mmap

abbrev pub is_open : Opened → Bool
is_open r = elim r.state [ none ↦ false | some bs ↦ true ]

opened-Leaves :
    (p mapsize : ℕ) (fd a : Option ℕ) (version_ok : Bool)
    → let k : Answers = record {
      malloc = some p;
      opened_fd = fd;
      version_ok = version_ok;
      mmap = a;
    } in
      let r = binder_open k mapsize in (is_open r ≡ is_all_had k) × Leaves (left_open k) r
unfolding binder_open binder_close ledger give_back
opened-Leaves p mapsize none a ok = (refl, ground arith)
opened-Leaves p mapsize (some fd) a false = (refl, ground arith)
opened-Leaves p mapsize (some fd) none true = (refl, ground arith)
opened-Leaves p mapsize (some fd) (some a) true = (refl, ground arith)

-- `binder_open` succeeds exactly where memory, the device, its version and the mapping are had, and
-- `binder_close` then gives back all that it took, each once. Else it returns NULL and holds nothing,
-- but for the descriptor of a device of another version, which stays open.
pub binder_open-Leaves :
    (k : Answers) (mapsize : ℕ)
    → let r = binder_open k mapsize in (is_open r ≡ is_all_had k) × Leaves (left_open k) r
unfolding binder_open ledger
binder_open-Leaves k mapsize = elim (Option-cases k.malloc) [
  | inl no_memory ↦ rw no_memory (refl, refl)
  | inr (p, e) ↦ rw e (opened-Leaves p mapsize k.opened_fd k.mmap k.version_ok)
]

-- The limits of threads that the driver was told, one `ioctl` each, whose result nobody looks at.
unfoldable binder_set_maxthreads : (threads : ℕ) → List ℕ → List ℕ
binder_set_maxthreads threads told = told ++ threads ∷ []
