-- ===== src/Resources.antt =====
-- What a kernel module takes from the kernel and gives back, in order: for the init and exit paths of
-- the modules. A resource is a kind and an address or number.
use linux_labs.Prelude.{
  refl, ℕ, ◌+◌, ◌≡◌, Bool, true, false, ◌&&◌, Option, none, some, List, [], ◌∷◌, ◌++◌, arith, ◌==◌,
  if◌then◌else◌, Option-cases, inl, inr,
}

abbrev pub Res : Type 0
Res = ℕ × ℕ

-- `kmalloc` and `kzalloc`, `vmalloc`, request queues, disks and block device numbers.
abbrev pub memory : ℕ → Res
memory p = (0, p)

abbrev pub area : ℕ → Res
area p = (1, p)

abbrev pub queue : ℕ → Res
queue p = (2, p)

abbrev pub disk : ℕ → Res
disk p = (3, p)

abbrev pub blkdev : ℕ → Res
blkdev n = (4, n)

-- A disk that `add_disk` made public, until `del_gendisk`.
abbrev pub added_disk : ℕ → Res
added_disk p = (5, p)

-- Descriptors of open files, and mappings of a process.
abbrev pub descriptor : ℕ → Res
descriptor n = (6, n)

abbrev pub mapping : ℕ → Res
mapping p = (7, p)

-- A kobject's first reference, until `kobject_put`; its entry in sysfs, until `kobject_del`; a file of
-- it in sysfs; a kset, until `kset_unregister`.
abbrev pub kobject : ℕ → Res
kobject p = (8, p)

abbrev pub shown : ℕ → Res
shown p = (9, p)

abbrev pub sysfs_file : ℕ → Res
sysfs_file p = (10, p)

abbrev pub kset : ℕ → Res
kset p = (11, p)

-- A device's first reference, until `put_device`; its entry in sysfs, until `device_del`; a class.
abbrev pub device : ℕ → Res
device p = (12, p)

abbrev pub added_device : ℕ → Res
added_device p = (13, p)

abbrev pub class : ℕ → Res
class p = (14, p)

-- Numbers of character devices, and character devices that are in the system, until `cdev_del`.
abbrev pub region : ℕ → Res
region n = (15, n)

abbrev pub added_cdev : ℕ → Res
added_cdev p = (16, p)

-- Entries of debugfs, sysctl tables, entries of /proc, probes of a tracepoint, armed timers.
abbrev pub dentry : ℕ → Res
dentry p = (17, p)

abbrev pub table : ℕ → Res
table p = (18, p)

abbrev pub proc_entry : ℕ → Res
proc_entry p = (19, p)

abbrev pub probe : ℕ → Res
probe p = (20, p)

abbrev pub timer : ℕ → Res
timer p = (21, p)

pub data Event : Type 0 where
  takes gives : Res → Event

abbrev pub is_res : Res → Res → Bool
is_res r s = (r.0 == s.0) && (r.1 == s.1)

-- Gives one resource back: `none` where it is not held.
unfoldable pub give_back : Res → List Res → Option (List Res)
give_back r [] = none
give_back r (s ∷ rest) =
    let more = give_back r rest in
    if is_res r s then some rest else elim more [ none ↦ none | some l ↦ some (s ∷ l) ]

-- What is held after the events: `none` where something is given back that is not held, such as a
-- second `kfree`.
unfoldable pub ledger : List Event → List Res → Option (List Res)
ledger [] held = some held
ledger (takes r ∷ es) held = ledger es (r ∷ held)
ledger (gives r ∷ es) held = elim (give_back r held) [ none ↦ none | some l ↦ ledger es l ]

-- The kernel's error results, as 0 or a positive errno whose negative is returned.
pub data Rv : Type 0 where
  success : Rv
  error : ℕ → Rv

abbrev pub eio : Rv
eio = error 5

abbrev pub enomem : Rv
enomem = error 12

abbrev pub is_error : Rv → Bool
is_error success = false
is_error (error e) = true

abbrev pub one_if : Bool → ℕ
one_if true = 1
one_if false = 0

-- How often a resource was taken, and given back.
unfoldable pub taken : Res → List Event → ℕ
taken r [] = 0
taken r (takes s ∷ es) = one_if (is_res r s) + taken r es
taken r (gives s ∷ es) = taken r es

unfoldable pub given : Res → List Event → ℕ
given r [] = 0
given r (takes s ∷ es) = given r es
given r (gives s ∷ es) = one_if (is_res r s) + given r es

pub taken-append : (r : Res) (es fs : List Event) → taken r (es ++ fs) ≡ taken r es + taken r fs
unfolding taken
taken-append r [] fs = omega arith
taken-append r (takes s ∷ es) fs = omega (arith, taken-append r es fs)
taken-append r (gives s ∷ es) fs = taken-append r es fs

pub given-append : (r : Res) (es fs : List Event) → given r (es ++ fs) ≡ given r es + given r fs
unfolding given
given-append r [] fs = omega arith
given-append r (takes s ∷ es) fs = given-append r es fs
given-append r (gives s ∷ es) fs = omega (arith, given-append r es fs)

-- What is held after more events.
abbrev pub then_ledger : List Event → Option (List Res) → Option (List Res)
then_ledger fs none = none
then_ledger fs (some l) = ledger fs l

pub ledger-append :
    (es fs : List Event) (held : List Res)
    → ledger (es ++ fs) held ≡ then_ledger fs (ledger es held)
unfolding ledger
ledger-append [] fs held = refl
ledger-append (takes r ∷ es) fs held = ledger-append es fs (r ∷ held)
ledger-append (gives r ∷ es) fs held = elim (Option-cases (give_back r held)) [
  | inl missing ↦ rw (ledger, missing) refl
  | inr (l, e) ↦ rw (ledger, e) (ledger-append es fs l)
]
