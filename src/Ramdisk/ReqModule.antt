-- ===== src/Ramdisk/ReqModule.antt =====
-- How the module of ramdisk-lab/ramhd_req.c comes and goes: `ramhd_init` looks at no result.
use linux_labs.Prelude.{
  ℕ, ◌≡◌, refl, ◌≢◌, Option, none, some, List, [], ◌∷◌, ◌++◌, arith, map, Bool,
}
use linux_labs.Memory.{Mem}
use linux_labs.Resources.{
  Rv, success, Event, takes, gives, queue, disk, blkdev, added_disk, ledger, give_back,
}
use linux_labs.Ramdisk.MkReq as MkReq
use linux_labs.Ramdisk.MkReq.{Stored}

-- What the kernel answers for one device: `none` is NULL.
pub record Answers : Type 0 where
  pub vmalloc : Option ℕ
  pub kzalloc : Option ℕ
  pub alloc_disk : Option ℕ
  pub blk_init_queue : Option ℕ

-- The answers that the first two loops, which are written as those of ramhd_mkreq.c, look at.
abbrev storage : Answers → MkReq.Answers
storage k = record {
  vmalloc = k.vmalloc;
  kzalloc = k.kzalloc;
  blk_alloc_queue = k.blk_init_queue;
  alloc_disk = k.alloc_disk;
}

unfoldable pub ramhd_space_init : List Answers → Mem → Stored
ramhd_space_init ks m = MkReq.ramhd_space_init (map storage ks) m

unfoldable pub alloc_ramdev : List Answers → Mem → Stored
alloc_ramdev ks m = MkReq.alloc_ramdev (map storage ks) m

-- `RAMHD_DEV`: its `data`, `queue` and `gd`.
pub record RamDev : Type 0 where
  pub area_ptr : Option ℕ
  pub queue_ptr : Option ℕ
  pub disk_ptr : ℕ

abbrev queue_taken : Option ℕ → List Event
queue_taken none = []
queue_taken (some q) = takes (queue q) ∷ []

-- The body of the loop for one device: `none` is the use of a NULL pointer.
abbrev pub set_up : Answers → (sdisk rdev : Option ℕ) → Option (RamDev × List Event)
set_up k sdisk none = none
set_up k sdisk (some dev) = elim k.alloc_disk [
  | none ↦ none
  | some d ↦ some (
    record { area_ptr = sdisk; queue_ptr = k.blk_init_queue; disk_ptr = d },
    takes (disk d) ∷ (queue_taken k.blk_init_queue ++ takes (added_disk d) ∷ []),
  )
]

unfoldable pub set_up_all :
    List Answers → (sdisk rdev : List (Option ℕ)) → Option (List RamDev × List Event)
set_up_all [] sdisk rdev = some ([], [])
set_up_all (k ∷ ks) [] rdev = none
set_up_all (k ∷ ks) (a ∷ sdisk) [] = none
set_up_all (k ∷ ks) (a ∷ sdisk) (p ∷ rdev) =
    let rest = set_up_all ks sdisk rdev in
    elim (set_up k a p) [
      | none ↦ none
      | some (dev, es) ↦ elim rest [ none ↦ none | some (devs, fs) ↦ some (dev ∷ devs, es ++ fs) ]
    ]

pub record Loaded : Type 0 where
  pub rv : Rv
  pub sdisk : List (Option ℕ)
  pub rdev : List (Option ℕ)
  pub devs : List RamDev
  pub mem : Mem
  pub events : List Event

unfoldable pub ramhd_init : List Answers → (major : ℕ) → Mem → Option Loaded
unfolding ramhd_space_init alloc_ramdev
ramhd_init ks major m =
    let s = ramhd_space_init ks m in
    let r = alloc_ramdev ks s.mem in
    elim (set_up_all ks s.ptrs r.ptrs) [
      | none ↦ none
      | some (devs, es) ↦ some (record {
        rv = success;
        sdisk = s.ptrs;
        rdev = r.ptrs;
        devs = devs;
        mem = s.mem;
        events = s.events ++ r.events ++ takes (blkdev major) ∷ es;
      })
    ]

abbrev queue_given : Option ℕ → List Event
queue_given none = []
queue_given (some q) = gives (queue q) ∷ []

unfoldable pub take_down : List RamDev → List Event
take_down [] = []
take_down (dev ∷ devs) =
    gives (added_disk dev.disk_ptr)
    ∷ gives (disk dev.disk_ptr)
    ∷ (queue_given dev.queue_ptr ++ take_down devs)

unfoldable pub ramhd_space_clean : (sdisk : List (Option ℕ)) → List Event
ramhd_space_clean sdisk = MkReq.ramhd_space_clean sdisk

unfoldable pub clean_ramdev : (rdev : List (Option ℕ)) → List Event
clean_ramdev rdev = MkReq.clean_ramdev rdev

-- Word for word that of ramhd_mkreq.c.
unfoldable pub ramhd_ioctl :
    (hdio_getgeo start_sect : ℕ)
    → (access_ok copy_fails : Bool) → (cmd : ℕ) → Rv × Option MkReq.Geometry
ramhd_ioctl hdio_getgeo start_sect access_ok copy_fails cmd =
    MkReq.ramhd_ioctl hdio_getgeo start_sect access_ok copy_fails cmd

unfoldable pub ramhd_exit : (major : ℕ) → Loaded → List Event
ramhd_exit major l =
    take_down l.devs ++ gives (blkdev major) ∷ (clean_ramdev l.rdev ++ ramhd_space_clean l.sdisk)

abbrev pub all_given : (a p q d : ℕ) → Answers
all_given a p q d = record {
  vmalloc = some a;
  kzalloc = some p;
  alloc_disk = some d;
  blk_init_queue = some q;
}

-- With both devices given all that is asked for, at addresses that differ, `ramhd_init` returns 0 and
-- `ramhd_exit` gives back all that was taken, each once.
pub req_init-exit :
    (a p q d a2 p2 q2 d2 major : ℕ) (m : Mem)
    → (a ≢ a2) × (p ≢ p2) × (q ≢ q2) × (d ≢ d2)
    → (l : Loaded) × (ramhd_init (all_given a p q d ∷ all_given a2 p2 q2 d2 ∷ []) major m ≡ some l)
      × (l.rv ≡ success)
      × (ledger (l.events ++ ramhd_exit major l) [] ≡ some [])
unfolding ramhd_init MkReq.ramhd_space_init MkReq.alloc_ramdev set_up_all ramhd_exit MkReq.free_all
    take_down clean_ramdev ramhd_space_clean MkReq.clean_ramdev MkReq.ramhd_space_clean ledger
    give_back
req_init-exit a p q d a2 p2 q2 d2 major m differ = (_, refl, refl, ground arith)

-- The kernel gives a device all but its area.
abbrev pub no_area : (p : ℕ) → Option ℕ → (d : ℕ) → Answers
no_area p q d = record { vmalloc = none; kzalloc = some p; alloc_disk = some d; blk_init_queue = q }

-- Where `vmalloc` fails for the first device and the kernel gives the structures and disks that are
-- asked for, `ramhd_init` returns 0 all the same, and both devices are public with NULL for their area.
pub req_init_null_area :
    (p : ℕ) (q : Option ℕ) (d p2 : ℕ) (a2 q2 : Option ℕ) (d2 major : ℕ) (m : Mem)
    → (l : Loaded) × (ramhd_init
          (no_area p q d
            ∷ record { vmalloc = a2; kzalloc = some p2; alloc_disk = some d2; blk_init_queue = q2 }
            ∷ [])
          major
          m
        ≡ some l)
      × (l.rv ≡ success)
      × (map (λ (dev : RamDev). dev.area_ptr) l.devs ≡ none ∷ none ∷ [])
unfolding ramhd_init MkReq.ramhd_space_init MkReq.alloc_ramdev set_up_all
req_init_null_area p q d p2 a2 q2 d2 major m = (_, refl, refl, refl)
