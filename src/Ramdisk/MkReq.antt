-- ===== src/Ramdisk/MkReq.antt =====
-- ramdisk-lab/ramhd_mkreq.c: `ramhd_make_request`, `ramhd_ioctl`, and how the module comes and goes.
pub mod Requests
pub mod Module
use linux_labs.Prelude.{
  ℕ, ◌+◌, ◌-◌, ◌*◌, ◌%◌, Bool, not, Option, none, some, List, [], ◌∷◌, ◌++◌, ltb, ◌==◌,
  if◌then◌else◌, ◌^◌,
}
use linux_labs.Memory.{Mem}
use linux_labs.Memory.Copy.{memcpy, memset}
use linux_labs.Ramdisk.Transfer.{Segment, buffer}
use linux_labs.Resources.{
  Rv, success, error, eio, enomem, is_error, Event, takes, gives, memory, area, queue, disk, blkdev,
  added_disk,
}

abbrev pub ramhd_sector_size : ℕ
ramhd_sector_size = 512

abbrev pub ramhd_sectors : ℕ
ramhd_sectors = 16

abbrev pub ramhd_heads : ℕ
ramhd_heads = 4

abbrev pub ramhd_cylinders : ℕ
ramhd_cylinders = 256

abbrev pub ramhd_sector_total : ℕ
ramhd_sector_total = ramhd_sectors * ramhd_heads * ramhd_cylinders

abbrev pub ramhd_size : ℕ
ramhd_size = ramhd_sector_size * ramhd_sector_total

-- The values of `sector_t`.
abbrev pub sector_mod : ℕ
sector_mod = 2 ^ 64

-- READ and WRITE of `bio_data_dir`.
abbrev pub dir_read : ℕ
dir_read = 0

abbrev pub dir_write : ℕ
dir_write = 1

-- A `bio` with the area of its device, `bd_disk->private_data->data`.
pub record Bio : Type 0 where
  pub area_ptr : ℕ
  pub bi_sector : ℕ
  pub bi_size : ℕ
  pub dir : ℕ
  pub segments : List Segment

-- The memory, the pages that are mapped now, and the results that `bio_endio` was given.
pub record Io : Type 0 where
  pub mem : Mem
  pub kmapped : ℕ
  pub ended : List Rv

abbrev pub with_mem : Mem → Io → Io
with_mem m io = record io { mem = m }

abbrev pub kmap : Io → Io
kmap io = record io { kmapped = io.kmapped + 1 }

abbrev pub kunmap : Io → Io
kunmap io = record io { kmapped = io.kmapped - 1 }

-- `bio_for_each_segment`, with `pRHdata` at `c`. A direction that is none leaves the loop.
unfoldable pub each_segment : (dir : ℕ) → List Segment → (c : ℕ) → Io → Io
each_segment dir [] c io = io
each_segment dir (s ∷ ss) c io =
    let after_read =
      each_segment dir ss (c + s.len)
        (kunmap (with_mem (memcpy (buffer s) c s.len io.mem) (kmap io))) in
    let after_write =
      each_segment dir ss (c + s.len)
        (kunmap (with_mem (memcpy c (buffer s) s.len io.mem) (kmap io))) in
    if dir == dir_read
    then after_read
    else if dir == dir_write
    then after_write
    else kunmap (kmap io)

abbrev pub is_beyond_end : Bio → Bool
is_beyond_end bio =
    ltb ramhd_size ((bio.bi_sector * ramhd_sector_size % sector_mod + bio.bi_size) % sector_mod)

abbrev pub bio_endio : Rv → Io → Io
bio_endio rv io = record io { ended = io.ended ++ rv ∷ [] }

unfoldable pub ramhd_make_request : Bio → Io → Io
ramhd_make_request bio io =
    if is_beyond_end bio
    then bio_endio eio io
    else bio_endio success (
        each_segment bio.dir bio.segments
          (bio.area_ptr + bio.bi_sector * ramhd_sector_size % sector_mod) io)

-- `struct hd_geometry`
pub record Geometry : Type 0 where
  pub heads : ℕ
  pub sectors : ℕ
  pub cylinders : ℕ
  pub start : ℕ

abbrev pub efault : Rv
efault = error 14

abbrev pub enotty : Rv
enotty = error 25

-- The result and what reached the caller. `hdio_getgeo` is the kernel's number of the command; whether
-- the caller's memory can be written, and whether the copy fails, is the kernel's answer.
unfoldable pub ramhd_ioctl :
    (hdio_getgeo start_sect : ℕ) → (access_ok copy_fails : Bool) → (cmd : ℕ) → Rv × Option Geometry
ramhd_ioctl hdio_getgeo start_sect access_ok copy_fails cmd =
    if cmd == hdio_getgeo
    then if not access_ok then (efault, none) else if copy_fails then (efault, none) else (
      success,
      some (record {
        heads = ramhd_heads;
        sectors = ramhd_sectors;
        cylinders = ramhd_cylinders;
        start = start_sect;
      }),
    )
    else (enotty, none)

-- What the kernel answers for one device: `none` is NULL.
pub record Answers : Type 0 where
  pub vmalloc : Option ℕ
  pub kzalloc : Option ℕ
  pub blk_alloc_queue : Option ℕ
  pub alloc_disk : Option ℕ

-- The result of a loop over the devices with the pointers that it stored, the memory and the events.
pub record Stored : Type 0 where
  pub rv : Rv
  pub ptrs : List (Option ℕ)
  pub mem : Mem
  pub events : List Event

abbrev pub no_ptrs : List Answers → List (Option ℕ)
no_ptrs [] = []
no_ptrs (k ∷ ks) = none ∷ no_ptrs ks

-- A failed `vmalloc` leaves at once: what was taken before stays taken.
unfoldable pub ramhd_space_init : List Answers → Mem → Stored
ramhd_space_init [] m = record { rv = success; ptrs = []; mem = m; events = [] }
ramhd_space_init (k ∷ ks) m = elim k.vmalloc [
  | none ↦ record { rv = enomem; ptrs = none ∷ no_ptrs ks; mem = m; events = [] }
  | some p ↦
      let r = ramhd_space_init ks (memset p 0 ramhd_size m) in
      record r { ptrs = some p ∷ r.ptrs; events = takes (area p) ∷ r.events }
]

unfoldable pub alloc_ramdev : List Answers → Mem → Stored
alloc_ramdev [] m = record { rv = success; ptrs = []; mem = m; events = [] }
alloc_ramdev (k ∷ ks) m = elim k.kzalloc [
  | none ↦ record { rv = enomem; ptrs = none ∷ no_ptrs ks; mem = m; events = [] }
  | some p ↦
      let r = alloc_ramdev ks m in
      record r { ptrs = some p ∷ r.ptrs; events = takes (memory p) ∷ r.events }
]

-- `vfree` and `kfree` of every pointer; NULL is let be.
unfoldable pub free_all : (ℕ → Event) → List (Option ℕ) → List Event
free_all give [] = []
free_all give (none ∷ ps) = free_all give ps
free_all give (some p ∷ ps) = give p ∷ free_all give ps

unfoldable pub ramhd_space_clean : List (Option ℕ) → List Event
unfolding free_all
ramhd_space_clean ps = free_all (λ p. gives (area p)) ps

unfoldable pub clean_ramdev : List (Option ℕ) → List Event
unfolding free_all
clean_ramdev ps = free_all (λ p. gives (memory p)) ps

-- A device that is set up: its queue and its disk.
abbrev pub Pair : Type 0
Pair = ℕ × ℕ

-- The body of the loop of `ramhd_init` for one device: `none` is the use of a NULL pointer.
abbrev pub set_up : Answers → Option ℕ → Option (Pair × List Event)
set_up k none = none
set_up k (some dev) = elim k.blk_alloc_queue [
  | none ↦ none
  | some q ↦ elim k.alloc_disk [
    | none ↦ none
    | some d ↦ some ((q, d), takes (queue q) ∷ takes (disk d) ∷ takes (added_disk d) ∷ [])
  ]
]

unfoldable pub set_up_all : List Answers → List (Option ℕ) → Option (List Pair × List Event)
set_up_all [] rdev = some ([], [])
set_up_all (k ∷ ks) [] = none
set_up_all (k ∷ ks) (p ∷ rdev) =
    let rest = set_up_all ks rdev in
    elim (set_up k p) [
      | none ↦ none
      | some (dev, es) ↦ elim rest [ none ↦ none | some (devs, fs) ↦ some (dev ∷ devs, es ++ fs) ]
    ]

-- What a start leaves.
pub record Loaded : Type 0 where
  pub rv : Rv
  pub sdisk : List (Option ℕ)
  pub rdev : List (Option ℕ)
  pub devs : List Pair
  pub mem : Mem
  pub events : List Event

-- `ramhd_init`: the results of `alloc_ramdev` and `register_blkdev` are not looked at. `none` is the
-- use of a NULL pointer.
unfoldable pub ramhd_init : List Answers → (major : ℕ) → Mem → Option Loaded
ramhd_init ks major m =
    let s = ramhd_space_init ks m in
    let r = alloc_ramdev ks s.mem in
    if is_error s.rv
    then some (record {
      rv = s.rv;
      sdisk = s.ptrs;
      rdev = no_ptrs ks;
      devs = [];
      mem = s.mem;
      events = s.events;
    })
    else elim (set_up_all ks r.ptrs) [
      | none ↦ none
      | some (devs, es) ↦ some (record {
        rv = success;
        sdisk = s.ptrs;
        rdev = r.ptrs;
        devs = devs;
        mem = s.mem;
        events = s.events ++ r.events ++ takes (blkdev major) ∷ es;
      })
    ]

unfoldable pub take_down : List Pair → List Event
take_down [] = []
take_down ((q, d) ∷ devs) = gives (added_disk d) ∷ gives (disk d) ∷ gives (queue q) ∷ take_down devs

unfoldable pub ramhd_exit : (major : ℕ) → Loaded → List Event
unfolding take_down ramhd_space_clean clean_ramdev
ramhd_exit major l =
    take_down l.devs
    ++ clean_ramdev l.rdev
    ++ ramhd_space_clean l.sdisk
    ++ gives (blkdev major) ∷ []
