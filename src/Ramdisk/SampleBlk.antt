-- ===== src/Ramdisk/SampleBlk.antt =====
-- ramdisk-lab/sample_blk.c: the request function, and how the module comes and goes.
pub mod Requests
pub mod Disk
pub mod Module
use linux_labs.Prelude.{
  ℕ, ◌+◌, ◌-◌, ◌*◌, ◌%◌, ◌⊎◌, inl, inr, Bool, true, false, Option, none, some, List, [], ◌∷◌, ◌++◌,
  ltb, ◌==◌, if◌then◌else◌, ◌^◌,
}
use linux_labs.Memory.{Mem}
use linux_labs.Memory.Copy.{memcpy}
use linux_labs.Ramdisk.Transfer.{Segment, buffer}
use linux_labs.Resources.{
  Rv, success, eio, enomem, is_error, Event, takes, gives, memory, area, queue, disk, blkdev,
  added_disk,
}

abbrev pub sampleblk_sect_size : ℕ
sampleblk_sect_size = 512

abbrev pub sampleblk_nsects : ℕ
sampleblk_nsects = 100 * 1024

abbrev pub sampleblk_minor : ℕ
sampleblk_minor = 1

-- The values of `uint64_t`.
abbrev pub word64 : ℕ
word64 = 2 ^ 64

-- `struct sampleblk_dev` at the address `ptr`. Its lock is part of `Io`.
pub record Dev : Type 0 where
  pub ptr : ℕ
  pub minor : ℕ
  pub queue_ptr : ℕ
  pub disk_ptr : ℕ
  pub size : ℕ
  pub area_ptr : ℕ

-- What the block layer says of a request: `rq_disk->private_data`, `blk_rq_pos`, `blk_rq_bytes`,
-- `rq_data_dir` and the segments.
pub record Request : Type 0 where
  pub owner : ℕ
  pub sector : ℕ
  pub nbytes : ℕ
  pub is_write : Bool
  pub segments : List Segment

-- The memory, whether the queue's lock is held, the pages that are mapped now, and the results with
-- which requests were ended.
pub record Io : Type 0 where
  pub mem : Mem
  pub is_locked : Bool
  pub kmapped : ℕ
  pub ended : List Rv

unfoldable pub sampleblk_handle_io : Dev → (pos size buf : ℕ) → (is_write : Bool) → Mem → Rv × Mem
sampleblk_handle_io dev pos size buf is_write m =
    if is_write
    then (success, memcpy (dev.area_ptr + pos) buf size m)
    else (success, memcpy buf (dev.area_ptr + pos) size m)

abbrev pub kmap : Io → Io
kmap io = record io { kmapped = io.kmapped + 1 }

abbrev pub kunmap : Io → Io
kunmap io = record io { kmapped = io.kmapped - 1 }

-- `rq_for_each_segment`, from the position `pos`. A failed segment leaves the loop before `kunmap`.
unfoldable pub each_segment : Dev → Bool → List Segment → (pos : ℕ) → Rv → Io → Rv × Io
each_segment dev is_write [] pos rv io = (rv, io)
each_segment dev is_write (s ∷ ss) pos rv io =
    let (rv1, m) = sampleblk_handle_io dev pos s.len (buffer s) is_write io.mem in
    let io1 = record (kmap io) { mem = m } in
    let rest = each_segment dev is_write ss ((pos + s.len) % word64) rv1 (kunmap io1) in
    if is_error rv1 then (rv1, io1) else rest

-- `pos + size > sampleblk_dev->size`, on `uint64_t`.
abbrev pub is_beyond_end : Dev → Request → Bool
is_beyond_end dev rq =
    ltb dev.size ((rq.sector * sampleblk_sect_size % word64 + rq.nbytes) % word64)

abbrev pub end_request : Rv × Io → Rv × Io
end_request (rv, io) = (rv, record io { ended = io.ended ++ rv ∷ []; is_locked = true })

-- One round of the loop. `rv` is what the last round left.
unfoldable pub one_request : Dev → Request → Rv × Io → Rv × Io
one_request dev rq (rv, io) =
    let io1 = record io { is_locked = false } in
    end_request (
      if is_beyond_end dev rq
      then (eio, io1)
      else each_segment dev rq.is_write rq.segments (rq.sector * sampleblk_sect_size % word64) rv
          io1)

-- The loop over what `blk_fetch_request` returns: `none` is the stop by `BUG_ON`.
unfoldable pub each_request : Dev → List Request → Rv × Io → Option (Rv × Io)
each_request dev [] st = some st
each_request dev (rq ∷ rqs) st =
    let rest = each_request dev rqs (one_request dev rq st) in
    if rq.owner == dev.ptr then rest else none

unfoldable pub sampleblk_request : Dev → List Request → Io → Option (Rv × Io)
sampleblk_request dev rqs io = each_request dev rqs (success, io)

-- What the kernel answers to the calls of `sampleblk_alloc` in turn: `none` is NULL.
pub record Answers : Type 0 where
  pub kzalloc : Option ℕ
  pub vmalloc : Option ℕ
  pub blk_init_queue : Option ℕ
  pub alloc_disk : Option ℕ

-- The result, the pointer `sampleblk_dev` with what it points to, and what was taken and given back.
pub record Alloced : Type 0 where
  pub rv : Rv
  pub dev : Option Dev
  pub events : List Event

abbrev pub finish : Option ℕ → Dev → Alloced
finish none dev = record {
  rv = enomem;
  dev = some dev;
  events = gives (queue dev.queue_ptr) ∷ gives (area dev.area_ptr) ∷ gives (memory dev.ptr) ∷ [];
}
finish (some d) dev = record {
  rv = success;
  dev = some (record dev { disk_ptr = d });
  events = takes (disk d) ∷ takes (added_disk d) ∷ [];
}

abbrev pub before : List Event → Alloced → Alloced
before es r = record r { events = es ++ r.events }

abbrev pub with_queue : Answers → Option ℕ → Dev → Alloced
with_queue k none dev = record {
  rv = enomem;
  dev = some dev;
  events = gives (area dev.area_ptr) ∷ gives (memory dev.ptr) ∷ [];
}
with_queue k (some q) dev =
    before (takes (queue q) ∷ []) (finish k.alloc_disk (record dev { queue_ptr = q }))

abbrev pub with_area : Answers → (minor : ℕ) → Option ℕ → Dev → Alloced
with_area k minor none dev = record {
  rv = enomem;
  dev = some dev;
  events = gives (memory dev.ptr) ∷ [];
}
with_area k minor (some a) dev =
    before (takes (area a) ∷ [])
      (with_queue k k.blk_init_queue (record dev { area_ptr = a; minor = minor }))

-- The fields of `kzalloc`ed memory are 0.
abbrev pub with_dev : Answers → (minor : ℕ) → Option ℕ → Alloced
with_dev k minor none = record { rv = enomem; dev = none; events = [] }
with_dev k minor (some p) = before (takes (memory p) ∷ []) (
    with_area k minor k.vmalloc (record {
      ptr = p;
      minor = 0;
      queue_ptr = 0;
      disk_ptr = 0;
      size = sampleblk_sect_size * sampleblk_nsects;
      area_ptr = 0;
    }))

unfoldable pub sampleblk_alloc : Answers → (minor : ℕ) → Alloced
sampleblk_alloc k minor = with_dev k minor k.kzalloc

unfoldable pub sampleblk_free : Dev → List Event
sampleblk_free dev =
    gives (added_disk dev.disk_ptr)
    ∷ gives (queue dev.queue_ptr)
    ∷ gives (disk dev.disk_ptr)
    ∷ gives (area dev.area_ptr)
    ∷ gives (memory dev.ptr)
    ∷ []

-- `sampleblk_init`: `register_blkdev` returns the major number or an error. A failed allocation is
-- logged, and the module is loaded.
unfoldable pub sampleblk_init : (major : ℕ ⊎ Rv) → Answers → Alloced
sampleblk_init (inr e) k = record { rv = e; dev = none; events = [] }
sampleblk_init (inl major) k =
    let r = sampleblk_alloc k sampleblk_minor in
    record { rv = success; dev = r.dev; events = takes (blkdev major) ∷ r.events }

-- `none` is the use of a NULL pointer.
unfoldable pub sampleblk_exit : (major : ℕ) → Option Dev → Option (List Event)
sampleblk_exit major none = none
sampleblk_exit major (some dev) = some (sampleblk_free dev ++ gives (blkdev major) ∷ [])

-- The other operations of the disk do nothing; release has no result.
unfoldable sampleblk_ioctl : (command argument : ℕ) → Rv
sampleblk_ioctl command argument = success

unfoldable sampleblk_open : (mode : ℕ) → Rv
sampleblk_open mode = success
