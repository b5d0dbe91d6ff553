-- ===== src/Tests/RamdiskTests.antt =====
-- The ram disks of ramdisk-lab/ at concrete requests.
use linux_labs.Prelude.{
  refl, ◌%◌, List, ◌*◌, true, false, arith, ◌≢◌, ◌≡◌, ◌∷◌, some, inl, [], none, ◌++◌, ◌+◌, ap,
  length,
}
use linux_labs.Memory.{Mem}
use linux_labs.Resources.{success, eio}
use linux_labs.Ramdisk.Transfer.{Segment, gather}
use linux_labs.Ramdisk.SampleBlk
use linux_labs.Ramdisk.SampleBlk.{
  sampleblk_request, sampleblk_alloc, sampleblk_init, sampleblk_exit, sampleblk_minor, one_request,
}
use linux_labs.Ramdisk.SampleBlk.Requests.{spec, one_request-spec}
use linux_labs.Ramdisk.SampleBlk.Disk.{IsServed, sampleblk_request-IsServed}
use linux_labs.Ramdisk.SampleBlk.Module.{
  IsClean, Faults, sampleblk_alloc-IsClean, sampleblk_init-Faults,
}
use linux_labs.Ramdisk.MkReq
use linux_labs.Ramdisk.MkReq.{ramhd_make_request, bio_endio, with_mem, ramhd_init, ramhd_exit}
use linux_labs.Ramdisk.MkReq.Requests.{
  ramhd_make_request_lem, ramhd_make_request_bounds, ramhd_read_back,
}
use linux_labs.Ramdisk.Req
use linux_labs.Ramdisk.Req.{ramhd_req_func}
use linux_labs.Ramdisk.Req.Chunks
use linux_labs.Ramdisk.Req.Chunks.{ramhd_req_func_lem, ramhd_req_read_back}

-- Byte `x` holds `x % 256`.
abbrev bytes_at : Mem
bytes_at x = x % 256

-- Two buffers to write from, and one to read into.
abbrev out_segments : List Segment
out_segments =
    record { kaddr = 100; offset = 0; len = 3 } ∷ record { kaddr = 200; offset = 5; len = 1 } ∷ []

abbrev in_segments : List Segment
in_segments = record { kaddr = 300; offset = 0; len = 4 } ∷ []

abbrev sample_dev : SampleBlk.Dev
sample_dev = record {
  ptr = 10;
  minor = 1;
  queue_ptr = 11;
  disk_ptr = 12;
  size = 512 * 102_400;
  area_ptr = 100_000;
}

abbrev writing : SampleBlk.Request
writing = record { owner = 10; sector = 2; nbytes = 4; is_write = true; segments = out_segments }

abbrev reading : SampleBlk.Request
reading = record { owner = 10; sector = 2; nbytes = 4; is_write = false; segments = in_segments }

-- One sector beyond the end.
abbrev beyond : SampleBlk.Request
beyond = record {
  owner = 10;
  sector = 102_400;
  nbytes = 4;
  is_write = false;
  segments = in_segments;
}

abbrev sample_io : SampleBlk.Io
sample_io = record { mem = bytes_at; is_locked = true; kmapped = 0; ended = [] }

writing-IsRequest : SampleBlk.Requests.IsRequest sample_dev writing
writing-IsRequest = record { owned = refl; counted = refl; in_word = omega arith }

reading-IsRequest : SampleBlk.Requests.IsRequest sample_dev reading
reading-IsRequest = record { owned = refl; counted = refl; in_word = omega arith }

beyond-IsRequest : SampleBlk.Requests.IsRequest sample_dev beyond
beyond-IsRequest = record { owned = refl; counted = refl; in_word = omega arith }

out_some : out_segments ≢ []
out_some e = absurd (ground (arith, ap length e))

in_some : in_segments ≢ []
in_some e = absurd (ground (arith, ap length e))

one_request-spec_example :
    one_request sample_dev writing (eio, sample_io) ≡ spec sample_dev writing (eio, sample_io)
one_request-spec_example = one_request-spec sample_dev writing eio sample_io writing-IsRequest

sampleblk_request-IsServed_example :
    IsServed sample_dev
      (writing ∷ beyond ∷ reading ∷ [])
      sample_io
      (sampleblk_request sample_dev (writing ∷ beyond ∷ reading ∷ []) sample_io)
sampleblk_request-IsServed_example =
    sampleblk_request-IsServed sample_dev (writing ∷ beyond ∷ reading ∷ []) sample_io (
      (writing-IsRequest, out_some),
      ((beyond-IsRequest, in_some), ((reading-IsRequest, in_some), tt)),
    )

-- The queue cannot be had.
abbrev no_queue : SampleBlk.Answers
no_queue = record {
  kzalloc = some 10;
  vmalloc = some 100_000;
  blk_init_queue = none;
  alloc_disk = some 12;
}

sampleblk_alloc-IsClean_example : IsClean (sampleblk_alloc no_queue 1)
sampleblk_alloc-IsClean_example = sampleblk_alloc-IsClean no_queue 1

sampleblk_init-Faults_example :
    let r = sampleblk_init (inl 240) no_queue in
    (r.rv ≡ success) × Faults (sampleblk_exit 240 r.dev) r.events
unfolding sampleblk_alloc
sampleblk_init-Faults_example = sampleblk_init-Faults 240 no_queue refl

abbrev write_bio : MkReq.Bio
write_bio = record {
  area_ptr = 100_000;
  bi_sector = 2;
  bi_size = 4;
  dir = MkReq.dir_write;
  segments = out_segments;
}

abbrev read_bio : MkReq.Bio
read_bio = record {
  area_ptr = 100_000;
  bi_sector = 2;
  bi_size = 4;
  dir = MkReq.dir_read;
  segments = in_segments;
}

abbrev bio_io : MkReq.Io
bio_io = record { mem = bytes_at; kmapped = 0; ended = [] }

write_bio-IsBio : MkReq.Requests.IsBio write_bio
write_bio-IsBio = record { counted = refl; in_word = omega arith }

read_bio-IsBio : MkReq.Requests.IsBio read_bio
read_bio-IsBio = record { counted = refl; in_word = omega arith }

ramhd_make_request_lem_example :
    ramhd_make_request write_bio bio_io
    ≡ bio_endio success (
        with_mem
          (MkReq.Requests.transfer MkReq.dir_write (100_000 + 1024) out_segments bytes_at)
          bio_io)
ramhd_make_request_lem_example = ramhd_make_request_lem write_bio bio_io write_bio-IsBio

ramhd_make_request_bounds_example :
    ((ramhd_make_request write_bio bio_io).mem 90_000 ≡ bytes_at 90_000)
    × ((ramhd_make_request write_bio bio_io).kmapped ≡ 0)
ramhd_make_request_bounds_example =
    ramhd_make_request_bounds write_bio bio_io 90_000 write_bio-IsBio
      (ground arith, (ground arith, tt)) (omega arith)

ramhd_read_back_example :
    let io' = ramhd_make_request read_bio (ramhd_make_request write_bio bio_io) in
    (gather in_segments io'.mem ≡ gather out_segments bytes_at)
    × (io'.ended ≡ (bio_io.ended ++ success ∷ []) ++ success ∷ [])
ramhd_read_back_example =
    ramhd_read_back write_bio read_bio bio_io write_bio-IsBio read_bio-IsBio refl refl refl refl
      refl (omega arith) (ground arith, (ground arith, tt)) (ground arith, tt) (tt, tt)

abbrev write_req : Req.Request
write_req = record {
  area_ptr = 100_000;
  is_read = false;
  first = record { sector = 2; nbytes = 512; buf = 1000 };
  more = record { sector = 3; nbytes = 512; buf = 3000 } ∷ [];
}

abbrev read_req : Req.Request
read_req = record {
  area_ptr = 100_000;
  is_read = true;
  first = record { sector = 2; nbytes = 1024; buf = 5000 };
  more = [];
}

write_req-IsRequest : Req.Chunks.IsRequest MkReq.ramhd_size write_req
write_req-IsRequest = record { in_row = (refl, tt); within = omega arith; in_space = omega arith }

ramhd_req_func_lem_example :
    ramhd_req_func (write_req ∷ read_req ∷ []) bytes_at
    ≡ ramhd_req_func
        (read_req ∷ [])
        (Chunks.transfer false (100_000 + 1024) (Chunks.segments write_req) bytes_at)
ramhd_req_func_lem_example =
    ramhd_req_func_lem MkReq.ramhd_size write_req (read_req ∷ []) bytes_at write_req-IsRequest
