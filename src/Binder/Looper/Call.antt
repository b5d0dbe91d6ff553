-- ===== src/Binder/Looper/Call.antt =====
-- `binder_call` and `binder_done` of binder/binder.c: a request and its reply.
pub mod Done
pub mod Origin
pub mod Quiet
use linux_labs.Prelude.{ℕ, true, Option, none, some, List, [], ◌∷◌, if◌then◌else◌}
use linux_labs.Memory.{Mem}
use linux_labs.Binder.Types.{BinderIo, no_flags}
use linux_labs.Binder.Driver.{transaction, free_buffer, binder_write}
use linux_labs.Binder.Bio.{message_txn}
use linux_labs.Binder.Looper.{Env, Machine, Parse, Parsed, failed, pending, replied, binder_parse}

-- What one `ioctl(BINDER_WRITE_READ)` does: it fails, or it leaves the memory with `read_consumed`
-- bytes of commands in the read buffer.
pub data Answer : Type 0 where
  no_answer : Answer
  filled : (mem : Mem) (read_consumed : ℕ) → Answer

-- The results 0 and -1 of `binder_call`.
pub data Called : Type 0 where
  call_ok call_failed : Called

-- The reply after `memset` and `BIO_F_IOERROR`.
abbrev pub failed_io : BinderIo
failed_io = record {
  cursor = 0;
  offs = 0;
  data_avail = 0;
  offs_avail = 0;
  data0 = 0;
  offs0 = 0;
  flags = record no_flags { io_error = true };
}

module _ {S : Type 0} where
  -- The tests on the result of `binder_parse`: the way out, or the reply with which the loop goes on.
  abbrev pub judge :
      (BinderIo → Machine S → Option (Called × BinderIo × Machine S))
      → Option (Parsed × Parse S)
      → Option (Called × BinderIo × Machine S)
  judge next none = none
  judge next (some (pending, p)) = next p.io p.machine
  judge next (some (replied, p)) = some (call_ok, p.io, p.machine)
  judge next (some (failed, p)) = some (call_failed, failed_io, p.machine)

  -- The loop of `binder_call` over what the driver answers in turn: `none` is a call that waits. The
  -- handler given to `binder_parse` is 0.
  unfoldable pub call_loop :
      Env S
      → (readbuf : ℕ) → List Answer
      → BinderIo
      → Machine S
      → Option (Called × BinderIo × Machine S)
  call_loop env readbuf [] io mc = none
  call_loop env readbuf (no_answer ∷ rest) io mc = some (call_failed, failed_io, mc)
  call_loop env readbuf (filled mem read_consumed ∷ rest) io mc =
      judge (λ io1 mc1. call_loop env readbuf rest io1 mc1)
        (binder_parse (record env { func = none }) (some io) readbuf read_consumed
          (record mc { mem = mem }))

  unfoldable pub binder_call :
      Env S
      → (readbuf : ℕ) → List Answer
      → (msg io : BinderIo) → (target code : ℕ) → Machine S
      → Option (Called × BinderIo × Machine S)
  binder_call env readbuf answers msg io target code mc =
      if msg.flags.overflow
      then some (call_failed, failed_io, mc)
      else (let txn = message_txn msg (record (env.junk_txn) { target = target; code = code }) in
          call_loop env readbuf answers io
            (record mc { sent = binder_write (transaction txn ∷ []) mc.sent }))

  unfoldable pub binder_done : BinderIo → Machine S → BinderIo × Machine S
  binder_done io mc =
      if io.flags.shared
      then (
        record io { flags = no_flags },
        record mc { sent = binder_write (free_buffer io.data0 ∷ []) mc.sent },
      )
      else (io, mc)
