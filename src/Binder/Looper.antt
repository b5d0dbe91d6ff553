-- ===== src/Binder/Looper.antt =====
-- `binder_parse` of binder/binder.c: what the driver returned, command by command; and
-- `binder_send_reply`. The child modules have its callers.
pub mod Call
pub mod Loop
pub mod Rounds
use linux_labs.Prelude.{
  ℕ, zero, suc, ◌+◌, ◌-◌, ◌%◌, Bool, true, false, Option, none, some, List, [], ◌∷◌, ltb, ◌==◌,
  if◌then◌else◌,
}
use linux_labs.Memory.{Mem, load, store}
use linux_labs.Binder.Types.{BinderIo, Transaction, word, size_of_txn, size_of_ptr_cookie}
use linux_labs.Binder.Driver.{Command, reply, free_buffer, binder_write}
use linux_labs.Binder.Bio.{bio_init, bio_init_from_txn, message_txn}

-- The commands of `enum binder_driver_return_protocol` that `binder_parse` knows.
pub data Br : Type 0 where
  br_noop br_transaction_complete br_increfs br_acquire br_release br_decrefs : Br
  br_spawn_looper br_transaction br_reply br_dead_binder br_failed_reply br_dead_reply : Br

abbrev pub all_br : List Br
all_br =
    br_noop ∷ br_transaction_complete ∷ br_increfs ∷ br_acquire ∷ br_release ∷ br_decrefs
    ∷ br_spawn_looper ∷ br_transaction ∷ br_reply ∷ br_dead_binder ∷ br_failed_reply ∷ br_dead_reply
    ∷ []

-- A process: the state of its handler, what it sent to the driver, the threads that it was asked to
-- start, and its memory.
pub record Machine (S : Type 0) : Type 0 where
  pub state : S
  pub sent : List Command
  pub spawned : ℕ
  pub mem : Mem

-- `binder_handler`: from the transaction, `msg` and `reply` to the result, which is an int as a
-- 32-bit word, and the new `reply`.
abbrev pub Handler : Type 0 → Type 0
Handler S = Transaction → BinderIo → BinderIo → Machine S → ℕ × BinderIo × Machine S

-- What a process runs with: the words of the commands (the `_IO` macros are the kernel's), the
-- handler, which may be NULL, what the `binder_death` at an address does, and the addresses and the
-- junk of the variables on the stack.
pub record Env (S : Type 0) : Type 0 where
  pub code_of : Br → ℕ
  pub func : Option (Handler S)
  pub death : ℕ → Machine S → Machine S
  pub rdata : ℕ
  pub status_at : ℕ
  pub junk_io : BinderIo
  pub junk_txn : Transaction

-- The result of `binder_parse`: 1, 0 and -1.
pub data Parsed : Type 0 where
  pending replied failed : Parsed

-- The variables of `binder_parse`: `wanted` says that `bio` is not 0, `io` is what it points to.
pub record Parse (S : Type 0) : Type 0 where
  pub ptr : ℕ
  pub wanted : Bool
  pub io : BinderIo
  pub r : Parsed
  pub machine : Machine S

-- An iteration of the loop ends, or `binder_parse` returns -1 in it.
pub data Outcome (S : Type 0) : Type 0 where
  go stop : Parse S → Outcome S

abbrev pub tf_status_code : ℕ
tf_status_code = 8

-- `*(struct binder_transaction_data *) ptr`
unfoldable pub read_txn : ℕ → Mem → Transaction
read_txn p m = record {
  target = load 4 p m;
  cookie = load 4 (p + 4) m;
  code = load 4 (p + 8) m;
  flags = load 4 (p + 12) m;
  sender_pid = load 4 (p + 16) m;
  sender_euid = load 4 (p + 20) m;
  data_size = load 4 (p + 24) m;
  offsets_size = load 4 (p + 28) m;
  buffer = load 4 (p + 32) m;
  offsets = load 4 (p + 36) m;
}

-- `(end - ptr) < sizeof(*txn)`, on unsigned words.
abbrev pub is_too_small : (end ptr : ℕ) → Bool
is_too_small end ptr = ltb ((end + word - ptr) % word) size_of_txn

module _ {S : Type 0} where
  unfoldable pub binder_send_reply :
      Env S → BinderIo → (buffer_to_free status : ℕ) → Machine S → Machine S
  binder_send_reply env io buffer_to_free status mc =
      let txn = record (env.junk_txn) { target = 0; cookie = 0; code = 0 } in
      if status == 0
      then record mc {
        sent = binder_write (free_buffer buffer_to_free ∷ reply (message_txn io txn) ∷ []) mc.sent;
      }
      else (let failure : Transaction = record txn {
        flags = tf_status_code;
        data_size = 4;
        offsets_size = 0;
        buffer = env.status_at;
        offsets = 0;
      } in
          record mc {
            sent = binder_write (free_buffer buffer_to_free ∷ reply failure ∷ []) mc.sent;
            mem = store 4 env.status_at status mc.mem;
          })

  -- The body of `if (func)`.
  unfoldable pub serve : Env S → Option (Handler S) → Transaction → Machine S → Machine S
  serve env none txn mc = mc
  serve env (some func) txn mc =
      let (res, io, mc1) =
        func txn (bio_init_from_txn txn) (bio_init env.rdata 256 4 env.junk_io) mc in
      binder_send_reply env io txn.buffer res mc1

  unfoldable pub skip : ℕ → Parse S → Parse S
  skip n p = record p { ptr = p.ptr + n }

  unfoldable pub on_transaction : Env S → ℕ → Parse S → Outcome S
  on_transaction env end p =
      if is_too_small end p.ptr
      then stop p
      else go (record p {
        ptr = p.ptr + size_of_txn;
        machine = serve env env.func (read_txn p.ptr p.machine.mem) p.machine;
      })

  unfoldable pub on_reply : ℕ → Parse S → Outcome S
  on_reply end p =
      if is_too_small end p.ptr
      then stop p
      else go (record p {
        ptr = p.ptr + size_of_txn;
        wanted = false;
        io = if p.wanted then bio_init_from_txn (read_txn p.ptr p.machine.mem) else p.io;
        r = replied;
      })

  -- The switch, behind the command's word.
  unfoldable pub parse_cmd : Env S → (end : ℕ) → Option Br → Parse S → Outcome S
  parse_cmd env end none p = stop p
  parse_cmd env end (some br_noop) p = go p
  parse_cmd env end (some br_transaction_complete) p = go p
  parse_cmd env end (some br_increfs) p = go (skip size_of_ptr_cookie p)
  parse_cmd env end (some br_acquire) p = go (skip size_of_ptr_cookie p)
  parse_cmd env end (some br_release) p = go (skip size_of_ptr_cookie p)
  parse_cmd env end (some br_decrefs) p = go (skip size_of_ptr_cookie p)
  parse_cmd env end (some br_spawn_looper) p =
      go (record p { machine = record (p.machine) { spawned = p.machine.spawned + 1 } })
  parse_cmd env end (some br_transaction) p = on_transaction env end p
  parse_cmd env end (some br_reply) p = on_reply end p
  parse_cmd env end (some br_dead_binder) p =
      go (record p { ptr = p.ptr + 4; machine = env.death (load 4 p.ptr p.machine.mem) p.machine })
  parse_cmd env end (some br_failed_reply) p = go (record p { r = failed })
  parse_cmd env end (some br_dead_reply) p = go (record p { r = failed })

  -- `switch(cmd)`: the first case that has the word.
  unfoldable pub decode : Env S → List Br → ℕ → Option Br
  decode env [] cmd = none
  decode env (b ∷ bs) cmd = if env.code_of b == cmd then some b else decode env bs cmd

  unfoldable pub parse_one : Env S → (end : ℕ) → Parse S → Outcome S
  parse_one env end p =
      parse_cmd env end (decode env all_br (load 4 p.ptr p.machine.mem)) (skip 4 p)

  abbrev pub after : (Parse S → Option (Parsed × Parse S)) → Outcome S → Option (Parsed × Parse S)
  after next (go p) = next p
  after next (stop p) = some (failed, p)

  -- The loop of `binder_parse`, on fuel: `none` means that it ran out.
  unfoldable pub parse_loop : Env S → ℕ → (end : ℕ) → Parse S → Option (Parsed × Parse S)
  parse_loop env zero end p = if ltb p.ptr end then none else some (p.r, p)
  parse_loop env (suc n) end p =
      if ltb p.ptr end
      then after (λ q. parse_loop env n end q) (parse_one env end p)
      else some (p.r, p)

  -- An iteration takes four bytes at least, so `size` iterations are enough.
  unfoldable pub binder_parse :
      Env S → Option BinderIo → (ptr size : ℕ) → Machine S → Option (Parsed × Parse S)
  binder_parse env none ptr size mc =
      parse_loop env size (ptr + size)
        (record { ptr = ptr; wanted = false; io = env.junk_io; r = pending; machine = mc })
  binder_parse env (some io) ptr size mc =
      parse_loop env size (ptr + size)
        (record { ptr = ptr; wanted = true; io = io; r = pending; machine = mc })
