-- ===== src/Binder/Looper/Call/Origin.antt =====
-- Where the reply of `binder_call` (binder/binder.c) comes from: the BR_REPLY in the driver's answer.
use linux_labs.Prelude.{ℕ, ◌+◌, ◌≤◌, ◌<◌, ◌≡◌, ◌⊎◌, true, Option, none, some, List, [], ◌∷◌}
use linux_labs.Memory.{Mem, load}
use linux_labs.Binder.Types.{BinderIo}
use linux_labs.Binder.Bio.{bio_init_from_txn}
use linux_labs.Binder.Looper.{
  Env, Machine, Parse, Parsed, Outcome, go, stop, replied, br_reply, read_txn,
}
use linux_labs.Binder.Looper.Call.{Answer, filled, Called, call_ok, call_failed}

-- Behind a BR_REPLY at `p`, one of the `n` bytes from `readbuf` on, stands the transaction of `io`.
pub record IsReply {S : Type 0} (env : Env S) (readbuf n : ℕ) (m : Mem) (io : BinderIo)
    : Type 0 where
  pub at : ℕ
  pub below : readbuf ≤ at
  pub above : at < readbuf + n
  pub command : env.code_of br_reply ≡ load 4 at m
  pub read : io ≡ bio_init_from_txn (read_txn (at + 4) m)

-- The death of a service leaves the memory that the driver wrote.
abbrev pub KeepsMemory : {S : Type 0} → Env S → Type 0
KeepsMemory {S} env = (p : ℕ) (mc : Machine S) → (env.death p mc).mem ≡ mc.mem

module _ {S : Type 0} (base : Env S) (keeps : KeepsMemory base) (readbuf n : ℕ) (m : Mem) where
  bare : Env S
  bare = record base { func = none }

  abbrev Came : BinderIo → Type 0
  Came io = IsReply base readbuf n m io

  record IsSound (p : Parse S) : Type 0 where
    same : p.machine.mem ≡ m
    low : readbuf ≤ p.ptr
    set_io : (p.wanted ≡ true) ⊎ Came p.io
    result : p.r ≡ replied → Came p.io

  abbrev AreSound : Outcome S → Type 0
  AreSound (go q) = IsSound q
  AreSound (stop q) = Unit {0}

  abbrev FromSound : Option (Parsed × Parse S) → Type 0
  FromSound none = Unit {0}
  FromSound (some (r, p)) = r ≡ replied → Came p.io

abbrev pub IsAmong : Answer → List Answer → Type 0
IsAmong a [] = ⊥
IsAmong a (x ∷ xs) = (a ≡ x) ⊎ IsAmong a xs

module _ {S : Type 0} (env : Env S) (keeps : KeepsMemory env) (readbuf : ℕ) where
  -- The reply of a call that succeeded stands in one of the answers.
  abbrev pub CameFrom : List Answer → Called → BinderIo → Type 0
  CameFrom answers call_failed io = Unit {0}
  CameFrom answers call_ok io =
      (mem : Mem) × (n : ℕ) × IsAmong (filled mem n) answers × IsReply env readbuf n mem io

  abbrev pub Comes : List Answer → Option (Called × BinderIo × Machine S) → Type 0
  Comes answers none = Unit {0}
  Comes answers (some (st, io, mc)) = CameFrom answers st io
