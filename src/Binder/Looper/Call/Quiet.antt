-- ===== src/Binder/Looper/Call/Quiet.antt =====
-- A process without a handler sends its request in `binder_call` (binder/binder.c), and nothing else:
-- whatever the driver hands over, `binder_parse` sends nothing there.
use linux_labs.Prelude.{
  ℕ, zero, suc, ◌+◌, ◌≡◌, refl, ◌⊎◌, inl, inr, Option, none, some, List, [], ◌∷◌, ◌++◌, ltb,
  Bool-cases,
}
use linux_labs.Binder.Types.{BinderIo, Transaction}
use linux_labs.Binder.Driver.{Command, transaction}
use linux_labs.Binder.Looper.{
  Br, Env, Machine, Parse, Parsed, Outcome, go, stop, failed, pending, replied, skip, parse_one,
  parse_cmd, parse_loop, binder_parse, serve, br_noop, br_transaction_complete, br_increfs,
  br_acquire, br_release, br_decrefs, br_spawn_looper, br_transaction, br_reply, br_dead_binder,
  br_failed_reply, br_dead_reply, on_transaction, on_reply, is_too_small, after,
}
use linux_labs.Binder.Looper.Call.{Answer, no_answer, filled, Called, judge, call_loop, binder_call}
use mathlib.Core.Path.{subst}

-- The deaths of services send nothing.
abbrev pub IsQuiet : {S : Type 0} → Env S → Type 0
IsQuiet {S} env = (p : ℕ) (mc : Machine S) → (env.death p mc).sent ≡ mc.sent

module _ {S : Type 0} where
  abbrev Sends : List Command → Outcome S → Type 0
  Sends cs (go q) = q.machine.sent ≡ cs
  Sends cs (stop q) = q.machine.sent ≡ cs

  abbrev Sent : List Command → Option (Parsed × Parse S) → Type 0
  Sent cs none = Unit {0}
  Sent cs (some (r, q)) = q.machine.sent ≡ cs

  abbrev CallSent : List Command → Option (Called × BinderIo × Machine S) → Type 0
  CallSent cs none = Unit {0}
  CallSent cs (some (st, io, mc)) = mc.sent ≡ cs

  -- A call sent nothing, or one request.
  abbrev pub Asked : List Command → Option (Called × BinderIo × Machine S) → Type 0
  Asked cs none = Unit {0}
  Asked cs (some (st, io, mc)) =
      (mc.sent ≡ cs) ⊎ ((txn : Transaction) × (mc.sent ≡ cs ++ transaction txn ∷ []))

  CallSent-Asked :
      (cs : List Command) (txn : Transaction) (o : Option (Called × BinderIo × Machine S))
      → CallSent (cs ++ transaction txn ∷ []) o
      → Asked cs o
  CallSent-Asked cs txn none h = tt
  CallSent-Asked cs txn (some (st, io, mc)) h = inr (txn, h)

  after-Sent :
      (cs : List Command) (next : Parse S → Option (Parsed × Parse S)) (o : Outcome S)
      → Sends cs o
      → ((q : Parse S) → q.machine.sent ≡ cs → Sent cs (next q))
      → Sent cs (after next o)
  after-Sent cs next (go q) h f = f q h
  after-Sent cs next (stop q) h f = h

  module _ (env : Env S) (no_func : env.func ≡ none) (quiet : IsQuiet env) (end : ℕ) where
    on_transaction-Sends : (p : Parse S) → Sends p.machine.sent (on_transaction env end p)
    unfolding on_transaction serve
    on_transaction-Sends p = elim (Bool-cases (is_too_small end p.ptr)) [
      | inl small ↦ rw small refl
      | inr fits ↦ rw (fits, no_func) refl
    ]

    on_reply-Sends : (p : Parse S) → Sends p.machine.sent (on_reply end p)
    unfolding on_reply
    on_reply-Sends p = elim (Bool-cases (is_too_small end p.ptr)) [
      | inl small ↦ rw small refl
      | inr fits ↦ rw fits refl
    ]

    parse_cmd-Sends : (b : Option Br) (p : Parse S) → Sends p.machine.sent (parse_cmd env end b p)
    unfolding parse_cmd skip
    parse_cmd-Sends none p = refl
    parse_cmd-Sends (some br_noop) p = refl
    parse_cmd-Sends (some br_transaction_complete) p = refl
    parse_cmd-Sends (some br_increfs) p = refl
    parse_cmd-Sends (some br_acquire) p = refl
    parse_cmd-Sends (some br_release) p = refl
    parse_cmd-Sends (some br_decrefs) p = refl
    parse_cmd-Sends (some br_spawn_looper) p = refl
    parse_cmd-Sends (some br_transaction) p = on_transaction-Sends p
    parse_cmd-Sends (some br_reply) p = on_reply-Sends p
    parse_cmd-Sends (some br_dead_binder) p = quiet _ p.machine
    parse_cmd-Sends (some br_failed_reply) p = refl
    parse_cmd-Sends (some br_dead_reply) p = refl

    parse_loop-Sent :
        (cs : List Command) (n : ℕ) (p : Parse S)
        → p.machine.sent ≡ cs
        → Sent cs (parse_loop env n end p)
    unfolding parse_loop parse_one skip
    parse_loop-Sent cs zero p h = elim (Bool-cases (ltb p.ptr end)) [
      | inr over ↦ rw over h
      | inl more ↦ rw more tt
    ]
    parse_loop-Sent cs (suc n) p h = elim (Bool-cases (ltb p.ptr end)) [
      | inr over ↦ rw over h
      | inl more ↦ rw more (
          after-Sent cs (parse_loop env n end) (parse_one env end p)
            (subst (λ l. Sends l (parse_one env end p)) h (parse_cmd-Sends _ (skip 4 p)))
            (λ q h'. parse_loop-Sent cs n q h'))
    ]

  judge-CallSent :
      (cs : List Command) (next : BinderIo → Machine S → Option (Called × BinderIo × Machine S))
      (o : Option (Parsed × Parse S))
      → Sent cs o
      → ((io : BinderIo) (mc : Machine S) → mc.sent ≡ cs → CallSent cs (next io mc))
      → CallSent cs (judge next o)
  judge-CallSent cs next none h f = tt
  judge-CallSent cs next (some (pending, p)) h f = f p.io p.machine h
  judge-CallSent cs next (some (replied, p)) h f = h
  judge-CallSent cs next (some (failed, p)) h f = h

  module _ (env : Env S) (quiet : IsQuiet env) (readbuf : ℕ) where
    call_loop-CallSent :
        (answers : List Answer) (io : BinderIo) (mc : Machine S)
        → CallSent mc.sent (call_loop env readbuf answers io mc)
    unfolding call_loop binder_parse
    call_loop-CallSent [] io mc = tt
    call_loop-CallSent (no_answer ∷ rest) io mc = refl
    call_loop-CallSent (filled mem n ∷ rest) io mc =
        judge-CallSent mc.sent (λ io1 mc1. call_loop env readbuf rest io1 mc1) _
          (parse_loop-Sent (record env { func = none }) refl quiet (readbuf + n) mc.sent n _ refl)
          (λ io1 mc1 h.
            subst (λ l. CallSent l (call_loop env readbuf rest io1 mc1)) h
              (call_loop-CallSent rest io1 mc1))

    -- The request is all that a call sends, or nothing where the message did not fit its buffer.
    pub binder_call-Asked :
        (answers : List Answer) (msg io : BinderIo) (target code : ℕ) (mc : Machine S)
        → Asked mc.sent (binder_call env readbuf answers msg io target code mc)
    unfolding binder_call
    binder_call-Asked answers msg io target code mc = elim (Bool-cases msg.flags.overflow) [
      | inl over ↦ rw over (inl refl)
      | inr fine ↦ rw fine (CallSent-Asked mc.sent _ _ (call_loop-CallSent answers io _))
    ]
