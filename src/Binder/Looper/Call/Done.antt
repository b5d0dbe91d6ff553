-- ===== src/Binder/Looper/Call/Done.antt =====
-- `binder_call` followed by `binder_done` (binder/binder.c): the buffer of a reply is given back once.
use mathlib.Core.Bool.{false≢true}
use mathlib.Core.List.{append-nil}
use linux_labs.Prelude.{
  ℕ, zero, suc, ◌+◌, ◌≡◌, refl, sym, ◌∙◌, ◌⊎◌, inl, inr, true, false, Option, none, some, List, [],
  ◌∷◌, ◌++◌, arith, ltb, if◌then◌else◌, Bool-cases,
}
use linux_labs.Binder.Types.{BinderIo, Transaction}
use linux_labs.Binder.Driver.{Command, free_buffer}
use linux_labs.Binder.Bio.{bio_init_from_txn}
use linux_labs.Binder.Looper.{
  Br, Env, Machine, Parse, Parsed, Outcome, go, stop, failed, pending, replied, skip, parse_one,
  parse_cmd, parse_loop, binder_parse, br_noop, br_transaction_complete, br_increfs, br_acquire,
  br_release, br_decrefs, br_spawn_looper, br_transaction, br_reply, br_dead_binder,
  br_failed_reply, br_dead_reply, after, on_transaction, on_reply, is_too_small, read_txn,
}
use linux_labs.Binder.Looper.Call.{
  Answer, no_answer, filled, Called, call_ok, call_failed, failed_io, judge, call_loop, binder_call,
  binder_done,
}
use linux_labs.Binder.Looper.Loop.{Returns, binder_parse-Returns}
use mathlib.Core.Path.{subst}

-- The `binder_io` stands before a message that was received.
abbrev pub IsReceived : BinderIo → Type 0
IsReceived io = (txn : Transaction) × (io ≡ bio_init_from_txn txn)

-- `bio` is 0 only where a reply was received, and the result is 0 only there.
abbrev IsSound : {S : Type 0} → Parse S → Type 0
IsSound p = ((p.wanted ≡ true) ⊎ IsReceived p.io) × (p.r ≡ replied → IsReceived p.io)

abbrev AreSound : {S : Type 0} → Outcome S → Type 0
AreSound (go q) = IsSound q
AreSound (stop q) = Unit {0}

abbrev FromSound : {S : Type 0} → Option (Parsed × Parse S) → Type 0
FromSound none = Unit {0}
FromSound (some (replied, p)) = IsReceived p.io
FromSound (some (pending, p)) = Unit {0}
FromSound (some (failed, p)) = Unit {0}

result-FromSound :
    {S : Type 0} (r : Parsed) (p : Parse S)
    → (r ≡ replied → IsReceived p.io)
    → FromSound (some (r, p))
result-FromSound replied p h = h refl
result-FromSound pending p h = tt
result-FromSound failed p h = tt

after-FromSound :
    {S : Type 0} (next : Parse S → Option (Parsed × Parse S)) (o : Outcome S)
    → AreSound o
    → ((q : Parse S) → IsSound q → FromSound (next q))
    → FromSound (after next o)
after-FromSound next (go q) h f = f q h
after-FromSound next (stop q) h f = tt

pub failed_replied : failed ≡ replied → ⊥
failed_replied e = ground arith

pub pending_replied : pending ≡ replied → ⊥
pending_replied e = ground arith

module _ {S : Type 0} (env : Env S) (end : ℕ) where
  on_transaction-AreSound : (p : Parse S) → IsSound p → AreSound (on_transaction env end p)
  unfolding on_transaction
  on_transaction-AreSound p h = elim (Bool-cases (is_too_small end p.ptr)) [
    | inl small ↦ rw small tt
    | inr fits ↦ rw fits h
  ]

  received :
      (p : Parse S)
      → IsSound p
      → IsReceived (if p.wanted then bio_init_from_txn (read_txn p.ptr p.machine.mem) else p.io)
  received p h = elim (Bool-cases p.wanted) [
    | inl wants ↦ rw wants (read_txn p.ptr p.machine.mem, refl)
    | inr has ↦
        rw has (elim h.0 [ inl wants ↦ absurd (false≢true (sym has ∙ wants)) | inr got ↦ got ])
  ]

  on_reply-AreSound : (p : Parse S) → IsSound p → AreSound (on_reply end p)
  unfolding on_reply
  on_reply-AreSound p h = elim (Bool-cases (is_too_small end p.ptr)) [
    | inl small ↦ rw small tt
    | inr fits ↦ rw fits (inr (received p h), λ _. received p h)
  ]

  parse_cmd-AreSound : (b : Option Br) (p : Parse S) → IsSound p → AreSound (parse_cmd env end b p)
  unfolding parse_cmd skip
  parse_cmd-AreSound none p h = tt
  parse_cmd-AreSound (some br_noop) p h = h
  parse_cmd-AreSound (some br_transaction_complete) p h = h
  parse_cmd-AreSound (some br_increfs) p h = h
  parse_cmd-AreSound (some br_acquire) p h = h
  parse_cmd-AreSound (some br_release) p h = h
  parse_cmd-AreSound (some br_decrefs) p h = h
  parse_cmd-AreSound (some br_spawn_looper) p h = h
  parse_cmd-AreSound (some br_transaction) p h = on_transaction-AreSound p h
  parse_cmd-AreSound (some br_reply) p h = on_reply-AreSound p h
  parse_cmd-AreSound (some br_dead_binder) p h = h
  parse_cmd-AreSound (some br_failed_reply) p h = (h.0, λ e. absurd (failed_replied e))
  parse_cmd-AreSound (some br_dead_reply) p h = (h.0, λ e. absurd (failed_replied e))

  parse_loop-FromSound : (n : ℕ) (p : Parse S) → IsSound p → FromSound (parse_loop env n end p)
  unfolding parse_loop parse_one skip
  parse_loop-FromSound zero p h = elim (Bool-cases (ltb p.ptr end)) [
    | inr over ↦ rw over (result-FromSound p.r p h.1)
    | inl more ↦ rw more tt
  ]
  parse_loop-FromSound (suc n) p h = elim (Bool-cases (ltb p.ptr end)) [
    | inr over ↦ rw over (result-FromSound p.r p h.1)
    | inl more ↦ rw more (
        after-FromSound (parse_loop env n end) (parse_one env end p)
          (parse_cmd-AreSound _ (skip 4 p) h) (λ q h'. parse_loop-FromSound n q h'))
  ]

-- What a call leaves: a reply that was received, or the one with `BIO_F_IOERROR`.
abbrev pub IsAnswered : Called → BinderIo → Type 0
IsAnswered call_ok io = IsReceived io
IsAnswered call_failed io = io ≡ failed_io

abbrev pub freed : Called → BinderIo → List Command
freed call_ok io = free_buffer io.data0 ∷ []
freed call_failed io = []

-- What is left behind by a call and `binder_done`.
abbrev pub IsFinished : {S : Type 0} → Called → BinderIo → Machine S → Type 0
IsFinished st io mc =
    let (io1, mc1) = binder_done io mc in
    IsAnswered st io × (mc1.sent ≡ mc.sent ++ freed st io) × (io1.flags.shared ≡ false)

binder_done-IsFinished :
    {S : Type 0} (st : Called) (io : BinderIo) (mc : Machine S)
    → IsAnswered st io
    → IsFinished st io mc
unfolding binder_done bio_init_from_txn
binder_done-IsFinished call_ok io mc (txn, e) =
    subst (λ i. IsFinished call_ok i mc) (sym e) ((txn, refl), refl, refl)
binder_done-IsFinished call_failed io mc e =
    subst (λ i. IsFinished call_failed i mc) (sym e) (refl, sym (append-nil mc.sent), refl)

module _ {S : Type 0} (env : Env S) (readbuf : ℕ) where
  -- A call that came to an end.
  abbrev pub Ends : Option (Called × BinderIo × Machine S) → Type 0
  Ends o =
      (st : Called) × (io : BinderIo) × (mc : Machine S) × (o ≡ some (st, io, mc))
      × IsFinished st io mc

  judge-Ends :
      (next : BinderIo → Machine S → Option (Called × BinderIo × Machine S))
      (o : Option (Parsed × Parse S))
      → Returns o
      → FromSound o
      → ((io : BinderIo) (mc : Machine S) → Ends (next io mc))
      → Ends (judge next o)
  judge-Ends next none (r, e) h f = absurd (ground arith)
  judge-Ends next (some (pending, p)) (r, e) h f = f p.io p.machine
  judge-Ends next (some (replied, p)) (r, e) h f =
      (call_ok, p.io, p.machine, refl, binder_done-IsFinished call_ok p.io p.machine h)
  judge-Ends next (some (failed, p)) (r, e) h f = (
    call_failed,
    failed_io,
    p.machine,
    refl,
    binder_done-IsFinished call_failed failed_io p.machine refl,
  )

  call_loop-Ends :
      (front back : List Answer) (io : BinderIo) (mc : Machine S)
      → Ends (call_loop env readbuf (front ++ no_answer ∷ back) io mc)
  unfolding call_loop
  call_loop-Ends [] back io mc =
      (call_failed, failed_io, mc, refl, binder_done-IsFinished call_failed failed_io mc refl)
  call_loop-Ends (no_answer ∷ front) back io mc =
      (call_failed, failed_io, mc, refl, binder_done-IsFinished call_failed failed_io mc refl)
  call_loop-Ends (filled mem n ∷ front) back io mc =
      let bare : Env S = record env { func = none } in
      let mc1 : Machine S = record mc { mem = mem } in
      judge-Ends (λ io1 mc1. call_loop env readbuf (front ++ no_answer ∷ back) io1 mc1)
        (binder_parse bare (some io) readbuf n mc1)
        (binder_parse-Returns bare (some io) readbuf n mc1)
        (unfold binder_parse in
          parse_loop-FromSound bare (readbuf + n) n
            (record { ptr = readbuf; wanted = true; io = io; r = pending; machine = mc1 })
            (inl refl, λ e. absurd (pending_replied e)))
        (λ io1 mc2. call_loop-Ends front back io1 mc2)

  -- A call ends when the driver fails, if it did not end before: whatever the driver answered, it
  -- returns 0 with a reply that was received, and `binder_done` then gives the buffer of the reply
  -- back, once; or it returns -1 with a cleared reply, and `binder_done` sends nothing.
  pub binder_call-Ends :
      (front back : List Answer) (msg io : BinderIo) (target code : ℕ) (mc : Machine S)
      → Ends (binder_call env readbuf (front ++ no_answer ∷ back) msg io target code mc)
  unfolding binder_call
  binder_call-Ends front back msg io target code mc = elim (Bool-cases msg.flags.overflow) [
    | inl over ↦
        rw over
          (call_failed, failed_io, mc, refl, binder_done-IsFinished call_failed failed_io mc refl)
    | inr fine ↦ rw fine (call_loop-Ends front back io _)
  ]
