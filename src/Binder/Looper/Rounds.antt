-- ===== src/Binder/Looper/Rounds.antt =====
-- `binder_loop` and `binder_thread_loop` of binder/binder.c: rounds of `ioctl` and `binder_parse`.
use linux_labs.Prelude.{
  ℕ, zero, suc, ◌+◌, ◌≡◌, refl, inl, inr, Option, none, some, List, [], ◌∷◌, ◌++◌, arith, ltb, ◌==◌,
  Bool-cases,
}
use linux_labs.Binder.Driver.{
  Command, enter_looper, register_looper, reply, free_buffer, binder_write,
}
use linux_labs.Binder.Types.{Transaction, BinderIo}
use linux_labs.Binder.Bio.{bio_init, bio_init_from_txn}
use linux_labs.Binder.Looper.Call.{Answer, no_answer, filled}
use linux_labs.Binder.Looper.Loop.{Returns, binder_parse-Returns}
use linux_labs.Binder.Looper.{
  Handler, Br, Env, Machine, Parse, Parsed, Outcome, go, stop, failed, pending, replied, skip,
  parse_one, parse_cmd, parse_loop, binder_parse, br_noop, br_transaction_complete, br_increfs,
  br_acquire, br_release, br_decrefs, br_spawn_looper, br_transaction, br_reply, br_dead_binder,
  br_failed_reply, br_dead_reply, after, on_transaction, on_reply, is_too_small, serve,
  binder_send_reply,
}

-- The loop waits for the driver, or it was left by a `break`.
pub data Looped : Type 0 where
  waiting left : Looped

module _ {S : Type 0} where
  -- The tests on the result of `binder_parse`.
  abbrev pub next_round :
      (Machine S → Option (Looped × Machine S))
      → Option (Parsed × Parse S)
      → Option (Looped × Machine S)
  next_round next none = none
  next_round next (some (pending, p)) = next p.machine
  next_round next (some (replied, p)) = some (left, p.machine)
  next_round next (some (failed, p)) = some (left, p.machine)

  -- The rounds over what the driver answers in turn; `bio` is 0.
  unfoldable pub rounds :
      Env S → (readbuf : ℕ) → List Answer → Machine S → Option (Looped × Machine S)
  rounds env readbuf [] mc = some (waiting, mc)
  rounds env readbuf (no_answer ∷ rest) mc = some (left, mc)
  rounds env readbuf (filled mem read_consumed ∷ rest) mc =
      next_round (λ mc1. rounds env readbuf rest mc1)
        (binder_parse env none readbuf read_consumed (record mc { mem = mem }))

  unfoldable pub binder_loop :
      Env S → (readbuf : ℕ) → List Answer → Machine S → Option (Looped × Machine S)
  binder_loop env readbuf answers mc =
      rounds env readbuf answers (record mc { sent = binder_write (enter_looper ∷ []) mc.sent })

  unfoldable pub binder_thread_loop :
      Env S → (readbuf : ℕ) → List Answer → Machine S → Option (Looped × Machine S)
  binder_thread_loop env readbuf answers mc =
      rounds env readbuf answers (record mc { sent = binder_write (register_looper ∷ []) mc.sent })

  -- The thread that `BR_SPAWN_LOOPER` starts, with what stands in `btd` when it reads it.
  unfoldable binder_thread_routine :
      (btd : Env S) → (readbuf : ℕ) → List Answer → Machine S → Option (Machine S)
  unfolding binder_thread_loop
  binder_thread_routine btd readbuf answers mc = elim (binder_thread_loop btd readbuf answers mc) [
    | none ↦ none
    | some (st, mc1) ↦ some mc1
  ]

  module _ (env : Env S) (Good : S → List Command → Type 0) where
    abbrev pub Holds : Machine S → Type 0
    Holds mc = Good mc.state mc.sent

    -- What a handler and the replies must keep, for a loop to keep it.
    pub record IsKept : Type 0 where
      pub on_func :
          (func : Handler S) (txn : Transaction) (msg io : BinderIo) (mc : Machine S)
          → env.func ≡ some func
          → Holds mc
          → Holds (func txn msg io mc).2
      pub on_death : (p : ℕ) (mc : Machine S) → Holds mc → Holds (env.death p mc)
      pub on_reply :
          (s : S) (cs : List Command) (buffer : ℕ) (txn : Transaction)
          → Good s cs
          → Good s (cs ++ free_buffer buffer ∷ reply txn ∷ [])
      pub on_enter : (s : S) (cs : List Command) → Good s cs → Good s (cs ++ enter_looper ∷ [])

    abbrev AreKept : Outcome S → Type 0
    AreKept (go q) = Holds q.machine
    AreKept (stop q) = Holds q.machine

    abbrev ResultKept : Option (Parsed × Parse S) → Type 0
    ResultKept none = Unit {0}
    ResultKept (some (r, q)) = Holds q.machine

    after-ResultKept :
        (next : Parse S → Option (Parsed × Parse S)) (o : Outcome S)
        → AreKept o
        → ((q : Parse S) → Holds q.machine → ResultKept (next q))
        → ResultKept (after next o)
    after-ResultKept next (go q) h f = f q h
    after-ResultKept next (stop q) h f = h

    module _ (k : IsKept) where
      serve-Holds :
          (f : Option (Handler S)) (txn : Transaction) (mc : Machine S)
          → env.func ≡ f
          → Holds mc
          → Holds (serve env f txn mc)
      unfolding serve binder_send_reply
      serve-Holds none txn mc e h = h
      serve-Holds (some func) txn mc e h =
          let io0 = bio_init env.rdata 256 4 env.junk_io in
          let done = func txn (bio_init_from_txn txn) io0 mc in
          let kept = k.on_func func txn (bio_init_from_txn txn) io0 mc e h in
          elim (Bool-cases (done.0 == 0)) [
            | inl ok ↦ rw ok (k.on_reply _ _ _ _ kept)
            | inr bad ↦ rw bad (k.on_reply _ _ _ _ kept)
          ]

      on_transaction-AreKept :
          (end : ℕ) (p : Parse S) → Holds p.machine → AreKept (on_transaction env end p)
      unfolding on_transaction
      on_transaction-AreKept end p h = elim (Bool-cases (is_too_small end p.ptr)) [
        | inl small ↦ rw small h
        | inr fits ↦ rw fits (serve-Holds env.func _ p.machine refl h)
      ]

      on_reply-AreKept : (end : ℕ) (p : Parse S) → Holds p.machine → AreKept (on_reply end p)
      unfolding on_reply
      on_reply-AreKept end p h = elim (Bool-cases (is_too_small end p.ptr)) [
        | inl small ↦ rw small h
        | inr fits ↦ rw fits h
      ]

      parse_cmd-AreKept :
          (end : ℕ) (b : Option Br) (p : Parse S)
          → Holds p.machine
          → AreKept (parse_cmd env end b p)
      unfolding parse_cmd skip
      parse_cmd-AreKept end none p h = h
      parse_cmd-AreKept end (some br_noop) p h = h
      parse_cmd-AreKept end (some br_transaction_complete) p h = h
      parse_cmd-AreKept end (some br_increfs) p h = h
      parse_cmd-AreKept end (some br_acquire) p h = h
      parse_cmd-AreKept end (some br_release) p h = h
      parse_cmd-AreKept end (some br_decrefs) p h = h
      parse_cmd-AreKept end (some br_spawn_looper) p h = h
      parse_cmd-AreKept end (some br_transaction) p h = on_transaction-AreKept end p h
      parse_cmd-AreKept end (some br_reply) p h = on_reply-AreKept end p h
      parse_cmd-AreKept end (some br_dead_binder) p h = k.on_death _ p.machine h
      parse_cmd-AreKept end (some br_failed_reply) p h = h
      parse_cmd-AreKept end (some br_dead_reply) p h = h

      parse_loop-ResultKept :
          (n end : ℕ) (p : Parse S) → Holds p.machine → ResultKept (parse_loop env n end p)
      unfolding parse_loop parse_one skip
      parse_loop-ResultKept zero end p h = elim (Bool-cases (ltb p.ptr end)) [
        | inr over ↦ rw over h
        | inl more ↦ rw more tt
      ]
      parse_loop-ResultKept (suc n) end p h = elim (Bool-cases (ltb p.ptr end)) [
        | inr over ↦ rw over h
        | inl more ↦ rw more (
            after-ResultKept (parse_loop env n end) (parse_one env end p)
              (parse_cmd-AreKept end _ (skip 4 p) h) (λ q h'. parse_loop-ResultKept n end q h'))
      ]

      -- The rounds come to an end for any list of answers, and what holds is kept.
      abbrev pub Goes : Option (Looped × Machine S) → Type 0
      Goes o = (st : Looped) × (mc : Machine S) × (o ≡ some (st, mc)) × Holds mc

      next_round-Goes :
          (next : Machine S → Option (Looped × Machine S)) (o : Option (Parsed × Parse S))
          → Returns o
          → ResultKept o
          → ((mc : Machine S) → Holds mc → Goes (next mc))
          → Goes (next_round next o)
      next_round-Goes next none (r, e) h f = absurd (ground arith)
      next_round-Goes next (some (pending, p)) (r, e) h f = f p.machine h
      next_round-Goes next (some (replied, p)) (r, e) h f = (left, p.machine, refl, h)
      next_round-Goes next (some (failed, p)) (r, e) h f = (left, p.machine, refl, h)

      rounds-Goes :
          (readbuf : ℕ) (answers : List Answer) (mc : Machine S)
          → Holds mc
          → Goes (rounds env readbuf answers mc)
      unfolding rounds
      rounds-Goes readbuf [] mc h = (waiting, mc, refl, h)
      rounds-Goes readbuf (no_answer ∷ rest) mc h = (left, mc, refl, h)
      rounds-Goes readbuf (filled mem n ∷ rest) mc h =
          let mc1 : Machine S = record mc { mem = mem } in
          next_round-Goes (λ mc2. rounds env readbuf rest mc2) (binder_parse env none readbuf n mc1)
            (binder_parse-Returns env none readbuf n mc1)
            (unfold binder_parse in parse_loop-ResultKept n (readbuf + n) _ h)
            (λ mc2 h2. rounds-Goes readbuf rest mc2 h2)

      pub binder_loop-Goes :
          (readbuf : ℕ) (answers : List Answer) (mc : Machine S)
          → Holds mc
          → Goes (binder_loop env readbuf answers mc)
      unfolding binder_loop
      binder_loop-Goes readbuf answers mc h =
          rounds-Goes readbuf answers _ (k.on_enter mc.state mc.sent h)
