-- ===== src/Binder/Looper/Loop.antt =====
-- The loop of `binder_parse` of binder/binder.c ends.
use linux_labs.Prelude.{
  ℕ, zero, suc, ◌+◌, ◌≤◌, ◌≡◌, refl, inl, inr, Option, none, some, arith, ltb, Bool-cases,
  ltb-eq-false,
}
use linux_labs.Binder.Types.{BinderIo}
use linux_labs.Binder.Looper.{
  Br, Env, Machine, Parse, Parsed, Outcome, go, stop, failed, skip, parse_one, parse_cmd,
  parse_loop, binder_parse, br_noop, br_transaction_complete, br_increfs, br_acquire, br_release,
  br_decrefs, br_spawn_looper, br_transaction, br_reply, br_dead_binder, br_failed_reply,
  br_dead_reply, after, on_transaction, on_reply, is_too_small,
}

-- An iteration that goes on moved the pointer from `a` up.
abbrev Passes : {S : Type 0} → ℕ → Outcome S → Type 0
Passes a (go q) = a ≤ q.ptr
Passes a (stop q) = Unit {0}

abbrev pub Returns : {S : Type 0} → Option (Parsed × Parse S) → Type 0
Returns {S} o = (r : Parsed × Parse S) × (o ≡ some r)

after-Returns :
    {S : Type 0} (a : ℕ) (next : Parse S → Option (Parsed × Parse S)) (o : Outcome S)
    → Passes a o
    → ((q : Parse S) → a ≤ q.ptr → Returns (next q))
    → Returns (after next o)
after-Returns a next (go q) h f = f q h
after-Returns a next (stop q) h f = ((failed, q), refl)

module _ {S : Type 0} (env : Env S) (end : ℕ) where
  on_transaction-Passes : (p : Parse S) → Passes p.ptr (on_transaction env end p)
  unfolding on_transaction
  on_transaction-Passes p = elim (Bool-cases (is_too_small end p.ptr)) [
    | inl small ↦ rw small tt
    | inr fits ↦ rw fits (omega arith)
  ]

  on_reply-Passes : (p : Parse S) → Passes p.ptr (on_reply end p)
  unfolding on_reply
  on_reply-Passes p = elim (Bool-cases (is_too_small end p.ptr)) [
    | inl small ↦ rw small tt
    | inr fits ↦ rw fits (omega arith)
  ]

  parse_cmd-Passes : (b : Option Br) (p : Parse S) → Passes p.ptr (parse_cmd env end b p)
  unfolding parse_cmd skip
  parse_cmd-Passes none p = tt
  parse_cmd-Passes (some br_noop) p = omega arith
  parse_cmd-Passes (some br_transaction_complete) p = omega arith
  parse_cmd-Passes (some br_increfs) p = omega arith
  parse_cmd-Passes (some br_acquire) p = omega arith
  parse_cmd-Passes (some br_release) p = omega arith
  parse_cmd-Passes (some br_decrefs) p = omega arith
  parse_cmd-Passes (some br_spawn_looper) p = omega arith
  parse_cmd-Passes (some br_transaction) p = on_transaction-Passes p
  parse_cmd-Passes (some br_reply) p = on_reply-Passes p
  parse_cmd-Passes (some br_dead_binder) p = omega arith
  parse_cmd-Passes (some br_failed_reply) p = omega arith
  parse_cmd-Passes (some br_dead_reply) p = omega arith

  parse_one-Passes : (p : Parse S) → Passes (p.ptr + 4) (parse_one env end p)
  unfolding parse_one
  parse_one-Passes p = unfold skip in parse_cmd-Passes _ (skip 4 p)

  parse_loop-Returns : (n : ℕ) (p : Parse S) → end ≤ p.ptr + n → Returns (parse_loop env n end p)
  unfolding parse_loop
  parse_loop-Returns zero p h = rw (ltb-eq-false p.ptr end (omega arith)) ((p.r, p), refl)
  parse_loop-Returns (suc n) p h = elim (Bool-cases (ltb p.ptr end)) [
    | inr over ↦ rw over ((p.r, p), refl)
    | inl more ↦ rw more (
        after-Returns (p.ptr + 4) (parse_loop env n end) (parse_one env end p) (parse_one-Passes p)
          (λ q h'. parse_loop-Returns n q (omega arith)))
  ]

-- `size` iterations are enough: whatever the bytes, `binder_parse` returns.
pub binder_parse-Returns :
    {S : Type 0} (env : Env S) (bio : Option BinderIo) (ptr size : ℕ) (mc : Machine S)
    → Returns (binder_parse env bio ptr size mc)
unfolding binder_parse
binder_parse-Returns env none ptr size mc = parse_loop-Returns env (ptr + size) size _ (omega arith)
binder_parse-Returns env (some io) ptr size mc =
    parse_loop-Returns env (ptr + size) size _ (omega arith)
