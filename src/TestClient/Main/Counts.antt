-- ===== src/TestClient/Main/Counts.antt =====
-- How often the lookups and the greetings of binder/test_client.c take and give back a handle.
use linux_labs.Prelude.{
  ℕ, ◌+◌, ◌≡◌, refl, sym, ap, ◌∙◌, ◌≢◌, inl, inr, true, some, List, [], ◌∷◌, ◌++◌, arith, ◌==◌,
  Bool-cases,
}
use linux_labs.Binder.Types.{BinderIo}
use linux_labs.Binder.Driver.{Command, acquire, free_buffer, transaction, binder_acquire}
use linux_labs.Binder.Looper.{Env, Machine}
use linux_labs.Binder.Looper.Call.{
  Answer, no_answer, Called, call_ok, call_failed, binder_call, binder_done,
}
use linux_labs.Binder.Looper.Call.Done.{binder_call-Ends}
use linux_labs.Binder.Looper.Call.Quiet.{IsQuiet, Asked, binder_call-Asked}
use linux_labs.Binder.Bio.{bio_get_ref}
use linux_labs.ServiceManager.References.{acquired, released, acquired-append, released-append}
use linux_labs.TestClient.{svcmgr_lookup, looked_up, keep_handle, lookup_request}
use linux_labs.TestClient.Greetings.{
  said, said_to, say_call, say_to_call, read_answer, say_request, say_to_request,
}
use linux_labs.TestClient.Main.{machine_of}
use linux_labs.Resources.{one_if}
use mathlib.Core.Path.{subst}

module _ (h : ℕ) where
  -- From `cs` to `ds` the handle was acquired `a` times and released `r` times.
  pub record Counts (a r : ℕ) (cs ds : List Command) : Type 0 where
    pub acquires : acquired h ds ≡ acquired h cs + a
    pub releases : released h ds ≡ released h cs + r

  pub Counts-trans :
      {a b c r t u : ℕ} {cs ds es : List Command}
      → Counts a r cs ds
      → Counts b t ds es
      → a + b ≡ c
      → r + t ≡ u
      → Counts c u cs es
  Counts-trans p q e f = record {
    acquires = omega (arith, p.acquires, q.acquires, e);
    releases = omega (arith, p.releases, q.releases, f);
  }

  pub Counts-refl : (cs : List Command) → Counts 0 0 cs cs
  Counts-refl cs = record { acquires = omega arith; releases = omega arith }

  pub Counts-append : (cs es : List Command) → Counts (acquired h es) (released h es) cs (cs ++ es)
  Counts-append cs es = record {
    acquires = acquired-append h cs es;
    releases = released-append h cs es;
  }

pub not_this : (g h : ℕ) → h ≢ 0 → (g == 0) ≡ true → 0 ≡ one_if (g == h)
not_this g h real null = ground arith

module _ {S : Type 0} (h : ℕ) (real : h ≢ 0) where
  keep_handle-Counts :
      (g : ℕ) (mc : Machine S) → Counts h (one_if (g == h)) 0 mc.sent (keep_handle g mc).sent
  unfolding keep_handle binder_acquire acquired released
  keep_handle-Counts g mc = elim (Bool-cases (g == 0)) [
    | inl null ↦
        rw null (
          subst (λ n. Counts h n 0 mc.sent mc.sent) (not_this g h real null)
            (Counts-refl h mc.sent))
    | inr other ↦ rw other (
        subst (λ n. Counts h n 0 mc.sent (mc.sent ++ acquire g ∷ [])) (omega arith)
          (Counts-append h mc.sent (acquire g ∷ [])))
  ]

  pub binder_done-Counts :
      (io : BinderIo) (mc : Machine S) → Counts h 0 0 mc.sent (binder_done io mc).1.sent
  unfolding binder_done acquired released
  binder_done-Counts io mc = elim (Bool-cases io.flags.shared) [
    | inl shared ↦ rw shared (Counts-append h mc.sent (free_buffer io.data0 ∷ []))
    | inr other ↦ rw other (Counts-refl h mc.sent)
  ]

  -- What a call sends counts nothing.
  Asked-Counts :
      (cs : List Command) (st : Called) (io : BinderIo) (mc : Machine S)
      → Asked cs (some (st, io, mc))
      → Counts h 0 0 cs mc.sent
  unfolding acquired released
  Asked-Counts cs st io mc (inl same) = subst (Counts h 0 0 cs) (sym same) (Counts-refl h cs)
  Asked-Counts cs st io mc (inr (txn, e)) =
      subst (Counts h 0 0 cs) (sym e) (Counts-append h cs (transaction txn ∷ []))

  looked_up-Counts :
      (cs : List Command) (st : Called) (io : BinderIo) (mc : Machine S)
      → Counts h 0 0 cs mc.sent
      → (r : ℕ × Machine S) × (looked_up (some (st, io, mc)) ≡ some r)
        × Counts h (one_if (r.0 == h)) 0 cs r.1.sent
  looked_up-Counts cs call_failed io mc c =
      ((0, mc), refl, subst (λ n. Counts h n 0 cs mc.sent) (not_this 0 h real refl) c)
  looked_up-Counts cs call_ok io mc c =
      let (g, io1) = bio_get_ref io mc.mem in
      (
        (g, (binder_done io1 (keep_handle g mc)).1),
        refl,
        Counts-trans h {b = one_if (g == h)} c
            (Counts-trans h (keep_handle-Counts g mc) (binder_done-Counts io1 (keep_handle g mc))
              (omega arith) refl)
            (omega arith) refl,
      )

  said-Counts :
      (cs : List Command) (st : Called) (io : BinderIo) (mc : Machine S)
      → Counts h 0 0 cs mc.sent
      → (mc1 : Machine S) × (said (some (st, io, mc)) ≡ some mc1) × Counts h 0 0 cs mc1.sent
  said-Counts cs call_failed io mc c = (mc, refl, c)
  said-Counts cs call_ok io mc c =
      ((binder_done io mc).1, refl, Counts-trans h c (binder_done-Counts io mc) refl refl)

  said_to-Counts :
      (cs : List Command) (st : Called) (io : BinderIo) (mc : Machine S)
      → Counts h 0 0 cs mc.sent
      → (mc1 : Machine S) × (machine_of (said_to (some (st, io, mc))) ≡ some mc1)
        × Counts h 0 0 cs mc1.sent
  said_to-Counts cs call_failed io mc c = (mc, refl, c)
  said_to-Counts cs call_ok io mc c =
      let (ret, io1) = read_answer io mc.mem in
      ((binder_done io1 mc).1, refl, Counts-trans h c (binder_done-Counts io1 mc) refl refl)

  module _ (env : Env S) (quiet : IsQuiet env) (readbuf iodata : ℕ) (front back : List Answer) where
    -- A call comes to an end, and counts nothing.
    pub call-Counts :
        (msg io : BinderIo) (target code : ℕ) (mc : Machine S)
        → (st : Called) × (io1 : BinderIo) × (mc1 : Machine S) × (binder_call env readbuf
              (front ++ no_answer ∷ back)
              msg
              io
              target
              code
              mc
            ≡ some (st, io1, mc1))
          × Counts h 0 0 mc.sent mc1.sent
    call-Counts msg io target code mc =
        let (st, io1, mc1, e, f) = binder_call-Ends env readbuf front back msg io target code mc in
        let asked =
          binder_call-Asked env quiet readbuf (front ++ no_answer ∷ back) msg io target code mc in
        (st, io1, mc1, e, Asked-Counts mc.sent st io1 mc1 (subst (Asked mc.sent) e asked))

    pub svcmgr_lookup-Counts :
        (target : ℕ) (name : List ℕ) (mc : Machine S)
        → (r : ℕ × Machine S) × (svcmgr_lookup env readbuf iodata
              (front ++ no_answer ∷ back)
              target
              name
              mc
            ≡ some r)
          × Counts h (one_if (r.0 == h)) 0 mc.sent r.1.sent
    unfolding svcmgr_lookup
    svcmgr_lookup-Counts target name mc =
        let (msg, mem) = lookup_request iodata name env.junk_io mc.mem in
        let (st, io, mc1, e, c) = call-Counts msg env.junk_io target _ (record mc { mem = mem }) in
        let (r, f, d) = looked_up-Counts mc.sent st io mc1 c in (r, ap looked_up e ∙ f, d)

    pub said_call-Counts :
        (interface : List ℕ) (handle code : ℕ) (mc : Machine S)
        → (mc1 : Machine S) × (said
              (say_call env readbuf iodata (front ++ no_answer ∷ back) interface handle code mc)
            ≡ some mc1)
          × Counts h 0 0 mc.sent mc1.sent
    unfolding say_call
    said_call-Counts interface handle code mc =
        let (msg, mem) = say_request iodata interface env.junk_io mc.mem in
        let (st, io, mc1, e, c) =
          call-Counts msg env.junk_io handle code (record mc { mem = mem }) in
        let (mc2, f, d) = said-Counts mc.sent st io mc1 c in (mc2, ap said e ∙ f, d)

    pub said_to_call-Counts :
        (interface name : List ℕ) (handle code : ℕ) (mc : Machine S)
        → (mc1 : Machine S) × (machine_of (
              said_to (
                say_to_call env readbuf iodata
                  (front ++ no_answer ∷ back)
                  interface
                  name
                  handle
                  code
                  mc))
            ≡ some mc1)
          × Counts h 0 0 mc.sent mc1.sent
    unfolding say_to_call
    said_to_call-Counts interface name handle code mc =
        let (msg, mem) = say_to_request iodata interface name env.junk_io mc.mem in
        let (st, io, mc1, e, c) =
          call-Counts msg env.junk_io handle code (record mc { mem = mem }) in
        let (mc2, f, d) = said_to-Counts mc.sent st io mc1 c in
        (mc2, ap (λ o. machine_of (said_to o)) e ∙ f, d)
