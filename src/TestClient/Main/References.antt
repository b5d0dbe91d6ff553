-- ===== src/TestClient/Main/References.antt =====
-- The references that `main` of binder/test_client.c takes and gives back.
use linux_labs.Prelude.{
  ℕ, ◌+◌, ◌≡◌, refl, sym, ◌≢◌, ◌⊎◌, inl, inr, not, Option, none, some, List, [], ◌∷◌, ◌++◌, arith,
  ltb, ◌==◌, length, Bool-cases, codes,
}
use linux_labs.Binder.Driver.{Command, release, binder_release}
use linux_labs.Binder.Device.{Answers, BinderState, binder_open}
use linux_labs.Binder.Looper.{Env, Machine}
use linux_labs.Binder.Looper.Call.{Answer, no_answer}
use linux_labs.Binder.Looper.Call.Quiet.{IsQuiet}
use linux_labs.ServiceManager.Main.{binder_service_manager}
use linux_labs.ServiceManager.References.{acquired, released}
use linux_labs.Resources.{one_if}
use linux_labs.TestClient.Greetings.{
  sayhello, sayhello_to, saygoodbye, saygoodbye_to, hello_interface, goodbye_interface,
}
use linux_labs.TestClient.Main.{
  ClientRun, Calls, main, opened, got_goodbye, got_hello, greeted, greet, on_hello, on_goodbye,
  ended, same_string,
}
use linux_labs.TestClient.Main.Counts.{
  Counts, Counts-trans, Counts-refl, Counts-append, not_this, svcmgr_lookup-Counts,
  said_call-Counts, said_to_call-Counts,
}
use linux_labs.TestServer.{
  refused, hello_svr_cmd_sayhello, goodbye_svr_cmd_saygoodbye, hello_svr_cmd_sayhello_to,
  goodbye_svr_cmd_saygoodbye_to,
}
use mathlib.Core.Path.{subst}

-- The driver fails sometime in each call.
abbrev pub failing : (front back : List Answer) → List Answer
failing front back = front ++ no_answer ∷ back

abbrev pub all_failing : (fronts backs : Calls) → Calls
all_failing f b = record {
  goodbye = failing f.goodbye b.goodbye;
  hello = failing f.hello b.hello;
  greeting = failing f.greeting b.greeting;
}

module _ {S : Type 0} (env : Env S) (quiet : IsQuiet env) (readbuf iodata : ℕ)
    (fronts backs : Calls) (h : ℕ) (real : h ≢ 0) where
  calls : Calls
  calls = all_failing fronts backs

  -- The greeting comes to an end, and counts nothing.
  Greets : Machine S → Option (Machine S) → Type 0
  Greets mc o = (mc1 : Machine S) × (o ≡ some mc1) × Counts h 0 0 mc.sent mc1.sent

  on_hello-Greets :
      (handle : ℕ) (args : List (List ℕ)) (mc : Machine S)
      → Greets mc (on_hello env readbuf iodata calls handle args mc)
  unfolding Greets calls on_hello sayhello sayhello_to
  on_hello-Greets handle [] mc =
      said_call-Counts h real env quiet readbuf iodata fronts.greeting backs.greeting
        hello_interface handle hello_svr_cmd_sayhello mc
  on_hello-Greets handle (name ∷ []) mc =
      said_to_call-Counts h real env quiet readbuf iodata fronts.greeting backs.greeting
        hello_interface name handle hello_svr_cmd_sayhello_to mc
  on_hello-Greets handle (name ∷ other ∷ more) mc = (mc, refl, Counts-refl h mc.sent)

  on_goodbye-Greets :
      (handle : ℕ) (args : List (List ℕ)) (mc : Machine S)
      → Greets mc (on_goodbye env readbuf iodata calls handle args mc)
  unfolding Greets calls on_goodbye saygoodbye saygoodbye_to
  on_goodbye-Greets handle [] mc =
      said_call-Counts h real env quiet readbuf iodata fronts.greeting backs.greeting
        goodbye_interface handle goodbye_svr_cmd_saygoodbye mc
  on_goodbye-Greets handle (name ∷ []) mc =
      said_to_call-Counts h real env quiet readbuf iodata fronts.greeting backs.greeting
        goodbye_interface name handle goodbye_svr_cmd_saygoodbye_to mc
  on_goodbye-Greets handle (name ∷ other ∷ more) mc = (mc, refl, Counts-refl h mc.sent)

  greet-Greets :
      (g k : ℕ) (argv : List (List ℕ)) (mc : Machine S)
      → Greets mc (greet env readbuf iodata calls g k argv mc)
  unfolding greet Greets
  greet-Greets g k [] mc = (mc, refl, Counts-refl h mc.sent)
  greet-Greets g k (program ∷ []) mc = (mc, refl, Counts-refl h mc.sent)
  greet-Greets g k (program ∷ cmd ∷ rest) mc = elim (Bool-cases (same_string cmd (codes "hello"))) [
    | inl is ↦ rw is (on_hello-Greets k rest mc)
    | inr not ↦ elim (Bool-cases (same_string cmd (codes "goodbye"))) [
      | inl is ↦ rw (not, is) (on_goodbye-Greets g rest mc)
      | inr neither ↦ rw (not, neither) (mc, refl, Counts-refl h mc.sent)
    ]
  ]

  -- How the program ended, from the commands `cs`.
  abbrev pub Ends : List Command → Option (ClientRun S) → Type 0
  Ends cs o =
      (r : ClientRun S) × (o ≡ some r)
      × ((r.code ≡ 0) ⊎ ((r.code ≡ refused) × (r.g_hello_handle ≡ 0)))
      × (acquired h r.machine.sent
          ≡ acquired h cs + one_if (r.g_goodbye_handle == h) + one_if (r.g_hello_handle == h))
      × (released h r.machine.sent ≡ released h cs + one_if (r.g_hello_handle == h))

  refused-Ends :
      (cs : List Command) (g : ℕ) (mc : Machine S)
      → Counts h (one_if (g == h)) 0 cs mc.sent
      → Ends cs (ended refused g 0 mc)
  refused-Ends cs g mc c =
      let null = not_this 0 h real refl in
      (_, refl, inr (refl, refl), omega (arith, c.acquires, null), omega (arith, c.releases, null))

  nothing-Ends : (mc : Machine S) → Ends mc.sent (ended refused 0 0 mc)
  nothing-Ends mc =
      refused-Ends mc.sent 0 mc
        (record { acquires = omega (arith, not_this 0 h real refl); releases = omega arith })

  released-Ends :
      (cs : List Command) (g k : ℕ) (mc : Machine S)
      → Counts h (one_if (g == h) + one_if (k == h)) 0 cs mc.sent
      → Ends cs (greeted env readbuf iodata calls g k (some mc))
  unfolding binder_release acquired released
  released-Ends cs g k mc c =
      let last = Counts-append h mc.sent (release k ∷ []) in
      (
        _,
        refl,
        inl refl,
        omega (arith, c.acquires, last.acquires),
        omega (arith, c.releases, last.releases),
      )

  greeted-Ends :
      (cs : List Command) (g k : ℕ) (argv : List (List ℕ)) (mc : Machine S)
      → Counts h (one_if (g == h) + one_if (k == h)) 0 cs mc.sent
      → Ends cs (greeted env readbuf iodata calls g k (greet env readbuf iodata calls g k argv mc))
  unfolding Greets
  greeted-Ends cs g k argv mc c =
      let (mc1, e, d) = greet-Greets g k argv mc in
      subst (λ o. Ends cs (greeted env readbuf iodata calls g k o)) (sym e)
        (released-Ends cs g k mc1 (Counts-trans h c d (omega arith) refl))

  got_hello-Ends :
      (cs : List Command) (g : ℕ) (argv : List (List ℕ)) (r : ℕ × Machine S)
      → Counts h (one_if (g == h) + one_if (r.0 == h)) 0 cs r.1.sent
      → Ends cs (got_hello env readbuf iodata calls g argv (some r))
  got_hello-Ends cs g argv (k, mc) c = elim (Bool-cases (k == 0)) [
    | inl null ↦ rw null (
        refused-Ends cs g mc (record {
          acquires = omega (arith, c.acquires, not_this k h real null);
          releases = c.releases;
        }))
    | inr got ↦ rw got (greeted-Ends cs g k argv mc c)
  ]

  got_goodbye-Ends :
      (cs : List Command) (argv : List (List ℕ)) (r : ℕ × Machine S)
      → Counts h (one_if (r.0 == h)) 0 cs r.1.sent
      → Ends cs (got_goodbye env readbuf iodata calls argv (some r))
  unfolding calls
  got_goodbye-Ends cs argv (g, mc) c = elim (Bool-cases (g == 0)) [
    | inl null ↦ rw null (
        refused-Ends cs 0 mc (record {
          acquires = omega (arith, c.acquires, not_this g h real null, not_this 0 h real refl);
          releases = c.releases;
        }))
    | inr got ↦
        let (r, e, d) =
          svcmgr_lookup-Counts h real env quiet readbuf iodata fronts.hello backs.hello
            binder_service_manager (codes "hello") mc in
        rw got (
          subst (λ o. Ends cs (got_hello env readbuf iodata calls g argv o)) (sym e)
            (got_hello-Ends cs g argv r (Counts-trans h c d refl refl)))
  ]

  opened-Ends :
      (argv : List (List ℕ)) (bs : Option BinderState) (mc : Machine S)
      → Ends mc.sent (opened env readbuf iodata calls argv bs mc)
  unfolding calls
  opened-Ends argv none mc = nothing-Ends mc
  opened-Ends argv (some bs) mc =
      let (r, e, d) =
        svcmgr_lookup-Counts h real env quiet readbuf iodata fronts.goodbye backs.goodbye
          binder_service_manager (codes "goodbye") mc in
      subst (λ o. Ends mc.sent (got_goodbye env readbuf iodata calls argv o)) (sym e)
        (got_goodbye-Ends mc.sent argv r d)

  -- The program comes to an end when the driver fails in each call, if not before, where the deaths of
  -- services send nothing. It returns 0, or -1 before it asked for the hello service with success. A
  -- reference that it got for the hello service is taken once and given back once; the one for the
  -- goodbye service is taken once and never given back.
  pub client_main-Ends :
      (k : Answers) (argv : List (List ℕ)) (mc : Machine S)
      → Ends mc.sent (main env readbuf iodata (all_failing fronts backs) k argv mc)
  unfolding main calls
  client_main-Ends k argv mc = elim (Bool-cases (ltb (length argv) 2)) [
    | inl few ↦ rw few (nothing-Ends mc)
    | inr enough ↦ rw enough (opened-Ends argv (binder_open k 0x20000).state mc)
  ]
