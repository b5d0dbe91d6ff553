-- ===== src/TestServer/Main/Start.antt =====
-- `main` of binder/test_server.c: it publishes its two services, and serves what comes in.
use linux_labs.Prelude.{
  ℕ, ◌≡◌, refl, sym, ap, ◌∙◌, ◌≢◌, ◌⊎◌, inl, inr, Option, none, some, List, [], ◌∷◌, ◌++◌, ◌==◌,
  if◌then◌else◌, Bool-cases, codes,
}
use linux_labs.Binder.Types.{BinderIo, Transaction}
use linux_labs.Binder.Driver.{Command, free_buffer, reply, enter_looper}
use linux_labs.Binder.Device.{Answers, BinderState, binder_open}
use linux_labs.Binder.Looper.{Env, Machine, Handler}
use linux_labs.Binder.Looper.Call.{Answer, no_answer, Called, call_ok, call_failed}
use linux_labs.Binder.Looper.Call.Quiet.{IsQuiet}
use linux_labs.Binder.Looper.Rounds.{Looped, IsKept, binder_loop, binder_loop-Goes}
use linux_labs.Binder.Bio.{bio_get_uint32}
use linux_labs.ServiceManager.Main.{binder_service_manager}
use linux_labs.ServiceManager.Handler.{svc_mgr_add_service}
use linux_labs.ServiceManager.References.{acquired, released}
use linux_labs.TestClient.Main.Counts.{
  Counts, Counts-trans, Counts-refl, Counts-append, call-Counts, binder_done-Counts,
}
use linux_labs.TestServer.{refused}
use linux_labs.TestServer.Main.{
  svcmgr_publish, publish_call, publish_request, published, Greeted, test_server_handler,
  hello_func, goodbye_func,
}
use mathlib.Core.Path.{subst}
use mathlib.Core.Option.{some-injective}

-- What the driver answers to the two publications and in the loop.
pub record Served : Type 0 where
  pub hello : List Answer
  pub goodbye : List Answer
  pub loop : List Answer

module _ (env : Env Greeted) (readbuf iodata : ℕ) (answers : Served) (hello_at goodbye_at : ℕ) where
  abbrev pub looped : Option (Looped × Machine Greeted) → Option (ℕ × Machine Greeted)
  looped none = none
  looped (some (st, mc)) = some (0, mc)

  -- The result of the second publication is logged only, and so is that of `binder_set_maxthreads`.
  abbrev pub second : Option (ℕ × Machine Greeted) → Option (ℕ × Machine Greeted)
  second none = none
  second (some (ret, mc)) = looped (binder_loop env readbuf answers.loop mc)

  abbrev pub first : Option (ℕ × Machine Greeted) → Option (ℕ × Machine Greeted)
  first none = none
  first (some (ret, mc)) =
      if ret == 0
      then second (
          svcmgr_publish env readbuf iodata answers.goodbye binder_service_manager (codes "goodbye")
            goodbye_at mc)
      else some (refused, mc)

  abbrev pub opened : Option BinderState → Machine Greeted → Option (ℕ × Machine Greeted)
  opened none mc = some (refused, mc)
  opened (some bs) mc = first (
      svcmgr_publish env readbuf iodata answers.hello binder_service_manager (codes "hello")
        hello_at mc)

  unfoldable pub main : Answers → Machine Greeted → Option (ℕ × Machine Greeted)
  main k mc = opened (binder_open k 0x20000).state mc

-- The services send nothing themselves.
abbrev pub IsServing : (ℕ → Handler Greeted) → Type 0
IsServing code_at =
    (p : ℕ) (txn : Transaction) (msg io : BinderIo) (mc : Machine Greeted)
    → (code_at p txn msg io mc).2.sent ≡ mc.sent

-- The code of the program: the two services at their addresses.
abbrev pub services : (hello_name goodbye_name : ℕ) → (hello_at : ℕ) → ℕ → Handler Greeted
services hello_name goodbye_name hello_at p =
    if p == hello_at then hello_func hello_name else goodbye_func goodbye_name

pub services-IsServing :
    (hello_name goodbye_name hello_at : ℕ) → IsServing (services hello_name goodbye_name hello_at)
unfolding hello_func goodbye_func
services-IsServing hello_name goodbye_name hello_at p txn msg io mc =
    elim (Bool-cases (p == hello_at)) [ inl is ↦ rw is refl | inr other ↦ rw other refl ]

module _ (env : Env Greeted) (quiet : IsQuiet env) (readbuf iodata h : ℕ) (real : h ≢ 0) where
  published-Counts :
      (cs : List Command) (st : Called) (io : BinderIo) (mc : Machine Greeted)
      → Counts h 0 0 cs mc.sent
      → (r : ℕ × Machine Greeted) × (published (some (st, io, mc)) ≡ some r)
        × Counts h 0 0 cs r.1.sent
  published-Counts cs call_failed io mc c = ((refused, mc), refl, c)
  published-Counts cs call_ok io mc c =
      let (status, io1) = bio_get_uint32 io mc.mem in
      (_, refl, Counts-trans h c (binder_done-Counts h real io1 mc) refl refl)

  publish-Counts :
      (front back : List Answer) (target : ℕ) (name : List ℕ) (ptr : ℕ) (mc : Machine Greeted)
      → (r : ℕ × Machine Greeted) × (svcmgr_publish env readbuf iodata
            (front ++ no_answer ∷ back)
            target
            name
            ptr
            mc
          ≡ some r)
        × Counts h 0 0 mc.sent r.1.sent
  unfolding svcmgr_publish publish_call
  publish-Counts front back target name ptr mc =
      let (msg, mem) = publish_request iodata name ptr env.junk_io mc.mem in
      let (st, io, mc1, e, c) =
        call-Counts h real env quiet readbuf iodata front back msg env.junk_io target
          svc_mgr_add_service (record mc { mem = mem }) in
      let (r, f, d) = published-Counts mc.sent st io mc1 c in (r, ap published e ∙ f, d)

  module _ (code_at : ℕ → Handler Greeted) (serving : IsServing code_at)
      (runs : env.func ≡ some (test_server_handler code_at)) (cs : List Command) where
    env-IsKept : IsKept env (λ s ds. Counts h 0 0 cs ds)
    unfolding test_server_handler acquired released
    env-IsKept = record {
      on_func = λ func txn msg io mc e c.
          subst (λ (f : Handler Greeted). Counts h 0 0 cs (f txn msg io mc).2.sent)
            (some-injective (test_server_handler code_at) func (sym runs ∙ e))
            (subst (Counts h 0 0 cs) (sym (serving txn.target txn msg io mc)) c);
      on_death = λ p mc c. subst (Counts h 0 0 cs) (sym (quiet p mc)) c;
      on_reply = λ s ds buffer txn c.
          Counts-trans h c (Counts-append h ds (free_buffer buffer ∷ reply txn ∷ [])) refl refl;
      on_enter = λ s ds c. Counts-trans h c (Counts-append h ds (enter_looper ∷ [])) refl refl;
    }

  -- How the program ended.
  abbrev pub Ends : Machine Greeted → Option (ℕ × Machine Greeted) → Type 0
  Ends mc o =
      (code : ℕ) × (mc1 : Machine Greeted) × (o ≡ some (code, mc1))
      × ((code ≡ 0) ⊎ (code ≡ refused))
      × Counts h 0 0 mc.sent mc1.sent

  module _ (code_at : ℕ → Handler Greeted) (serving : IsServing code_at)
      (runs : env.func ≡ some (test_server_handler code_at)) (front back : Served)
      (hello_at goodbye_at : ℕ) where
    answers : Served
    answers = record {
      hello = front.hello ++ no_answer ∷ back.hello;
      goodbye = front.goodbye ++ no_answer ∷ back.goodbye;
      loop = front.loop;
    }

    second-Ends :
        (mc : Machine Greeted) (r : ℕ × Machine Greeted)
        → Counts h 0 0 mc.sent r.1.sent
        → Ends mc (second env readbuf iodata answers hello_at goodbye_at (some r))
    unfolding answers
    second-Ends mc (ret, mc1) c =
        let (st, mc2, e, d) =
          binder_loop-Goes env (λ s ds. Counts h 0 0 mc.sent ds)
            (env-IsKept code_at serving runs mc.sent) readbuf front.loop mc1 c in
        (0, mc2, ap (looped env readbuf iodata answers hello_at goodbye_at) e, inl refl, d)

    first-Ends :
        (mc : Machine Greeted) (r : ℕ × Machine Greeted)
        → Counts h 0 0 mc.sent r.1.sent
        → Ends mc (first env readbuf iodata answers hello_at goodbye_at (some r))
    unfolding answers
    first-Ends mc (ret, mc1) c = elim (Bool-cases (ret == 0)) [
      | inl done ↦
          let (r, e, d) =
            publish-Counts front.goodbye back.goodbye binder_service_manager (codes "goodbye")
              goodbye_at mc1 in
          rw done (
            subst (λ o. Ends mc (second env readbuf iodata answers hello_at goodbye_at o)) (sym e)
              (second-Ends mc r (Counts-trans h c d refl refl)))
      | inr not_done ↦ rw not_done (refused, mc1, refl, inr refl, c)
    ]

    opened-Ends :
        (bs : Option BinderState) (mc : Machine Greeted)
        → Ends mc (opened env readbuf iodata answers hello_at goodbye_at bs mc)
    unfolding answers
    opened-Ends none mc = (refused, mc, refl, inr refl, Counts-refl h mc.sent)
    opened-Ends (some bs) mc =
        let (r, e, d) =
          publish-Counts front.hello back.hello binder_service_manager (codes "hello") hello_at
            mc in
        subst (λ o. Ends mc (first env readbuf iodata answers hello_at goodbye_at o)) (sym e)
          (first-Ends mc r d)

    -- The program comes to an end when the driver fails in each of the two publications, if not before,
    -- and for any rounds of its loop: it returns 0, or -1 without the loop. It takes and gives back no
    -- reference, where its services send nothing and neither do the deaths of others.
    pub server_main-Ends :
        (k : Answers) (mc : Machine Greeted)
        → Ends mc (
            main env readbuf iodata
              (record {
                hello = front.hello ++ no_answer ∷ back.hello;
                goodbye = front.goodbye ++ no_answer ∷ back.goodbye;
                loop = front.loop;
              })
              hello_at
              goodbye_at
              k
              mc)
    unfolding main answers
    server_main-Ends k mc = opened-Ends (binder_open k 0x20000).state mc
