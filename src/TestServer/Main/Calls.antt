-- ===== src/TestServer/Main/Calls.antt =====
-- What comes back from `svcmgr_publish`, and from a service that is called through
-- `test_server_handler` (binder/test_server.c).
use linux_labs.Prelude.{
  ℕ, ◌+◌, ◌*◌, ◌≤◌, ◌<◌, ◌≡◌, refl, ap, ◌∙◌, true, some, List, [], ◌∷◌, ◌++◌, ◌^◌, length,
}
use linux_labs.Binder.Types.{BinderIo, Transaction}
use linux_labs.Binder.Driver.{free_buffer}
use linux_labs.Binder.Bio.{bio_get_uint32, bio_init, bio_init_from_txn, message_txn}
use linux_labs.Binder.Bio.RoundTrip.{IsBuffer}
use linux_labs.Binder.Looper.{Env, Machine, Handler}
use linux_labs.Binder.Looper.Call.{Answer, no_answer, Called, call_ok, call_failed, binder_done}
use linux_labs.Binder.Looper.Call.Done.{IsFinished, binder_call-Ends}
use linux_labs.ServiceManager.Handler.{svc_mgr_add_service}
use linux_labs.TestClient.Lookup.{binder_done-shared}
use linux_labs.TestClient.Greetings.{read_answer}
use linux_labs.TestClient.Greetings.Answers.{bio_get_uint32-SameBuffer, greeting_round_trip}
use linux_labs.TestServer.{refused}
use linux_labs.TestServer.Greets.{Asks}
use linux_labs.TestServer.Main.{
  publish_request, publish_call, svcmgr_publish, published, Greeted, as_service, hello_func,
  test_server_handler,
}

module _ {S : Type 0} where
  -- The result of a publication whose call came back with `st` and `io`.
  abbrev pub IsPublished : Called → BinderIo → Machine S → ℕ × Machine S → Type 0
  IsPublished call_failed io mc r = r ≡ (refused, mc)
  IsPublished call_ok io mc (status, mc1) =
      (status ≡ (bio_get_uint32 io mc.mem).0) × (mc1.sent ≡ mc.sent ++ free_buffer io.data0 ∷ [])

  published-IsPublished :
      (st : Called) (io : BinderIo) (mc : Machine S)
      → IsFinished st io mc
      → (r : ℕ × Machine S) × (published (some (st, io, mc)) ≡ some r) × IsPublished st io mc r
  unfolding bio_init_from_txn
  published-IsPublished call_failed io mc h = ((refused, mc), refl, refl)
  published-IsPublished call_ok io mc h =
      let (status, io1) = bio_get_uint32 io mc.mem in
      let (base, flag) = bio_get_uint32-SameBuffer io mc.mem in
      let shared : io1.flags.shared ≡ true = flag ∙ ap (λ (i : BinderIo). i.flags.shared) h.0.1 in
      (
        (status, (binder_done io1 mc).1),
        refl,
        (refl, binder_done-shared io1 mc shared ∙ ap (λ b. mc.sent ++ free_buffer b ∷ []) base),
      )

  -- A publication returns when the driver fails, if not before: -1 after a failed call, with nothing
  -- sent behind it; else the word of the reply, whose buffer is given back, once.
  pub svcmgr_publish-IsPublished :
      (env : Env S) (readbuf iodata : ℕ) (front back : List Answer) (target : ℕ) (name : List ℕ)
      (ptr : ℕ) (mc : Machine S)
      → let answers = front ++ no_answer ∷ back in
        (st : Called) × (io : BinderIo) × (mc1 : Machine S) × (r : ℕ × Machine S) × (publish_call
            env readbuf iodata answers target name ptr mc
          ≡ some (st, io, mc1))
        × (svcmgr_publish env readbuf iodata answers target name ptr mc ≡ some r)
        × IsPublished st io mc1 r
  unfolding svcmgr_publish publish_call
  svcmgr_publish-IsPublished env readbuf iodata front back target name ptr mc =
      let (msg, mem) = publish_request iodata name ptr env.junk_io mc.mem in
      let (st, io, mc1, e, h) =
        binder_call-Ends env readbuf front back msg env.junk_io target svc_mgr_add_service
          (record mc { mem = mem }) in
      let (r, f, g) = published-IsPublished st io mc1 h in
      (st, io, mc1, r, e, ap published e ∙ f, g)

-- A well-formed request with a name of fewer than 512 units to the address of
-- `hello_service_handler`: it is answered with 0 and the client reads the new count of hello from the
-- reply, where the reply was fresh with room for two words and the int that counts does not overflow. The
-- array of the name is not overrun. The counters of goodbye stay.
pub hello_round_trip :
    (code_at : ℕ → Handler Greeted) (name_at p : ℕ) (i k : List ℕ) (txn : Transaction)
    (msg : BinderIo) (mc : Machine Greeted) (base maxdata maxoffs : ℕ) (junk : BinderIo)
    → code_at txn.target ≡ hello_func name_at
    → IsBuffer maxdata maxoffs
    → 8 + maxoffs * 4 ≤ maxdata
    → Asks txn (as_service mc.state.hello msg (bio_init base maxdata maxoffs junk) mc) p i k
    → length k < 512
    → mc.state.hello.said_to + 1 < 2 ^ 31
    → let (res, io, mc1) =
        test_server_handler code_at txn msg (bio_init base maxdata maxoffs junk) mc in
      (res ≡ 0)
      × ((read_answer (bio_init_from_txn (message_txn io txn)) mc1.mem).0
          ≡ mc.state.hello.said_to + 1)
      × (mc1.state.hello.said_to ≡ mc.state.hello.said_to + 1)
      × (mc1.state.hello.is_overrun ≡ mc.state.hello.is_overrun)
      × (mc1.state.goodbye ≡ mc.state.goodbye)
unfolding test_server_handler hello_func
hello_round_trip code_at name_at p i k txn msg mc base maxdata maxoffs junk there b room a short
      few =
    let w = as_service mc.state.hello msg (bio_init base maxdata maxoffs junk) mc in
    let (answered, said, counted, kept) =
      greeting_round_trip name_at p i k txn w a base maxdata maxoffs junk b room refl short few in
    rw (test_server_handler, there, hello_func) (answered, said, counted, kept, refl)
