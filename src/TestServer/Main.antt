-- ===== src/TestServer/Main.antt =====
-- `svcmgr_publish` and `test_server_handler` of binder/test_server.c.
pub mod Calls
pub mod Start
use linux_labs.Prelude.{ℕ, Option, none, some, List, []}
use linux_labs.Memory.{Mem}
use linux_labs.Binder.Types.{BinderIo}
use linux_labs.Binder.Bio.{
  bio_init, bio_put_uint32, bio_put_string16_x, bio_put_obj, bio_get_uint32,
}
use linux_labs.Binder.Looper.{Env, Machine, Handler}
use linux_labs.Binder.Looper.Call.{Answer, Called, call_ok, call_failed, binder_call, binder_done}
use linux_labs.ServiceManager.Handler.{svc_mgr_add_service}
use linux_labs.TestClient.{svc_mgr_name}
use linux_labs.TestServer.{Said, Service, refused, hello_service_handler, goodbye_service_handler}

-- The request of `svcmgr_publish` in the array `iodata` of 512 bytes.
unfoldable pub publish_request : (iodata : ℕ) → List ℕ → (ptr : ℕ) → BinderIo → Mem → BinderIo × Mem
publish_request iodata name ptr junk m = bio_put_obj ptr (
    bio_put_string16_x (some name)
      (bio_put_string16_x (some svc_mgr_name) (bio_put_uint32 0 (bio_init iodata 512 4 junk, m))))

module _ {S : Type 0} where
  -- What follows the `binder_call` of `svcmgr_publish`.
  abbrev pub published : Option (Called × BinderIo × Machine S) → Option (ℕ × Machine S)
  published none = none
  published (some (call_failed, reply, mc)) = some (refused, mc)
  published (some (call_ok, reply, mc)) =
      let (status, reply1) = bio_get_uint32 reply mc.mem in some (status, (binder_done reply1 mc).1)

  module _ (env : Env S) (readbuf iodata : ℕ) where
    unfoldable pub publish_call :
        List Answer
        → (target : ℕ) → List ℕ
        → (ptr : ℕ) → Machine S
        → Option (Called × BinderIo × Machine S)
    publish_call answers target name ptr mc =
        let (msg, mem) = publish_request iodata name ptr env.junk_io mc.mem in
        binder_call env readbuf answers msg env.junk_io target svc_mgr_add_service
          (record mc { mem = mem })

    unfoldable pub svcmgr_publish :
        List Answer → (target : ℕ) → List ℕ → (ptr : ℕ) → Machine S → Option (ℕ × Machine S)
    svcmgr_publish answers target name ptr mc = published (publish_call answers target name ptr mc)

-- The counters of the two services.
pub record Greeted : Type 0 where
  pub hello : Said
  pub goodbye : Said

-- A service's handler as a `binder_handler`, on its own counters.
abbrev pub as_service : Said → BinderIo → BinderIo → Machine Greeted → Service
as_service cnt msg io mc = record { cnt = cnt; msg = msg; reply = io; mem = mc.mem }

unfoldable pub hello_func : (name_at : ℕ) → Handler Greeted
hello_func name_at txn msg io mc =
    let (res, w) = hello_service_handler name_at txn (as_service mc.state.hello msg io mc) in
    (res, w.reply, record mc { state = record (mc.state) { hello = w.cnt }; mem = w.mem })

unfoldable pub goodbye_func : (name_at : ℕ) → Handler Greeted
goodbye_func name_at txn msg io mc =
    let (res, w) = goodbye_service_handler name_at txn (as_service mc.state.goodbye msg io mc) in
    (res, w.reply, record mc { state = record (mc.state) { goodbye = w.cnt }; mem = w.mem })

-- `code_at` is the function that a call of an address runs.
unfoldable pub test_server_handler : (code_at : ℕ → Handler Greeted) → Handler Greeted
test_server_handler code_at txn msg io mc = code_at txn.target txn msg io mc
