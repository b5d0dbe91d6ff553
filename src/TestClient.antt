-- ===== src/TestClient.antt =====
-- `svcmgr_lookup` of binder/test_client.c: how a process asks the service manager for a service.
pub mod Lookup
pub mod Greetings
pub mod Main
use linux_labs.Prelude.{ℕ, Option, none, some, List, [], ◌==◌, if◌then◌else◌, codes}
use linux_labs.Memory.{Mem}
use linux_labs.Binder.Types.{BinderIo}
use linux_labs.Binder.Driver.{binder_acquire}
use linux_labs.Binder.Bio.{bio_init, bio_put_uint32, bio_put_string16_x, bio_get_ref}
use linux_labs.Binder.Looper.{Env, Machine}
use linux_labs.Binder.Looper.Call.{Answer, Called, call_ok, call_failed, binder_call, binder_done}
use linux_labs.ServiceManager.Handler.{svc_mgr_check_service}

-- `SVC_MGR_NAME`, whose units `svcmgr_id` has too.
abbrev pub svc_mgr_name : List ℕ
svc_mgr_name = codes "android.os.IServiceManager"

-- The request in the array `iodata` of 512 bytes.
unfoldable pub lookup_request : (iodata : ℕ) → List ℕ → BinderIo → Mem → BinderIo × Mem
lookup_request iodata name junk m =
    bio_put_string16_x (some name)
      (bio_put_string16_x (some svc_mgr_name) (bio_put_uint32 0 (bio_init iodata 512 4 junk, m)))

module _ {S : Type 0} where
  unfoldable pub keep_handle : ℕ → Machine S → Machine S
  keep_handle handle mc =
      if handle == 0 then mc else record mc { sent = binder_acquire handle mc.sent }

  -- What follows `binder_call`.
  abbrev pub looked_up : Option (Called × BinderIo × Machine S) → Option (ℕ × Machine S)
  looked_up none = none
  looked_up (some (call_failed, reply, mc)) = some (0, mc)
  looked_up (some (call_ok, reply, mc)) =
      let (handle, reply1) = bio_get_ref reply mc.mem in
      some (handle, (binder_done reply1 (keep_handle handle mc)).1)

  -- The call that `svcmgr_lookup` makes.
  abbrev pub lookup_call :
      Env S
      → (readbuf iodata : ℕ) → List Answer
      → (target : ℕ) → List ℕ
      → Machine S
      → Option (Called × BinderIo × Machine S)
  lookup_call env readbuf iodata answers target name mc =
      let (msg, mem) = lookup_request iodata name env.junk_io mc.mem in
      binder_call env readbuf answers msg env.junk_io target svc_mgr_check_service
        (record mc { mem = mem })

  unfoldable pub svcmgr_lookup :
      Env S
      → (readbuf iodata : ℕ) → List Answer
      → (target : ℕ) → List ℕ
      → Machine S
      → Option (ℕ × Machine S)
  svcmgr_lookup env readbuf iodata answers target name mc =
      looked_up (lookup_call env readbuf iodata answers target name mc)
