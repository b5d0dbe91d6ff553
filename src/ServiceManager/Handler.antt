-- ===== src/ServiceManager/Handler.antt =====
-- `svcmgr_handler` of binder/service_manager.c: one request to the service manager.
pub mod Requests
pub mod Safety
pub mod Publishing
use linux_labs.Prelude.{
  ℕ, zero, suc, ◌+◌, not, ◌&&◌, ◌||◌, Option, none, some, List, [], ◌∷◌, ◌==◌, if◌then◌else◌,
  length, codes,
}
use linux_labs.Memory.{Mem, load_units}
use linux_labs.Binder.Types.{BinderIo, Transaction, b_pack_chars}
use linux_labs.ServiceManager.{
  Manager, Status, SvcInfo, fail, ok, do_find_service, svc_can_list, same_units, do_add_service,
}
use linux_labs.Binder.Bio.{
  bio_put_uint32, bio_put_ref, bio_get_uint32, bio_get_string16, bio_get_ref, bio_put_string16,
}

abbrev pub ping_transaction : ℕ
ping_transaction = b_pack_chars b'_' b'P' b'N' b'G'

abbrev pub svc_mgr_get_service : ℕ
svc_mgr_get_service = 1

abbrev pub svc_mgr_check_service : ℕ
svc_mgr_check_service = 2

abbrev pub svc_mgr_add_service : ℕ
svc_mgr_add_service = 3

abbrev pub svc_mgr_list_services : ℕ
svc_mgr_list_services = 4

-- "android.os.IServiceManager"
abbrev pub svcmgr_id : List ℕ
svcmgr_id = codes "android.os.IServiceManager"

-- What a request can change: the services, the reply and the memory. `msg` is the rest of the
-- request.
pub record World : Type 0 where
  pub mgr : Manager
  pub msg : BinderIo
  pub reply : BinderIo
  pub mem : Mem

-- The units from a string's pointer on, with the one behind its end.
abbrev units_at : ℕ → ℕ → Mem → List ℕ
units_at p len m = load_units (len + 1) p m

-- `bio_put_uint32(reply, 0)` behind the switch.
unfoldable pub reply_zero : World → Status × World
reply_zero w =
    let (reply, mem) = bio_put_uint32 0 (w.reply, w.mem) in
    (ok, record w { reply = reply; mem = mem })

unfoldable pub reply_handle : ℕ → World → Status × World
reply_handle handle w =
    if handle == 0
    then reply_zero w
    else (let (reply, mem) = bio_put_ref handle (w.reply, w.mem) in
        (ok, record w { reply = reply; mem = mem }))

-- SVC_MGR_GET_SERVICE and SVC_MGR_CHECK_SERVICE.
unfoldable pub on_find : Transaction → Option ℕ × ℕ × BinderIo → World → Status × World
on_find txn (none, len, msg) w = (fail, record w { msg = msg })
on_find txn (some p, len, msg) w =
    reply_handle
      (do_find_service (units_at p len w.mem) len txn.sender_euid txn.sender_pid w.mgr.svclist)
      (record w { msg = msg })

abbrev added_service : Status × Manager → World → Status × World
added_service (fail, mgr) w = (fail, record w { mgr = mgr })
added_service (ok, mgr) w = reply_zero (record w { mgr = mgr })

-- SVC_MGR_ADD_SERVICE.
unfoldable pub on_add : Option ℕ → Transaction → Option ℕ × ℕ × BinderIo → World → Status × World
on_add fresh txn (none, len, msg) w = (fail, record w { msg = msg })
on_add fresh txn (some p, len, msg) w =
    let (handle, msg1) = bio_get_ref msg w.mem in
    let (flag, msg2) = bio_get_uint32 msg1 w.mem in
    added_service
      (do_add_service fresh (units_at p len w.mem) len handle txn.sender_euid
        (if flag == 0 then 0 else 1) txn.sender_pid w.mgr)
      (record w { msg = msg2 })

-- `while ((n-- > 0) && si) si = si->next;`
unfoldable pub nth_svc : ℕ → List SvcInfo → Option SvcInfo
nth_svc n [] = none
nth_svc zero (si ∷ rest) = some si
nth_svc (suc n) (si ∷ rest) = nth_svc n rest

abbrev reply_name : Option SvcInfo → World → Status × World
reply_name none w = (fail, w)
reply_name (some si) w =
    let (reply, mem) = bio_put_string16 (some si.name) (w.reply, w.mem) in
    (ok, record w { reply = reply; mem = mem })

-- SVC_MGR_LIST_SERVICES.
unfoldable pub on_list : Transaction → World → Status × World
on_list txn w =
    let (n, msg) = bio_get_uint32 w.msg w.mem in
    if not (svc_can_list txn.sender_pid)
    then (fail, record w { msg = msg })
    else reply_name (nth_svc n w.mgr.svclist) (record w { msg = msg })

-- The switch on the code of the request.
unfoldable pub on_code : Option ℕ → Transaction → World → Status × World
on_code fresh txn w =
    if (txn.code == svc_mgr_get_service) || (txn.code == svc_mgr_check_service)
    then on_find txn (bio_get_string16 w.msg w.mem) w
    else if txn.code == svc_mgr_add_service
    then on_add fresh txn (bio_get_string16 w.msg w.mem) w
    else if txn.code == svc_mgr_list_services
    then on_list txn w
    else (fail, w)

-- The test of the interface name that stands behind the strict mode policy.
unfoldable pub check_id : Option ℕ → Transaction → Option ℕ × ℕ × BinderIo → World → Status × World
check_id fresh txn (none, len, msg) w = (fail, record w { msg = msg })
check_id fresh txn (some p, len, msg) w =
    if (len == length svcmgr_id) && same_units (length svcmgr_id) svcmgr_id (units_at p len w.mem)
    then on_code fresh txn (record w { msg = msg })
    else (fail, record w { msg = msg })

-- `fresh` is what `malloc` returns, should the request need it.
unfoldable pub svcmgr_handler :
    (svcmgr_handle : ℕ) → Option ℕ → Transaction → World → Status × World
svcmgr_handler svcmgr_handle fresh txn w =
    if not (txn.target == svcmgr_handle)
    then (fail, w)
    else if txn.code == ping_transaction
    then (ok, w)
    else (let (strict_policy, msg) = bio_get_uint32 w.msg w.mem in
        check_id fresh txn (bio_get_string16 msg w.mem) w)
