-- ===== src/ServiceManager/Handler/Requests.antt =====
-- The requests that binder/test_client.c and binder/test_server.c send, as `svcmgr_handler` of
-- binder/service_manager.c serves them.
use linux_labs.Prelude.{
  ℕ, ◌+◌, ◌*◌, ◌≤◌, ◌≡◌, refl, ap, ◌∙◌, ◌≢◌, ◌⊎◌, true, false, ◌&&◌, ◌||◌, Option, some, List, [],
  ◌∷◌, ◌++◌, arith, ◌==◌, length, ==-eq-false,
}
use linux_labs.Memory.{Mem}
use linux_labs.Binder.Types.{BinderIo, Transaction, size_of_object}
use linux_labs.Binder.Bio.Layout.{
  Item, num, AreSendable, text, sizes, Holds, IsSendable, size, HoldsItem, ref,
}
use linux_labs.ServiceManager.Handler.{
  World, svcmgr_id, ping_transaction, svcmgr_handler, check_id, on_code, svc_mgr_get_service,
  svc_mgr_check_service, reply_handle, on_find, on_add, svc_mgr_add_service, added_service,
}
use linux_labs.ServiceManager.{same_units, do_add_service}
use linux_labs.Binder.Bio.{advance, bio_get_string16, align4, set_overflow}
use linux_labs.Binder.Bio.Reads.{
  bio_get_uint32-fits, bio_get_string16-fits, advance-advance, bio_get_ref-fits,
  bio_get_uint32-short,
}
use linux_labs.ServiceManager.Registry.{AreEntries, lookup}
use linux_labs.ServiceManager.Finding.{visible, do_find_service-visible}

-- The request stands in memory at the cursor of `msg`, and fits it.
pub record IsRequest (w : World) (xs : List Item) : Type 0 where
  pub sendable : AreSendable xs
  pub room : sizes xs ≤ w.msg.data_avail
  pub held : Holds w.mem w.msg.offs_avail w.msg.offs w.msg.data0 w.msg.cursor xs

abbrev pub header : ℕ → List Item → List Item
header policy xs = num policy ∷ text svcmgr_id ∷ xs

-- Where `msg` stands behind the first items.
abbrev pub behind : World → List Item → BinderIo
behind w xs = advance (sizes xs) w.msg

id_known :
    (length svcmgr_id == length svcmgr_id)
      && same_units (length svcmgr_id) svcmgr_id (svcmgr_id ++ 0 ∷ [])
    ≡ true
unfolding same_units
id_known = refl

pub text_at :
    (io : BinderIo) (m : Mem) (s : List ℕ)
    → IsSendable (text s)
    → size (text s) ≤ io.data_avail
    → HoldsItem m io.offs_avail io.offs io.data0 io.cursor (text s)
    → bio_get_string16 io m ≡ (some (io.cursor + 4), length s, advance (size (text s)) io)
text_at io m s ok room h =
    bio_get_string16-fits io m (length s) h.0 ok.2 room
    ∙ ap (λ io1. (some (io.cursor + 4), length s, io1))
        (advance-advance 4 (align4 ((length s + 1) * 2)) io)

on_code_find :
    (fresh : Option ℕ) (txn : Transaction) (w : World) (k : List ℕ)
    → (txn.code ≡ svc_mgr_get_service) ⊎ (txn.code ≡ svc_mgr_check_service)
    → AreEntries w.mgr.svclist
    → IsSendable (text k)
    → size (text k) ≤ w.msg.data_avail
    → HoldsItem w.mem w.msg.offs_avail w.msg.offs w.msg.data0 w.msg.cursor (text k)
    → on_code fresh txn w
      ≡ reply_handle
          (visible txn.sender_euid (lookup w.mgr.svclist k))
          (record w { msg = advance (size (text k)) w.msg })
unfolding on_code on_find
on_code_find fresh txn w k asks entries ok room h =
    let asks' : (txn.code == svc_mgr_get_service) || (txn.code == svc_mgr_check_service) ≡ true =
      ground arith in
    rw (
      asks',
      text_at w.msg w.mem k ok room h,
      h.1,
      do_find_service-visible k (0 ∷ []) txn.sender_euid txn.sender_pid w.mgr.svclist entries,
    )

on_code_add :
    (fresh : Option ℕ) (txn : Transaction) (w : World) (k : List ℕ) (h : ℕ)
    → txn.code ≡ svc_mgr_add_service
    → AreSendable (text k ∷ ref h ∷ [])
    → sizes (text k ∷ ref h ∷ []) ≡ w.msg.data_avail
    → Holds w.mem w.msg.offs_avail w.msg.offs w.msg.data0 w.msg.cursor (text k ∷ ref h ∷ [])
    → on_code fresh txn w
      ≡ added_service
          (do_add_service fresh (k ++ 0 ∷ []) (length k) h txn.sender_euid 0 txn.sender_pid w.mgr)
          (record w {
            msg = set_overflow (record (advance size_of_object (advance (size (text k)) w.msg)) {
              data_avail = 0;
            });
          })
unfolding on_code on_add advance
on_code_add fresh txn w k h asks ok room held =
    let two : (txn.code == svc_mgr_get_service) || (txn.code == svc_mgr_check_service) ≡ false =
      ground arith in
    let three : (txn.code == svc_mgr_add_service) ≡ true = ground arith in
    let io1 = advance (size (text k)) w.msg in
    let object = bio_get_ref-fits io1 w.mem (omega arith) held.1.0.2 held.1.0.0 in
    rw (
      two,
      three,
      text_at w.msg w.mem k ok.0 (omega arith) held.0,
      held.0.1,
      object,
      held.1.0.1,
      bio_get_uint32-short (advance size_of_object io1) w.mem (omega arith),
    )

advance_three :
    (a b c : ℕ) (io : BinderIo)
    → advance c (advance b (advance a io)) ≡ advance (a + (b + (c + 0))) io
advance_three a b c io =
    rw (advance-advance a b io, advance-advance (a + b) c io) (ap (λ n. advance n io) (omega arith))

advance_four :
    (a b c d : ℕ) (io : BinderIo)
    → advance d (advance c (advance b (advance a io))) ≡ advance (a + (b + (c + (d + 0)))) io
advance_four a b c d io =
    rw (advance-advance a b io, advance-advance (a + b) c io, advance-advance (a + b + c) d io)
      (ap (λ n. advance n io) (omega arith))

module _ (handle : ℕ) (fresh : Option ℕ) (txn : Transaction) (w : World)
    (mine : txn.target ≡ handle) (no_ping : txn.code ≢ ping_transaction) where
  -- The header is read and passed.
  header_passes :
      (policy : ℕ) (xs : List Item)
      → IsRequest w (header policy xs)
      → svcmgr_handler handle fresh txn w
        ≡ on_code fresh txn (record w { msg = advance (size (text svcmgr_id)) (advance 4 w.msg) })
  unfolding svcmgr_handler check_id advance
  header_passes policy xs r =
      let mine' : (txn.target == handle) ≡ true = ground arith in
      let size_ok = r.room in
      rw (
        mine',
        ==-eq-false txn.code ping_transaction no_ping,
        bio_get_uint32-fits w.msg w.mem (omega arith),
        text_at (advance 4 w.msg) w.mem svcmgr_id r.sendable.1.0 (omega arith) r.held.1.0,
        r.held.1.0.1,
        id_known,
      )

  -- A request for a name is answered with the visible handle under that name.
  pub find_request :
      (policy : ℕ) (k : List ℕ)
      → (txn.code ≡ svc_mgr_get_service) ⊎ (txn.code ≡ svc_mgr_check_service)
      → AreEntries w.mgr.svclist
      → IsRequest w (header policy (text k ∷ []))
      → svcmgr_handler handle fresh txn w
        ≡ reply_handle
            (visible txn.sender_euid (lookup w.mgr.svclist k))
            (record w { msg = behind w (header policy (text k ∷ [])) })
  find_request policy k asks entries r =
      header_passes policy (text k ∷ []) r
      ∙ on_code_find fresh txn
          (record w { msg = advance (size (text svcmgr_id)) (advance 4 w.msg) }) k asks entries
          r.sendable.1.1.0 (unfold advance in omega (arith, r.room))
          (unfold advance in r.held.1.1.0)
      ∙ ap
          (λ io.
            reply_handle (visible txn.sender_euid (lookup w.mgr.svclist k)) (record w { msg = io }))
          (advance_three 4 (size (text svcmgr_id)) (size (text k)) w.msg)

  -- A publication, which carries no flag, is a registration with `allow_isolated` 0.
  pub publish_request :
      (policy : ℕ) (k : List ℕ) (h : ℕ)
      → txn.code ≡ svc_mgr_add_service
      → IsRequest w (header policy (text k ∷ ref h ∷ []))
      → sizes (header policy (text k ∷ ref h ∷ [])) ≡ w.msg.data_avail
      → svcmgr_handler handle fresh txn w
        ≡ added_service
            (do_add_service fresh (k ++ 0 ∷ []) (length k) h txn.sender_euid 0 txn.sender_pid w.mgr)
            (record w {
              msg =
                  set_overflow
                    (record (behind w (header policy (text k ∷ ref h ∷ []))) { data_avail = 0 });
            })
  publish_request policy k h adds r whole =
      header_passes policy (text k ∷ ref h ∷ []) r
      ∙ on_code_add fresh txn (record w { msg = advance (size (text svcmgr_id)) (advance 4 w.msg) })
          k h adds r.sendable.1.1 (unfold advance in omega (arith, whole))
          (unfold advance in r.held.1.1)
      ∙ ap
          (λ io.
            added_service
              (do_add_service fresh (k ++ 0 ∷ []) (length k) h txn.sender_euid 0 txn.sender_pid
                w.mgr)
              (record w { msg = set_overflow (record io { data_avail = 0 }) }))
          (advance_four 4 (size (text svcmgr_id)) (size (text k)) size_of_object w.msg)
