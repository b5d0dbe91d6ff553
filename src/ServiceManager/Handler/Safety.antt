-- ===== src/ServiceManager/Handler/Safety.antt =====
-- What no request to `svcmgr_handler` of binder/service_manager.c can break.
use linux_labs.Prelude.{
  ℕ, zero, suc, ◌+◌, ◌≡◌, refl, ap, inl, inr, ◌&&◌, ◌||◌, Option, none, some, List, [], ◌∷◌, ◌++◌,
  arith, ◌==◌, if◌then◌else◌, length, Bool-cases,
}
use linux_labs.ServiceManager.{ok, fail, same_units}
use linux_labs.Memory.{Mem, length-load_units}
use linux_labs.Binder.Types.{BinderIo, Transaction}
use linux_labs.ServiceManager.Handler.{
  World, reply_zero, reply_handle, on_find, on_list, svc_can_list, bio_get_uint32, units_at,
  reply_name, nth_svc, added_service, on_add, on_code, svc_mgr_get_service, svc_mgr_check_service,
  svc_mgr_add_service, svc_mgr_list_services, check_id, svcmgr_handler, svcmgr_id, ping_transaction,
}
use linux_labs.Binder.Bio.Bounds.{
  Kept, bio_put_uint32-Kept, bio_put_ref-Kept, bio_put_string16-Kept,
}
use linux_labs.ServiceManager.Registry.{IsList, IsFresh}
use linux_labs.ServiceManager.{
  svc_can_list, do_find_service, SvcInfo, Status, Manager, do_add_service,
}
use linux_labs.ServiceManager.References.{IsBalanced, do_add_service-IsBalanced}
use linux_labs.Binder.Bio.{bio_get_uint32, bio_get_ref, bio_get_string16}
use mathlib.Core.Path.{subst}
use linux_labs.ServiceManager.Runs.{do_add_service-listed}

-- The services are well formed and the references balanced; the reply is written in its buffer only.
pub record IsSafe (reply : BinderIo) (mem : Mem) (w' : World) : Type 0 where
  pub listed : IsList w'.mgr.svclist
  pub balanced : IsBalanced w'.mgr
  pub in_reply : Kept reply mem w'.reply w'.mem

split_last :
    (n : ℕ) (xs : List ℕ)
    → length xs ≡ n + 1
    → (k : List ℕ) × (x : ℕ) × (length k ≡ n) × (xs ≡ k ++ x ∷ [])
split_last n [] e = absurd (omega arith)
split_last zero (x ∷ []) e = ([], x, refl, refl)
split_last zero (x ∷ y ∷ xs) e = absurd (omega arith)
split_last (suc n) (x ∷ xs) e =
    let (k, y, f, g) = split_last n xs (omega arith) in (x ∷ k, y, ap suc f, ap (λ zs. x ∷ zs) g)

Kept-refl : (io : BinderIo) (m : Mem) → Kept io m io m
Kept-refl io m = record {
  data_end = refl;
  data_up = omega arith;
  offs_end = refl;
  offs_up = omega arith;
  same = λ x p q. refl;
}

-- `w'` has the manager and the reply of `w`.
keeps :
    (w w' : World)
    → IsList w.mgr.svclist
    → IsBalanced w.mgr
    → w'.mgr ≡ w.mgr
    → w'.reply ≡ w.reply
    → w'.mem ≡ w.mem
    → IsSafe w.reply w.mem w'
keeps w w' l b e f g = record {
  listed = rw e l;
  balanced = rw e b;
  in_reply = rw (f, g) (Kept-refl w.reply w.mem);
}

reply_zero-IsSafe :
    (w : World) → IsList w.mgr.svclist → IsBalanced w.mgr → IsSafe w.reply w.mem (reply_zero w).1
unfolding reply_zero
reply_zero-IsSafe w l b = record {
  listed = l;
  balanced = b;
  in_reply = bio_put_uint32-Kept 0 w.reply w.mem;
}

reply_handle-IsSafe :
    (h : ℕ) (w : World)
    → IsList w.mgr.svclist
    → IsBalanced w.mgr
    → IsSafe w.reply w.mem (reply_handle h w).1
unfolding reply_handle
reply_handle-IsSafe h w l b = elim (Bool-cases (h == 0)) [
  | inl none_found ↦ rw none_found (reply_zero-IsSafe w l b)
  | inr found ↦
      rw found (record { listed = l; balanced = b; in_reply = bio_put_ref-Kept h w.reply w.mem })
]

on_find-IsSafe :
    (txn : Transaction) (s : Option ℕ × ℕ × BinderIo) (w : World)
    → IsList w.mgr.svclist
    → IsBalanced w.mgr
    → IsSafe w.reply w.mem (on_find txn s w).1
unfolding on_find
on_find-IsSafe txn (none, len, msg) w l b = keeps w _ l b refl refl refl
on_find-IsSafe txn (some p, len, msg) w l b =
    reply_handle-IsSafe
      (do_find_service (units_at p len w.mem) len txn.sender_euid txn.sender_pid w.mgr.svclist)
      (record w { msg = msg }) l b

reply_name-IsSafe :
    (o : Option SvcInfo) (w : World)
    → IsList w.mgr.svclist
    → IsBalanced w.mgr
    → IsSafe w.reply w.mem (reply_name o w).1
reply_name-IsSafe none w l b = keeps w w l b refl refl refl
reply_name-IsSafe (some si) w l b = record {
  listed = l;
  balanced = b;
  in_reply = bio_put_string16-Kept si.name w.reply w.mem;
}

on_list-IsSafe :
    (txn : Transaction) (w : World)
    → IsList w.mgr.svclist
    → IsBalanced w.mgr
    → IsSafe w.reply w.mem (on_list txn w).1
unfolding on_list svc_can_list
on_list-IsSafe txn w l b =
    let (n, msg) = bio_get_uint32 w.msg w.mem in
    reply_name-IsSafe (nth_svc n w.mgr.svclist) (record w { msg = msg }) l b

added_service-IsSafe :
    (r : Status × Manager) (w : World)
    → IsList r.1.svclist
    → IsBalanced r.1
    → IsSafe w.reply w.mem (added_service r w).1
added_service-IsSafe (fail, mgr) w l b = keeps (record w { mgr = mgr }) _ l b refl refl refl
added_service-IsSafe (ok, mgr) w l b = reply_zero-IsSafe (record w { mgr = mgr }) l b

do_add_service-any :
    (fresh : Option ℕ) (s : List ℕ) (len handle uid allow_isolated spid : ℕ) (mgr : Manager)
    → length s ≡ len + 1
    → ((p : ℕ) → fresh ≡ some p → IsFresh p mgr.svclist)
    → IsList mgr.svclist
    → IsList (do_add_service fresh s len handle uid allow_isolated spid mgr).1.svclist
do_add_service-any fresh s len handle uid allow_isolated spid mgr e unused w =
    let (k, x, f, g) = split_last len s e in
    subst (λ n. IsList (do_add_service fresh s n handle uid allow_isolated spid mgr).1.svclist) f
      (rw g (do_add_service-listed fresh k [] x handle uid allow_isolated spid mgr unused w))

module _ (fresh : Option ℕ) (txn : Transaction) (w : World)
    (unused : (p : ℕ) → fresh ≡ some p → IsFresh p w.mgr.svclist) (l : IsList w.mgr.svclist)
    (b : IsBalanced w.mgr) where
  on_add-IsSafe : (s : Option ℕ × ℕ × BinderIo) → IsSafe w.reply w.mem (on_add fresh txn s w).1
  unfolding on_add
  on_add-IsSafe (none, len, msg) = keeps w _ l b refl refl refl
  on_add-IsSafe (some p, len, msg) =
      let (handle, msg1) = bio_get_ref msg w.mem in
      let (flag, msg2) = bio_get_uint32 msg1 w.mem in
      let allow : ℕ = if flag == 0 then 0 else 1 in
      added_service-IsSafe
        (do_add_service fresh (units_at p len w.mem) len handle txn.sender_euid allow txn.sender_pid
          w.mgr)
        (record w { msg = msg2 })
        (do_add_service-any fresh (units_at p len w.mem) len handle txn.sender_euid allow
          txn.sender_pid w.mgr (length-load_units (len + 1) p w.mem) unused l)
        (do_add_service-IsBalanced fresh (units_at p len w.mem) len handle txn.sender_euid allow
          txn.sender_pid w.mgr l b)

  on_code-IsSafe : IsSafe w.reply w.mem (on_code fresh txn w).1
  unfolding on_code
  on_code-IsSafe =
      elim (Bool-cases ((txn.code == svc_mgr_get_service) || (txn.code == svc_mgr_check_service))) [
        | inl find ↦ rw find (on_find-IsSafe txn (bio_get_string16 w.msg w.mem) w l b)
        | inr other ↦ rw other (elim (Bool-cases (txn.code == svc_mgr_add_service)) [
          | inl adds ↦ rw adds (on_add-IsSafe (bio_get_string16 w.msg w.mem))
          | inr other2 ↦ rw other2 (elim (Bool-cases (txn.code == svc_mgr_list_services)) [
            | inl lists ↦ rw lists (on_list-IsSafe txn w l b)
            | inr unknown ↦ rw unknown (keeps w w l b refl refl refl)
          ])
        ])
      ]

check_id-IsSafe :
    (fresh : Option ℕ) (txn : Transaction) (s : Option ℕ × ℕ × BinderIo) (w : World)
    → ((p : ℕ) → fresh ≡ some p → IsFresh p w.mgr.svclist)
    → IsList w.mgr.svclist
    → IsBalanced w.mgr
    → IsSafe w.reply w.mem (check_id fresh txn s w).1
unfolding check_id
check_id-IsSafe fresh txn (none, len, msg) w unused l b = keeps w _ l b refl refl refl
check_id-IsSafe fresh txn (some p, len, msg) w unused l b =
    elim (Bool-cases (
      (len == length svcmgr_id)
      && same_units (length svcmgr_id) svcmgr_id (units_at p len w.mem))) [
        | inl known ↦ rw known (on_code-IsSafe fresh txn (record w { msg = msg }) unused l b)
        | inr strange ↦ rw strange (keeps w (record w { msg = msg }) l b refl refl refl)
      ]

-- Whatever the message holds, services that are well formed and references that are balanced stay so,
-- and only the free part of the reply buffer is written, besides the entries of the list and the
-- static array of `str8`, which are no part of `mem`, where `malloc` returns NULL or memory that
-- is not in use.
pub svcmgr_handler-IsSafe :
    (svcmgr_handle : ℕ) (fresh : Option ℕ) (txn : Transaction) (w : World)
    → ((p : ℕ) → fresh ≡ some p → IsFresh p w.mgr.svclist)
    → IsList w.mgr.svclist
    → IsBalanced w.mgr
    → IsSafe w.reply w.mem (svcmgr_handler svcmgr_handle fresh txn w).1
unfolding svcmgr_handler
svcmgr_handler-IsSafe svcmgr_handle fresh txn w unused l b =
    elim (Bool-cases (txn.target == svcmgr_handle)) [
      | inr other ↦ rw other (keeps w w l b refl refl refl)
      | inl mine ↦ rw mine (elim (Bool-cases (txn.code == ping_transaction)) [
        | inl ping ↦ rw ping (keeps w w l b refl refl refl)
        | inr real ↦
            let (policy, msg) = bio_get_uint32 w.msg w.mem in
            rw real (check_id-IsSafe fresh txn (bio_get_string16 msg w.mem) w unused l b)
      ])
    ]
