-- ===== src/ServiceManager/Adding.antt =====
-- `do_add_service` and `svcinfo_death` of binder/service_manager.c keep the service list well
-- formed, and change the registry at one name.
use linux_labs.Prelude.{
  ℕ, suc, ◌+◌, ◌≤◌, ◌<◌, ◌≡◌, refl, ap, ◌≢◌, Option, List, [], ◌∷◌, ◌++◌, arith, length, set,
  take-append, take, ==-eq-false, ltb-eq-false,
}
use linux_labs.ServiceManager.Names.{key_of, IsEntry}
use linux_labs.ServiceManager.{
  set_handle, SvcInfo, do_add_service, override, new_svc, svc_can_register, svcinfo_death,
  with_handle, Manager, add_or_override, find_svc,
}
use linux_labs.ServiceManager.Registry.{
  AreEntries, IsFresh, AreDistinct, IsList, set_handle-set_handle,
}

set_handle-entries : (p h : ℕ) (l : List SvcInfo) → AreEntries l → AreEntries (set_handle p h l)
unfolding set_handle
set_handle-entries p h [] w = tt
set_handle-entries p h (x ∷ rest) w = (ground (arith, w.0), set_handle-entries p h rest w.1)

set_handle-IsFresh : (p h q : ℕ) (l : List SvcInfo) → IsFresh q l → IsFresh q (set_handle p h l)
unfolding set_handle
set_handle-IsFresh p h q [] w = tt
set_handle-IsFresh p h q (x ∷ rest) w = (ground (arith, w.0), set_handle-IsFresh p h q rest w.1)

set_handle-distinct : (p h : ℕ) (l : List SvcInfo) → AreDistinct l → AreDistinct (set_handle p h l)
unfolding set_handle
set_handle-distinct p h [] w = tt
set_handle-distinct p h (x ∷ rest) w = (
  let same : (with_handle p h x).addr ≡ x.addr = ground arith in
      rw same (set_handle-IsFresh p h x.addr rest w.0),
  set_handle-distinct p h rest w.1,
)

pub set_handle-IsList : (p h : ℕ) (l : List SvcInfo) → IsList l → IsList (set_handle p h l)
set_handle-IsList p h l w = record {
  entries = set_handle-entries p h l w.entries;
  distinct = set_handle-distinct p h l w.distinct;
}

-- The name that is stored, whatever unit stood behind the first `len`.
stored_name :
    (k t : List ℕ) (x : ℕ) → set (take (length k + 1) (k ++ x ∷ t)) (length k) 0 ≡ k ++ 0 ∷ []
stored_name [] t x = refl
stored_name (y ∷ k) t x =
    let e : suc (length k) + 1 ≡ suc (length k + 1) = omega arith in
    rw e (ap (λ zs. y ∷ zs) (stored_name k t x))

module _ (k t : List ℕ) (x p handle allow_isolated : ℕ) where
  abbrev pub added : SvcInfo
  added = new_svc p (k ++ x ∷ t) (length k) handle allow_isolated

  pub key-added : key_of added ≡ k
  key-added = rw (stored_name k t x) (take-append k (0 ∷ []))

  pub added-IsEntry : 0 < length k → length k ≤ 127 → IsEntry added
  added-IsEntry some_units short = record {
    named = rw key-added (stored_name k t x);
    measured = rw key-added;
    not_empty = some_units;
    short = short;
  }

-- What the success of `do_add_service` means.
abbrev pub IsRegistrable : List ℕ → ℕ → Type 0
IsRegistrable k handle = (handle ≢ 0) × (0 < length k) × (length k ≤ 127)

pub guards_pass :
    (fresh : Option ℕ) (s : List ℕ) (len handle uid allow_isolated spid : ℕ) (mgr : Manager)
    → handle ≢ 0
    → 0 < len
    → len ≤ 127
    → do_add_service fresh s len handle uid allow_isolated spid mgr
      ≡ add_or_override (find_svc s len mgr.svclist) fresh s len handle allow_isolated mgr
unfolding do_add_service svc_can_register
guards_pass fresh s len handle uid allow_isolated spid mgr a b c =
    rw (==-eq-false handle 0 a, ==-eq-false len 0 (omega arith), ltb-eq-false 127 len c)

pub override-svclist :
    (handle : ℕ) (si : SvcInfo) (mgr : Manager)
    → (override handle si mgr).svclist ≡ set_handle si.addr handle mgr.svclist
unfolding override svcinfo_death
override-svclist handle si mgr = ground (arith, set_handle-set_handle si.addr 0 handle mgr.svclist)
