-- ===== src/ServiceManager/Runs.antt =====
-- Histories of the service list of binder/service_manager.c: any sequence of registrations and
-- deaths from the empty list.
use linux_labs.Prelude.{
  ℕ, ◌≤◌, ◌<◌, ◌≡◌, inl, inr, ◌||◌, Option, some, List, [], ◌∷◌, ◌++◌, arith, ltb, ◌==◌, length,
  Bool-cases, Option-cases,
}
use linux_labs.ServiceManager.{
  SvcInfo, Manager, do_add_service, svcinfo_death, announce, svc_can_register, add_or_override,
  find_svc,
}
use linux_labs.ServiceManager.Registry.{IsFresh, IsList}
use linux_labs.ServiceManager.References.{
  IsBalanced, acquired, svcinfo_death-IsBalanced, released, do_add_service-IsBalanced, holders,
}
use linux_labs.ServiceManager.Finding.{svcinfo_death-IsList}
use linux_labs.ServiceManager.Adding.{override-svclist, set_handle-IsList, added-IsEntry}

add_or_override-IsList :
    (fresh : Option ℕ) (k t : List ℕ) (x handle allow_isolated : ℕ) (mgr : Manager)
    → 0 < length k
    → length k ≤ 127
    → ((p : ℕ) → fresh ≡ some p → IsFresh p mgr.svclist)
    → IsList mgr.svclist
    → IsList
        (add_or_override
          (find_svc (k ++ x ∷ t) (length k) mgr.svclist)
          fresh
          (k ++ x ∷ t)
          (length k)
          handle
          allow_isolated
          mgr).1.svclist
unfolding announce
add_or_override-IsList fresh k t x handle allow_isolated mgr pos short unused w =
    elim (Option-cases (find_svc (k ++ x ∷ t) (length k) mgr.svclist)) [
      | inr (si, e) ↦
          rw (e, override-svclist handle si mgr) (set_handle-IsList si.addr handle mgr.svclist w)
      | inl e ↦ elim (Option-cases fresh) [
        | inl full ↦ rw (e, full) w
        | inr (p, got) ↦
            rw (e, got)
              (record {
                entries = (added-IsEntry k t x p handle allow_isolated pos short, w.entries);
                distinct = (unused p got, w.distinct);
              })
      ]
    ]

-- Any registration keeps the list well formed, given that `malloc` returns no object in use.
pub do_add_service-listed :
    (fresh : Option ℕ) (k t : List ℕ) (x handle uid allow_isolated spid : ℕ) (mgr : Manager)
    → ((p : ℕ) → fresh ≡ some p → IsFresh p mgr.svclist)
    → IsList mgr.svclist
    → IsList
        (do_add_service fresh (k ++ x ∷ t) (length k) handle uid allow_isolated spid mgr).1.svclist
unfolding do_add_service svc_can_register
do_add_service-listed fresh k t x handle uid allow_isolated spid mgr unused w =
    elim (Bool-cases ((handle == 0) || (length k == 0) || ltb 127 (length k))) [
      | inl refused ↦ rw refused w
      | inr fine ↦ rw fine (
          add_or_override-IsList fresh k t x handle allow_isolated mgr (ground arith) (ground arith)
            unused w)
    ]

-- A registration names `k`, followed in memory by the unit `x` and the units `t`.
pub data Event : Type 0 where
  adds : (k t : List ℕ) (x handle uid allow_isolated spid : ℕ) → Event
  dies : (p : ℕ) → Event

-- `malloc` returns NULL, or the address of an object that is not in use.
module _ (malloc : List SvcInfo → Option ℕ) where
  abbrev pub IsAllocator : Type 0
  IsAllocator = (l : List SvcInfo) (p : ℕ) → malloc l ≡ some p → IsFresh p l

  unfoldable pub step : Manager → Event → Manager
  step mgr (adds k t x handle uid allow_isolated spid) =
      (do_add_service (malloc mgr.svclist) (k ++ x ∷ t) (length k) handle uid allow_isolated spid
        mgr).1
  step mgr (dies p) = svcinfo_death p mgr

  unfoldable pub run : Manager → List Event → Manager
  run mgr [] = mgr
  run mgr (e ∷ es) = run (step mgr e) es

  abbrev pub start : Manager
  start = record { svclist = []; sent = [] }

  pub step-IsList :
      (mgr : Manager) (e : Event) → IsAllocator → IsList mgr.svclist → IsList (step mgr e).svclist
  unfolding step
  step-IsList mgr (dies p) alloc w = svcinfo_death-IsList p mgr w
  step-IsList mgr (adds k t x handle uid allow_isolated spid) alloc w =
      do_add_service-listed (malloc mgr.svclist) k t x handle uid allow_isolated spid mgr
        (alloc mgr.svclist) w

  step-IsBalanced :
      (mgr : Manager) (e : Event) → IsList mgr.svclist → IsBalanced mgr → IsBalanced (step mgr e)
  unfolding step
  step-IsBalanced mgr (dies p) w b = svcinfo_death-IsBalanced p mgr w b
  step-IsBalanced mgr (adds k t x handle uid allow_isolated spid) w b =
      do_add_service-IsBalanced (malloc mgr.svclist) (k ++ x ∷ t) (length k) handle uid
        allow_isolated spid mgr w b

  run-Inv :
      (es : List Event) (mgr : Manager)
      → IsAllocator
      → IsList mgr.svclist
      → IsBalanced mgr
      → IsList (run mgr es).svclist × IsBalanced (run mgr es)
  unfolding run
  run-Inv [] mgr alloc w b = (w, b)
  run-Inv (e ∷ es) mgr alloc w b =
      run-Inv es (step mgr e) alloc (step-IsList mgr e alloc w) (step-IsBalanced mgr e w b)

  pub start-IsBalanced : IsBalanced start
  unfolding acquired released holders
  start-IsBalanced h ne = omega arith

  -- After any history of registrations and deaths the list is well formed, and for every real handle
  -- the references acquired are those released and those of the services that have the handle now,
  -- where `malloc` returns NULL or memory that is not in use.
  pub run-start :
      (es : List Event) → IsAllocator → IsList (run start es).svclist × IsBalanced (run start es)
  run-start es alloc =
      run-Inv es start alloc (record { entries = tt; distinct = tt }) start-IsBalanced
