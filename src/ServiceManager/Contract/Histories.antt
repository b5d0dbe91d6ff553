-- ===== src/ServiceManager/Contract/Histories.antt =====
-- The service list of binder/service_manager.c keeps the promise of its contract.
use linux_labs.Prelude.{
  ℕ, ◌≡◌, refl, sym, ap, ◌∙◌, inl, inr, true, false, not, ◌||◌, Option, none, some, List, [], ◌∷◌,
  ◌++◌, arith, ltb, ◌==◌, length, Bool-cases, Option-cases, ==_iff, Bool,
}
use linux_labs.ServiceManager.{
  SvcInfo, Manager, fail, find_svc, do_add_service, do_find_service, svcinfo_death,
}
use linux_labs.ServiceManager.Names.{same_key, same_key_iff}
use linux_labs.ServiceManager.Registry.{
  Entry, lookup, IsList, to_entry, find_svc-lookup, lookup-set_handle,
}
use linux_labs.ServiceManager.Finding.{
  kept_flag, do_find_service-visible, do_add_service-lookup, svcinfo_death-IsList,
  svcinfo_death_dead, svcinfo_death_live,
}
use linux_labs.ServiceManager.Runs.{IsAllocator, do_add_service-listed, start}
use linux_labs.ServiceManager.Contract.{
  no_names, update, Request, registers, asks, dies, Response, status, answer, silence, is_valid,
  Step, has_room, registered, invalid, no_memory, answered, died, unknown, Follows,
}
use linux_labs.ServiceManager.Adding.{IsRegistrable, guards_pass}
use mathlib.Core.Path.{subst, subst₂}

abbrev pub is_had : Option ℕ → Bool
is_had none = false
is_had (some p) = true

module _ (malloc : List SvcInfo → Option ℕ) where
  -- The driver reports the death of the object that has the name.
  abbrev pub after_death : Option SvcInfo → Manager → Manager
  after_death none mgr = mgr
  after_death (some si) mgr = svcinfo_death si.addr mgr

  -- A request is served by the function that the code has for it.
  unfoldable pub serve_request : Request → Manager → Response × Manager
  serve_request (registers k behind x h uid allow_isolated spid) mgr =
      let (st, mgr1) =
        do_add_service (malloc mgr.svclist) (k ++ x ∷ behind) (length k) h uid allow_isolated spid
          mgr in
      (status st, mgr1)
  serve_request (asks k behind uid spid) mgr =
      (answer (do_find_service (k ++ behind) (length k) uid spid mgr.svclist), mgr)
  serve_request (dies k) mgr =
      (silence, after_death (find_svc (k ++ []) (length k) mgr.svclist) mgr)

  -- Each answer, behind whether `malloc` has memory at the request.
  unfoldable pub responses : List Request → Manager → List (Bool × Response)
  responses [] mgr = []
  responses (q ∷ qs) mgr =
      let (a, mgr1) = serve_request q mgr in (is_had (malloc mgr.svclist), a) ∷ responses qs mgr1

  -- A request that was served is a step of the map that the list stands for.
  abbrev pub IsStep : Manager → Request → Type 0
  IsStep mgr q =
      let (a, mgr1) = serve_request q mgr in
      Step (is_had (malloc mgr.svclist)) (lookup mgr.svclist) q a (lookup mgr1.svclist)
      × IsList mgr1.svclist

  module _ (alloc : IsAllocator malloc) (mgr : Manager) (w : IsList mgr.svclist) where
    asks-IsStep : (k behind : List ℕ) (uid spid : ℕ) → IsStep mgr (asks k behind uid spid)
    unfolding serve_request
    asks-IsStep k behind uid spid =
        rw (do_find_service-visible k behind uid spid mgr.svclist w.entries)
          (answered (lookup mgr.svclist) k behind uid spid, w)

    invalid-IsStep :
        (k behind : List ℕ) (x h uid allow_isolated spid : ℕ)
        → (h == 0) || (length k == 0) || ltb 127 (length k) ≡ true
        → IsStep mgr (registers k behind x h uid allow_isolated spid)
    unfolding serve_request do_add_service
    invalid-IsStep k behind x h uid allow_isolated spid bad =
        let invalid_args : is_valid k h ≡ false = ap not bad in
        rw bad (invalid (lookup mgr.svclist) k behind x h uid allow_isolated spid invalid_args, w)

    always_room : (e : Option Entry) → has_room true e ≡ true
    always_room none = refl
    always_room (some e) = refl

    module _ (k behind : List ℕ) (x h uid allow_isolated spid : ℕ)
        (fine : (h == 0) || (length k == 0) || ltb 127 (length k) ≡ false) where
      ok_args : IsRegistrable k h
      ok_args = (ground arith, ground arith, ground arith)

      valid_args : is_valid k h ≡ true
      valid_args = ap not fine

      -- A registration with memory at `p`.
      with_memory-Step :
          (memory : Bool) (p : ℕ)
          → has_room memory (lookup mgr.svclist k) ≡ true
          → let (st, mgr1) =
              do_add_service (some p) (k ++ x ∷ behind) (length k) h uid allow_isolated spid mgr in
            Step memory
              (lookup mgr.svclist)
              (registers k behind x h uid allow_isolated spid)
              (status st)
              (lookup mgr1.svclist)
      with_memory-Step memory p room =
          let r =
            do_add_service (some p) (k ++ x ∷ behind) (length k) h uid allow_isolated spid mgr in
          let at_name =
            do_add_service-lookup k behind x p h uid allow_isolated spid mgr w ok_args in
          let new =
            update k (h, kept_flag (lookup mgr.svclist k) allow_isolated) (lookup mgr.svclist) in
          let same : lookup r.1.svclist ≡ new = λ i j. (at_name j).1 i in
          subst₂
            (λ st reg.
              Step memory (lookup mgr.svclist) (registers k behind x h uid allow_isolated spid)
                (status st) reg)
            (sym (at_name k).0) (sym same)
            (registered (lookup mgr.svclist) k behind x h uid allow_isolated spid valid_args room)

      -- An override needs no memory.
      override_lem :
          (fresh : Option ℕ) (si : SvcInfo)
          → find_svc (k ++ x ∷ behind) (length k) mgr.svclist ≡ some si
          → do_add_service fresh (k ++ x ∷ behind) (length k) h uid allow_isolated spid mgr
            ≡ do_add_service (some 0) (k ++ x ∷ behind) (length k) h uid allow_isolated spid mgr
      override_lem fresh si e =
          let s = k ++ x ∷ behind in
          rw
            (
              guards_pass fresh s (length k) h uid allow_isolated spid mgr ok_args.0 ok_args.1
                  ok_args.2,
              guards_pass (some 0) s (length k) h uid allow_isolated spid mgr ok_args.0 ok_args.1
                  ok_args.2,
              e,
            )
            refl

      refused_lem :
          find_svc (k ++ x ∷ behind) (length k) mgr.svclist ≡ none
          → do_add_service none (k ++ x ∷ behind) (length k) h uid allow_isolated spid mgr
            ≡ (fail, mgr)
      refused_lem e =
          rw
            (
              guards_pass none (k ++ x ∷ behind) (length k) h uid allow_isolated spid mgr ok_args.0
                  ok_args.1 ok_args.2,
              e,
            )
            refl

      fresh-Step :
          (fresh : Option ℕ)
          → let (st, mgr1) =
              do_add_service fresh (k ++ x ∷ behind) (length k) h uid allow_isolated spid mgr in
            Step
              (is_had fresh)
              (lookup mgr.svclist)
              (registers k behind x h uid allow_isolated spid)
              (status st)
              (lookup mgr1.svclist)
      fresh-Step (some p) = with_memory-Step true p (always_room (lookup mgr.svclist k))
      fresh-Step none = elim (Option-cases (find_svc (k ++ x ∷ behind) (length k) mgr.svclist)) [
        | inr (si, e) ↦
            let known =
              sym (find_svc-lookup k (x ∷ behind) mgr.svclist w.entries) ∙ ap to_entry e in
            rw (override_lem none si e) (with_memory-Step false 0 (ap (has_room false) known))
        | inl e ↦
            let unknown_name : lookup mgr.svclist k ≡ none =
              sym (find_svc-lookup k (x ∷ behind) mgr.svclist w.entries) ∙ ap to_entry e in
            rw (refused_lem e) (
              no_memory (lookup mgr.svclist) k behind x h uid allow_isolated spid valid_args
                (ap (has_room false) unknown_name))
      ]

      valid-IsStep : IsStep mgr (registers k behind x h uid allow_isolated spid)
      unfolding serve_request
      valid-IsStep = (
        fresh-Step (malloc mgr.svclist),
        do_add_service-listed (malloc mgr.svclist) k behind x h uid allow_isolated spid mgr
            (alloc mgr.svclist) w,
      )

    -- The map behind a death.
    death-lookup :
        (k : List ℕ) (si : SvcInfo)
        → find_svc (k ++ []) (length k) mgr.svclist ≡ some si
        → (j : List ℕ)
        → lookup (svcinfo_death si.addr mgr).svclist j
          ≡ update k (0, si.allow_isolated) (lookup mgr.svclist) j
    death-lookup k si e j = elim (Bool-cases (si.handle == 0)) [
      | inr live ↦
          rw (svcinfo_death_live (k ++ []) (length k) mgr si w e live)
            (lookup-set_handle k [] j 0 mgr.svclist si w e)
      | inl dead ↦
          let known : lookup mgr.svclist k ≡ some (si.handle, si.allow_isolated) =
            sym (find_svc-lookup k [] mgr.svclist w.entries) ∙ ap to_entry e in
          rw (svcinfo_death_dead (k ++ []) (length k) mgr si w e dead)
            (elim (Bool-cases (same_key j k)) [
              | inr other ↦ rw other refl
              | inl same ↦ rw same (
                  ap (lookup mgr.svclist) ((same_key_iff j k).0 same)
                  ∙ known
                  ∙ ap (λ (n : ℕ). some (n, si.allow_isolated)) ((==_iff si.handle 0).0 dead))
            ])
    ]

    dies-IsStep : (k : List ℕ) → IsStep mgr (dies k)
    unfolding serve_request
    dies-IsStep k = elim (Option-cases (find_svc (k ++ []) (length k) mgr.svclist)) [
      | inl e ↦ rw e (
        unknown (lookup mgr.svclist) k
            (sym (find_svc-lookup k [] mgr.svclist w.entries) ∙ ap to_entry e),
        w,
      )
      | inr (si, e) ↦
          let known = sym (find_svc-lookup k [] mgr.svclist w.entries) ∙ ap to_entry e in
          let same : lookup (svcinfo_death si.addr mgr).svclist
              ≡ update k (0, si.allow_isolated) (lookup mgr.svclist) =
            λ i j. death-lookup k si e j i in
          rw e (
            subst (Step (is_had (malloc mgr.svclist)) (lookup mgr.svclist) (dies k) silence)
                (sym same) (died (lookup mgr.svclist) k si.handle si.allow_isolated known),
            svcinfo_death-IsList si.addr mgr w,
          )
    ]

    request-IsStep : (q : Request) → IsStep mgr q
    request-IsStep (registers k behind x h uid allow_isolated spid) =
        elim (Bool-cases ((h == 0) || (length k == 0) || ltb 127 (length k))) [
          | inl bad ↦ invalid-IsStep k behind x h uid allow_isolated spid bad
          | inr fine ↦ valid-IsStep k behind x h uid allow_isolated spid fine
        ]
    request-IsStep (asks k behind uid spid) = asks-IsStep k behind uid spid
    request-IsStep (dies k) = dies-IsStep k

  responses-Follows :
      (alloc : IsAllocator malloc) (qs : List Request) (mgr : Manager)
      → IsList mgr.svclist
      → Follows (lookup mgr.svclist) qs (responses qs mgr)
  unfolding responses
  responses-Follows alloc [] mgr w = tt
  responses-Follows alloc (q ∷ qs) mgr w =
      let (step, w1) = request-IsStep alloc mgr w q in
      (
        lookup (serve_request q mgr).1.svclist,
        step,
        responses-Follows alloc qs (serve_request q mgr).1 w1,
      )

  -- Whatever registrations, deaths and questions come, in whatever order, the service manager answers
  -- as the map from names to handles that starts without names and that refuses a valid registration
  -- exactly where the name is new and `malloc` returns NULL, where `malloc` returns NULL or memory that
  -- is not in use.
  pub history-Follows :
      (qs : List Request) → IsAllocator malloc → Follows no_names qs (responses qs (start malloc))
  unfolding lookup
  history-Follows qs alloc =
      responses-Follows alloc qs (start malloc) (record { entries = tt; distinct = tt })
