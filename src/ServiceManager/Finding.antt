-- ===== src/ServiceManager/Finding.antt =====
-- What `do_find_service` of binder/service_manager.c answers, before and after `do_add_service` and
-- `svcinfo_death`.
use linux_labs.Prelude.{
  ℕ, ◌%◌, ◌≡◌, refl, sym, ap, ◌∙◌, inl, inr, Bool, true, false, ◌&&◌, Option, none, some, List, ◌∷◌,
  ◌++◌, arith, leb, ◌==◌, if◌then◌else◌, length, Bool-cases, Option-cases,
}
use linux_labs.ServiceManager.Names.{same_key, same_key_iff}
use linux_labs.ServiceManager.Registry.{
  Entry, IsList, to_entry, AreEntries, lookup, find_svc-lookup, IsFresh, lookup-set_handle,
  handle_at-find_svc,
}
use linux_labs.ServiceManager.{
  found_handle, do_find_service, Manager, SvcInfo, svc_can_find, Status, announce, find_svc,
  do_add_service, ok, svcinfo_death, set_handle, binder_release,
}
use linux_labs.ServiceManager.Adding.{
  IsRegistrable, added, guards_pass, key-added, override-svclist, added-IsEntry, set_handle-IsList,
}
use linux_labs.Binder.Driver.{binder_release}

-- An isolated process is one whose uid lies in the last thousand of its user's range.
unfoldable pub is_isolated : ℕ → Bool
is_isolated uid = leb 99000 (uid % 100000)

-- What a process may see of an entry: 0 stands for no handle.
unfoldable pub visible : ℕ → Option Entry → ℕ
visible uid none = 0
visible uid (some (handle, allow_isolated)) =
    if is_isolated uid && (allow_isolated == 0) then 0 else handle

found_handle-visible :
    (uid : ℕ) (o : Option SvcInfo) → found_handle uid o ≡ visible uid (to_entry o)
unfolding found_handle visible is_isolated
found_handle-visible uid none = refl
found_handle-visible uid (some si) = ground arith

-- The answer is the visible part of the entry under the name.
pub do_find_service-visible :
    (k t : List ℕ) (uid spid : ℕ) (l : List SvcInfo)
    → AreEntries l
    → do_find_service (k ++ t) (length k) uid spid l ≡ visible uid (lookup l k)
unfolding do_find_service svc_can_find
do_find_service-visible k t uid spid l w =
    found_handle-visible uid (find_svc (k ++ t) (length k) l)
    ∙ ap (visible uid) (find_svc-lookup k t l w)

-- A service that is registered again keeps the `allow_isolated` that it had.
abbrev pub kept_flag : Option Entry → ℕ → ℕ
kept_flag none allow_isolated = allow_isolated
kept_flag (some (handle, flag)) allow_isolated = flag

module _ (k t : List ℕ) (x p handle uid allow_isolated spid : ℕ) (mgr : Manager)
    (w : IsList mgr.svclist) (ok_args : IsRegistrable k handle) where
  abbrev pub add : Status × Manager
  add = do_add_service (some p) (k ++ x ∷ t) (length k) handle uid allow_isolated spid mgr

  lookup-new :
      (j : List ℕ)
      → lookup (added k t x p handle allow_isolated ∷ mgr.svclist) j
        ≡ (if same_key j k then some (handle, allow_isolated) else lookup mgr.svclist j)
  unfolding lookup
  lookup-new j = rw (key-added k t x p handle allow_isolated)

  -- The registry after a registration.
  pub do_add_service-lookup :
      (j : List ℕ)
      → (add.0 ≡ ok)
        × (lookup add.1.svclist j ≡ (
            if same_key j k
            then some (handle, kept_flag (lookup mgr.svclist k) allow_isolated)
            else lookup mgr.svclist j))
  unfolding announce
  do_add_service-lookup j =
      let found = find_svc-lookup k (x ∷ t) mgr.svclist w.entries in
      rw
        (guards_pass (some p) (k ++ x ∷ t) (length k) handle uid allow_isolated spid mgr ok_args.0
          ok_args.1 ok_args.2)
        (elim (Option-cases (find_svc (k ++ x ∷ t) (length k) mgr.svclist)) [
          | inl e ↦
              let unknown : lookup mgr.svclist k ≡ none = sym found ∙ ap to_entry e in
              rw (e, unknown) (refl, lookup-new j)
          | inr (si, e) ↦
              let known : lookup mgr.svclist k ≡ some (si.handle, si.allow_isolated) =
                sym found ∙ ap to_entry e in
              rw (e, known, override-svclist handle si mgr)
                (refl, lookup-set_handle k (x ∷ t) j handle mgr.svclist si w e)
        ])

  -- It stays a list of well-formed entries at addresses of their own.
  pub do_add_service-IsList : IsFresh p mgr.svclist → IsList add.1.svclist
  unfolding announce
  do_add_service-IsList fresh =
      rw
        (guards_pass (some p) (k ++ x ∷ t) (length k) handle uid allow_isolated spid mgr ok_args.0
          ok_args.1 ok_args.2)
        (elim (Option-cases (find_svc (k ++ x ∷ t) (length k) mgr.svclist)) [
          | inl e ↦ rw e (record {
            entries = (added-IsEntry k t x p handle allow_isolated ok_args.1 ok_args.2, w.entries);
            distinct = (fresh, w.distinct);
          })
          | inr (si, e) ↦
              rw (e, override-svclist handle si mgr)
                (set_handle-IsList si.addr handle mgr.svclist w)
        ])

  -- After a registration in a well-formed list, with a name of 1 to 127 units, a handle that is not 0
  -- and unused memory at `p`, a process that asks for that name sees the new handle, where it may,
  -- and one that asks for another name sees what it saw before. An entry that was there before keeps
  -- its `allow_isolated`.
  pub find-add :
      (j u : List ℕ) (asker pid : ℕ)
      → IsFresh p mgr.svclist
      → do_find_service (j ++ u) (length j) asker pid add.1.svclist ≡ (
          if same_key j k
          then visible asker (some (handle, kept_flag (lookup mgr.svclist k) allow_isolated))
          else do_find_service (j ++ u) (length j) asker pid mgr.svclist)
  find-add j u asker pid fresh =
      do_find_service-visible j u asker pid add.1.svclist (do_add_service-IsList fresh).entries
      ∙ ap (visible asker) (do_add_service-lookup j).1
      ∙ elim (Bool-cases (same_key j k)) [
        | inl same ↦ rw same
        | inr other ↦ rw other (sym (do_find_service-visible j u asker pid mgr.svclist w.entries))
      ]

pub svcinfo_death-IsList :
    (p : ℕ) (mgr : Manager) → IsList mgr.svclist → IsList (svcinfo_death p mgr).svclist
unfolding svcinfo_death
svcinfo_death-IsList p mgr w = ground (arith, set_handle-IsList p 0 mgr.svclist w)

visible_dead : (uid a : ℕ) → visible uid (some (0, a)) ≡ 0
unfolding visible
visible_dead uid a = ground arith

module _ (s : List ℕ) (len : ℕ) (mgr : Manager) (si : SvcInfo) (w : IsList mgr.svclist)
    (e : find_svc s len mgr.svclist ≡ some si) where
  pub svcinfo_death_dead : (si.handle == 0) ≡ true → svcinfo_death si.addr mgr ≡ mgr
  unfolding svcinfo_death
  svcinfo_death_dead dead = rw (handle_at-find_svc s len mgr.svclist si w.distinct e, dead)

  pub svcinfo_death_live :
      (si.handle == 0) ≡ false
      → svcinfo_death si.addr mgr ≡ record {
        svclist = set_handle si.addr 0 mgr.svclist;
        sent = binder_release si.handle mgr.sent;
      }
  unfolding svcinfo_death
  svcinfo_death_live live = rw (handle_at-find_svc s len mgr.svclist si w.distinct e, live)

visible-death :
    (k t j : List ℕ) (uid : ℕ) (mgr : Manager) (si : SvcInfo)
    → IsList mgr.svclist
    → find_svc (k ++ t) (length k) mgr.svclist ≡ some si
    → visible uid (lookup (svcinfo_death si.addr mgr).svclist j)
      ≡ (if same_key j k then 0 else visible uid (lookup mgr.svclist j))
visible-death k t j uid mgr si w e = elim (Bool-cases (si.handle == 0)) [
  | inr live ↦
      rw
        (
          svcinfo_death_live (k ++ t) (length k) mgr si w e live,
          lookup-set_handle k t j 0 mgr.svclist si w e,
        )
        (elim (Bool-cases (same_key j k)) [
          | inl same ↦ rw same (visible_dead uid si.allow_isolated)
          | inr other ↦ rw other
        ])
  | inl dead ↦
      rw (svcinfo_death_dead (k ++ t) (length k) mgr si w e dead)
        (elim (Bool-cases (same_key j k)) [
          | inr other ↦ rw other
          | inl same ↦
              let known : lookup mgr.svclist k ≡ some (si.handle, si.allow_isolated) =
                sym (find_svc-lookup k t mgr.svclist w.entries) ∙ ap to_entry e in
              let none_left : si.handle ≡ 0 = ground arith in
              rw (same, (same_key_iff j k).0 same, known, none_left)
                (visible_dead uid si.allow_isolated)
        ])
]

-- After the death of the service under a name of a well-formed list, a request for that name is
-- answered with 0, and one for any other name as before.
pub find-death :
    (k t j u : List ℕ) (uid pid : ℕ) (mgr : Manager) (si : SvcInfo)
    → IsList mgr.svclist
    → find_svc (k ++ t) (length k) mgr.svclist ≡ some si
    → do_find_service (j ++ u) (length j) uid pid (svcinfo_death si.addr mgr).svclist
      ≡ (if same_key j k then 0 else do_find_service (j ++ u) (length j) uid pid mgr.svclist)
find-death k t j u uid pid mgr si w e =
    do_find_service-visible j u uid pid _ (svcinfo_death-IsList si.addr mgr w).entries
    ∙ visible-death k t j uid mgr si w e
    ∙ elim (Bool-cases (same_key j k)) [
      | inl same ↦ rw same
      | inr other ↦ rw other (sym (do_find_service-visible j u uid pid mgr.svclist w.entries))
    ]
