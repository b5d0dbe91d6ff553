-- ===== src/ServiceManager/References.antt =====
-- The references that binder/service_manager.c holds: each handle is acquired once for every
-- service that has it, and released when the service dies or is overridden.
use linux_labs.Resources.{one_if}
use linux_labs.Prelude.{
  ℕ, ◌+◌, ◌≡◌, refl, ap, ◌∙◌, ◌≢◌, inl, inr, Bool, true, false, ◌||◌, Option, none, some, List, [],
  ◌∷◌, ◌++◌, arith, ltb, ◌==◌, Bool-cases, ==-refl, map, Option-cases,
}
use linux_labs.Binder.Driver.{
  Command, acquire, release, binder_release, binder_link_to_death, binder_acquire, request_death,
}
use linux_labs.ServiceManager.{
  SvcInfo, Manager, find_svc, set_handle, is_svc, handle_at, with_handle, svcinfo_death, announce,
  override, do_add_service, svc_can_register, insert_svc, new_svc,
}
use mathlib.Core.Path.{subst}
use linux_labs.ServiceManager.Registry.{
  AreDistinct, set_handle_fresh, IsFresh, IsList, handle_at-find_svc,
}
use linux_labs.ServiceManager.Finding.{svcinfo_death_live}
use linux_labs.ServiceManager.Adding.{override-svclist}

unfoldable pub acquired : ℕ → List Command → ℕ
acquired h [] = 0
acquired h (acquire g ∷ cs) = one_if (g == h) + acquired h cs
acquired h (_ ∷ cs) = acquired h cs

unfoldable pub released : ℕ → List Command → ℕ
released h [] = 0
released h (release g ∷ cs) = one_if (g == h) + released h cs
released h (_ ∷ cs) = released h cs

-- The services that have the handle.
unfoldable pub holders : ℕ → List SvcInfo → ℕ
holders h [] = 0
holders h (si ∷ rest) = one_if (si.handle == h) + holders h rest

unfoldable pub is_at : ℕ → List SvcInfo → Bool
is_at p [] = false
is_at p (si ∷ rest) = (si.addr == p) || is_at p rest

-- For every real handle the references that are held are those of the services.
abbrev pub IsBalanced : Manager → Type 0
IsBalanced mgr = (h : ℕ) → h ≢ 0 → acquired h mgr.sent ≡ released h mgr.sent + holders h mgr.svclist

pub acquired-append :
    (h : ℕ) (cs ds : List Command) → acquired h (cs ++ ds) ≡ acquired h cs + acquired h ds
unfolding acquired
acquired-append h [] ds = omega arith
acquired-append h (acquire g ∷ cs) ds = omega (arith, acquired-append h cs ds)
acquired-append h (_ ∷ cs) ds = acquired-append h cs ds

pub released-append :
    (h : ℕ) (cs ds : List Command) → released h (cs ++ ds) ≡ released h cs + released h ds
unfolding released
released-append h [] ds = omega arith
released-append h (release g ∷ cs) ds = omega (arith, released-append h cs ds)
released-append h (_ ∷ cs) ds = released-append h cs ds

is_at-find_svc :
    (s : List ℕ) (len : ℕ) (l : List SvcInfo) (si : SvcInfo)
    → find_svc s len l ≡ some si
    → is_at si.addr l ≡ true
unfolding find_svc is_at
is_at-find_svc s len [] si e = cc
is_at-find_svc s len (x ∷ rest) si e = elim (Bool-cases (is_svc s len x)) [
  | inl hit ↦
      let is : x ≡ si = ground arith in
      subst (λ y. ((x.addr == y.addr) || is_at y.addr rest) ≡ true) is (rw (==-refl x.addr))
  | inr miss ↦
      let later : find_svc s len rest ≡ some si = ground arith in
      ground (arith, is_at-find_svc s len rest si later)
]

holders-set_handle :
    (p g h : ℕ) (l : List SvcInfo)
    → AreDistinct l
    → is_at p l ≡ true
    → holders h (set_handle p g l) + one_if (handle_at p l == h) ≡ holders h l + one_if (g == h)
unfolding holders set_handle handle_at is_at
holders-set_handle p g h [] d e = cc
holders-set_handle p g h (x ∷ rest) d e = elim (Bool-cases (x.addr == p)) [
  | inl hit ↦
      let here : x.addr ≡ p = ground arith in
      let tail : map (with_handle p g) rest ≡ rest =
        set_handle_fresh p g rest (subst (λ q. IsFresh q rest) here d.0) in
      rw (hit, tail) (omega arith)
  | inr miss ↦
      let there : is_at p rest ≡ true = ground arith in
      rw miss (omega (arith, holders-set_handle p g h rest d.1 there))
]

handle_at-is_at : (p : ℕ) (l : List SvcInfo) → (handle_at p l == 0) ≡ false → is_at p l ≡ true
unfolding handle_at is_at
handle_at-is_at p [] e = cc
handle_at-is_at p (x ∷ rest) e = ground (arith, handle_at-is_at p rest)

one_if_zero : (h : ℕ) → h ≢ 0 → one_if (0 == h) ≡ 0
one_if_zero h ne = ground arith

pub svcinfo_death-IsBalanced :
    (p : ℕ) (mgr : Manager) → IsList mgr.svclist → IsBalanced mgr → IsBalanced (svcinfo_death p mgr)
unfolding svcinfo_death binder_release acquired released
svcinfo_death-IsBalanced p mgr w b h ne = elim (Bool-cases (handle_at p mgr.svclist == 0)) [
  | inl dead ↦ rw dead (b h ne)
  | inr live ↦
      let there = handle_at-is_at p mgr.svclist live in
      rw live (
        omega (
          arith,
          b h ne,
          one_if_zero h ne,
          holders-set_handle p 0 h mgr.svclist w.distinct there,
          acquired-append h mgr.sent (release (handle_at p mgr.svclist) ∷ []),
          released-append h mgr.sent (release (handle_at p mgr.svclist) ∷ []),
        ))
]

acquired-announce :
    (handle p h : ℕ) (mgr : Manager)
    → acquired h (announce handle p mgr).sent ≡ acquired h mgr.sent + one_if (handle == h)
unfolding announce binder_link_to_death binder_acquire acquired
acquired-announce handle p h mgr = omega (
  arith,
  acquired-append h mgr.sent (acquire handle ∷ []),
  acquired-append h (mgr.sent ++ acquire handle ∷ []) (request_death handle p ∷ []),
)

released-announce :
    (handle p h : ℕ) (mgr : Manager) → released h (announce handle p mgr).sent ≡ released h mgr.sent
unfolding announce binder_link_to_death binder_acquire released
released-announce handle p h mgr = omega (
  arith,
  released-append h mgr.sent (acquire handle ∷ []),
  released-append h (mgr.sent ++ acquire handle ∷ []) (request_death handle p ∷ []),
)

announce-svclist : (handle p : ℕ) (mgr : Manager) → (announce handle p mgr).svclist ≡ mgr.svclist
unfolding announce
announce-svclist handle p mgr = refl

-- An override gives the old handle back, once.
released-override :
    (s : List ℕ) (len handle h : ℕ) (mgr : Manager) (si : SvcInfo)
    → IsList mgr.svclist
    → find_svc s len mgr.svclist ≡ some si
    → h ≢ 0
    → (released h (override handle si mgr).sent ≡ released h mgr.sent + one_if (si.handle == h))
      × (acquired h (override handle si mgr).sent ≡ acquired h mgr.sent)
unfolding override binder_release acquired released
released-override s len handle h mgr si w e ne = elim (Bool-cases (si.handle == 0)) [
  | inl dead ↦
      let gone : si.handle ≡ 0 = ground arith in
      rw dead (rw gone (omega (arith, one_if_zero h ne)), refl)
  | inr live ↦
      rw (live, svcinfo_death_live s len mgr si w e live)
        (
          omega (arith, released-append h mgr.sent (release si.handle ∷ [])),
          omega (arith, acquired-append h mgr.sent (release si.handle ∷ [])),
        )
]

insert_svc-IsBalanced :
    (fresh : Option ℕ) (s : List ℕ) (len handle allow_isolated : ℕ) (mgr : Manager)
    → IsBalanced mgr
    → IsBalanced (insert_svc fresh s len handle allow_isolated mgr).1
unfolding holders
insert_svc-IsBalanced none s len handle allow_isolated mgr b h ne = b h ne
insert_svc-IsBalanced (some p) s len handle allow_isolated mgr b h ne =
    let mgr1 = record mgr { svclist = new_svc p s len handle allow_isolated ∷ mgr.svclist } in
    omega (
      arith,
      ap (holders h) (announce-svclist handle p mgr1),
      b h ne,
      acquired-announce handle p h mgr1,
      released-announce handle p h mgr1,
    )

override-IsBalanced :
    (s : List ℕ) (len handle : ℕ) (mgr : Manager) (si : SvcInfo)
    → IsList mgr.svclist
    → find_svc s len mgr.svclist ≡ some si
    → IsBalanced mgr
    → IsBalanced (announce handle si.addr (override handle si mgr))
override-IsBalanced s len handle mgr si w e b h ne =
    let mgr1 = override handle si mgr in
    let given_back = released-override s len handle h mgr si w e ne in
    let moved =
      holders-set_handle si.addr handle h mgr.svclist w.distinct
        (is_at-find_svc s len mgr.svclist si e) in
    let old = ap (λ n. one_if (n == h)) (handle_at-find_svc s len mgr.svclist si w.distinct e) in
    omega (
      arith,
      ap (holders h) (announce-svclist handle si.addr mgr1 ∙ override-svclist handle si mgr),
      b h ne,
      old,
      moved,
      given_back.0,
      given_back.1,
      acquired-announce handle si.addr h mgr1,
      released-announce handle si.addr h mgr1,
    )

-- Every registration keeps the references balanced, the refused ones and overrides included.
pub do_add_service-IsBalanced :
    (fresh : Option ℕ) (s : List ℕ) (len handle uid allow_isolated spid : ℕ) (mgr : Manager)
    → IsList mgr.svclist
    → IsBalanced mgr
    → IsBalanced (do_add_service fresh s len handle uid allow_isolated spid mgr).1
unfolding do_add_service svc_can_register
do_add_service-IsBalanced fresh s len handle uid allow_isolated spid mgr w b h ne =
    elim (Bool-cases ((handle == 0) || (len == 0) || ltb 127 len)) [
      | inl refused ↦ rw refused (b h ne)
      | inr fine ↦ rw fine (elim (Option-cases (find_svc s len mgr.svclist)) [
        | inl new ↦ rw new (insert_svc-IsBalanced fresh s len handle allow_isolated mgr b h ne)
        | inr (si, old) ↦ rw old (override-IsBalanced s len handle mgr si w old b h ne)
      ])
    ]
