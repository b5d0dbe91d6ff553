-- ===== src/ServiceManager/Main.antt =====
-- `main` of binder/service_manager.c: `svcmgr_handler` and `svcinfo_death` under `binder_loop`.
use mathlib.Core.Option.{some-injective}
use linux_labs.Prelude.{
  ℕ, ◌≡◌, refl, Bool, false, ◌||◌, ◌==◌, if◌then◌else◌, inl, inr, Bool-cases, Option, some, List,
  [], ◌∷◌, ◌++◌, arith,
}
use linux_labs.Binder.Types.{BinderIo, Transaction}
use linux_labs.Binder.Driver.{Command}
use linux_labs.Binder.Looper.{Br, Env, Handler, Machine}
use linux_labs.Binder.Looper.Call.{Answer}
use linux_labs.Binder.Looper.Rounds.{Looped, IsKept, binder_loop, binder_loop-Goes}
use linux_labs.ServiceManager.{ok, fail, Status, SvcInfo, Manager, svcinfo_death}
use linux_labs.ServiceManager.Registry.{IsList}
use linux_labs.ServiceManager.References.{
  IsBalanced, acquired, released, acquired-append, released-append, svcinfo_death-IsBalanced,
}
use linux_labs.ServiceManager.Finding.{svcinfo_death-IsList}
use linux_labs.ServiceManager.Handler.{svcmgr_handler}
use linux_labs.ServiceManager.Handler.Safety.{svcmgr_handler-IsSafe}
use linux_labs.ServiceManager.Runs.{IsAllocator}
use mathlib.Core.Path.{subst}

-- `BINDER_SERVICE_MANAGER`
abbrev pub binder_service_manager : ℕ
binder_service_manager = 0

abbrev pub status_word : Status → ℕ
status_word ok = 0
status_word fail = 0xffff_ffff

-- The state of the process is `svclist`; or the death of an address was reported that is none of its
-- entries. `binder_parse` then calls through whatever stands there, and nothing is said of what
-- follows: the state keeps the address and the list.
pub data Services : Type 0 where
  running : List SvcInfo → Services
  stray : (cookie : ℕ) → List SvcInfo → Services

unfoldable pub has_addr : ℕ → List SvcInfo → Bool
has_addr p [] = false
has_addr p (si ∷ rest) = (si.addr == p) || has_addr p rest

-- The commands of the manager are those that the whole process sends.
abbrev pub manager_of : List SvcInfo → Machine Services → Manager
manager_of l mc = record { svclist = l; sent = mc.sent }

abbrev pub with_manager : Manager → Machine Services → Machine Services
with_manager mgr mc = record mc { state = running mgr.svclist; sent = mgr.sent }

-- `death->func(bs, death->ptr)` with the `binder_death` of an entry, which is at its address.
abbrev pub on_death : ℕ → Services → Machine Services → Machine Services
on_death p (stray q l) mc = record mc { state = stray q l }
on_death p (running l) mc =
    if has_addr p l
    then with_manager (svcinfo_death p (manager_of l mc)) mc
    else record mc { state = stray p l }

unfoldable pub death_func : ℕ → Machine Services → Machine Services
death_func p mc = on_death p mc.state mc

module _ (malloc : List SvcInfo → Option ℕ) where
  abbrev pub handled :
      Services
      → Transaction
      → (msg io : BinderIo) → Machine Services
      → ℕ × BinderIo × Machine Services
  handled (stray p l) txn msg io mc = (status_word fail, io, record mc { state = stray p l })
  handled (running l) txn msg io mc =
      let (st, w) =
        svcmgr_handler binder_service_manager (malloc l) txn
          (record { mgr = manager_of l mc; msg = msg; reply = io; mem = mc.mem }) in
      (status_word st, w.reply, record (with_manager w.mgr mc) { mem = w.mem })

  -- `svcmgr_handler` as a `binder_handler`.
  unfoldable pub handler_func : Handler Services
  handler_func txn msg io mc = handled mc.state txn msg io mc

  unfoldable pub svcmgr_env :
      (Br → ℕ) → (rdata status_at : ℕ) → BinderIo → Transaction → Env Services
  svcmgr_env code_of rdata status_at junk_io junk_txn = record {
    code_of = code_of;
    func = some handler_func;
    death = death_func;
    rdata = rdata;
    status_at = status_at;
    junk_io = junk_io;
    junk_txn = junk_txn;
  }

abbrev pub IsSettled : List SvcInfo → List Command → Type 0
IsSettled l cs = IsList l × IsBalanced (record { svclist = l; sent = cs })

-- The list is well formed and the references are balanced; after a stray death they were so then, and
-- the address is that of no entry.
abbrev pub IsGood : Services → List Command → Type 0
IsGood (running l) cs = IsSettled l cs
IsGood (stray p l) cs = (has_addr p l ≡ false) × IsSettled l cs

-- Commands that acquire and release nothing.
IsSettled-append :
    (l : List SvcInfo) (cs ds : List Command)
    → ((h : ℕ) → (acquired h ds ≡ 0) × (released h ds ≡ 0))
    → IsSettled l cs
    → IsSettled l (cs ++ ds)
IsSettled-append l cs ds none_held (w, b) = (
  w,
  λ h ne. omega (
    arith,
    acquired-append h cs ds,
    released-append h cs ds,
    (none_held h).0,
    (none_held h).1,
    b h ne,
  ),
)

IsGood-append :
    (s : Services) (cs ds : List Command)
    → ((h : ℕ) → (acquired h ds ≡ 0) × (released h ds ≡ 0))
    → IsGood s cs
    → IsGood s (cs ++ ds)
IsGood-append (running l) cs ds none_held g = IsSettled-append l cs ds none_held g
IsGood-append (stray p l) cs ds none_held g = (g.0, IsSettled-append l cs ds none_held g.1)

on_death-IsGood :
    (p : ℕ) (s : Services) (mc : Machine Services)
    → IsGood s mc.sent
    → IsGood (on_death p s mc).state (on_death p s mc).sent
on_death-IsGood p (stray q l) mc g = g
on_death-IsGood p (running l) mc (w, b) = elim (Bool-cases (has_addr p l)) [
  | inl known ↦
      rw known (
        svcinfo_death-IsList p (manager_of l mc) w,
        svcinfo_death-IsBalanced p (manager_of l mc) w b,
      )
  | inr other ↦ rw other (other, (w, b))
]

death_func-IsGood :
    (p : ℕ) (mc : Machine Services)
    → IsGood mc.state mc.sent
    → IsGood (death_func p mc).state (death_func p mc).sent
unfolding death_func
death_func-IsGood p mc g = on_death-IsGood p mc.state mc g

module _ (malloc : List SvcInfo → Option ℕ) (alloc : IsAllocator malloc) where
  handled-IsGood :
      (s : Services) (txn : Transaction) (msg io : BinderIo) (mc : Machine Services)
      → IsGood s mc.sent
      → let (status, reply, mc1) = handled malloc s txn msg io mc in IsGood mc1.state mc1.sent
  handled-IsGood (stray p l) txn msg io mc g = g
  handled-IsGood (running l) txn msg io mc (w, b) =
      let safe =
        svcmgr_handler-IsSafe binder_service_manager (malloc l) txn
          (record { mgr = manager_of l mc; msg = msg; reply = io; mem = mc.mem }) (alloc l) w b in
      (safe.listed, safe.balanced)

  handler_func-IsGood :
      (txn : Transaction) (msg io : BinderIo) (mc : Machine Services)
      → IsGood mc.state mc.sent
      → IsGood
          (handler_func malloc txn msg io mc).2.state
          (handler_func malloc txn msg io mc).2.sent
  unfolding handler_func
  handler_func-IsGood txn msg io mc g = handled-IsGood mc.state txn msg io mc g

  module _ (code_of : Br → ℕ) (rdata status_at : ℕ) (junk_io : BinderIo)
      (junk_txn : Transaction) where
    svcmgr_env-IsKept : IsKept (svcmgr_env malloc code_of rdata status_at junk_io junk_txn) IsGood
    unfolding svcmgr_env acquired released
    svcmgr_env-IsKept = record {
      on_func = λ func txn msg io mc e h.
          subst
            (λ (f : Handler Services). IsGood (f txn msg io mc).2.state (f txn msg io mc).2.sent)
            (some-injective _ _ e) (handler_func-IsGood txn msg io mc h);
      on_death = death_func-IsGood;
      on_reply = λ l cs buffer txn h. IsGood-append l cs _ (λ g. (refl, refl)) h;
      on_enter = λ l cs h. IsGood-append l cs _ (λ g. (refl, refl)) h;
    }

    -- Whatever bytes the driver hands over to the one thread of the service manager, in whatever
    -- rounds, its loop serves them to the end, and keeps a well-formed list and balanced references,
    -- where `malloc` returns NULL or memory that is not in use; or the driver reported the death of an
    -- address that is no entry's, up to which that holds.
    pub svcmgr_loop-IsGood :
        (readbuf : ℕ) (answers : List Answer) (mc : Machine Services)
        → IsGood mc.state mc.sent
        → (st : Looped) × (mc1 : Machine Services) × (binder_loop
              (svcmgr_env malloc code_of rdata status_at junk_io junk_txn)
              readbuf
              answers
              mc
            ≡ some (st, mc1))
          × IsGood mc1.state mc1.sent
    svcmgr_loop-IsGood readbuf answers mc h =
        binder_loop-Goes _ IsGood svcmgr_env-IsKept readbuf answers mc h
