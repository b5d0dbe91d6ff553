-- ===== src/ServiceManager/Start.antt =====
-- `main` of binder/service_manager.c, from `binder_open` to `binder_loop`.
use linux_labs.Prelude.{
  ℕ, ◌≡◌, ◌⊎◌, Bool, true, false, Option, none, some, List, ◌==◌, if◌then◌else◌,
}
use linux_labs.Binder.Types.{BinderIo, Transaction}
use linux_labs.Binder.Device.{Answers, BinderState, binder_open}
use linux_labs.Binder.Looper.{Br, Env, Machine}
use linux_labs.Binder.Looper.Call.{Answer}
use linux_labs.Binder.Looper.Rounds.{Looped, binder_loop}
use linux_labs.ServiceManager.{SvcInfo, fail}
use linux_labs.ServiceManager.Main.{Services, status_word, IsGood, svcmgr_env}
use linux_labs.ServiceManager.Runs.{IsAllocator}

-- `binder_become_context_manager`, whose result is the driver's.
abbrev pub binder_become_context_manager : (ioctl : ℕ) → BinderState → ℕ
binder_become_context_manager ioctl bs = ioctl

module _ (env : Env Services) (readbuf : ℕ) (answers : List Answer) where
  abbrev pub looped : Option (Looped × Machine Services) → Option (ℕ × Machine Services)
  looped none = none
  looped (some (st, mc)) = some (0, mc)

  abbrev pub opened :
      (ioctl : ℕ) → Option BinderState → Machine Services → Option (ℕ × Machine Services)
  opened ioctl none mc = some (status_word fail, mc)
  opened ioctl (some bs) mc =
      if binder_become_context_manager ioctl bs == 0
      then looped (binder_loop env readbuf answers mc)
      else some (status_word fail, mc)

  -- The process at its start has no services.
  unfoldable pub main : Answers → (ioctl : ℕ) → Machine Services → Option (ℕ × Machine Services)
  main k ioctl mc = opened ioctl (binder_open k 0x20000).state mc

abbrev pub is_had_state : Option BinderState → Bool
is_had_state none = false
is_had_state (some bs) = true

module _ (malloc : List SvcInfo → Option ℕ) (alloc : IsAllocator malloc) (code_of : Br → ℕ)
    (rdata status_at : ℕ) (junk_io : BinderIo) (junk_txn : Transaction) (readbuf : ℕ)
    (answers : List Answer) where
  abbrev pub env : Env Services
  env = svcmgr_env malloc code_of rdata status_at junk_io junk_txn

  -- How the program ended.
  abbrev pub Ends : (is_served : Bool) → Machine Services → Option (ℕ × Machine Services) → Type 0
  Ends is_served mc o =
      (code : ℕ) × (mc1 : Machine Services) × (o ≡ some (code, mc1))
      × IsGood mc1.state mc1.sent
      × (((is_served ≡ true)
            × (code ≡ 0)
            × ((st : Looped) × (binder_loop env readbuf answers mc ≡ some (st, mc1))))
          ⊎ ((is_served ≡ false) × (code ≡ status_word fail) × (mc1 ≡ mc)))
