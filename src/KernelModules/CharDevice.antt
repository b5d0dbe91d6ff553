-- ===== src/KernelModules/CharDevice.antt =====
-- The start and exit of char/demo_chr_dev.c, its file, and the program char/main.c that reads it.
use linux_labs.Prelude.{ℕ, ◌≡◌, refl, ◌⊎◌, inl, inr, Option, none, some, List, [], ◌∷◌, ◌++◌, arith}
use linux_labs.KernelModules.{Loaded}
use linux_labs.Resources.{
  Event, takes, gives, region, added_cdev, descriptor, Rv, success, error, ledger, give_back,
}

-- `alloc_chrdev_region` answers with the number `ndev` or an error. `chr_dev` stands at 0.
abbrev with_region : Rv → ℕ → Loaded
with_region success ndev = record {
  rv = success;
  events = takes (region ndev) ∷ takes (added_cdev 0) ∷ [];
}
with_region (error e) ndev = record { rv = error e; events = takes (region ndev) ∷ [] }

unfoldable demo_init : (alloc_chrdev_region : ℕ ⊎ ℕ) → (cdev_add : Rv) → Loaded
demo_init (inl ndev) cdev_add = with_region cdev_add ndev
demo_init (inr e) cdev_add = record { rv = error e; events = [] }

unfoldable demo_exit : (ndev : ℕ) → List Event
demo_exit ndev = gives (added_cdev 0) ∷ gives (region ndev) ∷ []

unfoldable chr_open : (major minor : ℕ) → Rv
chr_open major minor = success

-- No byte is read.
unfoldable chr_read : (sz off : ℕ) → ℕ × ℕ
chr_read sz off = (0, off)

-- `main` of char/main.c.
unfoldable main : (opened_fd : Option ℕ) → Loaded
main none = record { rv = error 1; events = [] }
main (some fd) = record {
  rv = success;
  events = takes (descriptor fd) ∷ gives (descriptor fd) ∷ [];
}

-- What a start with the number `ndev` leaves, with the exit where it succeeded.
abbrev Leaves : (ndev : ℕ) → Rv → Type 0
Leaves ndev success = ledger ((demo_init (inl ndev) success).events ++ demo_exit ndev) [] ≡ some []
Leaves ndev (error e) = ledger (demo_init (inl ndev) (error e)).events [] ≡ some (region ndev ∷ [])

-- A start that succeeds is undone by the exit; one that fails has the result of the call that failed
-- and holds nothing, but for the numbers where `cdev_add` failed.
demo_init-exit :
    (ndev e : ℕ) (cdev_add : Rv)
    → ((demo_init (inl ndev) cdev_add).rv ≡ cdev_add)
      × ((demo_init (inr e) cdev_add).rv ≡ error e)
      × (ledger (demo_init (inr e) cdev_add).events [] ≡ some [])
      × Leaves ndev cdev_add
unfolding demo_init demo_exit ledger give_back
demo_init-exit ndev e success = (refl, refl, refl, ground arith)
demo_init-exit ndev e (error n) = (refl, refl, refl, refl)
