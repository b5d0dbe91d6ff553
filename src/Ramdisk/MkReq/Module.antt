-- ===== src/Ramdisk/MkReq/Module.antt =====
-- How the module of ramdisk-lab/ramhd_mkreq.c comes and goes with its devices.
use linux_labs.Prelude.{ℕ, ◌≡◌, refl, ◌≢◌, none, some, List, [], ◌∷◌, ◌++◌, arith}
use linux_labs.Memory.{Mem}
use linux_labs.Resources.{Res, area, give_back, ledger, success, enomem}
use linux_labs.Ramdisk.MkReq.{
  Answers, Loaded, ramhd_space_init, alloc_ramdev, set_up_all, ramhd_init, take_down, ramhd_exit,
  ramhd_space_clean, clean_ramdev, no_ptrs, memset, ramhd_size,
}
use linux_labs.Memory.Copy.{memset}

-- The kernel gives a device all that is asked for.
abbrev pub all_given : (a p q d : ℕ) → Answers
all_given a p q d = record {
  vmalloc = some a;
  kzalloc = some p;
  blk_alloc_queue = some q;
  alloc_disk = some d;
}

-- With both devices given all that is asked for, at addresses that differ, `ramhd_init` returns 0 and
-- `ramhd_exit` gives back all that was taken, each once.
pub ramhd_init-exit :
    (a p q d a2 p2 q2 d2 major : ℕ) (m : Mem)
    → (a ≢ a2) × (p ≢ p2) × (q ≢ q2) × (d ≢ d2)
    → (l : Loaded) × (ramhd_init (all_given a p q d ∷ all_given a2 p2 q2 d2 ∷ []) major m ≡ some l)
      × (l.rv ≡ success)
      × (ledger (l.events ++ ramhd_exit major l) [] ≡ some [])
unfolding ramhd_init ramhd_space_init alloc_ramdev set_up_all ramhd_exit take_down clean_ramdev
    ramhd_space_clean ledger give_back
ramhd_init-exit a p q d a2 p2 q2 d2 major m differ = (_, refl, refl, ground arith)

-- The areas that were taken in turn, the last first, before what was held.
abbrev pub leaked : List ℕ → List Res → List Res
leaked [] held = held
leaked (p ∷ ps) held = leaked ps (area p ∷ held)

-- Devices that get their area, and nothing else is known of them.
abbrev pub AreGiven : List ℕ → List Answers → Type 0
AreGiven [] [] = Unit {0}
AreGiven [] (k ∷ ks) = ⊥
AreGiven (p ∷ ps) [] = ⊥
AreGiven (p ∷ ps) (k ∷ ks) = (k.vmalloc ≡ some p) × AreGiven ps ks

space_init-none :
    (ps : List ℕ) (front : List Answers) (k : Answers) (ks : List Answers) (m : Mem)
    → AreGiven ps front
    → k.vmalloc ≡ none
    → ((ramhd_space_init (front ++ k ∷ ks) m).rv ≡ enomem)
      × ((held : List Res)
          → ledger (ramhd_space_init (front ++ k ∷ ks) m).events held ≡ some (leaked ps held))
unfolding ramhd_space_init ledger
space_init-none [] [] k ks m g e = rw e (refl, λ held. refl)
space_init-none [] (j ∷ front) k ks m g e = absurd g
space_init-none (p ∷ ps) [] k ks m g e = absurd g
space_init-none (p ∷ ps) (j ∷ front) k ks m g e =
    let (fails, holds) = space_init-none ps front k ks (memset p 0 ramhd_size m) g.1 e in
    rw g.0 (fails, λ held. holds (area p ∷ held))

-- Where `vmalloc` fails for a device, `ramhd_init` returns -ENOMEM and is left with the areas of all
-- the devices before it, which nothing gives back.
pub ramhd_init_leaks :
    (ps : List ℕ) (front : List Answers) (k : Answers) (ks : List Answers) (major : ℕ) (m : Mem)
    → AreGiven ps front
    → k.vmalloc ≡ none
    → (l : Loaded) × (ramhd_init (front ++ k ∷ ks) major m ≡ some l)
      × (l.rv ≡ enomem)
      × (ledger l.events [] ≡ some (leaked ps []))
unfolding ramhd_init
ramhd_init_leaks ps front k ks major m g e =
    let (fails, holds) = space_init-none ps front k ks m g e in
    let s = ramhd_space_init (front ++ k ∷ ks) m in
    (
      record {
        rv = s.rv;
        sdisk = s.ptrs;
        rdev = no_ptrs (front ++ k ∷ ks);
        devs = [];
        mem = s.mem;
        events = s.events;
      },
      rw fails,
      fails,
      holds [],
    )
