-- ===== src/Ramdisk/SampleBlk/Module.antt =====
-- The allocation and release of ramdisk-lab/sample_blk.c: nothing is lost on a failure, and the exit
-- gives back what a successful start took.
use linux_labs.Prelude.{
  ℕ, ◌≡◌, refl, ◌⊎◌, inl, inr, Option, none, some, List, [], ◌++◌, arith, Option-cases,
}
use linux_labs.Resources.{Event, give_back, ledger, success, enomem}
use linux_labs.Ramdisk.SampleBlk.{
  Dev, Answers, Alloced, sampleblk_alloc, sampleblk_free, sampleblk_init, sampleblk_exit,
  sampleblk_minor,
}

-- Either the allocation succeeded, and `sampleblk_free` gives back exactly what is held then; or it
-- failed, and nothing is held.
abbrev pub IsClean : Alloced → Type 0
IsClean r =
    ((r.rv ≡ success)
      × ((dev : Dev) × (r.dev ≡ some dev) × (ledger (r.events ++ sampleblk_free dev) [] ≡ some [])))
    ⊎ ((r.rv ≡ enomem) × (ledger r.events [] ≡ some []))

alloc-IsClean :
    (p minor : ℕ) (a q d : Option ℕ)
    → IsClean (
        sampleblk_alloc
          (record { kzalloc = some p; vmalloc = a; blk_init_queue = q; alloc_disk = d })
          minor)
unfolding sampleblk_alloc sampleblk_free ledger give_back
alloc-IsClean p minor none q d = inr (refl, ground arith)
alloc-IsClean p minor (some a) none d = inr (refl, ground arith)
alloc-IsClean p minor (some a) (some q) none = inr (refl, ground arith)
alloc-IsClean p minor (some a) (some q) (some d) = inl (refl, (_, refl, ground arith))

-- Whatever the kernel answers, `sampleblk_alloc` loses nothing: it fails and holds nothing, or it
-- succeeds and `sampleblk_free` gives back all that it took, each once.
pub sampleblk_alloc-IsClean : (k : Answers) (minor : ℕ) → IsClean (sampleblk_alloc k minor)
unfolding sampleblk_alloc ledger
sampleblk_alloc-IsClean k minor = elim (Option-cases k.kzalloc) [
  | inl none_left ↦ rw none_left (inr (refl, refl))
  | inr (p, e) ↦ rw e (alloc-IsClean p minor k.vmalloc k.blk_init_queue k.alloc_disk)
]

-- A start is broken where `sampleblk_alloc` failed: the module is loaded all the same, and its exit
-- uses a NULL pointer or gives something back a second time.
abbrev pub Faults : Option (List Event) → List Event → Type 0
Faults none es = Unit {0}
Faults (some out) es = ledger (es ++ out) [] ≡ none

broken :
    (major p : ℕ) (a q d : Option ℕ)
    → let r =
        sampleblk_init
          (inl major)
          (record { kzalloc = some p; vmalloc = a; blk_init_queue = q; alloc_disk = d }) in
      (sampleblk_alloc
          (record { kzalloc = some p; vmalloc = a; blk_init_queue = q; alloc_disk = d })
          sampleblk_minor).rv
        ≡ enomem
      → (r.rv ≡ success) × Faults (sampleblk_exit major r.dev) r.events
unfolding sampleblk_init sampleblk_exit sampleblk_alloc sampleblk_free ledger give_back
broken major p none q d h = (refl, ground arith)
broken major p (some a) none d h = (refl, ground arith)
broken major p (some a) (some q) none h = (refl, ground arith)
broken major p (some a) (some q) (some d) h = absurd (ground arith)

-- Where an allocation of `sampleblk_alloc` fails, `sampleblk_init` still returns 0, and the exit of
-- the module then uses a NULL pointer or gives something back that is not held.
pub sampleblk_init-Faults :
    (major : ℕ) (k : Answers)
    → (sampleblk_alloc k sampleblk_minor).rv ≡ enomem
    → let r = sampleblk_init (inl major) k in
      (r.rv ≡ success) × Faults (sampleblk_exit major r.dev) r.events
unfolding sampleblk_init sampleblk_exit sampleblk_alloc
sampleblk_init-Faults major k h = elim (Option-cases k.kzalloc) [
  | inl none_left ↦ rw none_left (refl, tt)
  | inr (p, e) ↦ ground (arith, broken major p k.vmalloc k.blk_init_queue k.alloc_disk)
]
