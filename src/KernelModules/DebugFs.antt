-- ===== src/KernelModules/DebugFs.antt =====
-- The start and exit of debugfs/debugfs_demo.c.
use linux_labs.Prelude.{
  ℕ, ◌≡◌, refl, inl, inr, Option, none, some, List, [], ◌∷◌, ◌++◌, arith, Option-cases,
}
use linux_labs.KernelModules.{Loaded, Rv}
use linux_labs.Resources.{
  Res, Event, takes, gives, memory, dentry, success, error, ledger, give_back, Rv,
}

record Answers : Type 0 where
  kmalloc : Option ℕ
  debugfs_create_dir : Option ℕ
  debugfs_create_file : Option ℕ

abbrev made : Option ℕ → List Event
made none = []
made (some d) = takes (dentry d) ∷ []

-- `debugfs_remove` and `debugfs_remove_recursive` of an empty directory do nothing with NULL.
abbrev removed : Option ℕ → List Event
removed none = []
removed (some d) = gives (dentry d) ∷ []

-- The file and the label `err_dbg_file`.
abbrev with_dir : (demo_data : ℕ) → (root dbg_file : Option ℕ) → Loaded
with_dir demo_data root none = record {
  rv = error 22;
  events = made root ++ removed root ++ gives (memory demo_data) ∷ [];
}
with_dir demo_data root (some f) = record { rv = success; events = made root ++ made (some f) }

-- `none` where `strcpy` writes to NULL. The variables `root` and `dbg_file` are the function's own.
unfoldable debugfs_demo_init : Answers → Option Loaded
debugfs_demo_init k = elim k.kmalloc [
  | none ↦ none
  | some demo_data ↦
      let r = with_dir demo_data k.debugfs_create_dir k.debugfs_create_file in
      some (record r { events = takes (memory demo_data) ∷ r.events })
]

-- The static `root`, which nothing sets.
abbrev static_root : Option ℕ
static_root = none

unfoldable debugfs_demo_exit : List Event
debugfs_demo_exit = removed static_root

-- The handlers of the file: the read prints the text of the data and gives no byte, and the release
-- frees the `private_data` of the file, which nothing sets.
unfoldable debugfs_demo_open : Rv
debugfs_demo_open = success

unfoldable debugfs_demo_read : (str : List ℕ) → ℕ × List ℕ
debugfs_demo_read str = (0, str)

unfoldable debugfs_demo_release : (private_data : Option ℕ) → Rv × List Event
debugfs_demo_release none = (success, [])
debugfs_demo_release (some p) = (success, gives (memory p) ∷ [])

abbrev dentries : Option ℕ → List Res
dentries none = []
dentries (some d) = dentry d ∷ []

-- How a start ended: without a result, there was no memory. After a failure nothing is held; after a
-- success the exit leaves all that was taken.
abbrev Leaves : Answers → Option Loaded → Type 0
Leaves k none = k.kmalloc ≡ none
Leaves k (some r) = elim r.rv [
  | error e ↦ (e ≡ 22) × (k.debugfs_create_file ≡ none) × (ledger r.events [] ≡ some [])
  | success ↦
      (demo_data f : ℕ) × (k.kmalloc ≡ some demo_data)
      × (k.debugfs_create_file ≡ some f)
      × (ledger (r.events ++ debugfs_demo_exit) []
          ≡ some (dentry f ∷ dentries k.debugfs_create_dir ++ memory demo_data ∷ []))
]

had-Leaves :
    (demo_data : ℕ) (root dbg_file : Option ℕ)
    → let k : Answers = record {
      kmalloc = some demo_data;
      debugfs_create_dir = root;
      debugfs_create_file = dbg_file;
    } in
      Leaves k (debugfs_demo_init k)
unfolding debugfs_demo_init debugfs_demo_exit ledger give_back
had-Leaves demo_data none none = (refl, refl, ground arith)
had-Leaves demo_data (some d) none = (refl, refl, ground arith)
had-Leaves demo_data none (some f) = (demo_data, f, refl, refl, refl)
had-Leaves demo_data (some d) (some f) = (demo_data, f, refl, refl, refl)

-- The start writes through NULL where there is no memory for its data. Where the file cannot be made it
-- fails with -EINVAL and holds nothing; else the exit of the module leaves the file, its directory
-- and the data.
debugfs_demo-Leaves : (k : Answers) → Leaves k (debugfs_demo_init k)
unfolding debugfs_demo_init
debugfs_demo-Leaves k = elim (Option-cases k.kmalloc) [
  | inl no_memory ↦ rw no_memory refl
  | inr (demo_data, e) ↦ rw e (had-Leaves demo_data k.debugfs_create_dir k.debugfs_create_file)
]
