-- ===== src/KernelModules/TracePoint.antt =====
-- Modules that register one entry: trace_point/tracepoint-sample.c, sysctl/sysctl.c and
-- single_open/single_open.c.
use linux_labs.Prelude.{
  ℕ, ◌≡◌, refl, Bool, Option, none, some, List, [], ◌∷◌, ◌++◌, arith, if◌then◌else◌, map, codes,
}
use linux_labs.KernelModules.{Loaded}
use linux_labs.Resources.{
  Rv, Event, takes, gives, proc_entry, probe, table, dentry, success, error, ledger, give_back,
}

-- `proc_create` answers with an entry or NULL; the probe `my_subsys_event` stands at 0.
unfoldable sample_init : (proc_create : Option ℕ) → Loaded
sample_init none = record { rv = error 1; events = [] }
sample_init (some p) = record { rv = success; events = takes (proc_entry p) ∷ takes (probe 0) ∷ [] }

unfoldable sample_exit : (entry : ℕ) → List Event
sample_exit entry = gives (proc_entry entry) ∷ []

-- What the probe prints of an opened file.
unfoldable my_subsys_event : (inode file : ℕ) → ℕ × ℕ
my_subsys_event inode file = (inode, file)

-- `my_open` calls the probes that are registered with the tracepoint.
unfoldable my_open : (probes : List (ℕ → ℕ → ℕ × ℕ)) → (inode file : ℕ) → Rv × List (ℕ × ℕ)
my_open probes inode file = (success, map (λ p. p inode file) probes)

-- The `sysctl_header` that `register_sysctl_table` answers with.
unfoldable sysctl_example_init : (register_sysctl_table : Option ℕ) → Loaded
sysctl_example_init none = record { rv = error 1; events = [] }
sysctl_example_init (some h) = record { rv = success; events = takes (table h) ∷ [] }

unfoldable sysctl_example_exit : (sysctl_header : ℕ) → List Event
sysctl_example_exit sysctl_header = gives (table sysctl_header) ∷ []

-- `proc_dointvec` answers with its result and the new value; what is logged is the value before, and for
-- a write the value after.
unfoldable kernusr_callback :
    (proc_dointvec : Bool → ℕ → ℕ × ℕ) → (write : Bool) → (value : ℕ) → ℕ × ℕ × List ℕ
kernusr_callback proc_dointvec write value =
    let (rc, value1) = proc_dointvec write value in
    (rc, value1, value ∷ (if write then value1 ∷ [] else []))

-- What `seq_file_demo_show` adds to the text in `seq`, and what `single_open` answers, which has its
-- address.
unfoldable seq_file_demo_show : (seq : List ℕ) → ℕ × List ℕ
seq_file_demo_show seq = (0, seq ++ codes "Hello World" ++ 10 ∷ [])

unfoldable seq_file_demo_open : (single_open : (List ℕ → ℕ × List ℕ) → ℕ) → ℕ
unfolding seq_file_demo_show
seq_file_demo_open single_open = single_open seq_file_demo_show

unfoldable seq_file_demo_init : (debugfs_create_file : Option ℕ) → Loaded
seq_file_demo_init none = record { rv = success; events = [] }
seq_file_demo_init (some d) = record { rv = success; events = takes (dentry d) ∷ [] }

unfoldable seq_file_demo_exit : (seq_file_demo_dir : Option ℕ) → List Event
seq_file_demo_exit none = []
seq_file_demo_exit (some d) = gives (dentry d) ∷ []

-- The sysctl table and the file of single_open.c are given back; the exit of the tracepoint sample
-- leaves its probe registered.
entries-Leave :
    (p : ℕ) (d : Option ℕ)
    → (ledger ((sample_init (some p)).events ++ sample_exit p) [] ≡ some (probe 0 ∷ []))
      × (ledger ((sysctl_example_init (some p)).events ++ sysctl_example_exit p) [] ≡ some [])
      × (ledger ((seq_file_demo_init d).events ++ seq_file_demo_exit d) [] ≡ some [])
unfolding sample_init sample_exit sysctl_example_init sysctl_example_exit seq_file_demo_init
    seq_file_demo_exit ledger give_back
entries-Leave p none = (ground arith, ground arith, refl)
entries-Leave p (some d) = (ground arith, ground arith, ground arith)
