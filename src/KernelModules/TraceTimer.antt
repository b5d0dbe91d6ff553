-- ===== src/KernelModules/TraceTimer.antt =====
-- trace_events/test_trace_event.c: the timer that samples one processor number after the other, and the start
-- and exit of its module, in the steps between which the timer can fire.
pub mod Phases
use linux_labs.Prelude.{
  ℕ, ◌+◌, ◌*◌, ◌%◌, ◌≤◌, ◌<◌, ◌≡◌, refl, sym, ◌∙◌, ◌≢◌, Bool, true, false, Option, none, some,
  arith, ltb, if◌then◌else◌, ◌⊎◌, inl, inr,
}
use mathlib.Core.Option.{some-injective}
use native.Mathlib.Nat.{mod-lt}
use linux_labs.Resources.{Rv, success, error}
use mathlib.Core.Path.{subst}

-- `struct test_data`.
pub record TestData : Type 0 where
  pub num : ℕ
  pub cpu_freq : ℕ
  pub cpu_max_freq : ℕ

-- What the static pointer `global` points to.
pub data Target : Type 0 where
  null freed : Target
  live : TestData → Target

-- `i`, `global`, whether the timer is armed, and the milliseconds by which it was last put off.
pub record Globals : Type 0 where
  pub i : ℕ
  pub global : Target
  pub armed : Bool
  pub delay : ℕ

-- `NR_CPUS`, the most processors that the kernel was built for, and what `cpufreq_quick_get` and
-- `cpufreq_quick_get_max` answer for a number, be there such a processor or not.
pub record System : Type 0 where
  pub nr_cpus : ℕ
  pub quick_get : ℕ → ℕ
  pub quick_get_max : ℕ → ℕ

-- `if (i > 100) i = 0; i++`.
abbrev pub next_i : ℕ → ℕ
next_i i = (if ltb 100 i then 0 else i) + 1

-- What the function writes through `global`, and traces.
abbrev pub sample : System → (i : ℕ) → TestData
sample sys i =
    let cpu = (i + 1) % sys.nr_cpus in
    record { num = cpu; cpu_freq = sys.quick_get cpu; cpu_max_freq = sys.quick_get_max cpu }

abbrev pub fired : System → Globals → Globals
fired sys g = record {
  i = next_i g.i;
  global = live (sample sys g.i);
  armed = true;
  delay = 2000 + g.i * 200;
}

-- `none` where it writes through NULL or to memory that was freed.
unfoldable pub test_driver_func : System → Globals → Option Globals
test_driver_func sys g = elim g.global [ null ↦ none | freed ↦ none | live d ↦ some (fired sys g) ]

-- `test_driver_init` up to `add_timer_on`, with 50 seconds, and from `kzalloc` on.
unfoldable pub arm_timer : Globals → Globals
arm_timer g = record g { armed = true; delay = 50000 }

unfoldable pub alloc_data : (kzalloc : Bool) → Globals → Rv × Globals
alloc_data true g =
    (success, record g { global = live (record { num = 0; cpu_freq = 0; cpu_max_freq = 0 }) })
alloc_data false g = (error 1, record g { global = null })

unfoldable pub test_driver_init : (kzalloc : Bool) → Globals → Rv × Globals
test_driver_init kzalloc g = alloc_data kzalloc (arm_timer g)

-- The two calls of `test_driver_exit`.
unfoldable pub free_data : Globals → Globals
free_data g = record g { global = freed }

unfoldable pub del_timer_sync : Globals → Globals
del_timer_sync g = record g { armed = false }

unfoldable pub test_driver_exit : Globals → Globals
test_driver_exit g = del_timer_sync (free_data g)

-- How far the module is.
pub data Phase : Type 0 where
  unloaded arming failed ready freeing gone : Phase

-- One call of the start or of the exit, or one firing of the timer.
pub data Step (sys : System) : Phase × Globals → Phase × Globals → Type 0 where
  arms : (g : Globals) → Step sys (unloaded, g) (arming, arm_timer g)
  allocs : (g : Globals) → Step sys (arming, g) (ready, (alloc_data true g).1)
  fails_to_alloc : (g : Globals) → Step sys (arming, g) (failed, (alloc_data false g).1)
  fires :
      (ph : Phase) (g g' : Globals)
      → g.armed ≡ true
      → test_driver_func sys g ≡ some g'
      → Step sys (ph, g) (ph, g')
  frees : (g : Globals) → Step sys (ready, g) (freeing, free_data g)
  stops : (g : Globals) → Step sys (freeing, g) (gone, del_timer_sync g)

abbrev pub at_load : Globals
at_load = record { i = 0; global = null; armed = false; delay = 0 }

pub data Reached (sys : System) : Phase × Globals → Type 0 where
  at_start : Reached sys (unloaded, at_load)
  behind_step : (s s' : Phase × Globals) → Reached sys s → Step sys s s' → Reached sys s'
