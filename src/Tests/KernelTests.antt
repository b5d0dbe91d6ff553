-- ===== src/Tests/KernelTests.antt =====
-- The kernel modules that stand alone, at concrete inputs.
use linux_labs.Prelude.{ℕ, ◌≤◌, ◌≡◌, refl, true, some, arith, ◌==◌, if◌then◌else◌}
use linux_labs.Resources.{success, error, taken, given, added_device, device, class, Rv}
use linux_labs.KernelModules.Kset
use linux_labs.KernelModules.Kset.{example_init, child_attr_store, child_attr_show}
use linux_labs.KernelModules.Kset.Laws
use linux_labs.KernelModules.Kset.Laws.{example_init-Leaves, is_sent, show-store}
use linux_labs.KernelModules.Devices.{class_init, class_exit, class_init-exit}
use linux_labs.KernelModules.SeqFile.{
  Reader, Reached, at_open, behind_step, starts, passes, stops, opened, ct_seq_start, ct_seq_show,
  ct_seq_next, ct_seq_stop, IsSound, reader-IsSound,
}
use linux_labs.KernelModules.TraceTimer.{
  System, Globals, Phase, arming, at_load, arm_timer, arms, alloc_data, ready, allocs,
}
use linux_labs.KernelModules.TraceTimer.Phases.{Fires, test_timer-Fires}
use linux_labs.KernelModules.TraceTimer

-- The file of the child cannot be created.
abbrev no_file : Kset.Answers
no_file = record {
  kset_create_and_add = some 10;
  kobject_create_and_add = some 20;
  kzalloc = some 30;
  kobject_init_and_add = success;
  sysfs_create_file = error 12;
}

example_init-Leaves_example : Laws.Leaves no_file (example_init no_file)
example_init-Leaves_example = example_init-Leaves no_file

-- The second device cannot be added.
abbrev second_fails : ℕ → Rv
second_fails p = if p == 1 then error 17 else success

class_init-exit_example :
    let r = class_init (some 100) second_fails in
    let es = class_exit 100 in
    (r.rv ≡ success)
    × (taken (added_device 1) r.events ≡ 0)
    × (given (added_device 1) es ≡ 1)
    × (taken (device 1) r.events ≡ 1)
    × (given (device 1) es ≡ 0)
    × (taken (class 100) r.events ≡ given (class 100) es)
class_init-exit_example = class_init-exit 100 second_fails 1 (omega arith)

-- A reader who starts, passes two lines, and stops.
abbrev started : Reader
started = ct_seq_start (some 7) opened

abbrev one_line : Reader
one_line = ct_seq_next (7, 0) (ct_seq_show (7, 0) started)

abbrev two_lines : Reader
two_lines = ct_seq_next (7, 1) (ct_seq_show (7, 1) one_line)

stopped-Reached : Reached (ct_seq_stop two_lines)
unfolding ct_seq_start ct_seq_next ct_seq_show
stopped-Reached =
    behind_step two_lines _
      (behind_step one_line _
        (behind_step started _ (behind_step opened _ at_open (starts (some 7) opened refl))
          (passes (7, 0) started refl))
        (passes (7, 1) one_line refl))
      (stops two_lines)

reader-IsSound_example : IsSound (ct_seq_stop two_lines)
reader-IsSound_example = reader-IsSound (ct_seq_stop two_lines) stopped-Reached

abbrev four_cpus : System
four_cpus = record { nr_cpus = 4; quick_get = λ cpu. 1000; quick_get_max = λ cpu. 2000 }

-- The start is done.
abbrev after_start : Globals
after_start = (alloc_data true (arm_timer at_load)).1

armed-Reached : TraceTimer.Reached four_cpus (arming, arm_timer at_load)
armed-Reached = TraceTimer.behind_step _ _ TraceTimer.at_start (arms at_load)

ready-Reached : TraceTimer.Reached four_cpus (ready, after_start)
ready-Reached = TraceTimer.behind_step _ _ armed-Reached (allocs (arm_timer at_load))

test_timer-Fires_example :
    let g = after_start in
    (g.i ≤ 101) × (g.delay ≤ 50000) × (g.armed ≡ true) × Fires four_cpus (omega arith) ready g
test_timer-Fires_example = test_timer-Fires four_cpus (omega arith) ready after_start ready-Reached
