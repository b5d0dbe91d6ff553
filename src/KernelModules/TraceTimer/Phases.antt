-- ===== src/KernelModules/TraceTimer/Phases.antt =====
-- What holds of the timer of trace_events/test_trace_event.c in each phase of its module.
use linux_labs.Prelude.{
  ℕ, ◌+◌, ◌≤◌, ◌<◌, ◌≡◌, refl, sym, ◌∙◌, ◌≢◌, Bool, true, false, Option, none, some, arith, ◌⊎◌,
  inl, inr,
}
use mathlib.Core.Option.{some-injective}
use native.Mathlib.Nat.{mod-lt}
use mathlib.Core.Path.{subst}
use linux_labs.KernelModules.TraceTimer.{
  TestData, Target, null, freed, live, Globals, System, next_i, sample, fired, test_driver_func,
  arm_timer, alloc_data, free_data, del_timer_sync, Phase, unloaded, arming, ready, failed, freeing,
  gone, Step, arms, allocs, fails_to_alloc, fires, frees, stops, Reached, at_start, behind_step,
}

-- What `global` points to in each phase.
abbrev pub Points : System → Phase → Target → Type 0
Points sys ready t = (d : TestData) × (t ≡ live d) × (d.num < sys.nr_cpus)
Points sys freeing t = t ≡ freed
Points sys gone t = t ≡ freed
Points sys ph t = t ≡ null

abbrev pub is_armed : Phase → Bool
is_armed unloaded = false
is_armed gone = false
is_armed ph = true

pub record IsSound (sys : System) (s : Phase × Globals) : Type 0 where
  pub counted : s.1.i ≤ 101
  pub points : Points sys s.0 s.1.global
  pub armed : s.1.armed ≡ is_armed s.0
  pub delayed : s.1.delay ≤ 50000

module _ (sys : System) (some_cpu : 0 < sys.nr_cpus) where
  next_i-bound : (i : ℕ) → i ≤ 101 → next_i i ≤ 101
  next_i-bound i h = ground arith

  -- A firing in the phase `ready`, and in the others.
  fires-ready :
      (g : Globals)
      → IsSound sys (ready, g)
      → (g' : Globals) × (test_driver_func sys g ≡ some g') × IsSound sys (ready, g')
  unfolding test_driver_func
  fires-ready g s =
      let (d, e, small) = s.points in
      (
        fired sys g,
        rw e refl,
        record {
          counted = next_i-bound g.i s.counted;
          points = (sample sys g.i, refl, mod-lt (g.i + 1) some_cpu);
          armed = refl;
          delayed = omega (arith, s.counted);
        },
      )

  none-or_some : {g : Globals} → ◌≢◌ {A = Option Globals} none (some g)
  none-or_some h = ground arith

  fires-null : (g : Globals) → g.global ≡ null → test_driver_func sys g ≡ none
  unfolding test_driver_func
  fires-null g e = rw e refl

  fires-freed : (g : Globals) → g.global ≡ freed → test_driver_func sys g ≡ none
  unfolding test_driver_func
  fires-freed g e = rw e refl

  -- In the phase `ready` a firing samples a number below `NR_CPUS`; in the others it faults.
  abbrev pub Fires : Phase → Globals → Type 0
  Fires ph g =
      ((ph ≡ ready)
        × ((g' : Globals) × (d : TestData) × (test_driver_func sys g ≡ some g')
            × (g'.i ≤ 101)
            × (g'.global ≡ live d)
            × (d.num < sys.nr_cpus)))
      ⊎ ((ph ≢ ready) × (test_driver_func sys g ≡ none))

  test_driver_func-Fires : (ph : Phase) (g : Globals) → IsSound sys (ph, g) → Fires ph g
  test_driver_func-Fires ready g s =
      let (g', e, s') = fires-ready g s in
      let (d, f, small) = s'.points in inl (refl, (g', d, e, s'.counted, f, small))
  test_driver_func-Fires unloaded g s = inr ((λ h. ground arith), fires-null g s.points)
  test_driver_func-Fires arming g s = inr ((λ h. ground arith), fires-null g s.points)
  test_driver_func-Fires failed g s = inr ((λ h. ground arith), fires-null g s.points)
  test_driver_func-Fires freeing g s = inr ((λ h. ground arith), fires-freed g s.points)
  test_driver_func-Fires gone g s = inr ((λ h. ground arith), fires-freed g s.points)

  fires-IsSound :
      (ph : Phase) (g g' : Globals)
      → test_driver_func sys g ≡ some g'
      → IsSound sys (ph, g)
      → IsSound sys (ph, g')
  fires-IsSound ready g g' e s =
      let (g1, e1, s1) = fires-ready g s in
      subst (λ x. IsSound sys (ready, x)) (some-injective g1 g' (sym e1 ∙ e)) s1
  fires-IsSound unloaded g g' e s = absurd (none-or_some (sym (fires-null g s.points) ∙ e))
  fires-IsSound arming g g' e s = absurd (none-or_some (sym (fires-null g s.points) ∙ e))
  fires-IsSound failed g g' e s = absurd (none-or_some (sym (fires-null g s.points) ∙ e))
  fires-IsSound freeing g g' e s = absurd (none-or_some (sym (fires-freed g s.points) ∙ e))
  fires-IsSound gone g g' e s = absurd (none-or_some (sym (fires-freed g s.points) ∙ e))

  Step-IsSound : (s s' : Phase × Globals) → Step sys s s' → IsSound sys s → IsSound sys s'
  unfolding arm_timer alloc_data free_data del_timer_sync
  Step-IsSound _ _ (arms g) s = record {
    counted = s.counted;
    points = s.points;
    armed = refl;
    delayed = omega arith;
  }
  Step-IsSound _ _ (allocs g) s = record {
    counted = s.counted;
    points = (_, refl, some_cpu);
    armed = s.armed;
    delayed = s.delayed;
  }
  Step-IsSound _ _ (fails_to_alloc g) s = record {
    counted = s.counted;
    points = refl;
    armed = s.armed;
    delayed = s.delayed;
  }
  Step-IsSound _ _ (fires ph g g' on e) s = fires-IsSound ph g g' e s
  Step-IsSound _ _ (frees g) s = record {
    counted = s.counted;
    points = refl;
    armed = s.armed;
    delayed = s.delayed;
  }
  Step-IsSound _ _ (stops g) s = record {
    counted = s.counted;
    points = s.points;
    armed = refl;
    delayed = s.delayed;
  }

  Reached-IsSound : (s : Phase × Globals) → Reached sys s → IsSound sys s
  Reached-IsSound _ at_start = record {
    counted = omega arith;
    points = refl;
    armed = refl;
    delayed = omega arith;
  }
  Reached-IsSound s' (behind_step s _ before step) =
      Step-IsSound s s' step (Reached-IsSound s before)

  -- In every state that the module can come to, the counter is at most 101 and the timer is put off by
  -- at most 50 seconds. A firing samples a processor number below `NR_CPUS`, of a processor that may or
  -- may not be there, where the start is done and the exit has not begun; in every other state it writes through NULL or to freed memory. The timer is armed
  -- from the start on until `del_timer_sync`: before `kzalloc`, after it failed, and after `kfree` as
  -- well.
  pub test_timer-Fires :
      (ph : Phase) (g : Globals)
      → Reached sys (ph, g)
      → (g.i ≤ 101) × (g.delay ≤ 50000) × (g.armed ≡ is_armed ph) × Fires ph g
  test_timer-Fires ph g reached =
      let s = Reached-IsSound (ph, g) reached in
      (s.counted, s.delayed, s.armed, test_driver_func-Fires ph g s)
