-- ===== src/Tests/WaitTests.antt =====
-- The device of waitqueue/waitqueue.c after concrete steps.
use linux_labs.Prelude.{ℕ, ◌≡◌, refl, inl, true, some, ◌++◌, arith, length, codes}
use linux_labs.WaitQueue.{Globals, all_copied, globalvar_read, unread, write_locked, raise_flag}
use linux_labs.WaitQueue.Runs.{
  World, Reached, at_start, behind_step, loaded, writes, raises, delivered_lem, reader_goes_on,
}

-- A writer wrote "hi" and raised the flag.
abbrev start_world : World
start_world = loaded (λ x. 0) 5000

abbrev stored : World
stored = record start_world {
  globals = (write_locked (all_copied (codes "hi")) start_world.globals).1;
  writers = 1;
  written = codes "hi";
}

abbrev raised : World
raised = record stored { globals = raise_flag stored.globals; writers = 0 }

raised-Reached : Reached raised
raised-Reached =
    behind_step stored raised
      (behind_step start_world stored (at_start (λ x. 0) 5000)
        (writes (codes "hi") start_world (omega arith)))
      (raises stored (omega arith))

delivered_lem_example : raised.written ≡ raised.delivered ++ unread raised.globals
delivered_lem_example = delivered_lem raised raised-Reached

reader_goes_on_example :
    (n : ℕ) × (g : Globals) × (globalvar_read true true raised.globals
      ≡ some (inl n, unread raised.globals, g))
    × (n ≡ length (unread raised.globals))
    × (g.read_index ≡ raised.globals.write_index)
    × (raised.written ≡ raised.delivered ++ unread raised.globals)
unfolding write_locked raise_flag
reader_goes_on_example = reader_goes_on raised raised-Reached refl (ground arith) true
