-- ===== src/WaitQueue/Runs.antt =====
-- Readers and writers of waitqueue/waitqueue.c that interleave: what is read is what was written, and
-- no reader waits for what is there.
use linux_labs.Prelude.{
  ℕ, ◌+◌, ◌-◌, ◌≤◌, ◌<◌, ◌≡◌, refl, sym, ap, ◌∙◌, ◌≢◌, ◌⊎◌, inl, inr, Bool, true, false, some, List,
  [], ◌++◌, arith, ltb, length, ◌^◌,
}
use linux_labs.Memory.{Mem}
use linux_labs.Memory.Copy.{bytes, bytes-Apart, bytes-append, length-bytes}
use linux_labs.WaitQueue.{
  Globals, all_copied, not_all, put_bytes, write_locked, raise_flag, read_locked, is_awake, unread,
  read_len, as_size, at_index, len_max, globalvar_read,
}
use linux_labs.WaitQueue.Writes.{
  bytes-put_bytes_behind, put_bytes_outside, write_locked-fits, write_locked-fails,
}

-- The variables, how many writers stand between `spin_unlock` and `flag = 1`, how many readers behind
-- their wait and before `spin_lock`, and what was written and read so far.
pub record World : Type 0 where
  pub globals : Globals
  pub writers : ℕ
  pub readers : ℕ
  pub written : List ℕ
  pub delivered : List ℕ

-- A write of these bytes stays in the array.
abbrev pub Fits : List ℕ → World → Type 0
Fits xs w = w.globals.write_index + length xs ≤ len_max

-- One step of one of the threads. The lock makes the parts under it one step.
pub data Step : World → World → Type 0 where
  writes :
      (xs : List ℕ) (w : World)
      → Fits xs w
      → Step w (record w {
        globals = (write_locked (all_copied xs) w.globals).1;
        writers = w.writers + 1;
        written = w.written ++ xs;
      })
  fails_to_write :
      (xs : List ℕ) (w : World)
      → Fits xs w
      → Step w (record w { globals = (write_locked (not_all xs) w.globals).1 })
  raises :
      (w : World)
      → 0 < w.writers
      → Step w (record w { globals = raise_flag w.globals; writers = w.writers - 1 })
  wakes : (w : World) → is_awake w.globals ≡ true → Step w (record w { readers = w.readers + 1 })
  reads :
      (w : World)
      → 0 < w.readers
      → Step w (record w {
        globals = (read_locked true w.globals).2;
        readers = w.readers - 1;
        delivered = w.delivered ++ (read_locked true w.globals).1;
      })
  fails_to_read :
      (w : World)
      → 0 < w.readers
      → Step w (record w { globals = (read_locked false w.globals).2; readers = w.readers - 1 })

-- The module was just loaded.
abbrev pub loaded : Mem → (global_var : ℕ) → World
loaded m global_var = record {
  globals = record { mem = m; global_var = global_var; read_index = 0; write_index = 0; flag = 0 };
  writers = 0;
  readers = 0;
  written = [];
  delivered = [];
}

pub data Reached : World → Type 0 where
  at_start : (m : Mem) (global_var : ℕ) → Reached (loaded m global_var)
  behind_step : (w w' : World) → Reached w → Step w w' → Reached w'

pub record IsSound (w : World) : Type 0 where
  pub in_array : w.globals.write_index ≤ len_max
  pub in_order : w.globals.read_index ≤ w.globals.write_index
  pub held : w.written ≡ bytes w.globals.write_index w.globals.global_var w.globals.mem
  pub got : w.delivered ≡ bytes w.globals.read_index w.globals.global_var w.globals.mem
  pub woken :
      (w.globals.read_index ≡ w.globals.write_index)
      ⊎ ((is_awake w.globals ≡ true) ⊎ (0 < w.writers))

-- Behind what was read stands what a reader gets.
unread_lem :
    (g : Globals)
    → g.write_index ≤ len_max
    → g.read_index ≤ g.write_index
    → bytes g.write_index g.global_var g.mem ≡ bytes g.read_index g.global_var g.mem ++ unread g
unread_lem g in_array in_order =
    let n : read_len g ≡ g.write_index - g.read_index = omega arith in
    let short : ltb (g.write_index - g.read_index) (2 ^ 31) ≡ true = ground arith in
    let small : ltb g.read_index (2 ^ 31) ≡ true = ground arith in
    rw (n, short, small)
      (ap (λ k. bytes k g.global_var g.mem) (omega arith)
        ∙ bytes-append g.read_index (g.write_index - g.read_index) g.global_var g.mem)

-- A write behind what was written keeps it, and all in front of it.
kept_in_front :
    (n : ℕ) (xs : List ℕ) (g : Globals)
    → n ≤ g.write_index
    → bytes n g.global_var (put_bytes (g.global_var + g.write_index) xs g.mem)
      ≡ bytes n g.global_var g.mem
kept_in_front n xs g below =
    bytes-Apart n g.global_var (g.global_var + g.write_index) (length xs) g.mem _
      (inl (omega arith)) (put_bytes_outside (g.global_var + g.write_index) xs g.mem)

-- The number of readers plays no part.
with_readers : (w : World) (n : ℕ) → IsSound w → IsSound (record w { readers = n })
with_readers w n s = record {
  in_array = s.in_array;
  in_order = s.in_order;
  held = s.held;
  got = s.got;
  woken = s.woken;
}

Step-IsSound : (w w' : World) → Step w w' → IsSound w → IsSound w'
unfolding raise_flag read_locked
Step-IsSound w _ (writes xs _ fits) s =
    let g = w.globals in
    rw (write_locked-fits xs g fits) (record {
      in_array = fits;
      in_order = omega (arith, s.in_order);
      held =
          ap (λ l. l ++ xs) s.held
          ∙ sym (bytes-put_bytes_behind g.write_index g.global_var xs g.mem);
      got = s.got ∙ sym (kept_in_front g.read_index xs g s.in_order);
      woken = inr (inr (omega arith));
    })
Step-IsSound w _ (fails_to_write xs _ fits) s =
    let g = w.globals in
    rw (write_locked-fails xs g fits) (record {
      in_array = s.in_array;
      in_order = s.in_order;
      held = s.held ∙ sym (kept_in_front g.write_index xs g (omega arith));
      got = s.got ∙ sym (kept_in_front g.read_index xs g s.in_order);
      woken = s.woken;
    })
Step-IsSound w _ (raises _ some_writer) s = record {
  in_array = s.in_array;
  in_order = s.in_order;
  held = s.held;
  got = s.got;
  woken = inr (inl refl);
}
Step-IsSound w _ (wakes _ awake) s = with_readers w (w.readers + 1) s
Step-IsSound w _ (reads _ some_reader) s = record {
  in_array = s.in_array;
  in_order = omega arith;
  held = s.held;
  got = ap (λ l. l ++ unread w.globals) s.got ∙ sym (unread_lem w.globals s.in_array s.in_order);
  woken = inl refl;
}
Step-IsSound w _ (fails_to_read _ some_reader) s = with_readers w (w.readers - 1) s

Reached-IsSound : (w : World) → Reached w → IsSound w
unfolding bytes
Reached-IsSound _ (at_start m base) = record {
  in_array = omega arith;
  in_order = omega arith;
  held = refl;
  got = refl;
  woken = inl refl;
}
Reached-IsSound w' (behind_step w _ r step) = Step-IsSound w w' step (Reached-IsSound w r)

-- However readers and writers interleave, as long as no write goes beyond the array: what was
-- written is what was delivered so far and then what the next reader gets, byte for byte.
pub delivered_lem : (w : World) → Reached w → w.written ≡ w.delivered ++ unread w.globals
delivered_lem w r =
    let s = Reached-IsSound w r in
    s.held
    ∙ unread_lem w.globals s.in_array s.in_order
    ∙ ap (λ l. l ++ unread w.globals) (sym s.got)

-- However readers and writers interleave, as long as no write goes beyond the array: where something
-- is left to read and no writer is still to raise the flag, a reader does not wait, interrupted or
-- not, and gets all that is left.
pub reader_goes_on :
    (w : World)
    → Reached w
    → w.writers ≡ 0
    → w.globals.read_index ≢ w.globals.write_index
    → (is_interrupted : Bool)
    → (n : ℕ) × (g : Globals) × (globalvar_read is_interrupted true w.globals
        ≡ some (inl n, unread w.globals, g))
      × (n ≡ length (unread w.globals))
      × (g.read_index ≡ w.globals.write_index)
      × (w.written ≡ w.delivered ++ unread w.globals)
unfolding globalvar_read read_locked
reader_goes_on w r no_writer some_left is_interrupted =
    let s = Reached-IsSound w r in
    let awake : is_awake w.globals ≡ true = elim s.woken [
      | inl same ↦ absurd (some_left same)
      | inr (inl seen) ↦ seen
      | inr (inr some_writer) ↦ absurd (omega arith)
    ] in
    let g = w.globals in
    let short : ltb (read_len g) (2 ^ 31) ≡ true = ground (arith, s.in_array, s.in_order) in
    let size : as_size (read_len g) ≡ read_len g = rw short in
    (
      read_len g,
      record g { read_index = g.write_index; flag = 0 },
      rw awake,
      sym (length-bytes (as_size (read_len g)) (at_index g g.read_index) g.mem ∙ size),
      refl,
      delivered_lem w r,
    )
