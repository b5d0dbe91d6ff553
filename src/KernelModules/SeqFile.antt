-- ===== src/KernelModules/SeqFile.antt =====
-- The iterator of seqfile/seqfile_test.c, and its entry of /proc. A reader's calls come in rounds of a
-- start, lines that are shown and passed, and a stop.
use linux_labs.Prelude.{
  ℕ, zero, suc, ◌+◌, ◌%◌, ◌≡◌, refl, sym, ap, ◌∙◌, Option, none, some, List, [], ◌∷◌, ◌++◌, arith,
  length, ◌^◌, length-append,
}
use linux_labs.KernelModules.{Loaded}
use linux_labs.Resources.{
  Res, Event, takes, gives, memory, proc_entry, success, error, ledger, give_back, ledger-append,
  then_ledger,
}
use mathlib.Core.Path.{subst, ap₂}

-- A reader of the file: its position, the iterator's address and number, the lines that were shown,
-- and what was allocated and freed.
pub record Reader : Type 0 where
  pub pos : ℕ
  pub spos : Option (ℕ × ℕ)
  pub lines : List ℕ
  pub events : List Event

-- A `loff_t` has 64 bits.
abbrev pub as_loff : ℕ → ℕ
as_loff n = n % 2 ^ 64

-- The argument is `kmalloc`'s answer.
unfoldable pub ct_seq_start : Option ℕ → Reader → Reader
ct_seq_start none r = record r { spos = none }
ct_seq_start (some p) r = record r {
  spos = some (p, r.pos);
  events = r.events ++ takes (memory p) ∷ [];
}

-- With an iterator `v`.
unfoldable pub ct_seq_next : (v : ℕ × ℕ) → Reader → Reader
ct_seq_next (p, n) r = let n1 = as_loff (n + 1) in record r { pos = n1; spos = some (p, n1) }

unfoldable pub ct_seq_show : (v : ℕ × ℕ) → Reader → Reader
ct_seq_show (p, n) r = record r { lines = r.lines ++ n ∷ [] }

abbrev pub freed : Option (ℕ × ℕ) → List Event
freed none = []
freed (some (p, n)) = gives (memory p) ∷ []

-- The iterator is not used behind it. `kfree` does nothing with NULL.
unfoldable pub ct_seq_stop : Reader → Reader
ct_seq_stop r = record r { spos = none; events = r.events ++ freed r.spos }

unfoldable pub ct_init : (proc_create : Option ℕ) → Loaded
ct_init none = record { rv = error 12; events = [] }
ct_init (some p) = record { rv = success; events = takes (proc_entry p) ∷ [] }

unfoldable pub ct_exit : (entry : ℕ) → List Event
ct_exit entry = gives (proc_entry entry) ∷ []

-- The calls of a reader who reads on: a line that is shown and fits is passed.
pub data Step : Reader → Reader → Type 0 where
  starts : (kmalloc : Option ℕ) (r : Reader) → r.spos ≡ none → Step r (ct_seq_start kmalloc r)
  passes : (v : ℕ × ℕ) (r : Reader) → r.spos ≡ some v → Step r (ct_seq_next v (ct_seq_show v r))
  stops : (r : Reader) → Step r (ct_seq_stop r)

abbrev pub opened : Reader
opened = record { pos = 0; spos = none; lines = []; events = [] }

pub data Reached : Reader → Type 0 where
  at_open : Reached opened
  behind_step : (r r' : Reader) → Reached r → Step r r' → Reached r'

-- The first `n` lines.
unfoldable pub first_lines : ℕ → List ℕ
first_lines zero = []
first_lines (suc n) = first_lines n ++ as_loff n ∷ []

abbrev pub held : Option (ℕ × ℕ) → List Res
held none = []
held (some (p, n)) = memory p ∷ []

-- The iterator stands at the reader's position.
abbrev pub StandsAt : ℕ → Option (ℕ × ℕ) → Type 0
StandsAt pos none = Unit {0}
StandsAt pos (some (p, n)) = n ≡ pos

pub record IsSound (r : Reader) : Type 0 where
  pub at : r.pos ≡ as_loff (length r.lines)
  pub in_order : r.lines ≡ first_lines (length r.lines)
  pub iterator : StandsAt r.pos r.spos
  pub balanced : ledger r.events [] ≡ some (held r.spos)

starts-IsSound :
    (kmalloc : Option ℕ) (r : Reader) → r.spos ≡ none → IsSound r → IsSound (ct_seq_start kmalloc r)
unfolding ct_seq_start ledger
starts-IsSound none r idle s = record {
  at = s.at;
  in_order = s.in_order;
  iterator = tt;
  balanced = s.balanced ∙ ap (λ v. some (held v)) idle;
}
starts-IsSound (some p) r idle s = record {
  at = s.at;
  in_order = s.in_order;
  iterator = refl;
  balanced =
      ledger-append r.events (takes (memory p) ∷ []) []
      ∙ ap (then_ledger (takes (memory p) ∷ [])) (s.balanced ∙ ap (λ v. some (held v)) idle);
}

passes-IsSound :
    (v : ℕ × ℕ) (r : Reader)
    → r.spos ≡ some v
    → IsSound r
    → IsSound (ct_seq_next v (ct_seq_show v r))
unfolding ct_seq_next ct_seq_show first_lines
passes-IsSound (p, n) r on s =
    let here : n ≡ r.pos = subst (StandsAt r.pos) on s.iterator in
    let more : length (r.lines ++ n ∷ []) ≡ suc (length r.lines) =
      length-append r.lines (n ∷ []) ∙ omega arith in
    record {
      at = omega (arith, here, s.at, more);
      in_order =
          ap₂ (λ (l : List ℕ) (x : ℕ). l ++ x ∷ []) s.in_order (here ∙ s.at)
          ∙ sym (ap first_lines more);
      iterator = refl;
      balanced = s.balanced ∙ ap (λ w. some (held w)) on;
    }

stop_ledger : (v : Option (ℕ × ℕ)) → ledger (freed v) (held v) ≡ some []
unfolding ledger give_back
stop_ledger none = refl
stop_ledger (some (p, n)) = ground arith

stops-IsSound : (r : Reader) → IsSound r → IsSound (ct_seq_stop r)
unfolding ct_seq_stop
stops-IsSound r s = record {
  at = s.at;
  in_order = s.in_order;
  iterator = tt;
  balanced =
      ledger-append r.events (freed r.spos) []
      ∙ ap (then_ledger (freed r.spos)) s.balanced
      ∙ stop_ledger r.spos;
}

Step-IsSound : (r r' : Reader) → Step r r' → IsSound r → IsSound r'
Step-IsSound r _ (starts kmalloc _ idle) s = starts-IsSound kmalloc r idle s
Step-IsSound r _ (passes v _ on) s = passes-IsSound v r on s
Step-IsSound r _ (stops _) s = stops-IsSound r s

-- Whatever the rounds in which a reader reads on, and wherever an allocation fails, the lines that were
-- shown are 0, 1, 2 and so on, none twice and none left out, and exactly the iterator that is in use is
-- held.
pub reader-IsSound : (r : Reader) → Reached r → IsSound r
unfolding ledger first_lines
reader-IsSound _ at_open = record { at = refl; in_order = refl; iterator = tt; balanced = refl }
reader-IsSound r (behind_step r0 _ before step) = Step-IsSound r0 r step (reader-IsSound r0 before)
