-- ===== src/Students/Dumps.antt =====
-- What hlist/hlist2/hlist.c prints of its lists.
use linux_labs.Prelude.{
  ℕ, suc, ◌+◌, ◌≡◌, refl, ap, inl, inr, Bool, true, false, not, Option, none, some, List, [], ◌∷◌,
  arith, ltb, ◌==◌, if◌then◌else◌, length,
}
use linux_labs.Students.{Student, School, male, female, classify_stu}
use linux_labs.Students.Accounts.{AreKnown}
use linux_labs.Students.Names.{of_sex, classify_stu_lem}

abbrev pub max_hlist_count : ℕ
max_hlist_count = 2

-- One line for each student, numbered from `i` on.
unfoldable pub lines_from : (i : ℕ) → List Student → List (ℕ × Student)
lines_from i [] = []
lines_from i (s ∷ ss) = (i, s) ∷ lines_from (i + 1) ss

unfoldable pub dump_students : School → List (ℕ × Student)
unfolding lines_from
dump_students w = lines_from 1 w.students

-- The int `id` is a 32-bit word. `none` is the message that it is invalid, and the Boolean says that
-- the title is that of the boys.
unfoldable pub dump_hlist : (id : ℕ) → School → Option (Bool × List (ℕ × Student))
unfolding lines_from
dump_hlist id w =
    if not (ltb id max_hlist_count)
    then none
    else if id == 0
    then some (true, lines_from 1 w.boys)
    else some (false, lines_from 1 w.girls)

-- What `dump_hlists` prints in turn.
unfoldable pub dump_hlists : School → List (Option (Bool × List (ℕ × Student)))
unfolding dump_hlist
dump_hlists w = dump_hlist 0 w ∷ dump_hlist 1 w ∷ []

abbrev pub printed : Option (Bool × List (ℕ × Student)) → ℕ
printed none = 0
printed (some (boys, lines)) = length lines

length-lines_from : (i : ℕ) (ss : List Student) → length (lines_from i ss) ≡ length ss
unfolding lines_from
length-lines_from i [] = refl
length-lines_from i (s ∷ ss) = ap suc (length-lines_from (i + 1) ss)

-- Every student of a known sex is selected once.
length-of_sex :
    (ss : List Student) (bs gs : List Student)
    → AreKnown ss
    → length (of_sex male ss bs) + length (of_sex female ss gs) ≡ length ss + length bs + length gs
unfolding of_sex
length-of_sex [] bs gs k = omega arith
length-of_sex (s ∷ ss) bs gs k = elim k.0 [
  | inl is_male ↦
      let m : (s.m_sex == male) ≡ true = ground arith in
      let f : (s.m_sex == female) ≡ false = ground arith in
      rw (m, f) (omega (arith, length-of_sex ss (s ∷ bs) gs k.1))
  | inr is_female ↦
      let m : (s.m_sex == male) ≡ false = ground arith in
      let f : (s.m_sex == female) ≡ true = ground arith in
      rw (m, f) (omega (arith, length-of_sex ss bs (s ∷ gs) k.1))
]

-- After a classification of known sexes into empty lists, `dump_hlists` prints a line for every
-- student, and `dump_students` none.
pub dump_hlists-classify :
    (w : School)
    → AreKnown w.students
    → w.boys ≡ []
    → w.girls ≡ []
    → let w1 = (classify_stu w).1 in
      (dump_students w1 ≡ [])
      × (printed (dump_hlist 0 w1) + printed (dump_hlist 1 w1) ≡ length w.students)
unfolding dump_students dump_hlist
dump_hlists-classify w k no_boys no_girls =
    rw (classify_stu_lem w k, no_boys, no_girls)
      (
        refl,
        omega (
          arith,
          length-lines_from 1 (of_sex male w.students []),
          length-lines_from 1 (of_sex female w.students []),
          length-of_sex w.students [] [] k,
        ),
      )
