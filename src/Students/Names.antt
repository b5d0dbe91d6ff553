-- ===== src/Students/Names.antt =====
-- Names and sexes on the lists of hlist/hlist2/hlist.c.
use linux_labs.Prelude.{
  ℕ, ◌+◌, ◌<◌, ◌≡◌, refl, ap, ◌∙◌, ◌≢◌, inl, inr, Bool, true, false, ◌&&◌, some, List, [], ◌∷◌,
  ◌++◌, arith, ◌==◌, if◌then◌else◌, length, ==-refl, lt→ltb, ==-eq-false,
}
use linux_labs.Resources.{takes, gives, memory, taken, given, one_if}
use linux_labs.Students.{
  Student, School, added, add_stu, has_name, same_text, unlink, del_stu, classify, classify_stu,
  male, female, max_string_len, age_at, clean_up,
}
use linux_labs.Students.Accounts.{AreKnown, classify-count, clean_up-counts}
use linux_labs.Students.Counts.{Accounts, on_lists, count, count-append}
use mathlib.Core.Path.{ap₂}

-- The students of one sex, the last first.
unfoldable pub of_sex : ℕ → List Student → List Student → List Student
of_sex sex [] rest = rest
of_sex sex (s ∷ ss) rest =
    let more = of_sex sex ss (s ∷ rest) in
    let less = of_sex sex ss rest in if s.m_sex == sex then more else less

classify_lem :
    (ss : List Student) (w : School)
    → AreKnown ss
    → classify ss w ≡ (
      true,
      record w { students = []; boys = of_sex male ss w.boys; girls = of_sex female ss w.girls },
    )
unfolding classify of_sex
classify_lem [] w k = refl
classify_lem (s ∷ ss) w k = elim k.0 [
  | inl is_male ↦
      let m : (s.m_sex == male) ≡ true = ground arith in
      let f : (s.m_sex == female) ≡ false = ground arith in
      rw (m, f) (classify_lem ss (record w { boys = s ∷ w.boys }) k.1)
  | inr is_female ↦
      let m : (s.m_sex == male) ≡ false = ground arith in
      let f : (s.m_sex == female) ≡ true = ground arith in
      rw (m, f) (classify_lem ss (record w { girls = s ∷ w.girls }) k.1)
]

-- `classify_stu` on students of known sexes comes to its end and leaves no one on the list. The boys
-- are put before the boys that were there, the girls before the girls, the last one first.
pub classify_stu_lem :
    (w : School)
    → AreKnown w.students
    → classify_stu w ≡ (
      true,
      record w {
        students = [];
        boys = of_sex male w.students w.boys;
        girls = of_sex female w.students w.girls;
      },
    )
unfolding classify_stu
classify_stu_lem w k = classify_lem w.students w k

same_text_comm : (xs ys : List ℕ) → same_text xs ys ≡ same_text ys xs
unfolding same_text
same_text_comm [] [] = refl
same_text_comm [] (y ∷ ys) = refl
same_text_comm (x ∷ xs) [] = refl
same_text_comm (x ∷ xs) (y ∷ ys) = ap₂ ◌&&◌ (ground arith) (same_text_comm xs ys)

same_text_refl : (xs : List ℕ) → same_text xs xs ≡ true
unfolding same_text
same_text_refl [] = refl
same_text_refl (x ∷ xs) = rw (==-refl x) (same_text_refl xs)

unlink-new :
    (name : List ℕ) (ss : List Student) (s : Student)
    → has_name name ss ≡ false
    → s.m_name ≡ name
    → unlink name (ss ++ s ∷ []) ≡ some (s, ss)
unfolding unlink has_name
unlink-new name [] s h e = rw (e, same_text_refl name)
unlink-new name (x ∷ ss) s h e =
    let here : same_text name x.m_name ≡ false = same_text_comm name x.m_name ∙ ground arith in
    let later : has_name name ss ≡ false = ground arith in rw (here, unlink-new name ss s later e)

-- A student whose name is new and fits the array, and who gets memory, is added; he can be deleted by
-- name, which frees him, and the list is as it was before.
pub del-add :
    (p : ℕ) (name : List ℕ) (sex age : ℕ) (w : School)
    → has_name name w.students ≡ false
    → length name < max_string_len
    → let (result, w1) = add_stu (some p) name sex age w in
      let (found, w2) = del_stu name w1 in
      (result ≡ added)
      × (found ≡ true)
      × (w2.students ≡ w.students)
      × (w2.events ≡ (w.events ++ takes (memory p) ∷ []) ++ gives (memory p) ∷ [])
unfolding del_stu add_stu
del-add p name sex age w new short =
    rw
      (
        new,
        lt→ltb (length name) max_string_len short,
        lt→ltb (length name) age_at (omega (arith, short)),
        unlink-new name w.students (record { addr = p; m_name = name; m_sex = sex; m_age = age })
            new refl,
      )
      (refl, refl, refl, refl)

-- A name is looked for on the list only: after a classification of known sexes any name that fits can
-- be added again, also one that a classified student has.
pub add_again :
    (p : ℕ) (name : List ℕ) (sex age : ℕ) (w : School)
    → AreKnown w.students
    → length name < max_string_len
    → (add_stu (some p) name sex age (classify_stu w).1).0 ≡ added
unfolding add_stu has_name
add_again p name sex age w k short =
    rw (classify_stu_lem w k, lt→ltb (length name) age_at (omega (arith, short)))

classify-stops :
    (front back : List Student) (odd : Student) (w : School)
    → AreKnown front
    → (odd.m_sex == male) ≡ false
    → (odd.m_sex == female) ≡ false
    → classify (front ++ odd ∷ back) w ≡ (false, record (classify front w).1 { students = back })
unfolding classify
classify-stops [] back odd w k m f = rw (m, f)
classify-stops (s ∷ ss) back odd w k m f = elim k.0 [
  | inl is_male ↦
      let e : (s.m_sex == male) ≡ true = ground arith in
      rw e (classify-stops ss back odd (record w { boys = s ∷ w.boys }) k.1 m f)
  | inr is_female ↦
      let d : (s.m_sex == male) ≡ false = ground arith in
      let e : (s.m_sex == female) ≡ true = ground arith in
      rw (d, e) (classify-stops ss back odd (record w { girls = s ∷ w.girls }) k.1 m f)
]

-- A student of another sex is lost: the classification stops behind him with those that follow still
-- on the list, and `clean_up` then frees every student but him. Before it, those on the list and those
-- classified were all the students that were allocated and not freed.
pub classify_stu_loses :
    (front back : List Student) (odd : Student) (w : School)
    → AreKnown front
    → odd.m_sex ≢ male
    → odd.m_sex ≢ female
    → w.students ≡ front ++ odd ∷ back
    → Accounts w
    → let (finished, w1) = classify_stu w in
      (finished ≡ false)
      × (w1.students ≡ back)
      × ((p : ℕ)
          → taken (memory p) (clean_up w1).events
            ≡ given (memory p) (clean_up w1).events + one_if (p == odd.addr))
unfolding classify_stu count
classify_stu_loses front back odd w k nm nf e a =
    let m = ==-eq-false odd.m_sex male nm in
    let f = ==-eq-false odd.m_sex female nf in
    let stops = ap (λ l. classify l w) e ∙ classify-stops front back odd w k m f in
    rw stops (
      refl,
      refl,
      λ p.
          let w1 : School = (classify front w).1 in
          let (on, same) = classify-count p front w k in
          let off : count p w1.students ≡ 0 =
            ap (λ (r : Bool × School). count p r.1.students) (classify_lem front w k) in
          let all : count p w.students ≡ count p front + count p (odd ∷ back) =
            ap (count p) e ∙ count-append p front (odd ∷ back) in
          let before : taken (memory p) w1.events ≡ given (memory p) w1.events + on_lists p w =
            rw same (a p) in
          clean_up-counts (record w1 { students = back }) p (one_if (p == odd.addr))
            (omega (arith, on, off, all, before)),
    )
