-- ===== src/Students/Accounts.antt =====
-- Every student of hlist/hlist2/hlist.c that was allocated is on one list or was freed.
use linux_labs.Prelude.{
  ℕ, ◌+◌, ◌≡◌, refl, ◌⊎◌, inl, inr, true, false, Option, none, some, List, [], ◌∷◌, ◌++◌, arith,
  ◌==◌, length, Bool-cases, ◌<◌,
}
use linux_labs.Resources.{memory, taken, given, taken-append, given-append}
use linux_labs.Students.{
  Student, School, add_stu, store, has_name, del_stu, classify, classify_stu, clean_up, free_each,
  add_each, init_system, roll, student_mgt_init, student_mgt_exit, male, female, clean_up_list,
  clean_up_hlist, init_hlists, age_at,
}
use linux_labs.Students.Counts.{count, on_lists, Accounts, add_stu-Accounts, del_stu-Accounts}

-- Every sex is one that `classify_stu` knows.
abbrev pub AreKnown : List Student → Type 0
AreKnown [] = Unit {0}
AreKnown (s ∷ ss) = ((s.m_sex ≡ male) ⊎ (s.m_sex ≡ female)) × AreKnown ss

pub classify-count :
    (p : ℕ) (ss : List Student) (w : School)
    → AreKnown ss
    → (on_lists p (classify ss w).1 ≡ count p ss + count p w.boys + count p w.girls)
      × ((classify ss w).1.events ≡ w.events)
unfolding classify count
classify-count p [] w h = (omega arith, refl)
classify-count p (s ∷ ss) w h = elim h.0 [
  | inl is_male ↦
      let m : (s.m_sex == male) ≡ true = ground arith in
      let (n, e) = classify-count p ss (record w { boys = s ∷ w.boys }) h.1 in
      rw m (omega (arith, n), e)
  | inr is_female ↦
      let m : (s.m_sex == male) ≡ false = ground arith in
      let f : (s.m_sex == female) ≡ true = ground arith in
      let (n, e) = classify-count p ss (record w { girls = s ∷ w.girls }) h.1 in
      rw (m, f) (omega (arith, n), e)
]

-- A classification of students of known sexes keeps the accounts.
classify_stu-Accounts :
    (w : School) → AreKnown w.students → Accounts w → Accounts (classify_stu w).1
unfolding classify_stu
classify_stu-Accounts w k h p =
    let (n, e) = classify-count p w.students w k in rw e (omega (arith, n, h p))

taken-free_each : (p : ℕ) (ss : List Student) → taken (memory p) (free_each ss) ≡ 0
unfolding taken free_each
taken-free_each p [] = refl
taken-free_each p (s ∷ ss) = taken-free_each p ss

given-free_each : (p : ℕ) (ss : List Student) → given (memory p) (free_each ss) ≡ count p ss
unfolding given free_each count
given-free_each p [] = refl
given-free_each p (s ∷ ss) = omega (arith, given-free_each p ss)

-- Of what was allocated at `p`, all but `n` is on the lists: `clean_up` leaves `n`.
pub clean_up-counts :
    (w : School) (p n : ℕ)
    → taken (memory p) w.events ≡ given (memory p) w.events + on_lists p w + n
    → taken (memory p) (clean_up w).events ≡ given (memory p) (clean_up w).events + n
unfolding clean_up clean_up_list clean_up_hlist
clean_up-counts w p n h = omega (
  arith,
  h,
  taken-append (memory p) (w.events ++ free_each w.students)
      (free_each w.boys ++ free_each w.girls),
  taken-append (memory p) w.events (free_each w.students),
  taken-append (memory p) (free_each w.boys) (free_each w.girls),
  given-append (memory p) (w.events ++ free_each w.students)
      (free_each w.boys ++ free_each w.girls),
  given-append (memory p) w.events (free_each w.students),
  given-append (memory p) (free_each w.boys) (free_each w.girls),
  taken-free_each p w.students,
  taken-free_each p w.boys,
  taken-free_each p w.girls,
  given-free_each p w.students,
  given-free_each p w.boys,
  given-free_each p w.girls,
)

-- With accounts that are in order, `clean_up` frees every student that is still there, once.
clean_up_frees :
    (w : School)
    → Accounts w
    → (p : ℕ) → taken (memory p) (clean_up w).events ≡ given (memory p) (clean_up w).events
clean_up_frees w h p = omega (arith, clean_up-counts w p 0 (omega (arith, h p)))

-- What the module does between its start and its exit: additions and deletions in any order.
pub data Action : Type 0 where
  adds : (fresh : Option ℕ) (name : List ℕ) (sex age : ℕ) → Action
  deletes : (name : List ℕ) → Action

-- No name reaches `m_age`.
abbrev pub AreShort : List Action → Type 0
AreShort [] = Unit {0}
AreShort (adds fresh name sex age ∷ rest) = (length name < age_at) × AreShort rest
AreShort (deletes name ∷ rest) = AreShort rest

unfoldable pub act : School → List Action → School
act w [] = w
act w (adds fresh name sex age ∷ rest) = act (add_stu fresh name sex age w).1 rest
act w (deletes name ∷ rest) = act (del_stu name w).1 rest

act-Accounts : (w : School) (rest : List Action) → Accounts w → Accounts (act w rest)
unfolding act
act-Accounts w [] h = h
act-Accounts w (adds fresh name sex age ∷ rest) h =
    act-Accounts (add_stu fresh name sex age w).1 rest (add_stu-Accounts fresh name sex age w h)
act-Accounts w (deletes name ∷ rest) h =
    act-Accounts (del_stu name w).1 rest (del_stu-Accounts name w h)

-- Nothing was allocated yet.
abbrev pub empty : School
empty = record { students = []; boys = []; girls = []; events = [] }

abbrev IsKnown : ℕ → Type 0
IsKnown sex = (sex ≡ male) ⊎ (sex ≡ female)

AreKnown-append :
    (ss : List Student) (t : Student) → AreKnown ss → IsKnown t.m_sex → AreKnown (ss ++ t ∷ [])
AreKnown-append [] t h k = (k, tt)
AreKnown-append (s ∷ ss) t h k = (h.0, AreKnown-append ss t h.1 k)

store-AreKnown :
    (fresh : Option ℕ) (name : List ℕ) (sex age : ℕ) (w : School)
    → IsKnown sex
    → AreKnown w.students
    → AreKnown (store fresh name sex age w).1.students
store-AreKnown none name sex age w k h = h
store-AreKnown (some q) name sex age w k h = AreKnown-append w.students _ h k

add_stu-AreKnown :
    (fresh : Option ℕ) (name : List ℕ) (sex age : ℕ) (w : School)
    → IsKnown sex
    → AreKnown w.students
    → AreKnown (add_stu fresh name sex age w).1.students
unfolding add_stu
add_stu-AreKnown fresh name sex age w k h = elim (Bool-cases (has_name name w.students)) [
  | inl there ↦ rw there h
  | inr new ↦ rw new (store-AreKnown fresh name sex age w k h)
]

abbrev AreEntries : List (List ℕ × ℕ × ℕ) → Type 0
AreEntries [] = Unit {0}
AreEntries ((name, sex, age) ∷ rest) = IsKnown sex × AreEntries rest

add_each-Accounts :
    (kmalloc : List Student → Option ℕ) (rs : List (List ℕ × ℕ × ℕ)) (w : School)
    → AreEntries rs
    → AreKnown w.students
    → Accounts w
    → AreKnown (add_each kmalloc rs w).students × Accounts (add_each kmalloc rs w)
unfolding add_each
add_each-Accounts kmalloc [] w r k h = (k, h)
add_each-Accounts kmalloc ((name, sex, age) ∷ rest) w r k h =
    add_each-Accounts kmalloc rest (add_stu (kmalloc w.students) name sex age w).1 r.1
      (add_stu-AreKnown (kmalloc w.students) name sex age w r.0 k)
      (add_stu-Accounts (kmalloc w.students) name sex age w h)

roll-AreEntries : AreEntries roll
roll-AreEntries = (inl refl, (inr refl, (inl refl, (inr refl, (inl refl, (inr refl, tt))))))

student_mgt_init-Accounts :
    (kmalloc : List Student → Option ℕ) → Accounts (student_mgt_init kmalloc empty)
unfolding student_mgt_init init_system init_hlists taken given count
student_mgt_init-Accounts kmalloc =
    let (k, h) = add_each-Accounts kmalloc roll empty roll-AreEntries tt (λ p. omega arith) in
    classify_stu-Accounts (add_each kmalloc roll empty) k h

-- From the start of the module to its exit every student that was allocated is freed, as often as it
-- was allocated: whichever allocations fail, and whatever is added, with names of fewer than 36 bytes,
-- and deleted between.
pub student_mgt_frees :
    (kmalloc : List Student → Option ℕ) (rest : List Action) (p : ℕ)
    → AreShort rest
    → let w = student_mgt_exit (act (student_mgt_init kmalloc empty) rest) in
      taken (memory p) w.events ≡ given (memory p) w.events
unfolding student_mgt_exit
student_mgt_frees kmalloc rest p short =
    clean_up_frees (act (student_mgt_init kmalloc empty) rest)
      (act-Accounts (student_mgt_init kmalloc empty) rest (student_mgt_init-Accounts kmalloc)) p
