-- ===== src/Students.antt =====
-- hlist/hlist2/hlist.c: students on a list, and classified by sex on two hash lists.
pub mod Counts
pub mod Accounts
pub mod Names
pub mod Dumps
use linux_labs.Prelude.{
  ℕ, Bool, true, false, ◌&&◌, ◌||◌, Option, none, some, List, [], ◌∷◌, ◌++◌, ltb, ◌==◌,
  if◌then◌else◌, length, codes, take, drop, ◌+◌,
}
use linux_labs.Resources.{Event, takes, gives, memory}

abbrev pub max_string_len : ℕ
max_string_len = 32

-- `Student` at the address `addr`; `m_name` up to its NUL.
pub record Student : Type 0 where
  pub addr : ℕ
  pub m_name : List ℕ
  pub m_sex : ℕ
  pub m_age : ℕ

-- `g_student_list`, the two lists of `g_stu_hlist`, and what was allocated and freed.
pub record School : Type 0 where
  pub students : List Student
  pub boys : List Student
  pub girls : List Student
  pub events : List Event

-- `!strcmp`.
unfoldable pub same_text : List ℕ → List ℕ → Bool
same_text [] [] = true
same_text [] (y ∷ ys) = false
same_text (x ∷ xs) [] = false
same_text (x ∷ xs) (y ∷ ys) = (x == y) && same_text xs ys

unfoldable pub has_name : List ℕ → List Student → Bool
has_name name [] = false
has_name name (s ∷ ss) = same_text s.m_name name || has_name name ss

unfoldable pub init_hlists : School → School
init_hlists w = record w { boys = []; girls = [] }

-- The results of `add_stu`: 0, -1 for a name that is there, -1 for want of memory, and 0 for a name
-- that is written over `m_age` and the members behind it, whose contents are not described then.
pub data Added : Type 0 where
  added conflict no_memory overrun : Added

-- What `m_name` reads as, up to a NUL: a name of 32 bytes or more has no NUL in the array, and `m_sex`
-- stands behind it, written after the name; three bytes of zeros or of the name come next.
abbrev pub text_of : (name : List ℕ) → (sex : ℕ) → List ℕ
text_of name sex =
    if ltb (length name) max_string_len
    then name
    else take max_string_len name ++ (if sex == 0 then [] else sex ∷ drop (max_string_len + 1) name)

-- `m_age` stands 36 bytes behind the begin of the student.
abbrev pub age_at : ℕ
age_at = 36

abbrev pub store : Option ℕ → List ℕ → (sex age : ℕ) → School → Added × School
store none name sex age w = (no_memory, w)
store (some p) name sex age w = (
  if ltb (length name) age_at then added else overrun,
  record w {
    students =
        w.students ++ record { addr = p; m_name = text_of name sex; m_sex = sex; m_age = age } ∷ [];
    events = w.events ++ takes (memory p) ∷ [];
  },
)

-- `fresh` is what `kmalloc` returns.
unfoldable pub add_stu : Option ℕ → List ℕ → (sex age : ℕ) → School → Added × School
add_stu fresh name sex age w =
    if has_name name w.students then (conflict, w) else store fresh name sex age w

-- The loop of `del_stu`: the student that is found, and the list without it.
abbrev pub behind : Student → Option (Student × List Student) → Option (Student × List Student)
behind s none = none
behind s (some (t, ts)) = some (t, s ∷ ts)

unfoldable pub unlink : List ℕ → List Student → Option (Student × List Student)
unlink name [] = none
unlink name (s ∷ ss) =
    let rest = behind s (unlink name ss) in if same_text name s.m_name then some (s, ss) else rest

abbrev pub deleted : Option (Student × List Student) → School → Bool × School
deleted none w = (false, w)
deleted (some (s, ss)) w =
    (true, record w { students = ss; events = w.events ++ gives (memory s.addr) ∷ [] })

-- The result is whether it was found: 0 or -1.
unfoldable pub del_stu : List ℕ → School → Bool × School
del_stu name w = deleted (unlink name w.students) w

abbrev pub male : ℕ
male = b'm'

abbrev pub female : ℕ
female = b'f'

-- The loop of `classify_stu` over the list: whether it came to its end. A student is off the list
-- before the sex is looked at.
unfoldable pub classify : List Student → School → Bool × School
classify [] w = (true, record w { students = [] })
classify (s ∷ ss) w =
    let to_boys = classify ss (record w { boys = s ∷ w.boys }) in
    let to_girls = classify ss (record w { girls = s ∷ w.girls }) in
    if s.m_sex == male
    then to_boys
    else if s.m_sex == female
    then to_girls
    else (false, record w { students = ss })

unfoldable pub classify_stu : School → Bool × School
classify_stu w = classify w.students w

-- `kfree` of every student of a list.
unfoldable pub free_each : List Student → List Event
free_each [] = []
free_each (s ∷ ss) = gives (memory s.addr) ∷ free_each ss

unfoldable pub clean_up_list : School → School
clean_up_list w = record w { students = []; events = w.events ++ free_each w.students }

unfoldable pub clean_up_hlist : School → School
clean_up_hlist w = record w {
  boys = [];
  girls = [];
  events = w.events ++ (free_each w.boys ++ free_each w.girls);
}

unfoldable pub clean_up : School → School
unfolding clean_up_list clean_up_hlist
clean_up w = clean_up_hlist (clean_up_list w)

-- What `init_system` adds.
abbrev pub roll : List (List ℕ × ℕ × ℕ)
roll =
    (codes "Tom", male, 18)
    ∷ (codes "Jerry", female, 17)
    ∷ (codes "Alex", male, 18)
    ∷ (codes "Conory", female, 18)
    ∷ (codes "Frank", male, 17)
    ∷ (codes "Marry", female, 17)
    ∷ []

-- `add_stu` in a row, with what `kmalloc` returns for each; the results are not looked at.
unfoldable pub add_each : (List Student → Option ℕ) → List (List ℕ × ℕ × ℕ) → School → School
add_each kmalloc [] w = w
add_each kmalloc ((name, sex, age) ∷ rest) w =
    add_each kmalloc rest (add_stu (kmalloc w.students) name sex age w).1

unfoldable pub init_system : (List Student → Option ℕ) → School → School
unfolding init_hlists
init_system kmalloc w = add_each kmalloc roll (init_hlists w)

unfoldable pub student_mgt_init : (List Student → Option ℕ) → School → School
unfolding init_system
student_mgt_init kmalloc w = (classify_stu (init_system kmalloc w)).1

unfoldable pub student_mgt_exit : School → School
unfolding clean_up
student_mgt_exit w = clean_up w
