-- ===== src/Tests/ListTests.antt =====
-- The hash lists of hlist/ at concrete names.
use linux_labs.Prelude.{ℕ, ◌≡◌, refl, inl, inr, true, some, List, [], ◌∷◌, ◌++◌, arith, codes}
use linux_labs.Resources.{Res, takes, gives, memory, taken, given}
use linux_labs.Students.{
  Student, School, male, female, added, add_stu, del_stu, classify_stu, has_name, same_text,
  student_mgt_init, student_mgt_exit, has_name,
}
use linux_labs.Students.Accounts.{act, adds, deletes, empty, student_mgt_frees}
use linux_labs.Students.Names.{classify_stu_lem, del-add, of_sex}
use linux_labs.Commands.{Table, cmd_hash_init, cmd_hash_cleanup, returned, add_each, copied}
use linux_labs.Commands.Buckets.{copied_lem}
use linux_labs.Commands.Accounts.{served, cmd_hash_frees}

abbrev li : Student
li = record { addr = 10; m_name = codes "Li"; m_sex = male; m_age = 20 }

abbrev mei : Student
mei = record { addr = 11; m_name = codes "Mei"; m_sex = female; m_age = 21 }

abbrev school : List Student → School
school ss = record {
  students = ss;
  boys = [];
  girls = [];
  events = takes (memory 10) ∷ takes (memory 11) ∷ [];
}

student_mgt_frees_example :
    let w = student_mgt_exit (
      act
        (student_mgt_init (λ ss. some 10) empty)
        (adds (some 10) (codes "Li") male 20 ∷ deletes (codes "Li") ∷ [])) in
    taken (memory 10) w.events ≡ given (memory 10) w.events
student_mgt_frees_example =
    student_mgt_frees (λ ss. some 10)
      (adds (some 10) (codes "Li") male 20 ∷ deletes (codes "Li") ∷ []) 10 (omega arith, tt)

classify_stu_lem_example : classify_stu (school (li ∷ mei ∷ [])) ≡ (
  true,
  record (school []) {
    boys = of_sex male (li ∷ mei ∷ []) [];
    girls = of_sex female (li ∷ mei ∷ []) [];
  },
)
classify_stu_lem_example = classify_stu_lem (school (li ∷ mei ∷ [])) (inl refl, (inr refl, tt))

del-add_example :
    let (result, w1) = add_stu (some 13) (codes "Bo") male 23 (school (li ∷ mei ∷ [])) in
    let (found, w2) = del_stu (codes "Bo") w1 in
    (result ≡ added)
    × (found ≡ true)
    × (w2.students ≡ li ∷ mei ∷ [])
    × (w2.events ≡ ((school []).events ++ takes (memory 13) ∷ []) ++ gives (memory 13) ∷ [])
unfolding has_name same_text
del-add_example = del-add 13 (codes "Bo") male 23 (school (li ∷ mei ∷ [])) refl (omega arith)

abbrev no_table : Table
no_table = record { heads = []; events = [] }

copied_lem_example : copied (codes "hel" ++ b'p' ∷ []) ≡ codes "hel"
copied_lem_example = copied_lem (codes "hel") b'p'

abbrev named : List (ℕ × List ℕ)
named = (10, codes "hello") ∷ (11, codes "help") ∷ (12, codes "???") ∷ []

cmd_hash_frees_example :
    let (r, t') = add_each (served named) (cmd_hash_init no_table) in
    let done = (cmd_hash_cleanup t').events in
    (r ≡ returned) × ((x : Res) → taken x done ≡ given x done)
cmd_hash_frees_example =
    cmd_hash_frees named no_table refl (omega arith) (omega arith, (omega arith, (omega arith, tt)))
