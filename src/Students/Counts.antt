-- ===== src/Students/Counts.antt =====
-- Additions and deletions of hlist/hlist2/hlist.c keep the accounts: every student that was allocated
-- is on one list or was freed.
use linux_labs.Prelude.{
  ℕ, ◌+◌, ◌≡◌, inl, inr, Option, none, some, List, [], ◌∷◌, ◌++◌, arith, ◌==◌, Bool-cases,
}
use linux_labs.Resources.{takes, gives, memory, taken, given, taken-append, given-append, one_if}
use linux_labs.Students.{
  Student, School, add_stu, store, has_name, unlink, del_stu, same_text, behind, deleted, text_of,
}

-- How often a list has the student at `p`.
unfoldable pub count : ℕ → List Student → ℕ
count p [] = 0
count p (s ∷ ss) = one_if (p == s.addr) + count p ss

abbrev pub on_lists : ℕ → School → ℕ
on_lists p w = count p w.students + count p w.boys + count p w.girls

-- What was allocated at `p` was freed as often, but for what is on the lists.
abbrev pub Accounts : School → Type 0
Accounts w = (p : ℕ) → taken (memory p) w.events ≡ given (memory p) w.events + on_lists p w

pub count-append : (p : ℕ) (ss ts : List Student) → count p (ss ++ ts) ≡ count p ss + count p ts
unfolding count
count-append p [] ts = omega arith
count-append p (s ∷ ss) ts = omega (arith, count-append p ss ts)

store-Accounts :
    (fresh : Option ℕ) (name : List ℕ) (sex age : ℕ) (w : School)
    → Accounts w
    → Accounts (store fresh name sex age w).1
unfolding taken given count
store-Accounts none name sex age w h = h
store-Accounts (some q) name sex age w h = λ p. omega (
  arith,
  h p,
  taken-append (memory p) w.events (takes (memory q) ∷ []),
  given-append (memory p) w.events (takes (memory q) ∷ []),
  count-append p w.students
      (record { addr = q; m_name = text_of name sex; m_sex = sex; m_age = age } ∷ []),
)

pub add_stu-Accounts :
    (fresh : Option ℕ) (name : List ℕ) (sex age : ℕ) (w : School)
    → Accounts w
    → Accounts (add_stu fresh name sex age w).1
unfolding add_stu
add_stu-Accounts fresh name sex age w h = elim (Bool-cases (has_name name w.students)) [
  | inl there ↦ rw there h
  | inr new ↦ rw new (store-Accounts fresh name sex age w h)
]

-- The list lost the one student that was found.
abbrev LostOne : ℕ → List Student → Option (Student × List Student) → Type 0
LostOne p ss none = Unit {0}
LostOne p ss (some (s, ts)) = count p ss ≡ one_if (p == s.addr) + count p ts

behind-LostOne :
    (p : ℕ) (x : Student) (ss : List Student) (o : Option (Student × List Student))
    → LostOne p ss o
    → LostOne p (x ∷ ss) (behind x o)
unfolding count
behind-LostOne p x ss none h = tt
behind-LostOne p x ss (some (s, ts)) h = omega (arith, h)

unlink-LostOne : (p : ℕ) (name : List ℕ) (ss : List Student) → LostOne p ss (unlink name ss)
unfolding unlink count
unlink-LostOne p name [] = tt
unlink-LostOne p name (x ∷ ss) = elim (Bool-cases (same_text name x.m_name)) [
  | inl found ↦ rw found
  | inr other ↦ rw other (behind-LostOne p x ss (unlink name ss) (unlink-LostOne p name ss))
]

deleted-Accounts :
    (o : Option (Student × List Student)) (w : School)
    → Accounts w
    → ((p : ℕ) → LostOne p w.students o)
    → Accounts (deleted o w).1
unfolding taken given
deleted-Accounts none w h l p = h p
deleted-Accounts (some (s, ts)) w h l p = omega (
  arith,
  h p,
  l p,
  taken-append (memory p) w.events (gives (memory s.addr) ∷ []),
  given-append (memory p) w.events (gives (memory s.addr) ∷ []),
)

pub del_stu-Accounts : (name : List ℕ) (w : School) → Accounts w → Accounts (del_stu name w).1
unfolding del_stu
del_stu-Accounts name w h =
    deleted-Accounts (unlink name w.students) w h (λ p. unlink-LostOne p name w.students)
