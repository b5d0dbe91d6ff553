-- ===== src/ServiceManager/Contract.antt =====
-- What binder/service_manager.c promises its clients: a map from names to handles, in which names are
-- registered, asked for, and die. Whatever the history, its answers are those of the map.
pub mod Histories
use linux_labs.Prelude.{
  ℕ, zero, suc, ◌+◌, ◌-◌, ◌*◌, ◌/◌, ◌%◌, ◌≤◌, ◌<◌, ◌≡◌, refl, sym, ap, ◌∙◌, ◌≢◌, ◌⊎◌, inl, inr,
  Bool, true, false, not, ◌&&◌, ◌||◌, Option, none, some, List, [], ◌∷◌, ◌++◌, arith, ltb, leb,
  ◌==◌, if◌then◌else◌, length, Bool-cases,
}
use linux_labs.ServiceManager.{Status, ok, fail}
use linux_labs.ServiceManager.Names.{same_key}
use linux_labs.ServiceManager.Registry.{Entry}
use linux_labs.ServiceManager.Finding.{visible, kept_flag}

abbrev pub Registry : Type 0
Registry = List ℕ → Option Entry

abbrev pub no_names : Registry
no_names k = none

abbrev pub update : List ℕ → Entry → Registry → Registry
update k e reg j = if same_key j k then some e else reg j

-- The name `k` stands in memory with `behind` behind it.
pub data Request : Type 0 where
  registers : (k behind : List ℕ) (x handle uid allow_isolated spid : ℕ) → Request
  asks : (k behind : List ℕ) (uid spid : ℕ) → Request
  dies : (k : List ℕ) → Request

pub data Response : Type 0 where
  status : Status → Response
  answer : ℕ → Response
  silence : Response

-- The handle is not 0, and the name has 1 to 127 units.
abbrev pub is_valid : List ℕ → (handle : ℕ) → Bool
is_valid k h = not ((h == 0) || (length k == 0) || ltb 127 (length k))

-- A registration needs memory for a new name only; `memory` says whether `malloc` has some.
abbrev pub has_room : (memory : Bool) → Option Entry → Bool
has_room memory none = memory
has_room memory (some e) = true

-- What a request may do to the map, and how it is answered. A name that is registered again keeps its
-- `allow_isolated`; a new one is refused exactly where there is no memory; and a service that dies
-- leaves its name with the handle 0.
pub data Step (memory : Bool) : Registry → Request → Response → Registry → Type 0 where
  registered :
      (reg : Registry) (k behind : List ℕ) (x h uid allow_isolated spid : ℕ)
      → is_valid k h ≡ true
      → has_room memory (reg k) ≡ true
      → Step memory reg
          (registers k behind x h uid allow_isolated spid)
          (status ok)
          (update k (h, kept_flag (reg k) allow_isolated) reg)
  invalid :
      (reg : Registry) (k behind : List ℕ) (x h uid allow_isolated spid : ℕ)
      → is_valid k h ≡ false
      → Step memory reg (registers k behind x h uid allow_isolated spid) (status fail) reg
  no_memory :
      (reg : Registry) (k behind : List ℕ) (x h uid allow_isolated spid : ℕ)
      → is_valid k h ≡ true
      → has_room memory (reg k) ≡ false
      → Step memory reg (registers k behind x h uid allow_isolated spid) (status fail) reg
  answered :
      (reg : Registry) (k behind : List ℕ) (uid spid : ℕ)
      → Step memory reg (asks k behind uid spid) (answer (visible uid (reg k))) reg
  died :
      (reg : Registry) (k : List ℕ) (h allow_isolated : ℕ)
      → reg k ≡ some (h, allow_isolated)
      → Step memory reg (dies k) silence (update k (0, allow_isolated) reg)
  unknown : (reg : Registry) (k : List ℕ) → reg k ≡ none → Step memory reg (dies k) silence reg

-- The map answers the requests in this way, each with what `malloc` has when it comes.
abbrev pub Follows : Registry → List Request → List (Bool × Response) → Type 0
Follows reg [] [] = Unit {0}
Follows reg [] (a ∷ more) = ⊥
Follows reg (q ∷ qs) [] = ⊥
Follows reg (q ∷ qs) ((memory, a) ∷ more) =
    (reg1 : Registry) × Step memory reg q a reg1 × Follows reg1 qs more
