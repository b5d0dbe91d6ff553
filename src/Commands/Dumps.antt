-- ===== src/Commands/Dumps.antt =====
-- What `cmd_hash_node_dump` of hlist/hlist1/hlist.c prints.
use linux_labs.Prelude.{
  ℕ, ◌+◌, ◌<◌, ◌≡◌, refl, ap, inl, inr, true, List, [], ◌∷◌, ◌++◌, arith, if◌then◌else◌, length,
  Bool-cases, ◌^◌,
}
use linux_labs.Commands.{Node, Head, Table, is_empty_count}
use linux_labs.Commands.Accounts.{AreCounted, length-nil}

-- The line of a bucket, with its index, and the names behind it.
pub record Printed : Type 0 where
  pub index : ℕ
  pub count : ℕ
  pub offset : ℕ
  pub ch : ℕ
  pub names : List (List ℕ)

unfoldable pub names_of : List Node → List (List ℕ)
names_of [] = []
names_of (n ∷ ns) = n.name ∷ names_of ns

-- The loop over the buckets from `index` on: one without a positive count is passed over.
unfoldable pub dump_from : (index : ℕ) → List Head → List Printed
unfolding names_of
dump_from index [] = []
dump_from index (h ∷ hs) =
    let rest = dump_from (index + 1) hs in
    if is_empty_count h.count
    then rest
    else record {
      index = index;
      count = h.count;
      offset = h.offset;
      ch = h.ch;
      names = names_of h.nodes;
    }
      ∷ rest

unfoldable pub cmd_hash_node_dump : Table → List Printed
unfolding dump_from
cmd_hash_node_dump t = dump_from 0 t.heads

-- All names of the buckets, and all that are printed.
unfoldable pub all_names : List Head → List (List ℕ)
unfolding names_of
all_names [] = []
all_names (h ∷ hs) = names_of h.nodes ++ all_names hs

unfoldable pub printed_names : List Printed → List (List ℕ)
printed_names [] = []
printed_names (p ∷ ps) = p.names ++ printed_names ps

-- A bucket that is passed over has no nodes.
empty_bucket :
    (h : Head)
    → is_empty_count h.count ≡ true
    → h.count ≡ length h.nodes
    → length h.nodes < 2 ^ 15
    → h.nodes ≡ []
empty_bucket h empty counted few = length-nil h.nodes (ground arith)

dump_from_lem :
    (n index : ℕ) (hs : List Head)
    → n < 2 ^ 15
    → AreCounted n hs
    → printed_names (dump_from index hs) ≡ all_names hs
unfolding dump_from printed_names all_names names_of
dump_from_lem n index [] few a = refl
dump_from_lem n index (h ∷ hs) few (counted, short, a) =
    elim (Bool-cases (is_empty_count h.count)) [
      | inr some_nodes ↦
          rw some_nodes (ap (λ l. names_of h.nodes ++ l) (dump_from_lem n (index + 1) hs few a))
      | inl empty ↦
          let nothing : h.nodes ≡ [] = empty_bucket h empty counted (omega arith) in
          rw (empty, nothing) (dump_from_lem n (index + 1) hs few a)
    ]

-- With the counts of fewer than 2 ^ 15 nodes, every name of the table is printed, in the order of the
-- buckets: none is passed over.
pub cmd_hash_node_dump_lem :
    (n : ℕ) (t : Table)
    → n < 2 ^ 15
    → AreCounted n t.heads
    → printed_names (cmd_hash_node_dump t) ≡ all_names t.heads
unfolding cmd_hash_node_dump
cmd_hash_node_dump_lem n t few a = dump_from_lem n 0 t.heads few a
