-- ===== src/Commands.antt =====
-- hlist/hlist1/hlist.c: command names in 27 buckets by their first letter.
pub mod Buckets
pub mod Accounts
pub mod Dumps
use linux_labs.Prelude.{
  ℕ, zero, suc, ◌+◌, ◌-◌, ◌%◌, Bool, ◌&&◌, ◌||◌, Option, none, some, List, [], ◌∷◌, ◌++◌, ltb, leb,
  ◌==◌, if◌then◌else◌, length, ◌^◌, take, codes, map,
}
use linux_labs.Resources.{Event, takes, gives, memory}

abbrev pub cmd_hash_head_size : ℕ
cmd_hash_head_size = 27

-- The size of `name` in a node.
abbrev pub name_size : ℕ
name_size = 20

-- `cmd_hash_node_t` at the address `addr`; `name` up to its NUL.
pub record Node : Type 0 where
  pub addr : ℕ
  pub name : List ℕ

-- `cmd_hash_head_t`; `count` is an int16_t as its 16-bit word.
pub record Head : Type 0 where
  pub ch : ℕ
  pub offset : ℕ
  pub count : ℕ
  pub nodes : List Node

abbrev pub count_mod : ℕ
count_mod = 2 ^ 16

-- `count <= 0`, on the 16-bit word.
abbrev pub is_empty_count : ℕ → Bool
is_empty_count c = (c == 0) || leb (2 ^ 15) c

pub record Table : Type 0 where
  pub heads : List Head
  pub events : List Event

-- The body of the loop of `cmd_hash_init`.
abbrev pub init_head : ℕ → Head
init_head index = record {
  ch = if index == cmd_hash_head_size then b'?' else b'a' + index;
  offset = index;
  count = 0;
  nodes = [];
}

-- `n` rounds of the loop from `index` on.
unfoldable pub init_from : (n index : ℕ) → List Head
init_from zero index = []
init_from (suc n) index = init_head index ∷ init_from n (index + 1)

unfoldable pub cmd_hash_init : Table → Table
unfolding init_from
cmd_hash_init t = record t { heads = init_from cmd_hash_head_size 0 }

-- The first byte of a C string, the NUL of an empty one included.
abbrev pub first_byte : List ℕ → ℕ
first_byte [] = 0
first_byte (c ∷ cs) = c

-- `none` is -1, for a NULL name.
unfoldable pub node_type : Option (List ℕ) → Option ℕ
node_type none = none
node_type (some name) =
    let ch = first_byte name in if leb b'a' ch && leb ch b'z' then some (ch - b'a') else some 26

-- `strlcpy(dst, name, strlen(name))` into zeroed memory: one byte of the size is for the NUL.
unfoldable pub copied : List ℕ → List ℕ
copied name = take (length name - 1) name

abbrev pub add_node : Node → Head → Head
add_node node h = record h { count = (h.count + 1) % count_mod; nodes = node ∷ h.nodes }

-- A change of the bucket at `offset`.
unfoldable pub at_head : ℕ → (Head → Head) → List Head → List Head
at_head i f [] = []
at_head zero f (h ∷ hs) = f h ∷ hs
at_head (suc i) f (h ∷ hs) = h ∷ at_head i f hs

-- The results of `__cmd_hash_node_add`: it returns; it writes through a NULL pointer; it writes
-- beyond `name`.
pub data Added : Type 0 where
  returned null_node overrun : Added

abbrev pub put : (fresh : Option ℕ) → List ℕ → ℕ → Table → Added × Table
put none name offset t = (null_node, t)
put (some p) name offset t = if ltb name_size (length name) then (overrun, t) else (
  returned,
  record t { heads = at_head offset (add_node (record { addr = p; name = copied name })) t.heads },
)

abbrev pub taken_node : Option ℕ → List Event
taken_node none = []
taken_node (some p) = takes (memory p) ∷ []

-- With a NULL name the node that was allocated is not freed.
abbrev pub put_at : (fresh : Option ℕ) → Option (List ℕ) → Option ℕ → Table → Added × Table
put_at fresh none offset t = (returned, t)
put_at fresh (some name) none t = (returned, t)
put_at fresh (some name) (some offset) t = put fresh name offset t

-- `__cmd_hash_node_add`; `fresh` is what `kzalloc` returns.
unfoldable pub cmd_hash_node_add_one : (fresh : Option ℕ) → Option (List ℕ) → Table → Added × Table
unfolding node_type
cmd_hash_node_add_one fresh name t =
    put_at fresh name (node_type name) (record t { events = t.events ++ taken_node fresh })

-- The four calls of `cmd_hash_node_add`, as those of any names; what `kzalloc` returned at each.
unfoldable pub add_each : List (Option ℕ × List ℕ) → Table → Added × Table
add_each [] t = (returned, t)
add_each ((fresh, name) ∷ more) t =
    let (r, t1) = cmd_hash_node_add_one fresh (some name) t in
    let rest = add_each more t1 in
    elim r [ returned ↦ rest | null_node ↦ (null_node, t1) | overrun ↦ (overrun, t1) ]

-- `hlist_init`, with the memory that its four calls get.
unfoldable pub hlist_init : (a b c d : Option ℕ) → Table → Added × Table
unfolding add_each
hlist_init a b c d t =
    add_each ((a, codes "hello") ∷ (b, codes "help") ∷ (c, codes "scan") ∷ (d, codes "???") ∷ [])
      (cmd_hash_init t)

unfoldable pub free_nodes : List Node → List Event
free_nodes [] = []
free_nodes (n ∷ ns) = gives (memory n.addr) ∷ free_nodes ns

-- The loops of `cmd_hash_cleanup`: a bucket without a positive count is passed over.
unfoldable pub free_heads : List Head → List Event
free_heads [] = []
free_heads (h ∷ hs) =
    let here = if is_empty_count h.count then [] else free_nodes h.nodes in here ++ free_heads hs

abbrev pub emptied : Head → Head
emptied h = if is_empty_count h.count then h else record h { nodes = [] }

unfoldable pub cmd_hash_cleanup : Table → Table
unfolding free_heads
cmd_hash_cleanup t = record { heads = map emptied t.heads; events = t.events ++ free_heads t.heads }
