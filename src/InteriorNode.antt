-- ===== src/InteriorNode.antt =====
-- include/interior_node.h: keys and children in order, "ptr, key, ptr, key, ..., ptr".
pub mod Routing
pub mod Insert
pub mod Split
pub mod Halves
use Prim.Native.Nat.{Ordering}
use yakushima.Common.{
  ℕ, zero, suc, ◌+◌, ◌-◌, ◌%◌, ◌^◌, Bool, true, false, not, ◌&&◌, List, [], ◌∷◌, Option, none, some,
  ◌>>=◌, ◌==◌, ltb, leb, if◌then◌else◌, Array, at, set_at,
}
use yakushima.Scheme.{key_slice_length}
use yakushima.Key.{KeyTuple, prefix_compare}
use yakushima.BaseNode.{
  Ptr, BaseNode, key_at, set_key, init_base, zero_slice, shift_left_base_member,
  shift_right_base_member, move_key_to_base_range,
}
use yakushima.Version.{VersionBody, set_inserting_deleting, set_border, equal, released}

abbrev pub child_length : ℕ
child_length = 16

pub record InteriorNode : Type 0 where
  pub base : BaseNode
  pub n_keys : ℕ  -- 8 bits
  pub children : Array Ptr

unfoldable pub get_child_at : InteriorNode → ℕ → Option Ptr
get_child_at n index = at child_length n.children index

unfoldable pub set_child_at : InteriorNode → ℕ → Ptr → Option InteriorNode
set_child_at n index child = do
  c ← set_at child_length n.children index child
  some (record n { children = c })

-- `init_interior`
abbrev pub init_interior : InteriorNode
init_interior = record {
  base = record init_base { version = set_border false init_base.version };
  n_keys = 0;
  children = λ i. 0;
}

abbrev pub n_keys_increment : InteriorNode → InteriorNode
n_keys_increment n = record n { n_keys = (n.n_keys + 1) % 2 ^ 8 }

abbrev pub n_keys_decrement : InteriorNode → InteriorNode
n_keys_decrement n = record n { n_keys = (n.n_keys + 2 ^ 8 - 1) % 2 ^ 8 }

-- Whether a key goes to the left of the key at an index: `ret_memcmp < 0`, or equal bytes and a
-- smaller length. The three places that decide it (`get_child_of`, `insert`, `interior_split`)
-- clip the compared length to the slice in different words.
abbrev pub goes_left : KeyTuple → KeyTuple → Bool
goes_left key pivot = elim (prefix_compare key pivot) [ Ordering.lt ↦ true | _ ↦ false ]

-- The loop over the keys at `i`, with the rounds that are left: the first index whose key is
-- greater, or the number of keys.
unfoldable pub find_index : ℕ → InteriorNode → KeyTuple → ℕ → Option ℕ
find_index zero n key i = some i
find_index (suc left) n key i = do
  pivot ← key_at n.base i
  let rest = find_index left n key (i + 1)
  if goes_left key pivot then some i else rest

-- The child that a round of `get_child_of` picks. A null child to the left falls through to the
-- last one, as the test for null after the loop does.
unfoldable pub pick_child : InteriorNode → KeyTuple → Option Ptr
pick_child n key = do
  i ← find_index n.n_keys n key 0
  child ← get_child_at n i
  if child == 0 then get_child_at n n.n_keys else some child

-- What a round of `get_child_of` sees of the other threads: the node, the stable version of the
-- child, and the stable version of the node after both.
pub record Round : Type 0 where
  pub node : InteriorNode
  pub child_v : VersionBody
  pub check_v : VersionBody

-- The child, or null for "retry from a root", and the version that is handed back.
abbrev pub Picked : Type 0
Picked = Ptr × VersionBody

-- The checks behind a round, with the rounds that would follow.
unfoldable pub check_round : Ptr → VersionBody → Round → Option Picked → Option Picked
check_round child v r rest =
    if equal v r.check_v && not r.child_v.deleted
    then some (child, r.child_v)
    else if not (v.vsplit == r.check_v.vsplit)
    then some (0, v)
    else if r.check_v.deleted
    then some (0, v)
    else rest

-- A null child means that the structure is being changed: retry from a root.
abbrev pub checked : Ptr → VersionBody → Round → Option Picked → Option Picked
checked child v r rest = if child == 0 then some (0, v) else check_round child v r rest

-- `get_child_of` over the rounds; `none` while it still retries.
unfoldable pub get_child_of : KeyTuple → VersionBody → List Round → Option Picked
get_child_of key v [] = none
get_child_of key v (r ∷ later) =
    let rest = get_child_of key r.check_v later in
    do child ← pick_child r.node key; checked child v r rest

-- The loop of `shift_left_children` at `i`.
unfoldable pub shift_left_loop : ℕ → InteriorNode → ℕ → ℕ → Option InteriorNode
shift_left_loop zero n shift i = some n
shift_left_loop (suc left) n shift i = do
  c ← get_child_at n i
  n' ← set_child_at n (i - shift) c
  shift_left_loop left n' shift (i + 1)

unfoldable pub shift_left_children : InteriorNode → ℕ → ℕ → Option InteriorNode
shift_left_children n start shift = shift_left_loop (child_length - start) n shift start

-- The loop of `shift_right_children`, which goes down from `i`.
unfoldable pub shift_right_loop : ℕ → InteriorNode → ℕ → Option InteriorNode
shift_right_loop zero n i = some n
shift_right_loop (suc left) n i = do
  c ← get_child_at n (i - 1)
  n' ← set_child_at n i c
  shift_right_loop left n' (i - 1)

unfoldable pub shift_right_children : InteriorNode → ℕ → Option InteriorNode
shift_right_children n start = shift_right_loop (n.n_keys + 1 - start) n (n.n_keys + 1)

-- The steps of `insert` behind its loop, at the index that the loop found.
unfoldable pub insert_at_index : InteriorNode → ℕ → Ptr → KeyTuple → Option InteriorNode
insert_at_index n i child key = do
  base ← shift_right_base_member n.base i 1
  base' ← set_key base i key.slice key.size
  n' ← shift_right_children (record n { base = base' }) (i + 1)
  n'' ← set_child_at n' (i + 1) child
  some (n_keys_increment n'')

unfoldable pub insert_rightmost : InteriorNode → Ptr → KeyTuple → Option InteriorNode
insert_rightmost n child key = do
  base ← set_key n.base n.n_keys key.slice key.size
  n' ← set_child_at (record n { base = base }) (n.n_keys + 1) child
  some (n_keys_increment n')

abbrev pub mark_inserting : InteriorNode → InteriorNode
mark_inserting n = record n {
  base = record n.base { version = set_inserting_deleting true n.base.version };
}

unfoldable pub insert : InteriorNode → Ptr → KeyTuple → Option InteriorNode
insert n child key = do
  let n' = mark_inserting n
  i ← find_index n'.n_keys n' key 0
  if i == n'.n_keys then insert_rightmost n' child key else insert_at_index n' i child key

-- The part of `delete_of` for a node with more than one key: the child at the index `i` goes.
unfoldable pub close_gap : InteriorNode → ℕ → Option InteriorNode
close_gap n i = if i == n.n_keys then set_child_at n i 0 else do
  let start = if i == 0 then 1 else i
  base ← shift_left_base_member n.base start 1
  n' ← shift_left_children (record n { base = base }) (i + 1) 1
  set_child_at n' n.n_keys 0

unfoldable pub remove_child : InteriorNode → ℕ → Option InteriorNode
remove_child n i = do
  n' ← close_gap n i
  base ← set_key n'.base (n'.n_keys - 1) zero_slice 0
  let n'' = n_keys_decrement (record n' { base = base })
  some (record n'' { base = record n''.base { version = released n''.base.version } })

-- The search of `delete_of` and of `swap_child` for a child, at `i` with the rounds that are left.
unfoldable pub find_child : ℕ → InteriorNode → Ptr → ℕ → Option (Option ℕ)
find_child zero n child i = some none
find_child (suc left) n child i = do
  c ← get_child_at n i
  let rest = find_child left n child (i + 1)
  if c == child then some (some i) else rest

-- `swap_child`; a child that is not there is only logged.
abbrev pub swap_found : InteriorNode → Ptr → Option ℕ → Option InteriorNode
swap_found n new_child none = some n
swap_found n new_child (some i) = set_child_at n i new_child

unfoldable pub swap_child : InteriorNode → Ptr → Ptr → Option InteriorNode
swap_child n old_child new_child = do
  found ← find_child child_length n old_child 0
  swap_found n new_child found
