-- ===== src/BorderNode.antt =====
-- include/border_node.h: up to 15 entries in the order of the permutation, each with the slice of
-- a key, its length, and a value or the root of the next layer. A `link_or_value*` into `lv_` is
-- the index of the element.
pub mod Change
pub mod Search
pub mod Order
pub mod Insertion
pub mod Split
pub mod Parts
pub mod Divided
pub mod SplitOrder
pub mod SplitInsert
pub mod SplitPlaced
pub mod Present
pub mod Deletion
pub mod Entries
use Prim.Native.Nat.{Ordering}
use yakushima.Common.{
  ℕ, zero, suc, ◌+◌, ◌-◌, Bool, true, false, not, ◌&&◌, ◌||◌, List, [], ◌∷◌, length, Option, none,
  some, ◌>>=◌, ◌==◌, ltb, leb, if◌then◌else◌, Array, at, set_at, update,
}
use yakushima.Scheme.{key_slice_length, slice_size}
use yakushima.Key.{Bytes, KeyTuple, memcmp, key_slice, remove_prefix}
use yakushima.BaseNode.{
  Ptr, BaseNode, key_at, get_key_length_at, set_key, set_key_slice_at, set_key_length_at, init_base,
  init_base_at,
}
use yakushima.Version.{
  VersionBody, set_border, set_root, set_deleted, inc_vinsert_delete, equal, released,
}
use yakushima.Permutation.{
  get_cnk, get_index_of_rank, get_empty_slot, delete_rank, dec_key_num, inc_key_num,
}
use yakushima.Permutation
use yakushima.Value.{Memory, is_value_ptr, get_gc_info, remove_delete_flag}
use yakushima.LinkOrValue.{init_lv, get_value, get_next_layer, set_next_layer, set_value, SetValue}

pub record BorderNode : Type 0 where
  pub base : BaseNode
  pub permutation : ℕ
  pub lv : Array ℕ
  pub prev : Ptr
  pub next : Ptr

unfoldable pub get_lv_at : BorderNode → ℕ → Option ℕ
get_lv_at n index = at key_slice_length n.lv index

-- `lv_.at(index)` is assigned.
unfoldable pub put_lv_at : BorderNode → ℕ → ℕ → Option BorderNode
put_lv_at n index word = do a ← set_at key_slice_length n.lv index word; some (record n { lv = a })

-- What a round of a search makes of the entry that it looks at.
pub data Verdict : Type 0 where
  found : Verdict
  stop : Verdict
  go_on : Verdict

-- Two keys with the same slice are the same entry where both go on behind the slice, or where
-- their lengths agree.
abbrev pub same_length : ℕ → ℕ → Bool
same_length a b = (ltb slice_size a && ltb slice_size b) || a == b

unfoldable pub examine : KeyTuple → KeyTuple → Verdict
examine key target =
    if key.size == 0 && target.size == 0
    then found
    else elim (memcmp slice_size key.slice target.slice) [
      | Ordering.eq ↦
          if same_length key.size target.size
          then found
          else if ltb key.size target.size
          then stop
          else go_on
      | Ordering.lt ↦ stop
      | Ordering.gt ↦ go_on
    ]

-- The slot of a rank and the key there.
abbrev pub entry_at : BorderNode → ℕ → Option (ℕ × KeyTuple)
entry_at n i = do
  index ← get_index_of_rank n.permutation i
  target ← key_at n.base index
  some (index, target)

-- The loop of `get_lv_of` at the rank `i`, with the rounds that are left: the slot that is found.
unfoldable pub search_from : ℕ → BorderNode → KeyTuple → ℕ → Option (Option ℕ)
search_from zero n key i = some none
search_from (suc left) n key i =
    let rest = search_from left n key (i + 1) in
    do
      (index, target) ← entry_at n i
      elim (examine key target) [ found ↦ some (some index) | stop ↦ some none | go_on ↦ rest ]

unfoldable pub search : BorderNode → KeyTuple → Option (Option ℕ)
search n key = search_from (get_cnk n.permutation) n key 0

-- `get_lv_of` over what its rounds see: the node, and the stable version behind the search. It
-- returns the slot with the version; `none` while it still retries.
unfoldable pub get_lv_of :
    KeyTuple → VersionBody → List (BorderNode × VersionBody) → Option (Option ℕ × VersionBody)
get_lv_of key v [] = none
get_lv_of key v ((n, v_check) ∷ later) =
    let rest = get_lv_of key v_check later in
    do slot ← search n key; if equal v v_check then some (slot, v) else rest

-- The loop of `get_lv_of_without_lock`, which goes on behind the entry that it has found.
unfoldable pub search_all_from : ℕ → BorderNode → KeyTuple → ℕ → Option ℕ → Option (Option ℕ)
search_all_from zero n key i ret = some ret
search_all_from (suc left) n key i ret = do
  (index, target) ← entry_at n i
  elim (examine key target) [
    | found ↦ search_all_from left n key (i + 1) (some index)
    | stop ↦ some ret
    | go_on ↦ search_all_from left n key (i + 1) ret
  ]

unfoldable pub get_lv_of_without_lock : BorderNode → KeyTuple → Option (Option ℕ)
get_lv_of_without_lock n key = search_all_from (get_cnk n.permutation) n key 0 none

-- The loop of `compute_rank_if_insert` at `i`. An entry with the same key is an error, which is
-- logged before it returns 0.
unfoldable pub rank_from : ℕ → BorderNode → KeyTuple → ℕ → Option ℕ
rank_from zero n key i = some i
rank_from (suc left) n key i =
    let rest = rank_from left n key (i + 1) in
    do
      (index, target) ← entry_at n i
      elim (examine key target) [ found ↦ some 0 | stop ↦ some i | go_on ↦ rest ]

unfoldable pub compute_rank_if_insert : BorderNode → KeyTuple → Option ℕ
compute_rank_if_insert n key = rank_from (get_cnk n.permutation) n key 0

-- The loop of `get_all_next_layer` at the rank `i`.
unfoldable pub next_layers_from : ℕ → BorderNode → ℕ → Option (List Ptr)
next_layers_from zero n i = some []
next_layers_from (suc left) n i = do
  index ← get_index_of_rank n.permutation i
  word ← get_lv_at n index
  later ← next_layers_from left n (i + 1)
  some (if get_next_layer word == 0 then later else get_next_layer word ∷ later)

unfoldable pub get_all_next_layer : BorderNode → Option (List Ptr)
get_all_next_layer n = next_layers_from (get_cnk n.permutation) n 0

-- The loop of `get_lv(next_layer)` at `i`; it looks at all slots, in use or not.
unfoldable pub link_from : ℕ → BorderNode → Ptr → ℕ → Option ℕ
link_from zero n child i = none
link_from (suc left) n child i =
    let rest = link_from left n child (i + 1) in
    if get_next_layer (n.lv i) == child then some i else rest

unfoldable pub get_lv : BorderNode → Ptr → Option ℕ
get_lv n child = link_from key_slice_length n child 0

-- `init_border()`
abbrev pub init_border : BorderNode
init_border = record {
  base = record init_base { version = set_border true (set_root true init_base.version) };
  permutation = Permutation.init;
  lv = λ i. init_lv;
  prev = 0;
  next = 0;
}

-- `init_border(pos)`
unfoldable pub init_border_at : BorderNode → ℕ → Option BorderNode
init_border_at n pos = do b ← init_base_at n.base pos; put_lv_at (record n { base = b }) pos init_lv
