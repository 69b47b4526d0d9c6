-- ===== src/BorderNode/Split.antt =====
-- include/border_helper.h: a full border node is split, its upper part moves to a new node, and
-- the new entry goes to the one or the other.
use Prim.Native.Nat.{Ordering}
use yakushima.Common.{
  ℕ, zero, suc, ◌+◌, ◌-◌, ◌/◌, Bool, true, false, ◌&&◌, ◌||◌, List, [], ◌∷◌, ◌++◌, Option, some,
  ◌>>=◌, ◌==◌, ltb, if◌then◌else◌, sub64,
}
use yakushima.Scheme.{key_slice_length, slice_size}
use yakushima.Key.{Bytes, KeyTuple, memcmp, prepare, shorter}
use yakushima.BaseNode.{Ptr, key_at, set_key}
use yakushima.Version.{set_splitting}
use yakushima.Permutation.{get_index_of_rank, get_empty_slot, delete_rank, dec_key_num, split_dest}
use yakushima.LinkOrValue.{get_next_layer}
use yakushima.BorderNode.{BorderNode, get_lv_at, put_lv_at, init_border, init_border_at}
use yakushima.BorderNode.Change.{Store, insert_lv_at}

abbrev pub remaining_size : ℕ
remaining_size = key_slice_length / 2 + 1

-- The two nodes, the roots of next layers whose parent becomes the new one, and the node, if there
-- is one, whose `prev` becomes the new one.
pub record Parts : Type 0 where
  pub lower : BorderNode
  pub higher : BorderNode
  pub moved_layers : List Ptr
  pub relinked : Ptr

-- `new_border->set_key_slice_at, set_key_length_at, set_lv`
unfoldable pub put_entry : BorderNode → ℕ → KeyTuple → ℕ → Option BorderNode
put_entry n index key word = do
  b ← set_key n.base index key.slice key.size
  put_lv_at (record n { base = b }) index word

-- `border->get_permutation().delete_rank(...)` and `dec_key_num()`
unfoldable pub drop_rank : BorderNode → ℕ → Option BorderNode
drop_rank n rank = do
  word ← delete_rank n.permutation rank
  some (record n { permutation = dec_key_num word })

-- A round of the loop: the entry at the rank `remaining_size` goes to the slot `index_ctr` of the
-- new node.
unfoldable pub move_entry : Parts → ℕ → Option Parts
move_entry p index_ctr = do
  src_index ← get_index_of_rank p.lower.permutation remaining_size
  key ← key_at p.lower.base src_index
  word ← get_lv_at p.lower src_index
  higher ← put_entry p.higher index_ctr key word
  cleared ← init_border_at p.lower src_index
  lower ← drop_rank cleared remaining_size
  let nl = get_next_layer word
  let layers = if nl == 0 then p.moved_layers else p.moved_layers ++ nl ∷ []
  some (record p { lower = lower; higher = higher; moved_layers = layers })

unfoldable pub move_entries : ℕ → Parts → ℕ → Option Parts
move_entries zero p index_ctr = some p
move_entries (suc left) p index_ctr = do
  p' ← move_entry p index_ctr
  move_entries left p' (index_ctr + 1)

-- `border_split` up to the insertion, on the node at `self` with a new node at `fresh`: the new
-- node starts with the version of the old one, so that it is locked.
unfoldable pub split_entries : BorderNode → Ptr → Ptr → Option Parts
split_entries border self fresh = do
  let v = set_splitting true border.base.version
  let b = record border { base = record border.base { version = v }; next = fresh }
  let new_base = record init_border.base { version = v }
  let new_border = record init_border { base = new_base; next = border.next; prev = self }
  p ←
      move_entries (key_slice_length - remaining_size)
        (record { lower = b; higher = new_border; moved_layers = []; relinked = border.next }) 0
  word ← split_dest (key_slice_length - remaining_size)
  some (record p { higher = record p.higher { permutation = word } })

-- How many bytes of two keys are compared.
abbrev pub comp_length : ℕ → ℕ → ℕ
comp_length a b = if ltb slice_size a && ltb slice_size b then slice_size else shorter a b

-- Whether the new entry goes to the lower node, by its key, the first key of the new node, and the
-- rank.
unfoldable pub goes_lower : KeyTuple → KeyTuple → ℕ → Bool
goes_lower key front rank =
    key.size == 0 || elim (memcmp (comp_length key.size front.size) key.slice front.slice) [
      | Ordering.lt ↦ true
      | Ordering.eq ↦ ltb key.size front.size || ltb rank remaining_size
      | Ordering.gt ↦ false
    ]

-- What the split leaves: the nodes, the store of the new layers, and the address of the value's
-- bytes.
pub record Split : Type 0 where
  pub parts : Parts
  pub store : Store
  pub created : Option ℕ

unfoldable pub insert_lower : ℕ → Store → Ptr → Parts → Bytes → ℕ → Bool → ℕ → Option Split
insert_lower fuel s self p key new_value wants_created rank = do
  slot ← get_empty_slot p.lower.permutation
  r ← insert_lv_at fuel s self p.lower slot key new_value wants_created rank
  some (record { parts = record p { lower = r.node }; store = r.store; created = r.created })

unfoldable pub insert_higher : ℕ → Store → Ptr → Parts → Bytes → ℕ → Bool → ℕ → Option Split
insert_higher fuel s fresh p key new_value wants_created rank = do
  slot ← get_empty_slot p.higher.permutation
  r ←
      insert_lv_at fuel s fresh p.higher slot key new_value wants_created
        (sub64 rank remaining_size)
  some (record { parts = record p { higher = r.node }; store = r.store; created = r.created })

-- `border_split` up to the search for the parent.
unfoldable pub split_and_insert :
    ℕ → Store → Ptr → Ptr → BorderNode → Bytes → ℕ → Bool → ℕ → Option Split
split_and_insert fuel s self fresh border key new_value wants_created rank = do
  p ← split_entries border self fresh
  front ← key_at p.higher.base 0
  if goes_lower (prepare key) front rank
      then insert_lower fuel s self p key new_value wants_created rank
      else insert_higher fuel s fresh p key new_value wants_created rank
