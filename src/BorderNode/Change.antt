-- ===== src/BorderNode/Change.antt =====
-- include/border_node.h: the operations that change a border node, under its lock.
use yakushima.Common.{
  ℕ, zero, suc, ◌+◌, Bool, true, false, ◌&&◌, ◌||◌, List, [], ◌∷◌, length, Option, none, some,
  ◌>>=◌, ◌==◌, ltb, if◌then◌else◌, update,
}
use Prim.Native.Nat.{Ordering}
use yakushima.Scheme.{slice_size}
use yakushima.Key.{Bytes, KeyTuple, memcmp, key_slice, remove_prefix}
use yakushima.BaseNode.{Ptr, set_key_slice_at, set_key_length_at}
use yakushima.Version.{
  VersionBody, set_root, set_deleted, set_inserting_deleting, inc_vinsert_delete, released,
}
use yakushima.Permutation.{get_cnk, get_empty_slot, delete_rank, dec_key_num, inc_key_num}
use yakushima.Permutation
use yakushima.Value.{Memory, is_value_ptr, get_gc_info, remove_delete_flag}
use yakushima.LinkOrValue.{init_lv, get_value, set_next_layer, set_value}
use yakushima.BorderNode.{BorderNode, get_lv_at, put_lv_at, entry_at, init_border}

-- A value that waits for its epoch: epoch, address, size and alignment.
abbrev pub RetiredValue : Type 0
RetiredValue = ℕ × ℕ × ℕ × ℕ

-- What the operations of a session see besides the node: the memory of the values, and the values
-- that the session has handed to its garbage collector, the newest last.
pub record Retiring : Type 0 where
  pub node : BorderNode
  pub memory : Memory
  pub retired : Option RetiredValue

-- The part of `delete_at` for a value that is not inline: it is retired, and its word goes, so that
-- nothing follows it later.
unfoldable pub retire : BorderNode → Memory → ℕ → ℕ → ℕ → Option Retiring
retire n m begin_epoch pos vp = do
  m' ← remove_delete_flag m vp
  (v_ptr, v_len, v_align) ← get_gc_info m' vp
  n' ← put_lv_at n pos init_lv
  some (record { node = n'; memory = m'; retired = some (begin_epoch, v_ptr, v_len, v_align) })

abbrev pub retire_if : Bool → BorderNode → Memory → ℕ → ℕ → ℕ → Option Retiring
retire_if true n m begin_epoch pos vp = retire n m begin_epoch pos vp
retire_if false n m begin_epoch pos vp = some (record { node = n; memory = m; retired = none })

unfoldable pub retire_at : BorderNode → Memory → ℕ → ℕ → Bool → Option Retiring
retire_at n m begin_epoch pos false = some (record { node = n; memory = m; retired = none })
retire_at n m begin_epoch pos true = do
  word ← get_lv_at n pos
  retire_if (is_value_ptr (get_value word)) n m begin_epoch pos (get_value word)

unfoldable pub delete_at : BorderNode → Memory → ℕ → ℕ → ℕ → Bool → Option Retiring
delete_at n m begin_epoch rank pos target_is_value = do
  r ← retire_at n m begin_epoch pos target_is_value
  word ← delete_rank r.node.permutation rank
  some (record r { node = record r.node { permutation = dec_key_num word } })

-- Which entry `delete_of` looks for: the length has to agree, and the slice unless it is empty.
unfoldable pub is_target : KeyTuple → KeyTuple → Bool
is_target key target =
    (key.size == 0 && target.size == 0)
    || (key.size == target.size
        && elim (memcmp slice_size key.slice target.slice) [ Ordering.eq ↦ true | _ ↦ false ])

-- The search of `delete_of` at the rank `i`, with the rounds that are left: rank and slot.
unfoldable pub target_from : ℕ → BorderNode → KeyTuple → ℕ → Option (Option (ℕ × ℕ))
target_from zero n key i = some none
target_from (suc left) n key i =
    let rest = target_from left n key (i + 1) in
    do (index, target) ← entry_at n i; if is_target key target then some (some (i, index)) else rest

-- The marks that `delete_of` leaves on a node that it has emptied: only the root of the tree stays
-- a root.
abbrev pub mark_empty : Bool → VersionBody → VersionBody
mark_empty is_tree_root v =
    if is_tree_root then set_deleted true v else set_root false (set_deleted true v)

-- `delete_of` up to the unlinking of a node that is now empty. A node that still holds an entry is
-- unlocked.
abbrev pub delete_target : BorderNode → Memory → ℕ → Bool → Bool → Option (ℕ × ℕ) → Option Retiring
delete_target n m begin_epoch is_value is_tree_root none =
    some (record { node = n; memory = m; retired = none })
delete_target n m begin_epoch is_value is_tree_root (some (rank, index)) = do
  r ← delete_at n m begin_epoch rank index is_value
  let v = r.node.base.version
  let v' = if get_cnk n.permutation == 1 then mark_empty is_tree_root v else released v
  some (record r { node = record r.node { base = record r.node.base { version = v' } } })

unfoldable pub delete_of : BorderNode → Memory → ℕ → KeyTuple → Bool → Bool → Option Retiring
delete_of n m begin_epoch key is_value is_tree_root = do
  target ← target_from (get_cnk n.permutation) n key 0
  delete_target n m begin_epoch is_value is_tree_root target

-- The nodes by their address, the memory of the values, and the addresses that `operator new`
-- returns from here on.
pub record Store : Type 0 where
  pub nodes : Ptr → Option BorderNode
  pub memory : Memory
  pub fresh : List Ptr

-- What `insert_lv_at` leaves: the node, the store, and the address of the value's bytes.
pub record Inserted : Type 0 where
  pub node : BorderNode
  pub store : Store
  pub created : Option ℕ

-- `new border_node()`
unfoldable pub new_border : Store → Option (Ptr × Store)
new_border s = elim s.fresh [ [] ↦ none | p ∷ later ↦ some (p, record s { fresh = later }) ]

-- The end of `insert_lv_at`: the slot takes its place in the order.
abbrev pub put_in_order : Inserted → ℕ → ℕ → Option Inserted
put_in_order r index rank = do
  word ← Permutation.insert (inc_key_num r.node.permutation) rank index
  some (record r { node = record r.node { permutation = word } })

-- `insert_lv_at` for a key that ends in this layer.
unfoldable pub insert_value : Store → BorderNode → ℕ → Bytes → ℕ → Bool → ℕ → Option Inserted
insert_value s n index key new_value wants_created rank = do
  b ← set_key_slice_at n.base index (key_slice key)
  b' ← set_key_length_at b index (length key)
  old ← get_lv_at n index
  r ← set_value s.memory old new_value wants_created false
  n' ← put_lv_at (record n { base = b' }) index r.lv
  put_in_order
      (record { node = n'; store = record s { memory = r.memory }; created = r.created_value })
      index rank

-- The node of the next layer, as `init_border(key_view, new_value, ..., root)` starts it.
abbrev pub new_layer : Bool → BorderNode
new_layer root =
    let v = set_root root init_border.base.version in
    record init_border { base = record init_border.base { version = inc_vinsert_delete v } }

-- The rest of `insert_lv_at` for a key that goes on: the slice, the length 9 and the link.
unfoldable pub insert_link : Ptr → BorderNode → ℕ → Bytes → Ptr → Inserted → ℕ → Option Inserted
insert_link self n index key child below rank = do
  b ← set_key_slice_at n.base index (key_slice key)
  b' ← set_key_length_at b index (slice_size + 1)
  n' ← put_lv_at (record n { base = b' }) index (set_next_layer child)
  let child_node = record below.node { base = record below.node.base { parent = self } }
  put_in_order
      (record below {
        node = n';
        store = record below.store { nodes = update below.store.nodes child (some child_node) };
      })
      index rank

-- `insert_lv_at` on the node at the address `self`. A layer takes 8 bytes of the key, so that the
-- length of the key is fuel enough.
unfoldable pub insert_lv_at :
    ℕ → Store → Ptr → BorderNode → ℕ → Bytes → ℕ → Bool → ℕ → Option Inserted
insert_lv_at zero s self n index key new_value wants_created rank = none
insert_lv_at (suc fuel) s self n index key new_value wants_created rank =
    elim (ltb slice_size (length key)) [
      | false ↦ insert_value s n index key new_value wants_created rank
      | true ↦ do
        (child, s') ← new_border s
        slot ← get_empty_slot (new_layer true).permutation
        below ←
            insert_lv_at fuel s' child (new_layer true) slot (remove_prefix slice_size key)
              new_value wants_created 0
        insert_link self n index key child below rank
    ]

-- `insert_lv` for a node that is not full: a root that was empty is no longer deleted, and the
-- node is unlocked behind the insertion.
unfoldable pub insert_lv : ℕ → Store → Ptr → BorderNode → Bytes → ℕ → Bool → ℕ → Option Inserted
insert_lv fuel s self n key new_value wants_created rank = do
  let v = set_inserting_deleting true n.base.version
  let v' = if get_cnk n.permutation == 0 then set_deleted false v else v
  slot ← get_empty_slot n.permutation
  let n' = record n { base = record n.base { version = v' } }
  r ← insert_lv_at fuel s self n' slot key new_value wants_created rank
  let w = released r.node.base.version
  some (record r { node = record r.node { base = record r.node.base { version = w } } })
