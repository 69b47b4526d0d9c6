-- ===== src/InteriorNode/Split.antt =====
-- include/interior_helper.h: a full interior node is split, and the key in the middle moves up.
use yakushima.Common.{
  ℕ, zero, suc, ◌+◌, ◌-◌, ◌/◌, true, false, Option, none, some, ◌>>=◌, ◌==◌, if◌then◌else◌, bit_and,
}
use yakushima.Scheme.{key_slice_length}
use yakushima.Key.{KeyTuple}
use yakushima.BaseNode.{Ptr, key_at, set_key, zero_slice, move_key_to_base_range}
use yakushima.Version.{set_splitting}
use yakushima.InteriorNode.{
  InteriorNode, child_length, get_child_at, set_child_at, init_interior, goes_left, insert,
}

-- The loop of `move_children_to_interior_range` at `i`. A null child is a fault: the code follows
-- it to set its parent.
unfoldable pub move_children_loop :
    ℕ → InteriorNode → InteriorNode → ℕ → ℕ → Option (InteriorNode × InteriorNode)
move_children_loop zero n right start i = some (n, right)
move_children_loop (suc left) n right start i = do
  c ← get_child_at n i
  right' ← set_child_at right (i - start) c
  n' ← if c == 0 then none else set_child_at n i 0
  move_children_loop left n' right' start (i + 1)

unfoldable pub move_children_to_interior_range :
    InteriorNode → InteriorNode → ℕ → Option (InteriorNode × InteriorNode)
move_children_to_interior_range n right start =
    move_children_loop (child_length - start) n right start start

abbrev pub pivot_key_pos : ℕ
pivot_key_pos = key_slice_length / 2

-- What the first part of `interior_split` leaves: the two halves and the key between them.
pub record Halves : Type 0 where
  pub left : InteriorNode
  pub right : InteriorNode
  pub pivot : KeyTuple

-- The halves before the new child is inserted; the new node starts with the version of the old one,
-- so that it is locked.
unfoldable pub halve : InteriorNode → Option Halves
halve n = do
  let v = set_splitting true n.base.version
  let base = record n.base { version = v }
  let fresh = record init_interior.base { version = v }
  (kept, moved) ← move_key_to_base_range base fresh (pivot_key_pos + 1)
  let left = record n { base = kept; n_keys = pivot_key_pos }
  let odd = bit_and pivot_key_pos 1 == 1
  let right = record init_interior {
    base = moved;
    n_keys = if odd then pivot_key_pos else pivot_key_pos - 1;
  }
  (left', right') ← move_children_to_interior_range left right (pivot_key_pos + 1)
  pivot ← key_at left'.base pivot_key_pos
  base' ← set_key left'.base pivot_key_pos zero_slice 0
  some (record { left = record left' { base = base' }; right = right'; pivot = pivot })

-- The half that takes the new child.
unfoldable pub insert_into_half : Halves → Ptr → KeyTuple → Option Halves
insert_into_half h child key = elim (goes_left key h.pivot) [
  | true ↦ do n ← insert h.left child key; some (record h { left = n })
  | false ↦ do n ← insert h.right child key; some (record h { right = n })
]
