-- ===== src/BaseNode.antt =====
-- include/base_node.h: what border and interior nodes share. An index out of range is a fault.
use yakushima.Common.{
  ℕ, zero, suc, ◌+◌, ◌-◌, ◌&&◌, ◌||◌, List, [], ◌∷◌, Option, none, some, ◌>>=◌, ◌==◌, ltb, leb,
  if◌then◌else◌, Array, at, set_at,
}
use yakushima.Scheme.{key_slice_length}
use yakushima.Key.{Bytes, KeyTuple, key_slice}
use yakushima.Version.{VersionBody}
use yakushima.Version

-- Addresses of nodes; 0 is the null pointer.
abbrev pub Ptr : Type 0
Ptr = ℕ

-- The members of `base_node`.
pub record BaseNode : Type 0 where
  pub slices : Array Bytes
  pub lengths : Array ℕ
  pub parent : Ptr
  pub version : VersionBody

abbrev pub zero_slice : Bytes
zero_slice = key_slice []

unfoldable pub get_key_slice_at : BaseNode → ℕ → Option Bytes
get_key_slice_at b index = at key_slice_length b.slices index

unfoldable pub get_key_length_at : BaseNode → ℕ → Option ℕ
get_key_length_at b index = at key_slice_length b.lengths index

-- Slice and length at an index, which the callers read together.
abbrev pub key_at : BaseNode → ℕ → Option KeyTuple
key_at b index = do
  s ← get_key_slice_at b index
  l ← get_key_length_at b index
  some (record { slice = s; size = l })

unfoldable pub set_key_slice_at : BaseNode → ℕ → Bytes → Option BaseNode
set_key_slice_at b index slice = do
  s ← set_at key_slice_length b.slices index slice
  some (record b { slices = s })

unfoldable pub set_key_length_at : BaseNode → ℕ → ℕ → Option BaseNode
set_key_length_at b index size = do
  l ← set_at key_slice_length b.lengths index size
  some (record b { lengths = l })

unfoldable pub set_key : BaseNode → ℕ → Bytes → ℕ → Option BaseNode
unfolding set_key_slice_at set_key_length_at
set_key b index slice size = do b' ← set_key_slice_at b index slice; set_key_length_at b' index size

-- `init_base()`
abbrev pub init_base : BaseNode
init_base = record {
  slices = λ i. zero_slice;
  lengths = λ i. 0;
  parent = 0;
  version = Version.init;
}

-- `init_base(pos)`
unfoldable pub init_base_at : BaseNode → ℕ → Option BaseNode
unfolding set_key
init_base_at b pos = set_key b pos zero_slice 0

-- The loop of `init_base_member_range` at `i`, with the rounds that are left.
unfoldable pub init_base_loop : ℕ → BaseNode → ℕ → Option BaseNode
init_base_loop zero b i = some b
init_base_loop (suc left) b i = do b' ← set_key b i zero_slice 0; init_base_loop left b' (i + 1)

unfoldable pub init_base_member_range : BaseNode → ℕ → Option BaseNode
init_base_member_range b start = init_base_loop (key_slice_length - start) b start

-- The loop of `move_key_to_base_range` at `i`: the keys go to the node on the right.
unfoldable pub move_key_loop : ℕ → BaseNode → BaseNode → ℕ → ℕ → Option (BaseNode × BaseNode)
move_key_loop zero b right start i = some (b, right)
move_key_loop (suc left) b right start i = do
  k ← key_at b i
  right' ← set_key right (i - start) k.slice k.size
  b' ← set_key b i zero_slice 0
  move_key_loop left b' right' start (i + 1)

unfoldable pub move_key_to_base_range : BaseNode → BaseNode → ℕ → Option (BaseNode × BaseNode)
move_key_to_base_range b right start = move_key_loop (key_slice_length - start) b right start start

-- `memmove` of the elements from `start` on, `shift` places to the left.
abbrev pub shift_left {ℓ} : {A : Type ℓ} → Array A → ℕ → ℕ → Array A
shift_left a start shift i =
    if leb (start - shift) i && ltb i (key_slice_length - shift) then a (i + shift) else a i

-- The same to the right; what would pass the end is dropped.
abbrev pub shift_right {ℓ} : {A : Type ℓ} → Array A → ℕ → ℕ → Array A
shift_right a start shift i =
    if leb (start + shift) i && ltb i key_slice_length then a (i - shift) else a i

unfoldable pub shift_left_base_member : BaseNode → ℕ → ℕ → Option BaseNode
shift_left_base_member b start shift =
    if ltb start shift || leb key_slice_length start
    then none
    else some (record b {
      slices = shift_left b.slices start shift;
      lengths = shift_left b.lengths start shift;
    })

unfoldable pub shift_right_base_member : BaseNode → ℕ → ℕ → Option BaseNode
shift_right_base_member b start shift =
    if leb key_slice_length (start + shift)
    then none
    else some (record b {
      slices = shift_right b.slices start shift;
      lengths = shift_right b.lengths start shift;
    })

-- `lock_parent` from the parent that it reads first, over the parents that it reads behind the
-- locks: the parent that stays locked, or null; `none` while it goes on.
unfoldable pub lock_parent : Ptr → List Ptr → Option Ptr
lock_parent p [] = if p == 0 then some 0 else none
lock_parent p (check ∷ later) =
    let rest = lock_parent check later in
    if p == 0 then some 0 else if p == check then some p else rest
