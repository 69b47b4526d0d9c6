-- ===== src/Key.antt =====
-- Keys and key slices (include/scheme.h, include/base_node.h). A `key_slice_type` is only ever
-- copied and compared by `memcpy` and `memcmp`, so it is its 8 bytes in the order of memory.
pub mod Lex
use Prim.Native.Nat.{compare, Ordering}
use yakushima.Common.{
  ℕ, zero, suc, ◌+◌, Bool, true, false, ◌&&◌, ◌||◌, List, [], ◌∷◌, ◌++◌, length, ◌==◌, ltb,
  if◌then◌else◌,
}
use yakushima.Scheme.{slice_size}

abbrev pub Bytes : Type 0
Bytes = List ℕ

-- `memcmp` over `n` bytes.
unfoldable pub memcmp : ℕ → Bytes → Bytes → Ordering
memcmp zero a b = Ordering.eq
memcmp (suc n) [] b = Ordering.eq
memcmp (suc n) (x ∷ a) [] = Ordering.eq
memcmp (suc n) (x ∷ a) (y ∷ b) =
    let rest = memcmp n a b in elim (compare x y) [ Ordering.eq ↦ rest | o ↦ o ]

-- `memcpy` of a key into `n` bytes that are 0 before.
unfoldable pub load : ℕ → Bytes → Bytes
load zero key = []
load (suc n) [] = 0 ∷ load n []
load (suc n) (x ∷ key) = x ∷ load n key

-- `std::string_view::remove_prefix`
unfoldable pub remove_prefix : ℕ → Bytes → Bytes
remove_prefix zero key = key
remove_prefix (suc n) [] = []
remove_prefix (suc n) (x ∷ key) = remove_prefix n key

-- How `get`, `put` and `remove` prepare the slice of a key and its length; a key that goes on
-- behind the slice has the length 9.
abbrev pub key_slice : Bytes → Bytes
key_slice key = load slice_size key

abbrev pub key_length : Bytes → ℕ
key_length key = if ltb slice_size (length key) then slice_size + 1 else length key

-- `base_node::key_tuple`
pub record KeyTuple : Type 0 where
  pub slice : Bytes
  pub size : ℕ

abbrev pub prepare : Bytes → KeyTuple
prepare key = record { slice = key_slice key; size = key_length key }

abbrev pub shorter : ℕ → ℕ → ℕ
shorter a b = if ltb a b then a else b

-- `key_tuple::operator<`: for two lengths of 9 `memcmp` reads one byte behind the slices, where
-- the lengths stand.
unfoldable pub key_tuple_less : KeyTuple → KeyTuple → Bool
key_tuple_less a b =
    if a.size == 0
    then true
    else if b.size == 0
    then false
    else elim (memcmp (shorter a.size b.size) (a.slice ++ a.size ∷ []) (b.slice ++ b.size ∷ [])) [
      | Ordering.lt ↦ true
      | Ordering.eq ↦ ltb a.size b.size
      | Ordering.gt ↦ false
    ]

-- The next comparison decides where the first one does not.
abbrev pub and_then : Ordering → Ordering → Ordering
and_then Ordering.lt o = Ordering.lt
and_then Ordering.eq o = o
and_then Ordering.gt o = Ordering.gt

-- The order of the entries of a node: all bytes of the slices, then the lengths.
unfoldable pub key_compare : KeyTuple → KeyTuple → Ordering
key_compare a b = and_then (memcmp slice_size a.slice b.slice) (compare a.size b.size)

-- The comparison of the interior nodes: the bytes that both keys have, then the lengths.
unfoldable pub prefix_compare : KeyTuple → KeyTuple → Ordering
prefix_compare a b =
    and_then (memcmp (shorter (shorter a.size b.size) slice_size) a.slice b.slice)
      (compare a.size b.size)
