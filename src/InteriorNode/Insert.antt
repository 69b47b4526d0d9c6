-- ===== src/InteriorNode/Insert.antt =====
-- `interior_node::insert` puts a key in order and the child to its right.
use native.Mathlib.Decide.{dec_lt}
use yakushima.Common.{
  ℕ, zero, suc, ◌+◌, ◌-◌, ◌%◌, ◌^◌, ◌≤◌, ◌<◌, ◌≡◌, refl, true, false, Option, some, arith, lt→ltb,
  leb, ◌==◌, update,
}
use yakushima.Key.{KeyTuple}
use yakushima.BaseNode.{
  Ptr, set_key, set_key_slice_at, set_key_length_at, shift_right, shift_right_base_member,
}
use yakushima.InteriorNode.{
  InteriorNode, get_child_at, set_child_at, find_index, shift_right_loop, shift_right_children,
  insert_at_index, insert_rightmost, mark_inserting, insert, goes_left,
}
use yakushima.InteriorNode.Routing.{Routed, find_index-Routed, tuple_at}

-- The children after the loop has gone from `i` down to `i - left`.
record Shifted (left i : ℕ) (n : InteriorNode) (result : Option InteriorNode) : Type 0 where
  node : InteriorNode
  returns : result ≡ some node
  base : node.base ≡ n.base
  n_keys : node.n_keys ≡ n.n_keys
  moved : (j : ℕ) → i < j + left → j ≤ i → node.children j ≡ n.children (j - 1)
  kept_below : (j : ℕ) → j + left ≤ i → node.children j ≡ n.children j
  kept_above : (j : ℕ) → i < j → node.children j ≡ n.children j

shift_right_loop-Shifted :
    (left i : ℕ) (n : InteriorNode)
    → left ≤ i
    → i < 16
    → Shifted left i n (shift_right_loop left n i)
unfolding shift_right_loop get_child_at set_child_at
shift_right_loop-Shifted zero i n le lt = record {
  node = n;
  returns = refl;
  base = refl;
  n_keys = refl;
  moved = λ j lo hi. absurd (omega arith);
  kept_below = λ j lo. refl;
  kept_above = λ j lo. refl;
}
shift_right_loop-Shifted (suc left) i n le lt =
    let n' = record n { children = update n.children i (n.children (i - 1)) } in
    let rest = shift_right_loop-Shifted left (i - 1) n' (omega arith) (omega arith) in
    record {
      node = rest.node;
      returns = rw (lt→ltb (i - 1) 16 (omega arith), lt→ltb i 16 lt) rest.returns;
      base = rest.base;
      n_keys = rest.n_keys;
      moved = λ j lo hi. ground (arith, rest.moved j, rest.kept_above j);
      kept_below = λ j lo. ground (arith, rest.kept_below j);
      kept_above = λ j lo. ground (arith, rest.kept_above j);
    }

-- The node after `insert`: where the key went, and what stands at every index in use.
pub record Inserted (n : InteriorNode) (child : Ptr) (key : KeyTuple) (result : Option InteriorNode)
    : Type 0 where
  pub node : InteriorNode
  pub returns : result ≡ some node
  pub index : ℕ
  pub upper : index ≤ n.n_keys
  pub not_greater : (j : ℕ) → j < index → goes_left key (tuple_at n.base j) ≡ false
  pub greater : index < n.n_keys → goes_left key (tuple_at n.base index) ≡ true
  pub n_keys : node.n_keys ≡ n.n_keys + 1
  pub inserting : node.base.version.inserting_deleting ≡ true
  pub keys_before : (j : ℕ) → j < index → tuple_at node.base j ≡ tuple_at n.base j
  pub key_new : tuple_at node.base index ≡ key
  pub keys_after :
      (j : ℕ) → index < j → j ≤ n.n_keys → tuple_at node.base j ≡ tuple_at n.base (j - 1)
  pub children_before : (j : ℕ) → j ≤ index → node.children j ≡ n.children j
  pub child_new : node.children (index + 1) ≡ child
  pub children_after :
      (j : ℕ) → index + 1 < j → j ≤ n.n_keys + 1 → node.children j ≡ n.children (j - 1)

-- The node that `insert_at_index` hands to the loop over the children.
abbrev keyed_at : InteriorNode → KeyTuple → ℕ → InteriorNode
keyed_at n key i = record n {
  base = record n.base {
    slices = update (shift_right n.base.slices i 1) i key.slice;
    lengths = update (shift_right n.base.lengths i 1) i key.size;
  };
}

-- `insert` on a node that is not full never reads or writes out of range. The key goes in front
-- of the first key that is greater, the child to its right; all other keys and children keep
-- their order, and the mark for an insertion is set.
pub insert-Inserted :
    (n : InteriorNode) (child : Ptr) (key : KeyTuple)
    → n.n_keys < 15
    → Inserted n child key (insert n child key)
unfolding insert insert_at_index insert_rightmost set_key set_key_slice_at set_key_length_at
    set_child_at shift_right_base_member shift_right_children
insert-Inserted n child key few = elim (dec_lt place.index n.n_keys) [
  | no last ↦
      let e : (place.index == n.n_keys) ≡ true = ground (arith, place.upper) in
      let same : place.index ≡ n.n_keys = omega (arith, place.upper) in
      record {
        node = record n {
          base = record (mark_inserting n).base {
            slices = update n.base.slices n.n_keys key.slice;
            lengths = update n.base.lengths n.n_keys key.size;
          };
          n_keys = (n.n_keys + 1) % 2 ^ 8;
          children = update n.children (n.n_keys + 1) child;
        };
        returns =
            rw (place.returns, e, lt→ltb n.n_keys 15 few, lt→ltb (n.n_keys + 1) 16 (omega arith))
              refl;
        index = place.index;
        upper = place.upper;
        not_greater = λ j lt. place.before j (omega arith) lt;
        greater = place.after;
        n_keys = omega arith;
        inserting = refl;
        keys_before = λ j lt. ground arith;
        key_new = ground arith;
        keys_after = λ j lo hi. absurd (omega arith);
        children_before = λ j lt. ground arith;
        child_new = ground arith;
        children_after = λ j lo hi. absurd (omega arith);
      }
  | yes inner ↦
      let i = place.index in
      let e : (i == n.n_keys) ≡ false = ground arith in
      let room : leb 15 (i + 1) ≡ false = ground arith in
      let moved =
        shift_right_loop-Shifted (n.n_keys + 1 - (i + 1)) (n.n_keys + 1)
          (keyed_at (mark_inserting n) key i) (omega arith) (omega arith) in
      record {
        node = record moved.node {
          n_keys = (moved.node.n_keys + 1) % 2 ^ 8;
          children = update moved.node.children (i + 1) child;
        };
        returns =
            rw
              (
                place.returns,
                e,
                room,
                lt→ltb i 15 (omega arith),
                moved.returns,
                lt→ltb (i + 1) 16 (omega arith),
              )
              refl;
        index = i;
        upper = place.upper;
        not_greater = λ j lt. place.before j (omega arith) lt;
        greater = place.after;
        n_keys = omega (arith, moved.n_keys);
        inserting = rw moved.base refl;
        keys_before = λ j lt. rw moved.base (ground arith);
        key_new = rw moved.base (ground arith);
        keys_after = λ j lo hi. rw moved.base (ground arith);
        children_before = λ j lt. ground (arith, moved.kept_below j);
        child_new = ground arith;
        children_after = λ j lo hi. ground (arith, moved.moved j);
      }
]
  where
    place : Routed (mark_inserting n) key 0 (find_index n.n_keys (mark_inserting n) key 0)
    place = find_index-Routed (mark_inserting n) key (omega arith)
