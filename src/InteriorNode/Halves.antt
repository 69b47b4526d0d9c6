-- ===== src/InteriorNode/Halves.antt =====
-- The two halves of an interior node hold its keys and children in the old order.
use yakushima.Common.{
  ℕ, zero, suc, ◌+◌, ◌-◌, ◌≤◌, ◌<◌, ◌≡◌, refl, true, false, Option, some, ◌==◌, update, arith,
  lt→ltb,
}
use yakushima.Key.{KeyTuple}
use yakushima.BaseNode.{
  BaseNode, set_key, set_key_slice_at, set_key_length_at, zero_slice, move_key_loop,
  move_key_to_base_range,
}
use yakushima.Version.{set_splitting}
use yakushima.InteriorNode.{InteriorNode, get_child_at, set_child_at, init_interior}
use yakushima.InteriorNode.Routing.{tuple_at, key_at-in_range}
use yakushima.InteriorNode.Split.{
  move_children_loop, move_children_to_interior_range, Halves, halve,
}

-- The keys after the loop has gone from `i` up, `left` of them.
record MovedKeys (left start i : ℕ) (b r : BaseNode) (result : Option (BaseNode × BaseNode))
    : Type 0 where
  kept : BaseNode
  moved : BaseNode
  returns : result ≡ some (kept, moved)
  kept_version : kept.version ≡ b.version
  moved_version : moved.version ≡ r.version
  below : (j : ℕ) → j < i → tuple_at kept j ≡ tuple_at b j
  arrived :
      (j : ℕ) → i ≤ j + start → j + start < i + left → tuple_at moved j ≡ tuple_at b (j + start)
  earlier : (j : ℕ) → j + start < i → tuple_at moved j ≡ tuple_at r j

set_key-in_range :
    (b : BaseNode) (i : ℕ) (key : KeyTuple)
    → i < 15
    → set_key b i key.slice key.size
      ≡ some
          (record b { slices = update b.slices i key.slice; lengths = update b.lengths i key.size })
unfolding set_key set_key_slice_at set_key_length_at
set_key-in_range b i key h = rw (lt→ltb i 15 h) refl

move_key_loop-MovedKeys :
    (left start i : ℕ) (b r : BaseNode)
    → start ≤ i
    → i + left ≤ 15
    → MovedKeys left start i b r (move_key_loop left b r start i)
unfolding move_key_loop
move_key_loop-MovedKeys zero start i b r le few = record {
  kept = b;
  moved = r;
  returns = refl;
  kept_version = refl;
  moved_version = refl;
  below = λ j lt. refl;
  arrived = λ j lo hi. absurd (omega arith);
  earlier = λ j lt. refl;
}
move_key_loop-MovedKeys (suc left) start i b r le few =
    let key = tuple_at b i in
    let r' = record r {
      slices = update r.slices (i - start) key.slice;
      lengths = update r.lengths (i - start) key.size;
    } in
    let b' = record b { slices = update b.slices i zero_slice; lengths = update b.lengths i 0 } in
    let rest = move_key_loop-MovedKeys left start (i + 1) b' r' (omega arith) (omega arith) in
    record {
      kept = rest.kept;
      moved = rest.moved;
      returns =
          rw
            (
              move_key_loop,
              key_at-in_range b i (omega arith),
              set_key-in_range r (i - start) key (omega arith),
              set_key-in_range b i (record { slice = zero_slice; size = 0 }) (omega arith),
            )
            rest.returns;
      kept_version = rest.kept_version;
      moved_version = rest.moved_version;
      below = λ j lt. ground (arith, rest.below j);
      arrived = λ j lo hi. ground (arith, rest.arrived j, rest.earlier j);
      earlier = λ j lt. ground (arith, rest.earlier j);
    }

-- The children after the loop.
record MovedChildren (left start i : ℕ) (n r : InteriorNode)
    (result : Option (InteriorNode × InteriorNode)) : Type 0 where
  kept : InteriorNode
  moved : InteriorNode
  returns : result ≡ some (kept, moved)
  kept_base : kept.base ≡ n.base
  moved_base : moved.base ≡ r.base
  kept_n_keys : kept.n_keys ≡ n.n_keys
  moved_n_keys : moved.n_keys ≡ r.n_keys
  below : (j : ℕ) → j < i → kept.children j ≡ n.children j
  arrived :
      (j : ℕ) → i ≤ j + start → j + start < i + left → moved.children j ≡ n.children (j + start)
  earlier : (j : ℕ) → j + start < i → moved.children j ≡ r.children j

move_children_loop-MovedChildren :
    (left start i : ℕ) (n r : InteriorNode)
    → start ≤ i
    → i + left ≤ 16
    → ((j : ℕ) → i ≤ j → j < i + left → (n.children j == 0) ≡ false)
    → MovedChildren left start i n r (move_children_loop left n r start i)
unfolding move_children_loop get_child_at set_child_at
move_children_loop-MovedChildren zero start i n r le few full = record {
  kept = n;
  moved = r;
  returns = refl;
  kept_base = refl;
  moved_base = refl;
  kept_n_keys = refl;
  moved_n_keys = refl;
  below = λ j lt. refl;
  arrived = λ j lo hi. absurd (omega arith);
  earlier = λ j lt. refl;
}
move_children_loop-MovedChildren (suc left) start i n r le few full =
    let r' = record r { children = update r.children (i - start) (n.children i) } in
    let n' = record n { children = update n.children i 0 } in
    let rest =
      move_children_loop-MovedChildren left start (i + 1) n' r' (omega arith) (omega arith)
        (λ j lo hi. ground (arith, full j)) in
    record {
      kept = rest.kept;
      moved = rest.moved;
      returns =
          rw
            (
              lt→ltb i 16 (omega arith),
              lt→ltb (i - start) 16 (omega arith),
              full i (omega arith) (omega arith),
            )
            rest.returns;
      kept_base = rest.kept_base;
      moved_base = rest.moved_base;
      kept_n_keys = rest.kept_n_keys;
      moved_n_keys = rest.moved_n_keys;
      below = λ j lt. ground (arith, rest.below j);
      arrived = λ j lo hi. ground (arith, rest.arrived j, rest.earlier j);
      earlier = λ j lt. ground (arith, rest.earlier j);
    }

-- What the halves of a full node hold.
pub record Halved (n : InteriorNode) (result : Option Halves) : Type 0 where
  pub halves : Halves
  pub returns : result ≡ some halves
  pub pivot : halves.pivot ≡ tuple_at n.base 7
  pub left_n_keys : halves.left.n_keys ≡ 7
  pub right_n_keys : halves.right.n_keys ≡ 7
  pub left_keys : (j : ℕ) → j < 7 → tuple_at halves.left.base j ≡ tuple_at n.base j
  pub right_keys : (j : ℕ) → j < 7 → tuple_at halves.right.base j ≡ tuple_at n.base (j + 8)
  pub left_children : (j : ℕ) → j < 8 → halves.left.children j ≡ n.children j
  pub right_children : (j : ℕ) → j < 8 → halves.right.children j ≡ n.children (j + 8)
  pub left_marked : halves.left.base.version.splitting ≡ true
  pub right_version : halves.right.base.version ≡ halves.left.base.version

-- Splitting a node with 15 keys and no null child faults nowhere. The key in the middle is handed
-- out; the 7 keys and 8 children before it stay, in order, and the 7 keys and 8 children behind it
-- stand in order in the new node, which has the version of the old one, marked as splitting.
pub halve-Halved :
    (n : InteriorNode)
    → ((j : ℕ) → 8 ≤ j → j < 16 → (n.children j == 0) ≡ false)
    → Halved n (halve n)
unfolding halve move_key_to_base_range move_children_to_interior_range
halve-Halved n full =
    let v = set_splitting true n.base.version in
    let keys =
      move_key_loop-MovedKeys 7 8 8 (record n.base { version = v })
        (record init_interior.base { version = v }) (omega arith) (omega arith) in
    let left = record n { base = keys.kept; n_keys = 7 } in
    let right = record init_interior { base = keys.moved; n_keys = 7 } in
    let rest = move_children_loop-MovedChildren 8 8 8 left right (omega arith) (omega arith) full in
    record {
      halves = record {
        left = record rest.kept {
          base = record keys.kept {
            slices = update keys.kept.slices 7 zero_slice;
            lengths = update keys.kept.lengths 7 0;
          };
        };
        right = rest.moved;
        pivot = tuple_at keys.kept 7;
      };
      returns =
          rw
            (
              keys.returns,
              rest.returns,
              rest.kept_base,
              key_at-in_range keys.kept 7 (omega arith),
              set_key-in_range keys.kept 7 (record { slice = zero_slice; size = 0 }) (omega arith),
            )
            refl;
      pivot = keys.below 7 (omega arith);
      left_n_keys = rest.kept_n_keys;
      right_n_keys = rest.moved_n_keys;
      left_keys = λ j lt. ground (arith, keys.below j);
      right_keys = λ j lt. rw rest.moved_base (keys.arrived j (omega arith) (omega arith));
      left_children = λ j lt. rest.below j (omega arith);
      right_children = λ j lt. rest.arrived j (omega arith) (omega arith);
      left_marked = rw keys.kept_version refl;
      right_version = rw (rest.moved_base, keys.moved_version, keys.kept_version) refl;
    }
