-- ===== src/Tree/Rooted.antt =====
-- A tree whose root was split has a new root, which leads to the two nodes.
use yakushima.Common.{
  ◌≡◌, ◌≢◌, refl, sym, subst, ◌∙◌, ap, true, false, List, ◌∷◌, Option, some, ◌==◌, if◌then◌else◌,
  arith, update, Bool-cases, inl, inr,
}
use yakushima.Key.{KeyTuple}
use yakushima.BaseNode.{
  Ptr, BaseNode, set_key, set_key_slice_at, set_key_length_at, get_key_slice_at, get_key_length_at,
}
use yakushima.Version.{VersionBody, set_root, set_locked, set_inserting_deleting, released, stable}
use yakushima.InteriorNode.{
  InteriorNode, init_interior, goes_left, pick_child, find_index, get_child_at, set_child_at,
}
use yakushima.InteriorNode.Routing.{tuple_at}
use yakushima.BorderNode.{BorderNode}
use yakushima.Tree.{World, Node, border_node, interior_node}
use yakushima.Tree.Moved.{update_here}
use yakushima.Tree.Descent.{IsLive, Descent, arrive, turn}
use yakushima.Tree.Nodes.{with_base, write_node, edit_base, version_unlock, on_version}
use yakushima.Tree.Grow.{new_parent, below_parent, create_interior_parent, grow_root}

-- Readers accept a node that is unlocked.
pub released-IsLive :
    (v : VersionBody)
    → v.deleted ≡ false
    → IsLive (released v) × ((released v).border ≡ v.border) × ((released v).root ≡ v.root)
unfolding released
released-IsLive v there =
    (record { quiet = ground arith; kept = ground (arith, there) }, ground arith, ground arith)

-- The new root before it is unlocked.
parent_version : VersionBody
parent_version =
    set_locked true (set_inserting_deleting true (set_root true init_interior.base.version))

parent_node : Ptr → Ptr → KeyTuple → VersionBody → InteriorNode
parent_node left right pivot v = record {
  base = record init_interior.base {
    slices = update init_interior.base.slices 0 pivot.slice;
    lengths = update init_interior.base.lengths 0 pivot.size;
    version = v;
  };
  n_keys = 1;
  children = update (update init_interior.children 0 left) 1 right;
}

new_parent-node :
    (left right : Ptr) (pivot : KeyTuple)
    → new_parent left right pivot ≡ some (parent_node left right pivot parent_version)
unfolding new_parent set_key set_key_slice_at set_key_length_at set_child_at parent_node
    parent_version
new_parent-node left right pivot = refl

-- The child that it picks: keys below the pivot go to the left.
parent_node-pick :
    (left right : Ptr) (pivot key : KeyTuple) (v : VersionBody)
    → (left == 0) ≡ false
    → (right == 0) ≡ false
    → pick_child (parent_node left right pivot v) key
      ≡ some (if goes_left key pivot then left else right)
unfolding pick_child find_index get_child_at parent_node get_key_slice_at get_key_length_at
    yakushima.Key.prefix_compare
parent_node-pick left right pivot key v l r = elim (Bool-cases (goes_left key pivot)) [
  | inl e ↦ simp (e) (simp (l) refl)
  | inr e ↦ simp (e) (simp (r) refl)
]

-- A border node under its new parent, unlocked.
abbrev pub rooted_leaf : Ptr → BorderNode → BorderNode
rooted_leaf ni n = record n { base = on_version released (below_parent ni n.base) }

-- The tree behind `grow_root`.
pub record Rooted (w : World) (left right ni : Ptr) (l r : BorderNode) (pivot : KeyTuple)
    (result : Option World) : Type 0 where
  pub after : World
  pub returns : result ≡ some after
  pub root : after.root ≡ ni
  pub memory : after.memory ≡ w.memory
  pub at_left : after.nodes left ≡ some (border_node (rooted_leaf ni l))
  pub at_right : after.nodes right ≡ some (border_node (rooted_leaf ni r))
  pub others : (p : Ptr) → p ≢ ni → p ≢ left → p ≢ right → after.nodes p ≡ w.nodes p
  pub version : VersionBody
  pub is_root : version.root ≡ true
  pub is_stable : stable version ≡ true
  pub top : InteriorNode
  pub at_top : after.nodes ni ≡ some (interior_node top)
  pub top_version : top.base.version ≡ version
  pub top_parent : top.base.parent ≡ 0
  pub one_key : top.n_keys ≡ 1
  pub top_key : tuple_at top.base 0 ≡ pivot
  pub first_child : top.children 0 ≡ left
  pub second_child : top.children 1 ≡ right
  pub goes_to :
      (key : KeyTuple)
      → Descent after key 1 ni version (if goes_left key pivot then left else right)

-- A member of a node that is there.
pub edit_base-here :
    (w : World) (p : Ptr) (f : BaseNode → BaseNode) {n : Node}
    → w.nodes p ≡ some n
    → edit_base w p f ≡ some (write_node w p (with_base f n))
unfolding edit_base
edit_base-here w p f e = simp (e) refl

module _ (w : World) (left right ni : Ptr) (later : List Ptr) (l r : BorderNode)
    (pivot : KeyTuple) where
  -- The steps of `grow_root`.
  abbrev linked_left : World
  linked_left =
      write_node (record w { fresh = later }) left (with_base (below_parent ni) (border_node l))

  abbrev linked : World
  linked = write_node linked_left right (with_base (below_parent ni) (border_node r))

  abbrev created : World
  created = write_node linked ni (interior_node (parent_node left right pivot parent_version))

  abbrev free_left : World
  free_left = write_node created left (border_node (rooted_leaf ni l))

  abbrev free_both : World
  free_both = write_node free_left right (border_node (rooted_leaf ni r))

  abbrev grown : World
  grown =
      write_node (record free_both { root = ni }) ni
        (interior_node (parent_node left right pivot (released parent_version)))

  module _ (fresh : w.fresh ≡ ni ∷ later) (at_l : w.nodes left ≡ some (border_node l))
      (at_r : w.nodes right ≡ some (border_node r)) (apart : left ≢ right) (new_l : ni ≢ left)
      (new_r : ni ≢ right) where
    right_linked : linked_left.nodes right ≡ some (border_node r)
    right_linked = ground (arith, at_r)

    left_created : created.nodes left ≡ some (with_base (below_parent ni) (border_node l))
    left_created = ground arith

    right_created : free_left.nodes right ≡ some (with_base (below_parent ni) (border_node r))
    right_created = ground arith

    parent_free :
        free_both.nodes ni ≡ some (interior_node (parent_node left right pivot parent_version))
    parent_free = ground arith

    create_interior_parent-created : create_interior_parent w left right pivot ≡ some (ni, created)
    unfolding create_interior_parent
    create_interior_parent-created =
        simp (create_interior_parent, fresh)
          (simp
            (
              new_parent-node left right pivot,
              edit_base-here (record w { fresh = later }) left (below_parent ni) at_l,
            )
            (simp (edit_base-here linked_left right (below_parent ni) right_linked) refl))

    grow_root-returns : grow_root w left right pivot ≡ some grown
    unfolding grow_root version_unlock parent_node
    grow_root-returns =
        simp (grow_root, create_interior_parent-created)
          (simp (edit_base-here created left (on_version released) left_created) (
            simp (edit_base-here free_left right (on_version released) right_created) (
              simp
                (edit_base-here (record free_both { root = ni }) ni (on_version released)
                  parent_free)
                refl)))

    at_left : grown.nodes left ≡ some (border_node (rooted_leaf ni l))
    at_left = ground arith

    at_right : grown.nodes right ≡ some (border_node (rooted_leaf ni r))
    at_right = ground arith

    others : (p : Ptr) → p ≢ ni → p ≢ left → p ≢ right → grown.nodes p ≡ w.nodes p
    others p a b c = ground arith

    module _ (some_left : (left == 0) ≡ false) (some_right : (right == 0) ≡ false)
        (leaf_l : l.base.version.border ≡ true) (leaf_r : r.base.version.border ≡ true)
        (there_l : l.base.version.deleted ≡ false) (there_r : r.base.version.deleted ≡ false) where
      -- A way of one turn to one of the two nodes.
      one_turn :
          (key : KeyTuple) (b : Ptr) (n : BorderNode)
          → pick_child (parent_node left right pivot (released parent_version)) key ≡ some b
          → (b == 0) ≡ false
          → grown.nodes b ≡ some (border_node (rooted_leaf ni n))
          → n.base.version.border ≡ true
          → n.base.version.deleted ≡ false
          → Descent grown key 1 ni (released parent_version) b
      unfolding parent_node parent_version released
      one_turn key b n pick some_b at_b leaf there =
          let facts = released-IsLive (set_root false n.base.version) there in
          let u = (rooted_leaf ni n).base.version in
          turn ni b b (parent_node left right pivot (released parent_version))
            (released parent_version) u 0
            (update_here free_both.nodes ni
              (some (interior_node (parent_node left right pivot (released parent_version)))))
            refl (released-IsLive parent_version refl).0 refl pick some_b
            (arrive b (rooted_leaf ni n) u at_b refl facts.0 (facts.1 ∙ leaf))

      goes_to :
          (key : KeyTuple)
          → Descent grown key 1 ni
              (released parent_version)
              (if goes_left key pivot then left else right)
      goes_to key =
          let pick =
            parent_node-pick left right pivot key (released parent_version) some_left some_right in
          elim (Bool-cases (goes_left key pivot)) [
            | inl e ↦
                let same : (if goes_left key pivot then left else right) ≡ left =
                  ap (λ t. if t then left else right) e in
                subst (Descent grown key 1 ni (released parent_version)) (sym same)
                  (one_turn key left l (pick ∙ ap some same) some_left at_left leaf_l there_l)
            | inr e ↦
                let same : (if goes_left key pivot then left else right) ≡ right =
                  ap (λ t. if t then left else right) e in
                subst (Descent grown key 1 ni (released parent_version)) (sym same)
                  (one_turn key right r (pick ∙ ap some same) some_right at_right leaf_r there_r)
          ]

-- A root that was split into two border nodes, locked or not, gets a new interior node above, which
-- becomes the root of the tree: a reader who starts there comes to the left node with each key that
-- goes to the left of the pivot, and to the right node with each other, in one turn, over nodes that
-- are stable and not deleted. The interior node has the root mark and no parent, and as its only key
-- the pivot, with the two nodes as its children. The two nodes keep their entries, and no other node changes. The three
-- addresses differ, those of the two nodes are not null, and both are marked as border nodes that
-- are not deleted.
pub grow_root-Rooted :
    (w : World) (left right ni : Ptr) (later : List Ptr) (l r : BorderNode) (pivot : KeyTuple)
    → w.fresh ≡ ni ∷ later
    → w.nodes left ≡ some (border_node l)
    → w.nodes right ≡ some (border_node r)
    → left ≢ right
    → ni ≢ left
    → ni ≢ right
    → (left == 0) ≡ false
    → (right == 0) ≡ false
    → l.base.version.border ≡ true
    → r.base.version.border ≡ true
    → l.base.version.deleted ≡ false
    → r.base.version.deleted ≡ false
    → Rooted w left right ni l r pivot (grow_root w left right pivot)
unfolding parent_version released parent_node
grow_root-Rooted w left right ni later l r pivot fresh at_l at_r apart new_l new_r some_left
      some_right leaf_l leaf_r there_l there_r =
    record {
      after = grown w left right ni later l r pivot;
      returns = grow_root-returns w left right ni later l r pivot fresh at_l at_r apart new_l new_r;
      root = refl;
      memory = refl;
      at_left = at_left w left right ni later l r pivot fresh at_l at_r apart new_l new_r;
      at_right = at_right w left right ni later l r pivot fresh at_l at_r apart new_l new_r;
      others = others w left right ni later l r pivot fresh at_l at_r apart new_l new_r;
      version = released parent_version;
      is_root = refl;
      is_stable = refl;
      top = parent_node left right pivot (released parent_version);
      at_top =
          update_here (free_both w left right ni later l r pivot).nodes ni
            (some (interior_node (parent_node left right pivot (released parent_version))));
      top_version = refl;
      top_parent = refl;
      one_key = refl;
      top_key = refl;
      first_child = refl;
      second_child = refl;
      goes_to =
          goes_to w left right ni later l r pivot fresh at_l at_r apart new_l new_r some_left
            some_right leaf_l leaf_r there_l there_r;
    }
