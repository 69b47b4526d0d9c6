-- ===== src/Tree/Raised.antt =====
-- An interior node that loses its last but one child gives its place to the other one.
use yakushima.Common.{
  ℕ, zero, suc, ◌+◌, ◌≡◌, ◌≢◌, refl, sym, subst, ◌∙◌, ap, true, ◌==◌, [], ◌∷◌, Option, some,
  some_inj, ◌>>=◌, if◌then◌else◌, arith, Bool-cases, inl, inr,
}
use yakushima.Key.{KeyTuple}
use yakushima.BaseNode.{Ptr, BaseNode, key_at}
use yakushima.Version.{VersionBody, set_root, released, stable}
use yakushima.InteriorNode.{InteriorNode, get_child_at, find_index, pick_child, goes_left}
use yakushima.Tree.{World, Node, border_node, interior_node, base_of, version_at}
use yakushima.Tree.Descent.{IsLive, Descent, arrive, turn, Descent-start}
use yakushima.Tree.Rooted.{edit_base-here}
use yakushima.Tree.Nodes.{with_base, write_node, set_parent, on_version, version_unlock}
use yakushima.Tree.Unlink.{raise_root, mark_gone, pull_up}

-- A node with another parent and another version.
abbrev pub remarked : Ptr → VersionBody → Node → Node
remarked x u n = with_base (λ b. record b { parent = x; version = u }) n

abbrev remarked_interior : Ptr → VersionBody → InteriorNode → InteriorNode
remarked_interior x u n = record n { base = record n.base { parent = x; version = u } }

find_index-remarked :
    (left : ℕ) (x : Ptr) (u : VersionBody) (n : InteriorNode) (key : KeyTuple) (i : ℕ)
    → find_index left (remarked_interior x u n) key i ≡ find_index left n key i
unfolding find_index yakushima.BaseNode.get_key_slice_at yakushima.BaseNode.get_key_length_at
find_index-remarked zero x u n key i = refl
find_index-remarked (suc left) x u n key i =
    ap {A = Option ℕ} {B = Option ℕ}
      (λ rest. do pivot ← key_at n.base i; if goes_left key pivot then some i else rest)
      (find_index-remarked left x u n key (i + 1))

pick_child-remarked :
    (x : Ptr) (u : VersionBody) (n : InteriorNode) (key : KeyTuple)
    → pick_child (remarked_interior x u n) key ≡ pick_child n key
unfolding pick_child get_child_at
pick_child-remarked x u n key = simp (find_index-remarked n.n_keys x u n key 0) refl

-- A tree in which the nodes that readers accept keep their kind, their keys and their children.
abbrev pub Similar : World → World → Type 0
Similar w w' =
    (q : Ptr) (n : Node)
    → w.nodes q ≡ some n
    → IsLive (base_of n).version
    → (x : Ptr) × (u : VersionBody) × (w'.nodes q ≡ some (remarked x u n))
      × IsLive u
      × (u.border ≡ (base_of n).version.border)

pub Descent-Similar :
    {w w' : World} {key : KeyTuple} {d : ℕ} {p b : Ptr} {v : VersionBody}
    → Similar w w'
    → Descent w key d p v b
    → (v' : VersionBody) × Descent w' key d p v' b
Descent-Similar similar (arrive p n v e same l leaf) =
    let (x, u, e', live, kind) = similar p (border_node n) e (subst IsLive (sym same) l) in
    (
      u,
      arrive p (record n { base = record n.base { parent = x; version = u } }) u e' refl live
          (kind ∙ ap (λ a. a.border) same ∙ leaf),
    )
Descent-Similar similar (turn p c b i v u d e same l inner pick nz rest) =
    let (x, t, e', live, kind) = similar p (interior_node i) e (subst IsLive (sym same) l) in
    let (u', way) = Descent-Similar similar rest in
    (
      t,
      turn p c b (remarked_interior x t i) t u' d e' refl live
          (kind ∙ ap (λ a. a.border) same ∙ inner) (pick_child-remarked x t i _ ∙ pick) nz way,
    )

remarked_same : (n : Node) → remarked (base_of n).parent (base_of n).version n ≡ n
remarked_same (border_node n) = refl
remarked_same (interior_node n) = refl

base_of-with_base : (f : BaseNode → BaseNode) (n : Node) → base_of (with_base f n) ≡ f (base_of n)
base_of-with_base f (border_node n) = refl
base_of-with_base f (interior_node n) = refl

-- The other child, as the root of the tree.
abbrev pub raised_node : Node → Node
raised_node nd = with_base (set_parent 0) (with_base (on_version (set_root true)) nd)

raised_node-remarked :
    (nd : Node) → raised_node nd ≡ remarked 0 (set_root true (base_of nd).version) nd
raised_node-remarked (border_node n) = refl
raised_node-remarked (interior_node n) = refl

version_at-node :
    (w : World) (p : Ptr) {n : Node}
    → w.nodes p ≡ some n
    → version_at w p ≡ some (base_of n).version
unfolding version_at
version_at-node w p e = simp (e) refl

module _ (w : World) (begin_epoch : ℕ) (p : Ptr) (n : InteriorNode) (i : ℕ) (c : Ptr)
    (nd : Node) where
  abbrev gone : World
  gone = write_node w p (interior_node (mark_gone n))

  abbrev marked : World
  marked = write_node gone c (with_base (on_version (set_root true)) nd)

  abbrev raised : World
  raised = write_node (record marked { root = c }) c (raised_node nd)

  abbrev pulled : World
  pulled = write_node raised p (with_base (on_version released) (interior_node (mark_gone n)))

  module _ (inserting : n.base.version.inserting_deleting ≡ true) (no_parent : n.base.parent ≡ 0)
      (sibling : get_child_at n (if i == 0 then 1 else 0) ≡ some c)
      (at_p : w.nodes p ≡ some (interior_node n)) (at_c : w.nodes c ≡ some nd) (apart : c ≢ p) where
    c_gone : gone.nodes c ≡ some nd
    c_gone = ground (arith, at_c)

    c_marked : marked.nodes c ≡ some (with_base (on_version (set_root true)) nd)
    c_marked = ground arith

    p_raised : raised.nodes p ≡ some (interior_node (mark_gone n))
    p_raised = ground arith

    raise_root-raised : raise_root gone c ≡ some raised
    unfolding raise_root
    raise_root-raised =
        simp (raise_root, edit_base-here gone c (on_version (set_root true)) c_gone)
          (simp (edit_base-here (record marked { root = c }) c (set_parent 0) c_marked) refl)

    pull_up-pulled : pull_up w begin_epoch p n i ≡ some (pulled, (begin_epoch, p) ∷ [])
    unfolding pull_up version_unlock
    pull_up-pulled =
        let none_above : (n.base.parent == 0) ≡ true = ground (arith, no_parent) in
        simp (pull_up, sibling, none_above)
          (simp (raise_root-raised)
            (simp (edit_base-here raised p (on_version released) p_raised) refl))

    others : (q : Ptr) → q ≢ p → q ≢ c → pulled.nodes q ≡ w.nodes q
    others q a b = ground arith

    at_raised : pulled.nodes c ≡ some (raised_node nd)
    at_raised = ground arith

    not_live : (q : Ptr) (m : Node) → w.nodes q ≡ some m → IsLive (base_of m).version → q ≢ p
    not_live q m e live same =
        let one : interior_node n ≡ m = some_inj (sym at_p ∙ ap w.nodes (sym same) ∙ e) in
        let quiet : stable n.base.version ≡ true =
          ap (λ x. stable (base_of x).version) one ∙ live.quiet in
        absurd (ground (arith, inserting, quiet))

    set_root-IsLive : (v : VersionBody) → IsLive v → IsLive (set_root true v)
    set_root-IsLive v live = record { quiet = ground (arith, live.quiet); kept = live.kept }

    similar : Similar w pulled
    similar q m e live = elim (Bool-cases (q == c)) [
      | inl here ↦
          let same : q ≡ c = ground arith in
          let one : nd ≡ m = some_inj (sym at_c ∙ ap w.nodes (sym same) ∙ e) in
          (
            0,
            set_root true (base_of m).version,
            ap pulled.nodes same
                ∙ at_raised
                ∙ ap some (
                    raised_node-remarked nd
                    ∙ ap (λ x. remarked 0 (set_root true (base_of x).version) x) one),
            set_root-IsLive (base_of m).version live,
            refl,
          )
      | inr there ↦
          let away : q ≢ c = ground arith in
          let off : q ≢ p = not_live q m e live in
          (
            (base_of m).parent,
            (base_of m).version,
            others q off away ∙ e ∙ ap some (sym (remarked_same m)),
            live,
            refl,
          )
    ]

    way_to :
        {key : KeyTuple} {d : ℕ} {b : Ptr} {v : VersionBody}
        → Descent w key d c v b
        → (v' : VersionBody) × Descent pulled key d c v' b × (v'.root ≡ true)
    way_to way =
        let (v', way') = Descent-Similar similar way in
        let first : some (base_of (raised_node nd)).version ≡ some v' =
          sym (version_at-node pulled c at_raised) ∙ (Descent-start way').0 in
        let root : (base_of (raised_node nd)).version.root ≡ true =
          ap (λ b. b.version.root)
            (base_of-with_base (set_parent 0) (with_base (on_version (set_root true)) nd)
              ∙ ap (set_parent 0) (base_of-with_base (on_version (set_root true)) nd)) in
        (v', way', ap (λ a. a.root) (sym (some_inj first)) ∙ root)

-- `interior_node::delete_of` for a child of a node without a parent that has one key, at the point where
-- the child is found: the other child becomes the root of the tree and has the mark of a root, the
-- node is retired with the epoch of the session, and no third node changes. Each way of a reader from
-- that other child to a border node in the old tree is still there, from the new root, with as many
-- turns. The node is marked for the deletion, and is not its own child.
pub pull_up-Descent :
    (w : World) (begin_epoch : ℕ) (p : Ptr) (n : InteriorNode) (i : ℕ) (c : Ptr) (nd : Node)
    → n.base.version.inserting_deleting ≡ true
    → n.base.parent ≡ 0
    → get_child_at n (if i == 0 then 1 else 0) ≡ some c
    → w.nodes p ≡ some (interior_node n)
    → w.nodes c ≡ some nd
    → c ≢ p
    → (w' : World) × (pull_up w begin_epoch p n i ≡ some (w', (begin_epoch, p) ∷ []))
      × (w'.root ≡ c)
      × ((q : Ptr) → q ≢ p → q ≢ c → w'.nodes q ≡ w.nodes q)
      × ((key : KeyTuple) (d : ℕ) (b : Ptr) (v : VersionBody)
          → Descent w key d c v b
          → (v' : VersionBody) × Descent w' key d c v' b × (v'.root ≡ true))
pull_up-Descent w begin_epoch p n i c nd inserting no_parent sibling at_p at_c apart = (
  pulled w begin_epoch p n i c nd,
  pull_up-pulled w begin_epoch p n i c nd inserting no_parent sibling at_p at_c apart,
  refl,
  others w begin_epoch p n i c nd inserting no_parent sibling at_p at_c apart,
  λ key d b v way. way_to w begin_epoch p n i c nd inserting no_parent sibling at_p at_c apart way,
)
