-- ===== src/Tree/Descent.antt =====
-- The descent in a tree that nobody changes.
use yakushima.Common.{
  ℕ, zero, suc, ◌+◌, ◌≤◌, ◌≡◌, refl, ap, true, false, Option, some, ◌==◌, ==_refl, arith,
}
use yakushima.Key.{KeyTuple}
use yakushima.BaseNode.{Ptr}
use yakushima.Version.{VersionBody, stable, equal, image}
use yakushima.InteriorNode.{InteriorNode, pick_child}
use yakushima.BorderNode.{BorderNode}
use yakushima.Tree.{
  World, History, border_node, interior_node, border_at, interior_at, version_at, stable_version_at,
  Find, find_at, find_done, find_child_at, find_step, find_from, find_border, cast_border,
}

-- Nobody changes the tree.
abbrev pub still : World → History
still w t = w

-- A version that readers accept, of a node that is in the tree.
pub record IsLive (v : VersionBody) : Type 0 where
  pub quiet : stable v ≡ true
  pub kept : v.deleted ≡ false

-- The nodes that a key passes, in a number of turns, from a node with its version to a border node.
pub data Descent (w : World) (key : KeyTuple) : ℕ → Ptr → VersionBody → Ptr → Type 0 where
  arrive :
      (p : Ptr) (n : BorderNode) (v : VersionBody)
      → w.nodes p ≡ some (border_node n)
      → n.base.version ≡ v
      → IsLive v
      → v.border ≡ true
      → Descent w key 0 p v p
  turn :
      (p c b : Ptr) (i : InteriorNode) (v u : VersionBody) (d : ℕ)
      → w.nodes p ≡ some (interior_node i)
      → i.base.version ≡ v
      → IsLive v
      → v.border ≡ false
      → pick_child i key ≡ some c
      → (c == 0) ≡ false
      → Descent w key d c u b
      → Descent w key (suc d) p v b

pub equal_refl : (v : VersionBody) → equal v v ≡ true
unfolding equal
equal_refl v = ==_refl (image v)

pub stable_version_at-still :
    (left : ℕ) (w : World) (p : Ptr) {v : VersionBody} (t : ℕ)
    → version_at w p ≡ some v
    → stable v ≡ true
    → stable_version_at (suc left) (still w) p t ≡ some (v, t + 1)
unfolding stable_version_at
stable_version_at-still left w p t e s = rw (stable_version_at, e, s) refl

-- The version that a path starts with is that of its first node.
pub Descent-start :
    {w : World} {key : KeyTuple} {d : ℕ} {p b : Ptr} {v : VersionBody}
    → Descent w key d p v b
    → (version_at w p ≡ some v) × IsLive v
unfolding version_at
Descent-start (arrive p n v e same l b) = (rw e (ap some same), l)
Descent-start (turn p c b i v u d e same l nb pick nz rest) = (rw e (ap some same), l)

-- Where a descent ends: at the border node, with its version.
pub record Arrived (w : World) (b : Ptr) (result : Option (Find × ℕ)) : Type 0 where
  pub version : VersionBody
  pub time : ℕ
  pub returns : result ≡ some (find_done b version, time)
  pub here : version_at w b ≡ some version
  pub live : IsLive version

pub border_at-here :
    (w : World) (p : Ptr) {n : BorderNode}
    → w.nodes p ≡ some (border_node n)
    → border_at w p ≡ some n
unfolding border_at
border_at-here w p e = rw e refl

pub interior_at-here :
    (w : World) (p : Ptr) {i : InteriorNode}
    → w.nodes p ≡ some (interior_node i)
    → interior_at w p ≡ some i
unfolding interior_at
interior_at-here w p e = rw e refl

cast_border-here :
    (w : World) (p : Ptr) {n : BorderNode} → border_at w p ≡ some n → cast_border w p ≡ p
unfolding cast_border
cast_border-here w p e = rw (cast_border, e) refl

find_step-border :
    (w : World) (key : KeyTuple) (fuel t : ℕ) (root p : Ptr) (v : VersionBody) {n : BorderNode}
    → v.border ≡ true
    → border_at w p ≡ some n
    → find_step fuel (still w) root key (find_at p v) t ≡ some (find_done p v, t)
unfolding find_step
find_step-border w key fuel t root p v leaf e = simp (leaf, cast_border-here w p e) refl

find_step-turn :
    (w : World) (key : KeyTuple) (fuel t : ℕ) (root p c : Ptr) (v u : VersionBody)
    {i : InteriorNode}
    → v.border ≡ false
    → interior_at w p ≡ some i
    → pick_child i key ≡ some c
    → (c == 0) ≡ false
    → version_at w p ≡ some v
    → IsLive v
    → version_at w c ≡ some u
    → IsLive u
    → find_step (suc fuel) (still w) root key (find_at p v) t ≡ some (find_at c u, t + 1 + 1 + 1)
unfolding find_step find_child_at
find_step-turn w key fuel t root p c v u inner e pick nz pv pl cv cl =
    simp
      (
        inner,
        e,
        pick,
        nz,
        stable_version_at-still fuel w c (t + 1) cv cl.quiet,
        stable_version_at-still fuel w p (t + 1 + 1) pv pl.quiet,
        equal_refl v,
        cl.kept,
      )
      refl

find_from-Arrived :
    {w : World} {key : KeyTuple} {d : ℕ} {p b : Ptr} {v : VersionBody} (fuel : ℕ) (root : Ptr)
    (t : ℕ)
    → d ≤ fuel
    → Descent w key d p v b
    → Arrived w b (find_from (suc (suc fuel)) (still w) root key (find_at p v) t)
unfolding find_from version_at
find_from-Arrived {w} {key} fuel root t enough (arrive p n v e same l leaf) =
    let step = find_step-border w key (suc (suc fuel)) t root p v leaf (border_at-here w p e) in
    record {
      version = v;
      time = t;
      returns = simp (find_from, step) refl;
      here = rw e (ap some same);
      live = l;
    }
find_from-Arrived zero root t enough (turn p c b i v u d e same l inner pick nz rest) =
    absurd (omega arith)
find_from-Arrived {w} {key} (suc fuel) root t enough
      (turn p c b i v u d e same l inner pick nz rest) =
    let child = Descent-start rest in
    let this : version_at w p ≡ some v = rw e (ap some same) in
    let step =
      find_step-turn w key (suc (suc fuel)) t root p c v u inner (interior_at-here w p e) pick nz
        this l child.0 child.1 in
    let below = find_from-Arrived fuel root (t + 1 + 1 + 1) (omega arith) rest in
    record {
      version = below.version;
      time = below.time;
      returns = simp (find_from, step) below.returns;
      here = below.here;
      live = below.live;
    }

-- In a tree that nobody changes, `find_border` ends at the border node of the path of the key, with
-- the version of that node, if its root is marked as a root: there is fuel for a round at each
-- node, and two more.
pub find_border-Arrived :
    {w : World} {key : KeyTuple} {d : ℕ} {root b : Ptr} {v : VersionBody} (fuel t : ℕ)
    → d ≤ fuel
    → Descent w key d root v b
    → v.root ≡ true
    → Arrived w b (find_border (suc (suc (suc fuel))) (still w) root key t)
unfolding find_border find_from find_step
find_border-Arrived {w} {key} {root} {v} fuel t enough path is_root =
    let at_start = Descent-start path in
    let wait = stable_version_at-still (suc (suc fuel)) w root t at_start.0 at_start.1.quiet in
    let below = find_from-Arrived fuel root (t + 1) enough path in
    record {
      version = below.version;
      time = below.time;
      returns = simp (find_from, wait, is_root, at_start.1.kept) below.returns;
      here = below.here;
      live = below.live;
    }
