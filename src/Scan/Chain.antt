-- ===== src/Scan/Chain.antt =====
-- A scan of a tree that nobody changes and that has one layer, along its border nodes.
use mathlib.Core.List.{append-nil, append_assoc}
use yakushima.Common.{
  ℕ, zero, suc, ◌+◌, ◌≤◌, ◌<◌, ◌≡◌, refl, sym, ◌∙◌, ap, true, false, ◌&&◌, ◌||◌, List, [], ◌∷◌,
  ◌++◌, some, ◌==◌, arith, Bool-cases, inl, inr, some_inj,
}
use yakushima.Scheme.{Status}
use yakushima.BaseNode.{Ptr}
use yakushima.Version.{VersionBody}
use yakushima.BorderNode.{BorderNode}
use yakushima.Tree.{World, version_at}
use yakushima.Tree.Descent.{still, IsLive, Descent, find_border-Arrived}
use yakushima.Scan.{Out, Query, is_exclusive}
use yakushima.Scan.Entries.{Entry, IsSorted, in_left_of, in_right_of, wanted}
use yakushima.Scan.Border.{ScanBelow}
use yakushima.Scan.Node.{QuietNode}
use yakushima.Scan.NodeLoop.{over, goes_on, scan_border-last, scan_border-next}
use yakushima.Scan.Layers.{
  at_border, tree_find, tree_border, tree_from, scan, scan_key, same_bytes, scan_layer, clear,
  from_top,
}

-- Border nodes with values that follow each other, with all their entries.
pub data Chain (w : World) : ℕ → Ptr → VersionBody → List Entry → Type 0 where
  last :
      (b : Ptr) (n : BorderNode) (v : VersionBody) (es : List Entry)
      → QuietNode w b v n es
      → n.next ≡ 0
      → Chain w 1 b v es
  linked :
      (m : ℕ) (b : Ptr) (n : BorderNode) (v u : VersionBody) (es gs : List Entry)
      → QuietNode w b v n es
      → (n.next == 0) ≡ false
      → Chain w m n.next u gs
      → Chain w (suc m) b v (es ++ gs)

Chain-start :
    {w : World} {m : ℕ} {b : Ptr} {v : VersionBody} {es : List Entry}
    → Chain w m b v es
    → (version_at w b ≡ some v) × IsLive v
Chain-start (last b n v es h e) = (h.version, h.live)
Chain-start (linked m b n v u es gs h e rest) = (h.version, h.live)

wanted-append : (q : Query) (es gs : List Entry) → wanted q (es ++ gs) ≡ wanted q es ++ wanted q gs
unfolding wanted
wanted-append q [] gs = refl
wanted-append q (e ∷ es) gs =
    let rest = wanted-append q es gs in
    elim (Bool-cases (in_left_of q e && in_right_of q e)) [
      | inl x ↦ simp (x, rest) refl
      | inr x ↦ simp (x, rest) refl
    ]

IsSorted-append : (es gs : List Entry) → IsSorted (es ++ gs) → IsSorted gs
IsSorted-append [] gs s = s
IsSorted-append (e ∷ es) gs s = IsSorted-append es gs s.1

module _ (below : ScanBelow) (fuel : ℕ) {w : World} (q : Query) (whole : q.max_size ≡ 0) where
  tree_from-Chain :
      (rounds : ℕ) {m : ℕ} {b : Ptr} {v : VersionBody} {es : List Entry} (o : Out) (t : ℕ)
      → m < rounds
      → Chain w m b v es
      → IsSorted es
      → (o' : Out) × (t' : ℕ) × (tree_from rounds below (suc fuel) (still w) q (at_border b v o) t
          ≡ some (Status.ok, o', t'))
        × (o'.tuple_list ≡ o.tuple_list ++ wanted q es)
  unfolding tree_from tree_border
  tree_from-Chain zero o t enough c sorted = absurd (omega arith)
  tree_from-Chain (suc zero) o t enough (last b n v es h e) sorted = absurd (omega arith)
  tree_from-Chain (suc (suc rounds)) o t enough (last b n v es h e) sorted =
      let (o', t', r, ts) = scan_border-last below fuel h q whole o t e in
      (o', t', simp (tree_from, h.live.kept, r) refl, ts)
  tree_from-Chain (suc zero) o t enough (linked m b n v u es gs h e rest) sorted =
      absurd (omega arith)
  tree_from-Chain (suc (suc rounds)) o t enough (linked m b n v u es gs h e rest) sorted =
      let next = Chain-start rest in
      elim (scan_border-next below fuel h q whole o t u e next.0 next.1) [
        | over o' t' r ts out ↦ (
          o',
          t',
          simp (tree_from, h.live.kept, r) refl,
          ts
              ∙ sym (
                  ap (λ z. o.tuple_list ++ z)
                    (wanted-append q es gs
                      ∙ ap (λ z. wanted q es ++ z) (out gs sorted)
                      ∙ append-nil (wanted q es))),
        )
        | goes_on o' t' r ts ↦
            let (o2, t2, r2, ts2) =
              tree_from-Chain (suc rounds) o' t' (omega arith) rest
                (IsSorted-append es gs sorted) in
            (
              o2,
              t2,
              simp (tree_from, h.live.kept, r) r2,
              ts2
                  ∙ ap (λ z. z ++ wanted q gs) ts
                  ∙ append_assoc o.tuple_list (wanted q es) (wanted q gs)
                  ∙ ap (λ z. o.tuple_list ++ z) (sym (wanted-append q es gs)),
            )
      ]

-- On a tree of one layer that nobody changes, a scan without a limit and with ends that it accepts
-- returns `OK`. Of the entries of the border node to which `find_border` sends the left key, and of
-- the border nodes that follow it, it hands out exactly those with keys in the range, in order, across
-- the links of the nodes and with nothing twice. It starts at that node also where the left end is
-- `INF`, so that it does not hand out the entries of the nodes in front if the left key is not the
-- smallest one then. The entries of these nodes are values in the order of their keys. Fuel for the
-- turns of the descent and for the border nodes, and three more, is enough.
pub scan-wanted :
    (layers fuel : ℕ) {w : World} {d m : ℕ} {b : Ptr} {v u : VersionBody} {es : List Entry}
    (q : Query) (o : Out) (t : ℕ)
    → q.max_size ≡ 0
    → (same_bytes q.l_key q.r_key && (is_exclusive q.l_end || is_exclusive q.r_end)) ≡ false
    → (w.root == 0) ≡ false
    → Descent w (scan_key q.l_key) d w.root v b
    → v.root ≡ true
    → Chain w m b u es
    → IsSorted es
    → d ≤ fuel
    → m ≤ fuel
    → (o' : Out) × (t' : ℕ) × (scan layers (suc (suc (suc fuel))) (still w) q o t
        ≡ some (Status.ok, o', t'))
      × (o'.tuple_list ≡ wanted (from_top q) es)
unfolding scan tree_from tree_find
scan-wanted layers fuel {w} {u = u} q o t whole usable there path is_root c sorted deep long =
    let a = find_border-Arrived fuel (t + 1) deep path is_root in
    let same : a.version ≡ u = some_inj (sym a.here ∙ (Chain-start c).0) in
    let (o', t', r, ts) =
      tree_from-Chain (scan_layer layers (suc (suc (suc fuel))) (still w)) (suc (suc fuel))
        (from_top q) whole (suc (suc fuel)) (clear o) a.time (omega arith) c sorted in
    (o', t', simp (tree_from, usable, there, a.returns, same) r, ts)
