-- ===== src/Tree/Moved.antt =====
-- The way to a border node, when that node has changed.
use yakushima.Common.{Option, update, ℕ, ◌≡◌, ◌≢◌, refl, sym, ◌∙◌, ap, true, some, some_inj, arith}
use yakushima.Key.{KeyTuple}
use yakushima.BaseNode.{Ptr}
use yakushima.Version.{VersionBody}
use yakushima.InteriorNode.{InteriorNode}
use yakushima.BorderNode.{BorderNode}
use yakushima.Tree.{World, border_node, interior_node, version_at, base_of, Node}
use yakushima.Tree.Descent.{Descent, arrive, turn, IsLive}

-- The version of the border node at the end of the way.
pub Descent-end :
    {w : World} {key : KeyTuple} {d : ℕ} {p b : Ptr} {v : VersionBody}
    → Descent w key d p v b
    → (u : VersionBody) × (version_at w b ≡ some u) × IsLive u × (u.border ≡ true)
unfolding version_at
Descent-end (arrive p n v e same l leaf) = (v, simp (e) (ap some same), l, leaf)
Descent-end (turn p c b i v u d e same l inner pick nz rest) = Descent-end rest

no_both : (n : BorderNode) (i : InteriorNode) → some (border_node n) ≢ some (interior_node i)
no_both n i e = absurd (ground arith)

-- Another node at the end of the way does not change the way.
pub Descent-moved :
    {w : World} {w' : World} {key : KeyTuple} {d : ℕ} {p b : Ptr} {v u : VersionBody}
    {n n' : BorderNode}
    → w.nodes b ≡ some (border_node n)
    → w'.nodes b ≡ some (border_node n')
    → ((q : Ptr) → q ≢ b → w'.nodes q ≡ w.nodes q)
    → n'.base.version ≡ u
    → IsLive u
    → u.border ≡ true
    → u.root ≡ n.base.version.root
    → Descent w key d p v b
    → (v' : VersionBody) × Descent w' key d p v' b × (v'.root ≡ v.root)
Descent-moved {u = u} {n = n} {n'} at_b at_b' others same_u live leaf is_root
      (arrive p m v e same l _) =
    let one : some (border_node n) ≡ some (border_node m) = sym at_b ∙ e in
    let version : n.base.version ≡ v = ap (λ x. (base_of x).version) (some_inj one) ∙ same in
    (u, arrive p n' u at_b' same_u live leaf, is_root ∙ ap (λ r. r.root) version)
Descent-moved {w} {n = n} at_b at_b' others same_u live leaf is_root
      (turn p c b i v u d e same l inner pick nz rest) =
    let apart : p ≢ b = λ same_p. no_both n i (sym at_b ∙ ap w.nodes (sym same_p) ∙ e) in
    let (u', below, r) = Descent-moved at_b at_b' others same_u live leaf is_root rest in
    (v, turn p c b i v u' d (others p apart ∙ e) same l inner pick nz below, refl)

pub update_here : (f : Ptr → Option Node) (p : Ptr) (x : Option Node) → update f p x p ≡ x
update_here f p x = ground arith

pub update_other :
    (f : Ptr → Option Node) (p : Ptr) (x : Option Node) (q : Ptr) → q ≢ p → update f p x q ≡ f q
update_other f p x q apart = ground arith
