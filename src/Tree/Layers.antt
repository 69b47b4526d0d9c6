-- ===== src/Tree/Layers.antt =====
-- What a tree stores for a key, layer by layer, and the steps of `get` in a layer.
use Prim.Native.Nat.{Ordering}
use yakushima.Common.{
  ℕ, suc, ◌+◌, ◌≤◌, ◌<◌, ◌≡◌, refl, sym, ap, ◌∙◌, true, false, Option, none, some, ◌>>=◌, ==_refl,
  arith, List, length, lt→ltb, leb, some_inj, subst,
}
use yakushima.Scheme.{Status}
use yakushima.Key.{Bytes, KeyTuple, prepare, remove_prefix, key_length, key_compare}
use yakushima.BaseNode.{Ptr, get_key_length_at}
use yakushima.Version.{VersionBody, stable}
use yakushima.Value.{Memory, get_body, get_len}
use yakushima.LinkOrValue.{get_value, get_next_layer}
use yakushima.InteriorNode.Routing.{tuple_at}
use yakushima.Permutation.Slots.{Slot}
use yakushima.BorderNode.{BorderNode, get_lv_at, search}
use yakushima.BorderNode.Entries.{Holds, Sorted}
use yakushima.BorderNode.Search.{lookup, search-lookup, lookup-found}
use yakushima.BorderNode.Insertion.{prepare-WellFormed}
use yakushima.Tree.{World, border_node, border_at, version_at, lv_of_at, lv_from}
use yakushima.Tree.Descent.{
  still, IsLive, Descent, find_border-Arrived, stable_version_at-still, border_at-here, equal_refl,
}
use yakushima.Tree.Moved.{Descent-end}
use yakushima.Tree.Get.{
  Found, Get, get_find_border, get_fetch_lv, get_done, get_step, get_at_slot, get_value_of,
  get_below, is_wrong, get_checked,
}

-- The border node of a layer that a key is sent to, with its entries in order.
pub record Layer (w : World) (root : Ptr) (key : Bytes) (most : ℕ) : Type 0 where
  pub turns : ℕ
  pub few : turns ≤ most
  pub border : Ptr
  pub version : VersionBody
  pub path : Descent w (prepare key) turns root version border
  pub is_root : version.root ≡ true
  pub node : BorderNode
  pub slots : List ℕ
  pub here : w.nodes border ≡ some (border_node node)
  pub holds : Holds node slots
  pub sorted : Sorted (tuple_at node.base) slots

module _ {w : World} {root : Ptr} {key : Bytes} {most : ℕ} (l : Layer w root key most) where
  pub node_version : version_at w l.border ≡ some l.node.base.version
  unfolding version_at
  node_version = simp (l.here) refl

  -- Readers accept the version of the border node.
  pub node-IsLive : IsLive l.node.base.version × (l.node.base.version.border ≡ true)
  node-IsLive =
      let (u, e, live, leaf) = Descent-end l.path in
      let same : u ≡ l.node.base.version = some_inj (sym e ∙ node_version) in
      (subst IsLive same live, ap (λ v. v.border) (sym same) ∙ leaf)

-- What the tree under the root of a layer has for a key, in so many layers: nothing, or a word.
pub data Stores (w : World) (most : ℕ) : ℕ → Ptr → Bytes → Option ℕ → Type 0 where
  absent :
      (root : Ptr) (key : Bytes) (l : Layer w root key most)
      → lookup (tuple_at l.node.base) (prepare key) l.slots ≡ none
      → Stores w most 0 root key none
  ends :
      (root : Ptr) (key : Bytes) (l : Layer w root key most) (q : ℕ)
      → lookup (tuple_at l.node.base) (prepare key) l.slots ≡ some q
      → length key ≤ 8
      → Stores w most 0 root key (some (l.node.lv q))
  goes_on :
      (root : Ptr) (key : Bytes) (l : Layer w root key most) (q layers : ℕ) (o : Option ℕ)
      → lookup (tuple_at l.node.base) (prepare key) l.slots ≡ some q
      → 8 < length key
      → Stores w most layers (get_next_layer (l.node.lv q)) (remove_prefix 8 key) o
      → Stores w most (suc layers) root key o

-- What `get` is to return for it.
abbrev pub answer : Memory → Option ℕ → Option Found
answer m none = some (record { status = Status.warn_not_exist; out = none })
answer m (some word) = do
  body ← get_body m (get_value word)
  len ← get_len m (get_value word)
  some (record { status = Status.ok; out = some (body, len) })

pub key_compare-size : (a b : KeyTuple) → key_compare a b ≡ Ordering.eq → a.size ≡ b.size
unfolding key_compare
key_compare-size a b e = ground arith

-- The version that is read behind the search, and what the search has found.
pub lv_of_at-stable :
    (w : World) (key : KeyTuple) (b : Ptr) {n : BorderNode} {v : VersionBody} {slot : Option ℕ}
    (fuel t : ℕ)
    → border_at w b ≡ some n
    → version_at w b ≡ some v
    → stable v ≡ true
    → search n key ≡ some slot
    → lv_of_at (suc (suc fuel)) (still w) b key t ≡ some (slot, v, t + 1 + 1 + 1)
unfolding lv_of_at lv_from
lv_of_at-stable w key b {v = v} fuel t here at_b quiet found =
    simp (lv_from, here, found, stable_version_at-still (suc fuel) w b t at_b quiet)
      (simp (stable_version_at-still fuel w b (t + 1 + 1) at_b quiet) (simp (equal_refl v) refl))

pub lv_of_at-still :
    (w : World) (key : KeyTuple) (b : Ptr) {n : BorderNode} {v : VersionBody} {slot : Option ℕ}
    (fuel t : ℕ)
    → border_at w b ≡ some n
    → version_at w b ≡ some v
    → IsLive v
    → search n key ≡ some slot
    → lv_of_at (suc (suc fuel)) (still w) b key t ≡ some (slot, v, t + 1 + 1 + 1)
lv_of_at-still w key b fuel t here at_b live found =
    lv_of_at-stable w key b fuel t here at_b live.quiet found

pub is_wrong_self : (v : VersionBody) → IsLive v → is_wrong v v ≡ false
is_wrong_self v live = ground (arith, live.kept)

get_checked_self :
    (v : VersionBody) (border : Ptr) (key : Bytes) (next : Get)
    → IsLive v
    → get_checked v v v border key next ≡ next
get_checked_self v border key next live = simp (is_wrong_self v live, ==_refl v.vinsert_delete) refl

-- The value that an answer reads.
answer-reads :
    (x y : Option ℕ) {f : Found}
    → (do body ← x; len ← y; some (record { status = Status.ok; out = some (body, len) })) ≡ some f
    → (body : ℕ) × (len : ℕ) × (x ≡ some body)
      × (y ≡ some len)
      × (f ≡ record { status = Status.ok; out = some (body, len) })
answer-reads none y e = absurd (ground arith)
answer-reads (some body) none e = absurd (ground arith)
answer-reads (some body) (some len) e = (body, len, refl, refl, sym (some_inj e))

module _ (w : World) (most : ℕ) {root : Ptr} {key : Bytes} (l : Layer w root key most) where
  -- The descent of `get` in a layer.
  pub find_step-Layer :
      (fuel t : ℕ) (whole : Bytes)
      → most ≤ fuel
      → (v : VersionBody) × (t' : ℕ) × (get_step
            (suc (suc (suc fuel)))
            (still w)
            whole
            (get_find_border root key)
            t
          ≡ some (get_fetch_lv l.border v key, t'))
        × (version_at w l.border ≡ some v)
        × IsLive v
  unfolding get_step
  find_step-Layer fuel t whole enough =
      let a = find_border-Arrived fuel t (omega (arith, l.few)) l.path l.is_root in
      (a.version, a.time, simp (a.returns) refl, a.here, a.live)

  pub found-Layer :
      {slot : Option ℕ}
      → lookup (tuple_at l.node.base) (prepare key) l.slots ≡ slot
      → search l.node (prepare key) ≡ some slot
  found-Layer e = search-lookup (prepare key) l.holds l.sorted (prepare-WellFormed key) ∙ ap some e

  module _ (fuel t : ℕ) (whole : Bytes) (v : VersionBody) (at_b : version_at w l.border ≡ some v)
      (live : IsLive v) where
    pub fetch_step-absent :
        lookup (tuple_at l.node.base) (prepare key) l.slots ≡ none
        → get_step (suc (suc fuel)) (still w) whole (get_fetch_lv l.border v key) t
          ≡ some (get_done (record { status = Status.warn_not_exist; out = none }), t + 1 + 1 + 1)
    unfolding get_step
    fetch_step-absent e =
        simp
          (
            lv_of_at-still w (prepare key) l.border fuel t (border_at-here w l.border l.here) at_b
                live (found-Layer e),
            is_wrong_self v live,
          )
          refl

    module _ (q : ℕ) (e : lookup (tuple_at l.node.base) (prepare key) l.slots ≡ some q) where
      fits : q < 15
      fits =
          (lookup-found Slot (tuple_at l.node.base) (prepare key) l.slots l.holds.order.small e).0

      size : l.node.base.lengths q ≡ key_length key
      size = sym (
          key_compare-size (prepare key) (tuple_at l.node.base q)
            (lookup-found Slot (tuple_at l.node.base) (prepare key) l.slots l.holds.order.small
              e).1)

      pub fetch_step-slot :
          get_step (suc (suc fuel)) (still w) whole (get_fetch_lv l.border v key) t
          ≡ get_at_slot (suc (suc fuel)) (still w) l.border v v key q (t + 1 + 1 + 1)
      unfolding get_step
      fetch_step-slot =
          simp
            (
              lv_of_at-still w (prepare key) l.border fuel t (border_at-here w l.border l.here) at_b
                  live (found-Layer e),
              is_wrong_self v live,
            )
            refl

      length_read : get_key_length_at l.node.base q ≡ some (key_length key)
      unfolding get_key_length_at
      length_read = rw (lt→ltb q 15 fits) (ap some size)

      word_read : get_lv_at l.node q ≡ some (l.node.lv q)
      unfolding get_lv_at
      word_read = rw (lt→ltb q 15 fits) refl

      pub value_step :
          {f : Found}
          → length key ≤ 8
          → answer w.memory (some (l.node.lv q)) ≡ some f
          → get_at_slot (suc (suc fuel)) (still w) l.border v v key q t
            ≡ some (get_done f, t + 1 + 1)
      unfolding get_at_slot get_value_of
      value_step {f} short a =
          let small : leb (key_length key) 8 ≡ true = ground arith in
          let (body, len, b_e, l_e, f_e) =
            answer-reads (get_body w.memory (get_value (l.node.lv q)))
              (get_len w.memory (get_value (l.node.lv q))) a in
          simp
            (
              border_at-here w l.border l.here,
              length_read,
              word_read,
              small,
              b_e,
              stable_version_at-still (suc fuel) w l.border (t + 1) at_b live.quiet,
              l_e,
              get_checked_self v l.border key
                  (get_done (record { status = Status.ok; out = some (body, len) })) live,
            )
            (ap (λ g. some (get_done g, t + 1 + 1)) (sym f_e))

      pub below_step :
          8 < length key
          → get_at_slot (suc (suc fuel)) (still w) l.border v v key q t
            ≡ some (get_find_border (get_next_layer (l.node.lv q)) (remove_prefix 8 key), t + 1 + 1)
      unfolding get_at_slot get_below
      below_step long =
          let large : leb (key_length key) 8 ≡ false = ground arith in
          simp
            (
              border_at-here w l.border l.here,
              length_read,
              word_read,
              large,
              stable_version_at-still (suc fuel) w l.border (t + 1) at_b live.quiet,
              get_checked_self v l.border key
                  (get_find_border (get_next_layer (l.node.lv q)) (remove_prefix 8 key)) live,
            )
            refl
