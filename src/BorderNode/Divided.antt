-- ===== src/BorderNode/Divided.antt =====
-- A split border node and the new one hold between them what the node held.
use Prim.Native.Nat.{Ordering}
use yakushima.Common.{
  ℕ, suc, ◌+◌, ◌≡◌, ◌≢◌, refl, sym, subst, ◌∙◌, ap, Bool, false, List, [], ◌∷◌, ◌++◌, length,
  get_elem?, has, Distinct, All, Option, none, some, ◌>>=◌, if◌then◌else◌, arith, Bool-cases, inl,
  inr, ordering_cases,
}
use yakushima.Key.{Bytes, KeyTuple, prepare, key_compare, prefix_compare}
use yakushima.Key.Lex.{prefix_compare-key_compare}
use yakushima.BaseNode.{Ptr}
use yakushima.InteriorNode.{goes_left}
use yakushima.InteriorNode.Routing.{tuple_at}
use yakushima.Permutation.Split.{count_from}
use yakushima.BorderNode.{BorderNode}
use yakushima.BorderNode.Entries.{WellFormed, Holds, Sorted, key_compare_trans}
use yakushima.BorderNode.Search.{lookup, lookup-none, nothing_behind}
use yakushima.BorderNode.Insertion.{prepare-WellFormed}
use yakushima.BorderNode.Split.{Parts, split_entries}
use yakushima.BorderNode.Parts.{Halved, split_entries-Halved}

-- The word that a node with these slots in use holds for a key.
abbrev pub stored : BorderNode → KeyTuple → List ℕ → Option ℕ
stored n key ps = do q ← lookup (tuple_at n.base) key ps; some (n.lv q)

module _ (f : ℕ → KeyTuple) (k : KeyTuple) where
  -- What no later slot holds is looked for in the earlier ones.
  lookup-append_none :
      (xs ys : List ℕ) → lookup f k ys ≡ none → lookup f k (xs ++ ys) ≡ lookup f k xs
  unfolding lookup
  lookup-append_none [] ys e = e
  lookup-append_none (x ∷ xs) ys e = ground (arith, lookup-append_none xs ys e)

  -- What no earlier slot holds is looked for in the later ones.
  lookup-none_append :
      (xs ys : List ℕ)
      → All (λ x. key_compare k (f x) ≢ Ordering.eq) xs
      → lookup f k (xs ++ ys) ≡ lookup f k ys
  unfolding lookup
  lookup-none_append [] ys h = refl
  lookup-none_append (x ∷ xs) ys h = ground (arith, lookup-none_append xs ys h.1, h.0)

  -- A key that is not less than an entry is greater than the entries in front of it.
  pub apart_in_front :
      (xs : List ℕ) (y : ℕ) (ys : List ℕ)
      → WellFormed k
      → key_compare k (f y) ≢ Ordering.lt
      → Sorted f (xs ++ y ∷ ys)
      → All (λ x. key_compare k (f x) ≢ Ordering.eq) xs
  apart_in_front [] y ys w h s = tt
  apart_in_front (x ∷ xs) y ys w h s =
      let at_y = in_front xs s.1 in
      let fine = well xs s.2 in
      (λ e. h (sym ((key_compare_trans w s.0 fine).1 e) ∙ at_y), apart_in_front xs y ys w h s.2)
    where
      in_front :
          (zs : List ℕ)
          → All (λ q. key_compare (f x) (f q) ≡ Ordering.lt) (zs ++ y ∷ ys)
          → key_compare (f x) (f y) ≡ Ordering.lt
      in_front [] a = a.0
      in_front (z ∷ zs) a = in_front zs a.1

      well : (zs : List ℕ) → Sorted f (zs ++ y ∷ ys) → WellFormed (f y)
      well [] t = t.0
      well (z ∷ zs) t = well zs t.2

pub Sorted-behind : (f : ℕ → KeyTuple) (xs ys : List ℕ) → Sorted f (xs ++ ys) → Sorted f ys
Sorted-behind f [] ys s = s
Sorted-behind f (x ∷ xs) ys s = Sorted-behind f xs ys s.2

pub lookup-congruent :
    (f g : ℕ → KeyTuple) (k : KeyTuple) (xs : List ℕ)
    → All (λ x. f x ≡ g x) xs
    → lookup f k xs ≡ lookup g k xs
unfolding lookup
lookup-congruent f g k [] h = refl
lookup-congruent f g k (x ∷ xs) h =
    let same : key_compare k (f x) ≡ key_compare k (g x) = ap (key_compare k) h.0 in
    ground (arith, same, lookup-congruent f g k xs h.1)

has-append :
    (x : ℕ) (xs ys : List ℕ) → has x (xs ++ ys) ≡ false → (has x xs ≡ false) × (has x ys ≡ false)
has-append x [] ys h = (refl, h)
has-append x (z ∷ xs) ys h =
    let ih = has-append x xs ys (ground (arith, h)) in (ground (arith, h, ih.0), ih.1)

-- The slots of the two parts differ.
pub Distinct-apart : (xs ys : List ℕ) → Distinct (xs ++ ys) → All (λ x. has x ys ≡ false) xs
Distinct-apart [] ys d = tt
Distinct-apart (x ∷ xs) ys d = ((has-append x xs ys d.0).1, Distinct-apart xs ys d.1)

pub All-map : {P Q : ℕ → Type 0} (xs : List ℕ) → ((x : ℕ) → P x → Q x) → All P xs → All Q xs
All-map [] h a = tt
All-map (x ∷ xs) h a = (h x a.0, All-map xs h a.1)

-- Two nodes that agree on the slots in use.
pub stored-congruent :
    (n m : BorderNode) (key : KeyTuple) (xs : List ℕ)
    → All (λ x. (tuple_at n.base x ≡ tuple_at m.base x) × (n.lv x ≡ m.lv x)) xs
    → stored n key xs ≡ stored m key xs
unfolding lookup key_compare yakushima.Key.memcmp
stored-congruent n m key [] h = refl
stored-congruent n m key (x ∷ xs) h =
    let same : key_compare key (tuple_at n.base x) ≡ key_compare key (tuple_at m.base x) =
      ap (key_compare key) h.0.0 in
    elim (ordering_cases (key_compare key (tuple_at m.base x))) [
      | inl less ↦ simp (same, less) (stored-congruent n m key xs h.1)
      | inr (inl equal) ↦ simp (same, equal) (ap some h.0.1)
      | inr (inr more) ↦ simp (same, more) (stored-congruent n m key xs h.1)
    ]

-- A node whose slots from `j` on hold what the slots of another hold in the order of its ranks.
stored-count_from :
    (n m : BorderNode) (key : KeyTuple) (j : ℕ) (ys : List ℕ)
    → ((i q : ℕ) → get_elem? ys i ≡ some q → tuple_at n.base (j + i) ≡ tuple_at m.base q)
    → ((i q : ℕ) → get_elem? ys i ≡ some q → n.lv (j + i) ≡ m.lv q)
    → stored n key (count_from j (length ys)) ≡ stored m key ys
unfolding lookup key_compare yakushima.Key.memcmp
stored-count_from n m key j [] k v = refl
stored-count_from n m key j (y ∷ ys) k v =
    let here : tuple_at n.base j ≡ tuple_at m.base y =
      ap (λ (i : ℕ). tuple_at n.base i) {x = j} {y = j + 0} (omega arith) ∙ k 0 y refl in
    let word : n.lv j ≡ m.lv y =
      ap (λ (i : ℕ). n.lv i) {x = j} {y = j + 0} (omega arith) ∙ v 0 y refl in
    let same : key_compare key (tuple_at n.base j) ≡ key_compare key (tuple_at m.base y) =
      ap (key_compare key) here in
    let rest =
      stored-count_from n m key (suc j) ys
        (λ i q e.
          ap (λ (c : ℕ). tuple_at n.base c) {x = suc j + i} {y = j + suc i} (omega arith)
          ∙ k (suc i) q e)
        (λ i q e.
          ap (λ (c : ℕ). n.lv c) {x = suc j + i} {y = j + suc i} (omega arith) ∙ v (suc i) q e) in
    elim (ordering_cases (key_compare key (tuple_at m.base y))) [
      | inl less ↦ simp (same, less) rest
      | inr (inl equal) ↦ simp (same, equal) (ap some word)
      | inr (inr more) ↦ simp (same, more) rest
    ]

-- Where a key is less than the first entry that goes, or not.
module _ {border : BorderNode} {self fresh : Ptr} {xs ys : List ℕ} {y : ℕ} {result : Option Parts}
    (h : Halved border self fresh xs (y ∷ ys) result) (o : Holds border (xs ++ y ∷ ys))
    (s : Sorted (tuple_at border.base) (xs ++ y ∷ ys)) (seven : length (y ∷ ys) ≡ 7)
    (key : KeyTuple) (w : WellFormed key) where
  below : Sorted (tuple_at border.base) (y ∷ ys)
  below = Sorted-behind (tuple_at border.base) xs (y ∷ ys) s

  stored-lower :
      key_compare key (tuple_at border.base y) ≡ Ordering.lt
      → stored h.after.lower key xs ≡ stored border key (xs ++ y ∷ ys)
  stored-lower less =
      let apart = Distinct-apart xs (y ∷ ys) o.order.distinct in
      let same =
        stored-congruent h.after.lower border key xs (
          All-map {P = λ x. has x (y ∷ ys) ≡ false} xs (λ x e. (h.kept x e, h.kept_lv x e))
            apart) in
      let behind : lookup (tuple_at border.base) key (y ∷ ys) ≡ none =
        lookup-none (tuple_at border.base) key (y ∷ ys) (
          less,
          nothing_behind (tuple_at border.base) key y ys w
              (λ more. absurd (ground (arith, less, more))) below,
        ) in
      same
      ∙ ap (λ q. do p ← q; some (border.lv p))
          (sym (lookup-append_none (tuple_at border.base) key xs (y ∷ ys) behind))

  stored-higher :
      key_compare key (tuple_at border.base y) ≢ Ordering.lt
      → stored h.after.higher key (count_from 0 7) ≡ stored border key (xs ++ y ∷ ys)
  stored-higher more =
      let same =
        stored-count_from h.after.higher border key 0 (y ∷ ys)
          (λ i q e.
            ap (λ (c : ℕ). tuple_at h.after.higher.base c) {x = 0 + i} {y = i} (omega arith)
            ∙ h.moved_key i q e)
          (λ i q e.
            ap (λ (c : ℕ). h.after.higher.lv c) {x = 0 + i} {y = i} (omega arith)
            ∙ h.moved_lv i q e) in
      subst (λ c. stored h.after.higher key (count_from 0 c) ≡ stored border key (y ∷ ys)) seven
        same
      ∙ ap (λ q. do p ← q; some (border.lv p))
          (sym (
            lookup-none_append (tuple_at border.base) key xs (y ∷ ys)
              (apart_in_front (tuple_at border.base) key xs y ys w more s)))

-- Which of the two nodes a reader comes to, by the key between them.
abbrev pub side : Bool → Parts → BorderNode
side left p = if left then p.lower else p.higher

abbrev pub side_slots : Bool → List ℕ → List ℕ
side_slots left xs = if left then xs else count_from 0 7

-- The node that a key is sent to holds the word that the old node held for it.
pub Halved-stored :
    {border : BorderNode} {self fresh : Ptr} {xs ys : List ℕ} {y : ℕ} {result : Option Parts}
    (h : Halved border self fresh xs (y ∷ ys) result)
    → Holds border (xs ++ y ∷ ys)
    → Sorted (tuple_at border.base) (xs ++ y ∷ ys)
    → length (y ∷ ys) ≡ 7
    → (pivot key : Bytes) → tuple_at border.base y ≡ prepare pivot
    → (let left = goes_left (prepare key) (prepare pivot) in
        stored (side left h.after) (prepare key) (side_slots left xs)
        ≡ stored border (prepare key) (xs ++ y ∷ ys))
Halved-stored {border = border} {xs = xs} {ys} {y} h o s seven pivot key front =
    let w = prepare-WellFormed key in
    let k = prepare key in
    let by_key : prefix_compare k (prepare pivot) ≡ key_compare k (tuple_at border.base y) =
      prefix_compare-key_compare key pivot ∙ ap (key_compare k) (sym front) in
    let whole = stored border k (xs ++ y ∷ ys) in
    elim (Bool-cases (goes_left k (prepare pivot))) [
      | inl e ↦
          let less : key_compare k (tuple_at border.base y) ≡ Ordering.lt =
            ground (arith, by_key, e) in
          subst (λ t. stored (side t h.after) k (side_slots t xs) ≡ whole) (sym e)
            (stored-lower h o s seven k w less)
      | inr e ↦
          let more : key_compare k (tuple_at border.base y) ≢ Ordering.lt =
            λ c. absurd (ground (arith, by_key, e, c)) in
          subst (λ t. stored (side t h.after) k (side_slots t xs) ≡ whole) (sym e)
            (stored-higher h o s seven k w more)
    ]

-- The split of a full node with its entries in order, before the new entry is inserted, loses no key
-- and finds no key that was not there: the node that the interior node above sends a key to, by the
-- first key of the new node, holds for each key the word that the old node held, or nothing where
-- that held nothing.
pub split_entries-stored :
    (border : BorderNode) (self fresh : Ptr) (xs : List ℕ) (y : ℕ) (ys : List ℕ) (pivot key : Bytes)
    → Holds border (xs ++ y ∷ ys)
    → Sorted (tuple_at border.base) (xs ++ y ∷ ys)
    → length xs ≡ 8
    → length ys ≡ 6
    → tuple_at border.base y ≡ prepare pivot
    → (p : Parts) × (split_entries border self fresh ≡ some p)
      × (tuple_at p.higher.base 0 ≡ prepare pivot)
      × (let left = goes_left (prepare key) (prepare pivot) in
          stored (side left p) (prepare key) (side_slots left xs)
          ≡ stored border (prepare key) (xs ++ y ∷ ys))
split_entries-stored border self fresh xs y ys pivot key o s eight six front =
    let seven : length (y ∷ ys) ≡ 7 = omega (arith, six) in
    let h = split_entries-Halved border self fresh xs (y ∷ ys) o eight seven in
    (h.after, h.returns, h.moved_key 0 y refl ∙ front, Halved-stored h o s seven pivot key front)
