-- ===== src/BorderNode/Search.antt =====
-- The searches of a border node against plain functions on the list of its entries.
use Prim.Native.Nat.{Ordering}
use yakushima.Common.{
  sym, subst, some_inj, inl, inr, ordering_cases, ℕ, suc, ◌+◌, ◌≡◌, ◌≢◌, refl, ◌∙◌, ap, List, [],
  ◌∷◌, length, get_elem?, All, Option, some, none, arith,
}
use yakushima.Key.{KeyTuple, key_compare}
use yakushima.InteriorNode.Routing.{tuple_at}
use yakushima.Permutation.{get_cnk}
use yakushima.Permutation.Refinement.{get_cnk-encode}
use yakushima.BorderNode.{
  BorderNode, entry_at, search_from, search, search_all_from, get_lv_of_without_lock, rank_from,
  compute_rank_if_insert,
}
use yakushima.BorderNode.Entries.{
  WellFormed, Holds, Sorted, key_compare_trans, examine-key_compare, entry_at-Holds,
}

-- The slot of the first entry whose key compares equal.
unfoldable pub lookup : (ℕ → KeyTuple) → KeyTuple → List ℕ → Option ℕ
lookup f key [] = none
lookup f key (p ∷ ps) =
    let rest = lookup f key ps in elim (key_compare key (f p)) [ Ordering.eq ↦ some p | _ ↦ rest ]

-- A slot that `lookup` returns is in use, and its key is equal.
pub lookup-found :
    (P : ℕ → Type 0) (f : ℕ → KeyTuple) (key : KeyTuple) (ps : List ℕ) {q : ℕ}
    → All P ps
    → lookup f key ps ≡ some q
    → P q × (key_compare key (f q) ≡ Ordering.eq)
unfolding lookup
lookup-found P f key [] h e = absurd (ground arith)
lookup-found P f key (p ∷ ps) {q} h e = elim (ordering_cases (key_compare key (f p))) [
  | inr (inl same) ↦
      let at_p : p ≡ q = some_inj (sym (ground (arith, same)) ∙ e) in
      (subst P at_p h.0, ap (λ r. key_compare key (f r)) (sym at_p) ∙ same)
  | inl less ↦ lookup-found P f key ps h.1 (ground (arith, less, e))
  | inr (inr more) ↦ lookup-found P f key ps h.1 (ground (arith, more, e))
]

-- How many entries have a smaller key.
unfoldable pub count_smaller : (ℕ → KeyTuple) → KeyTuple → List ℕ → ℕ
count_smaller f key [] = 0
count_smaller f key (p ∷ ps) =
    let rest = count_smaller f key ps in
    elim (key_compare key (f p)) [ Ordering.gt ↦ suc rest | _ ↦ rest ]

-- The key is less than each of these entries.
abbrev pub IsBelow : (ℕ → KeyTuple) → KeyTuple → List ℕ → Type 0
IsBelow f key qs = All (λ q. key_compare key (f q) ≡ Ordering.lt) qs

module _ (f : ℕ → KeyTuple) (key : KeyTuple) where
  -- Behind an entry that is not smaller than a key stands nothing that matters to the key.
  pub nothing_behind :
      (p : ℕ) (qs : List ℕ)
      → WellFormed key
      → key_compare key (f p) ≢ Ordering.gt
      → Sorted f (p ∷ qs)
      → IsBelow f key qs
  nothing_behind p [] w le s = tt
  nothing_behind p (q ∷ qs) w le s =
      let t = key_compare_trans w s.0 s.2.0 in
      (ground (arith, t.0, t.1, le, s.1.0), nothing_behind p qs w le (s.0, s.1.1, s.2.2))

  pub lookup-none : (qs : List ℕ) → IsBelow f key qs → lookup f key qs ≡ none
  unfolding lookup
  lookup-none [] h = refl
  lookup-none (q ∷ qs) h = ground (arith, h.0, lookup-none qs h.1)

  pub count_smaller-none : (qs : List ℕ) → IsBelow f key qs → count_smaller f key qs ≡ 0
  unfolding count_smaller
  count_smaller-none [] h = refl
  count_smaller-none (q ∷ qs) h = ground (arith, h.0, count_smaller-none qs h.1)

-- The ranks from `i` on hold the slots `qs`.
abbrev pub From : List ℕ → ℕ → List ℕ → Type 0
From ps i qs = (j q : ℕ) → get_elem? qs j ≡ some q → get_elem? ps (i + j) ≡ some q

pub From-start : (ps : List ℕ) → From ps 0 ps
From-start ps j q e = ap (get_elem? ps) {x = 0 + j} (omega arith) ∙ e

pub From-tail : (ps : List ℕ) (i q : ℕ) (qs : List ℕ) → From ps i (q ∷ qs) → From ps (i + 1) qs
From-tail ps i q qs h j p e = ap (get_elem? ps) {x = i + 1 + j} (omega arith) ∙ h (suc j) p e

module _ {n : BorderNode} {ps : List ℕ} (key : KeyTuple) (o : Holds n ps) (w : WellFormed key) where
  pub From-entry :
      (i q : ℕ) (qs : List ℕ) → From ps i (q ∷ qs) → entry_at n i ≡ some (q, tuple_at n.base q)
  From-entry i q qs h = entry_at-Holds i o (ap (get_elem? ps) {x = i} (omega arith) ∙ h 0 q refl)

  pub cnk-Holds : get_cnk n.permutation ≡ length ps
  cnk-Holds = ap get_cnk o.word ∙ get_cnk-encode o.order

  search_from-lookup :
      (i : ℕ) (qs : List ℕ)
      → Sorted (tuple_at n.base) qs
      → From ps i qs
      → search_from (length qs) n key i ≡ some (lookup (tuple_at n.base) key qs)
  unfolding search_from lookup
  search_from-lookup i [] s at_i = refl
  search_from-lookup i (q ∷ qs) s at_i =
      let rest = search_from-lookup (i + 1) qs s.2 (From-tail ps i q qs at_i) in
      let behind : (key_compare key (tuple_at n.base q) ≢ Ordering.gt)
          → lookup (tuple_at n.base) key qs ≡ none =
        λ le.
          lookup-none (tuple_at n.base) key qs (nothing_behind (tuple_at n.base) key q qs w le s) in
      rw (From-entry i q qs at_i) (ground (arith, examine-key_compare w s.0, rest, behind))

  rank_from-count :
      (i : ℕ) (qs : List ℕ)
      → Sorted (tuple_at n.base) qs
      → From ps i qs
      → lookup (tuple_at n.base) key qs ≡ none
      → rank_from (length qs) n key i ≡ some (i + count_smaller (tuple_at n.base) key qs)
  unfolding rank_from lookup count_smaller
  rank_from-count i [] s at_i new = ap some (omega arith)
  rank_from-count i (q ∷ qs) s at_i new =
      let rest = rank_from-count (i + 1) qs s.2 (From-tail ps i q qs at_i) in
      let behind : (key_compare key (tuple_at n.base q) ≢ Ordering.gt)
          → count_smaller (tuple_at n.base) key qs ≡ 0 =
        λ le.
          count_smaller-none (tuple_at n.base) key qs
            (nothing_behind (tuple_at n.base) key q qs w le s) in
      rw (From-entry i q qs at_i) (ground (arith, examine-key_compare w s.0, rest, behind))

  search_all_from-kept :
      (i : ℕ) (qs : List ℕ) (ret : Option ℕ)
      → Sorted (tuple_at n.base) qs
      → From ps i qs
      → IsBelow (tuple_at n.base) key qs
      → search_all_from (length qs) n key i ret ≡ some ret
  unfolding search_all_from
  search_all_from-kept i [] ret s at_i h = refl
  search_all_from-kept i (q ∷ qs) ret s at_i h =
      rw (From-entry i q qs at_i) (ground (arith, examine-key_compare w s.0, h.0))

  search_all_from-lookup :
      (i : ℕ) (qs : List ℕ)
      → Sorted (tuple_at n.base) qs
      → From ps i qs
      → search_all_from (length qs) n key i none ≡ some (lookup (tuple_at n.base) key qs)
  unfolding search_all_from lookup
  search_all_from-lookup i [] s at_i = refl
  search_all_from-lookup i (q ∷ qs) s at_i =
      let rest = search_all_from-lookup (i + 1) qs s.2 (From-tail ps i q qs at_i) in
      let below : (key_compare key (tuple_at n.base q) ≢ Ordering.gt)
          → IsBelow (tuple_at n.base) key qs =
        λ le. nothing_behind (tuple_at n.base) key q qs w le s in
      let kept : (key_compare key (tuple_at n.base q) ≢ Ordering.gt)
          → search_all_from (length qs) n key (i + 1) (some q) ≡ some (some q) =
        λ le. search_all_from-kept (i + 1) qs (some q) s.2 (From-tail ps i q qs at_i) (below le) in
      let behind : (key_compare key (tuple_at n.base q) ≢ Ordering.gt)
          → lookup (tuple_at n.base) key qs ≡ none =
        λ le. lookup-none (tuple_at n.base) key qs (below le) in
      rw (From-entry i q qs at_i) (ground (arith, examine-key_compare w s.0, rest, kept, behind))

-- In a node whose entries are in order, the search of `get_lv_of` faults nowhere and returns the
-- slot of the entry whose key is equal, or nothing where there is none: stopping at the first
-- greater entry misses nothing.
pub search-lookup :
    {n : BorderNode} {ps : List ℕ} (key : KeyTuple)
    → Holds n ps
    → Sorted (tuple_at n.base) ps
    → WellFormed key
    → search n key ≡ some (lookup (tuple_at n.base) key ps)
unfolding search
search-lookup {n} {ps} key o s w =
    rw (cnk-Holds key o w) (search_from-lookup key o w 0 ps s (From-start ps))

-- For a key that the node does not hold, `compute_rank_if_insert` is the number of the entries
-- with a smaller key, where the entries are in order.
pub compute_rank_if_insert-count_smaller :
    {n : BorderNode} {ps : List ℕ} (key : KeyTuple)
    → Holds n ps
    → Sorted (tuple_at n.base) ps
    → WellFormed key
    → lookup (tuple_at n.base) key ps ≡ none
    → compute_rank_if_insert n key ≡ some (count_smaller (tuple_at n.base) key ps)
unfolding compute_rank_if_insert
compute_rank_if_insert-count_smaller {n} {ps} key o s w new =
    rw (cnk-Holds key o w)
      (rank_from-count key o w 0 ps s (From-start ps) new ∙ ap some (omega arith))

-- `get_lv_of_without_lock`, which goes on behind the entry that it finds, returns what the search
-- of `get_lv_of` returns on the same node, where the entries are in order.
pub get_lv_of_without_lock-search :
    {n : BorderNode} {ps : List ℕ} (key : KeyTuple)
    → Holds n ps
    → Sorted (tuple_at n.base) ps
    → WellFormed key
    → get_lv_of_without_lock n key ≡ search n key
unfolding get_lv_of_without_lock
get_lv_of_without_lock-search {n} {ps} key o s w =
    rw (search-lookup key o s w, cnk-Holds key o w)
      (search_all_from-lookup key o w 0 ps s (From-start ps))
