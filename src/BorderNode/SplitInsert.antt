-- ===== src/BorderNode/SplitInsert.antt =====
-- The new entry of a split goes to the node that readers with its key come to.
use Prim.Native.Nat.{Ordering}
use yakushima.Common.{
  ℕ, zero, suc, ◌≤◌, ◌<◌, ◌≡◌, ◌≢◌, refl, sym, ◌∙◌, ap, true, false, List, [], ◌∷◌, ◌++◌, length,
  has, insert_at, All, ◌>>=◌, Option, none, some, arith,
}
use yakushima.Scheme.{slice_size}
use yakushima.Key.{Bytes, KeyTuple, prepare, key_compare, prefix_compare, memcmp, shorter}
use yakushima.InteriorNode.{goes_left}
use yakushima.LinkOrValue.{get_value, drop_value, init_lv}
use yakushima.Permutation.{get_empty_slot}
use yakushima.Permutation.EmptySlot.{get_empty_slot-free}
use yakushima.InteriorNode.Routing.{tuple_at}
use yakushima.BorderNode.{BorderNode, compute_rank_if_insert}
use yakushima.BorderNode.Change.{Store, Inserted, insert_lv_at}
use yakushima.BorderNode.Entries.{WellFormed, Holds, Sorted}
use yakushima.BorderNode.Insertion.{Placed, insert_lv_at-Placed, prepare-WellFormed}
use yakushima.BorderNode.Present.{lookup-has, has-insert_at_self}
use yakushima.BorderNode.Divided.{stored, stored-congruent, All-map}
use yakushima.BorderNode.Search.{lookup, count_smaller, compute_rank_if_insert-count_smaller}
use yakushima.BorderNode.Split.{comp_length, goes_lower, remaining_size}

-- The compared length of `border_split`, for lengths of entries.
comp_length-shorter : (a b : ℕ) → a ≤ 9 → b ≤ 9 → comp_length a b ≡ shorter (shorter a b) slice_size
comp_length-shorter a b p q = ground arith

-- The decision of `border_split` is that of the interior nodes, for a key that is not the first key
-- of the new node, with its rank.
pub goes_lower-goes_left :
    (key front : KeyTuple) (rank : ℕ)
    → WellFormed key
    → WellFormed front
    → prefix_compare key front ≢ Ordering.eq
    → (prefix_compare key front ≡ Ordering.gt → remaining_size ≤ rank)
    → goes_lower key front rank ≡ goes_left key front
unfolding goes_lower prefix_compare memcmp
goes_lower-goes_left key front rank w v apart above =
    let n = comp_length-shorter key.size front.size w.short v.short in
    rw (goes_lower, n) (ground (arith, apart, above))

-- A key that was not put in is looked for among the others.
lookup-insert_at :
    (f : ℕ → KeyTuple) (k : KeyTuple) (rank p : ℕ) (ps : List ℕ)
    → key_compare k (f p) ≢ Ordering.eq
    → lookup f k (insert_at rank p ps) ≡ lookup f k ps
unfolding lookup
lookup-insert_at f k zero p ps apart = ground (arith, apart)
lookup-insert_at f k (suc rank) p [] apart = ground (arith, apart)
lookup-insert_at f k (suc rank) p (q ∷ ps) apart =
    ground (arith, lookup-insert_at f k rank p ps apart)

-- The slots in use are others than a free one.
All-others : (p : ℕ) (ps : List ℕ) → has p ps ≡ false → All (λ q. q ≢ p) ps
All-others p [] h = tt
All-others p (q ∷ ps) h = (ground (arith, h), All-others p ps (ground (arith, h)))

-- A node into which a key was put holds its word, and the words of the other keys as before.
module _ {s : Store} {n : BorderNode} {ps : List ℕ} {p rank : ℕ} {key : Bytes} {word : ℕ}
    {result : Option Inserted} (a : Placed s n ps p rank key word result) where
  pub stored-new : stored a.after.node (prepare key) (insert_at rank p ps) ≡ some word
  stored-new =
      let found : lookup (tuple_at a.after.node.base) (prepare key) (insert_at rank p ps) ≡ some p =
        ap (λ k. lookup (tuple_at a.after.node.base) k (insert_at rank p ps)) (sym a.entry)
        ∙ lookup-has (tuple_at a.after.node.base) p (insert_at rank p ps)
            (has-insert_at_self p rank ps) a.sorted in
      ap (λ q. do r ← q; some (a.after.node.lv r)) found ∙ ap some a.value

  pub stored-old :
      (k : KeyTuple)
      → has p ps ≡ false
      → key_compare k (prepare key) ≢ Ordering.eq
      → stored a.after.node k (insert_at rank p ps) ≡ stored n k ps
  stored-old k unused apart =
      let away : key_compare k (tuple_at a.after.node.base p) ≢ Ordering.eq =
        λ e. apart (ap (key_compare k) (sym a.entry) ∙ e) in
      ap (λ q. do r ← q; some (a.after.node.lv r))
        (lookup-insert_at (tuple_at a.after.node.base) k rank p ps away)
      ∙ stored-congruent a.after.node n k ps
          (All-map {P = λ q. q ≢ p} ps (λ q e. a.others q e) (All-others p ps unused))

pub has-behind :
    (p : ℕ) (xs ys : List ℕ) → has p (xs ++ ys) ≡ true → has p xs ≡ false → has p ys ≡ true
has-behind p [] ys h e = h
has-behind p (x ∷ xs) ys h e = has-behind p xs ys (ground (arith, h, e)) (ground (arith, e))

-- An empty word is no value to be deleted.
nothing_to_drop :
    (s : Store) (word : ℕ)
    → word ≡ init_lv
    → drop_value s.memory (get_value word) false ≡ some (s.memory, none)
unfolding drop_value get_value
nothing_to_drop s word e = rw e refl

pub stored-none :
    (n : BorderNode) (k : KeyTuple) (ps : List ℕ)
    → stored n k ps ≡ none
    → lookup (tuple_at n.base) k ps ≡ none
stored-none n k ps e = go (lookup (tuple_at n.base) k ps) e
  where
    go : (q : Option ℕ) → (do r ← q; some (n.lv r)) ≡ none → q ≡ none
    go none h = refl
    go (some r) h = absurd (ground (arith, h))

-- An insertion at a node that has room, with the rank among its entries.
pub record PutInto (s : Store) (fuel self : ℕ) (n : BorderNode) (ps : List ℕ) (key : Bytes)
    (word rank : ℕ) : Type 0 where
  pub slot : ℕ
  pub empty : get_empty_slot n.permutation ≡ some slot
  pub unused : has slot ps ≡ false
  pub placed :
      Placed s n ps slot rank key word (insert_lv_at (suc fuel) s self n slot key word false rank)

pub put_into :
    {n : BorderNode} {ps : List ℕ} (s : Store) (fuel self : ℕ) (key : Bytes) (word rank : ℕ)
    → Holds n ps
    → Sorted (tuple_at n.base) ps
    → length ps < 15
    → lookup (tuple_at n.base) (prepare key) ps ≡ none
    → length key ≤ 8
    → rank ≡ count_smaller (tuple_at n.base) (prepare key) ps
    → ((p : ℕ) → p < 15 → has p ps ≡ false → n.lv p ≡ init_lv)
    → PutInto s fuel self n ps key word rank
put_into {n} {ps} s fuel self key word rank o sorted room new short ranked free =
    let (p, found, fits, unused, lowest) = get_empty_slot-free o.order room in
    let empty : get_empty_slot n.permutation ≡ some p = ap get_empty_slot o.word ∙ found in
    let rank_is : compute_rank_if_insert n (prepare key) ≡ some rank =
      compute_rank_if_insert-count_smaller (prepare key) o sorted (prepare-WellFormed key) new
      ∙ ap some (sym ranked) in
    record {
      slot = p;
      empty = empty;
      unused = unused;
      placed =
          insert_lv_at-Placed fuel s self p key word rank o sorted room empty rank_is new short
            (nothing_to_drop s (n.lv p) (free p fits unused));
    }
