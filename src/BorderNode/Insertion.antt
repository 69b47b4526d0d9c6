-- ===== src/BorderNode/Insertion.antt =====
-- `insert_lv_at` with the slot and the rank that `insert_lv` and `put` hand to it, for a key that
-- ends in the layer.
use Prim.Native.Nat.{Ordering}
use yakushima.Common.{
  ℕ, zero, suc, ◌≤◌, ◌<◌, ◌≡◌, ◌≢◌, refl, subst, sym, ap, false, List, [], ◌∷◌, length, All, Option,
  some, none, some_inj, arith, insert_at, has, ◌∙◌, lt→ltb, le→nltb, update,
}
use yakushima.Key.{Bytes, KeyTuple, load, key_slice, key_length, prepare, key_compare}
use yakushima.BaseNode.{BaseNode, zero_slice, set_key_slice_at, set_key_length_at}
use yakushima.InteriorNode.Routing.{tuple_at}
use yakushima.Permutation.{get_empty_slot, inc_key_num}
use yakushima.Permutation
use yakushima.Permutation.Refinement.{encode, insert-encode}
use yakushima.Permutation.EmptySlot.{get_empty_slot-free}
use yakushima.LinkOrValue.{get_value, set_value, drop_value, created_body}
use yakushima.BorderNode.{BorderNode, compute_rank_if_insert, get_lv_at, put_lv_at}
use yakushima.BorderNode.Change.{Store, Inserted, insert_value, insert_lv_at}
use yakushima.BorderNode.Entries.{WellFormed, Holds, Sorted}
use yakushima.BorderNode.Search.{lookup, count_smaller, compute_rank_if_insert-count_smaller}
use yakushima.BorderNode.Order.{Sorted-insert_at}

length-load : (n : ℕ) (key : Bytes) → length (load n key) ≡ n
unfolding load
length-load zero key = refl
length-load (suc n) [] = ap suc (length-load n [])
length-load (suc n) (x ∷ key) = ap suc (length-load n key)

pub prepare-WellFormed : (key : Bytes) → WellFormed (prepare key)
prepare-WellFormed key = record {
  bytes = length-load 8 key;
  short = ground arith;
  empty = empty_key key;
}
  where
    empty_key : (k : Bytes) → key_length k ≡ 0 → key_slice k ≡ zero_slice
    empty_key [] e = refl
    empty_key (x ∷ k) e = absurd (ground arith)

module _ (f g : ℕ → KeyTuple) where
  -- The slots of a list have the same entries.
  abbrev pub Agree : List ℕ → Type 0
  Agree ps = All (λ q. g q ≡ f q) ps

  All-Agree :
      (k : KeyTuple) (o : Ordering) (ps : List ℕ)
      → Agree ps
      → All (λ q. key_compare k (f q) ≡ o) ps
      → All (λ q. key_compare k (g q) ≡ o) ps
  All-Agree k o [] a h = tt
  All-Agree k o (p ∷ ps) a h = (ap (key_compare k) a.0 ∙ h.0, All-Agree k o ps a.1 h.1)

  pub Sorted-Agree : (ps : List ℕ) → Agree ps → Sorted f ps → Sorted g ps
  Sorted-Agree [] a s = tt
  Sorted-Agree (p ∷ ps) a s = (
    subst WellFormed (sym a.0) s.0,
    subst (λ k. All (λ q. key_compare k (g q) ≡ Ordering.lt) ps) (sym a.0)
        (All-Agree (f p) Ordering.lt ps a.1 s.1),
    Sorted-Agree ps a.1 s.2,
  )

  pub lookup-Agree : (k : KeyTuple) (ps : List ℕ) → Agree ps → lookup g k ps ≡ lookup f k ps
  unfolding lookup
  lookup-Agree k [] a = refl
  lookup-Agree k (p ∷ ps) a = ground (arith, ap (key_compare k) a.0, lookup-Agree k ps a.1)

  pub count_smaller-Agree :
      (k : KeyTuple) (ps : List ℕ) → Agree ps → count_smaller g k ps ≡ count_smaller f k ps
  unfolding count_smaller
  count_smaller-Agree k [] a = refl
  count_smaller-Agree k (p ∷ ps) a =
      ground (arith, ap (key_compare k) a.0, count_smaller-Agree k ps a.1)

-- The keys of a node after a key has been written into a slot.
abbrev pub with_key : BaseNode → ℕ → Bytes → BaseNode
with_key b p key = record b {
  slices = update b.slices p (key_slice key);
  lengths = update b.lengths p (length key);
}

with_key-Agree :
    (b : BaseNode) (p : ℕ) (key : Bytes) (ps : List ℕ)
    → has p ps ≡ false
    → Agree (tuple_at b) (tuple_at (with_key b p key)) ps
with_key-Agree b p key [] h = tt
with_key-Agree b p key (q ∷ ps) h = (ground arith, with_key-Agree b p key ps (ground arith))

pub count_smaller-le :
    (f : ℕ → KeyTuple) (k : KeyTuple) (ps : List ℕ) → count_smaller f k ps ≤ length ps
unfolding count_smaller
count_smaller-le f k [] = omega arith
count_smaller-le f k (p ∷ ps) = ground (arith, count_smaller-le f k ps)

-- What an insertion leaves: one more entry, in its place.
pub record Placed (s : Store) (n : BorderNode) (ps : List ℕ) (p rank : ℕ) (key : Bytes) (word : ℕ)
    (result : Option Inserted) : Type 0 where
  pub after : Inserted
  pub returns : result ≡ some after
  pub holds : Holds after.node (insert_at rank p ps)
  pub sorted : Sorted (tuple_at after.node.base) (insert_at rank p ps)
  pub entry : tuple_at after.node.base p ≡ prepare key
  pub value : after.node.lv p ≡ word
  pub others :
      (q : ℕ)
      → q ≢ p
      → (tuple_at after.node.base q ≡ tuple_at n.base q) × (after.node.lv q ≡ n.lv q)
  pub same_version : after.node.base.version ≡ n.base.version
  pub same_parent : after.node.base.parent ≡ n.base.parent
  pub same_store : after.store ≡ s
  pub no_address : after.created ≡ none

-- On a node that is not full and whose entries are in order, inserting a key of at most 8 bytes
-- that the node does not hold, at the slot of `get_empty_slot` and the rank of
-- `compute_rank_if_insert`, faults nowhere: the entries are again in order, the new one has the key
-- and the value, and the other slots, the version and the store are as they were. The slot holds no
-- value to be deleted, and the caller does not ask for the address of the value.
pub insert_lv_at-Placed :
    {n : BorderNode} {ps : List ℕ} (fuel : ℕ) (s : Store) (self p : ℕ) (key : Bytes)
    (new_value rank : ℕ)
    → Holds n ps
    → Sorted (tuple_at n.base) ps
    → length ps < 15
    → get_empty_slot n.permutation ≡ some p
    → compute_rank_if_insert n (prepare key) ≡ some rank
    → lookup (tuple_at n.base) (prepare key) ps ≡ none
    → length key ≤ 8
    → drop_value s.memory (get_value (n.lv p)) false ≡ some (s.memory, none)
    → Placed s n ps p rank key new_value
        (insert_lv_at (suc fuel) s self n p key new_value false rank)
unfolding insert_lv_at insert_value set_key_slice_at set_key_length_at get_lv_at put_lv_at set_value
    created_body
insert_lv_at-Placed {n} {ps} fuel s self p key new_value rank o sorted few empty_slot ranked new
      short idle =
    let f = tuple_at n.base in
    let g = tuple_at (with_key n.base p key) in
    let (slot, found, below, unused, lowest) = get_empty_slot-free o.order few in
    let same : slot ≡ p = some_inj (sym found ∙ ap get_empty_slot (sym o.word) ∙ empty_slot) in
    let fits : p < 15 = omega (arith, below, same) in
    let free : has p ps ≡ false = subst (λ q. has q ps ≡ false) same unused in
    let agree : Agree f g ps = with_key-Agree n.base p key ps free in
    let size : key_length key ≡ length key = ground arith in
    let stored : g p ≡ prepare key = ground (arith, size) in
    let at_rank : rank ≡ count_smaller f (prepare key) ps = some_inj (
      sym ranked
      ∙ compute_rank_if_insert-count_smaller (prepare key) o sorted (prepare-WellFormed key) new) in
    let at_rank' : count_smaller g (g p) ps ≡ rank =
      ap (λ k. count_smaller g k ps) stored
      ∙ count_smaller-Agree f g (prepare key) ps agree
      ∙ sym at_rank in
    let new' : lookup g (g p) ps ≡ none =
      ap (λ k. lookup g k ps) stored ∙ lookup-Agree f g (prepare key) ps agree ∙ new in
    let within : rank ≤ length ps = omega (arith, at_rank, count_smaller-le f (prepare key) ps) in
    let refined = insert-encode rank p o.order few within fits free in
    let ordered : Permutation.insert (inc_key_num n.permutation) rank p
        ≡ some (encode (insert_at rank p ps)) =
      ap (λ w. Permutation.insert (inc_key_num w) rank p) o.word ∙ refined.0 in
    record {
      after = record {
        node = record n {
          base = with_key n.base p key;
          permutation = encode (insert_at rank p ps);
          lv = update n.lv p new_value;
        };
        store = s;
        created = none;
      };
      returns =
          rw (insert_lv_at, le→nltb 8 (length key) short, lt→ltb p 15 fits, idle, ordered) refl;
      holds = record { order = refined.1; word = refl };
      sorted =
          subst (λ r. Sorted g (insert_at r p ps)) at_rank'
            (Sorted-insert_at g p ps (subst WellFormed (sym stored) (prepare-WellFormed key))
              (Sorted-Agree f g ps agree sorted) new');
      entry = stored;
      value = ground arith;
      others = λ q ne. (ground arith, ground arith);
      same_version = refl;
      same_parent = refl;
      same_store = refl;
      no_address = refl;
    }
