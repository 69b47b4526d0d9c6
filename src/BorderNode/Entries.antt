-- ===== src/BorderNode/Entries.antt =====
-- The entries of a border node as a list in the order of the ranks, and their order by key.
use Prim.Native.Nat.{Ordering}
use native.Mathlib.Decide.{dec_lt}
use yakushima.Common.{
  some_inj, subst, ℕ, zero, suc, ◌+◌, ◌≤◌, ◌<◌, ◌≡◌, refl, List, [], ◌∷◌, length, get_elem?, All,
  some, arith, suc,
}
use yakushima.Key.{Bytes, KeyTuple, memcmp, key_compare}
use yakushima.Key.Lex.{memcmp_self}
use yakushima.BaseNode.{zero_slice}
use yakushima.InteriorNode.Routing.{tuple_at, key_at-in_range}
use yakushima.Permutation.Slots.{Slot}
use yakushima.Permutation.Refinement.{IsOrder, encode, get_index_of_rank-encode}
use yakushima.BorderNode.{BorderNode, entry_at, found, stop, go_on, examine}

-- What the operations put into a slot: 8 bytes, a length of at most 9, zeros for the empty key.
pub record WellFormed (key : KeyTuple) : Type 0 where
  pub bytes : length key.slice ≡ 8
  pub short : key.size ≤ 9
  pub empty : key.size ≡ 0 → key.slice ≡ zero_slice

memcmp_trans :
    (n : ℕ) (a b c : Bytes)
    → length a ≡ n
    → length b ≡ n
    → length c ≡ n
    → (memcmp n a b ≡ Ordering.eq → memcmp n b c ≡ memcmp n a c)
      × (memcmp n b c ≡ Ordering.eq → memcmp n a b ≡ memcmp n a c)
      × (memcmp n a b ≡ Ordering.lt → memcmp n b c ≡ Ordering.lt → memcmp n a c ≡ Ordering.lt)
unfolding memcmp
memcmp_trans zero a b c p q r = (λ e. refl, λ e. refl, λ e f. e)
memcmp_trans (suc n) [] b c p q r = absurd (omega arith)
memcmp_trans (suc n) (x ∷ a) [] c p q r = absurd (omega arith)
memcmp_trans (suc n) (x ∷ a) (y ∷ b) [] p q r = absurd (omega arith)
memcmp_trans (suc n) (x ∷ a) (y ∷ b) (z ∷ c) p q r =
    let ih = memcmp_trans n a b c (omega arith) (omega arith) (omega arith) in
    (λ e. ground (arith, ih.0), λ e. ground (arith, ih.1), λ e f. ground (arith, ih.0, ih.1, ih.2))

-- A key that is not greater than one entry is less than the entries behind that one.
pub key_compare_trans :
    {a b c : KeyTuple}
    → WellFormed a
    → WellFormed b
    → WellFormed c
    → (key_compare a b ≡ Ordering.lt
        → key_compare b c ≡ Ordering.lt
        → key_compare a c ≡ Ordering.lt)
      × (key_compare a b ≡ Ordering.eq → key_compare b c ≡ key_compare a c)
unfolding key_compare
key_compare_trans {a} {b} {c} p q r =
    let t = memcmp_trans 8 a.slice b.slice c.slice p.bytes q.bytes r.bytes in
    (λ e f. ground (arith, t.0, t.1, t.2), λ e. ground (arith, t.0, t.1, t.2))

-- The test of the searches decides by the order of the keys.
pub examine-key_compare :
    {key target : KeyTuple}
    → WellFormed key
    → WellFormed target
    → examine key target ≡ elim (key_compare key target) [
      | Ordering.lt ↦ stop
      | Ordering.eq ↦ found
      | Ordering.gt ↦ go_on
    ]
unfolding examine key_compare
examine-key_compare {key} {target} p q = elim (dec_lt 0 (key.size + target.size)) [
  | yes some_size ↦ ground (arith, p.short, q.short)
  | no empty ↦
      let same : memcmp 8 key.slice target.slice ≡ Ordering.eq =
        rw (p.empty (omega arith), q.empty (omega arith)) (memcmp_self 8 zero_slice) in
      ground (arith, same)
]

-- The slots of a node in the order of their ranks.
pub record Holds (n : BorderNode) (ps : List ℕ) : Type 0 where
  pub order : IsOrder ps
  pub word : n.permutation ≡ encode ps

-- The entries are well-formed, and each is less than those behind it.
abbrev pub Sorted : (ℕ → KeyTuple) → List ℕ → Type 0
Sorted f [] = Unit
Sorted f (p ∷ ps) =
    WellFormed (f p) × All (λ q. key_compare (f p) (f q) ≡ Ordering.lt) ps × Sorted f ps

pub All-get_elem? :
    (P : ℕ → Type 0) (xs : List ℕ) (i : ℕ) {a : ℕ} → All P xs → get_elem? xs i ≡ some a → P a
All-get_elem? P [] i h e = absurd (ground arith)
All-get_elem? P (x ∷ xs) zero h e = subst P (some_inj e) h.0
All-get_elem? P (x ∷ xs) (suc i) h e = All-get_elem? P xs i h.1 e

-- The entry of a rank that is in use is read without a fault.
pub entry_at-Holds :
    {n : BorderNode} {ps : List ℕ} (i : ℕ) {p : ℕ}
    → Holds n ps
    → get_elem? ps i ≡ some p
    → entry_at n i ≡ some (p, tuple_at n.base p)
entry_at-Holds {n} {ps} i {p} h e =
    let slot : p < 15 = All-get_elem? Slot ps i h.order.small e in
    rw (h.word, get_index_of_rank-encode i h.order e, key_at-in_range n.base p slot) refl
