-- ===== src/BorderNode/Order.antt =====
-- A new entry at the rank of its key leaves the entries of a border node in order.
use Prim.Native.Nat.{Ordering}
use yakushima.Common.{
  ordering_cases, ℕ, zero, suc, ◌≡◌, refl, subst, sym, List, [], ◌∷◌, All-insert_at, none, arith,
  insert_at, inl, inr,
}
use yakushima.Key.{Bytes, KeyTuple, memcmp, key_compare}
use yakushima.BorderNode.Entries.{WellFormed, Sorted}
use yakushima.BorderNode.Search.{lookup, count_smaller, nothing_behind, count_smaller-none}

memcmp_swap :
    (n : ℕ) (a b : Bytes)
    → (memcmp n a b ≡ Ordering.gt → memcmp n b a ≡ Ordering.lt)
      × (memcmp n a b ≡ Ordering.eq → memcmp n b a ≡ Ordering.eq)
unfolding memcmp
memcmp_swap zero a b = (λ e. absurd (ground arith), λ e. refl)
memcmp_swap (suc n) [] b = (λ e. absurd (ground arith), λ e. ground arith)
memcmp_swap (suc n) (x ∷ a) [] = (λ e. absurd (ground arith), λ e. refl)
memcmp_swap (suc n) (x ∷ a) (y ∷ b) =
    let ih = memcmp_swap n a b in (λ e. ground (arith, ih.0, ih.1), λ e. ground (arith, ih.1))

key_compare_swap : (a b : KeyTuple) → key_compare a b ≡ Ordering.gt → key_compare b a ≡ Ordering.lt
unfolding key_compare
key_compare_swap a b e = let s = memcmp_swap 8 a.slice b.slice in ground (arith, s.0, s.1)

pub Sorted-insert_at :
    (f : ℕ → KeyTuple) (p : ℕ) (ps : List ℕ)
    → WellFormed (f p)
    → Sorted f ps
    → lookup f (f p) ps ≡ none
    → Sorted f (insert_at (count_smaller f (f p) ps) p ps)
unfolding lookup count_smaller
Sorted-insert_at f p [] w s new = (w, tt, tt)
Sorted-insert_at f p (q ∷ qs) w s new = elim (ordering_cases (key_compare (f p) (f q))) [
  | inl less ↦
      let behind = nothing_behind f (f p) q qs w (λ e. absurd (ground (arith, less, e))) s in
      let first : count_smaller f (f p) (q ∷ qs) ≡ 0 =
        ground (arith, less, count_smaller-none f (f p) qs behind) in
      subst (λ r. Sorted f (insert_at r p (q ∷ qs))) (sym first) (w, (less, behind), s)
  | inr (inl same) ↦ absurd (ground (arith, same, new))
  | inr (inr more) ↦
      let later : count_smaller f (f p) (q ∷ qs) ≡ suc (count_smaller f (f p) qs) =
        ground (arith, more) in
      let new' : lookup f (f p) qs ≡ none = ground (arith, more, new) in
      subst (λ r. Sorted f (insert_at r p (q ∷ qs))) (sym later)
        (
          s.0,
          All-insert_at (λ r. key_compare (f q) (f r) ≡ Ordering.lt) (count_smaller f (f p) qs) p qs
              (key_compare_swap (f p) (f q) more) s.1,
          Sorted-insert_at f p qs w s.2 new',
        )
]
