-- ===== src/BorderNode/Present.antt =====
-- A search for a key that the node holds.
use Prim.Native.Nat.{Ordering}
use yakushima.Common.{
  ℕ, zero, suc, ◌≡◌, refl, subst, ◌∙◌, ap, true, ◌==◌, List, [], ◌∷◌, All, some, arith, has,
  insert_at, has-insert_at, Bool-cases, inl, inr,
}
use yakushima.Key.{Bytes, KeyTuple, memcmp, key_compare}
use yakushima.Key.Lex.{memcmp_self}
use yakushima.BorderNode.Entries.{Sorted}
use yakushima.BorderNode.Search.{lookup}

memcmp_turned :
    (n : ℕ) (a b : Bytes)
    → (memcmp n a b ≡ Ordering.lt → memcmp n b a ≡ Ordering.gt)
      × (memcmp n a b ≡ Ordering.eq → memcmp n b a ≡ Ordering.eq)
unfolding memcmp
memcmp_turned zero a b = (λ e. absurd (ground arith), λ e. refl)
memcmp_turned (suc n) [] b = (λ e. absurd (ground arith), λ e. ground arith)
memcmp_turned (suc n) (x ∷ a) [] = (λ e. absurd (ground arith), λ e. refl)
memcmp_turned (suc n) (x ∷ a) (y ∷ b) =
    let ih = memcmp_turned n a b in
    (λ e. ground (arith, ih.0, ih.1), λ e. ground (arith, ih.0, ih.1))

pub key_compare_turned :
    (a b : KeyTuple) → key_compare a b ≡ Ordering.lt → key_compare b a ≡ Ordering.gt
unfolding key_compare
key_compare_turned a b e = let s = memcmp_turned 8 a.slice b.slice in ground (arith, s.0, s.1)

pub key_compare_sym :
    (a b : KeyTuple) → key_compare a b ≡ Ordering.eq → key_compare b a ≡ Ordering.eq
unfolding key_compare
key_compare_sym a b e = let s = memcmp_turned 8 a.slice b.slice in ground (arith, s.0, s.1)

key_compare_self : (a : KeyTuple) → key_compare a a ≡ Ordering.eq
unfolding key_compare
key_compare_self a = ground (arith, memcmp_self 8 a.slice)

All-has : (P : ℕ → Type 0) (p : ℕ) (qs : List ℕ) → has p qs ≡ true → All P qs → P p
All-has P p [] h a = absurd (ground arith)
All-has P p (q ∷ qs) h a = elim (Bool-cases (q == p)) [
  | inl e ↦ let same : q ≡ p = ground arith in subst P same a.0
  | inr e ↦ All-has P p qs (ground arith) a.1
]

pub lookup-has :
    (f : ℕ → KeyTuple) (p : ℕ) (qs : List ℕ)
    → has p qs ≡ true
    → Sorted f qs
    → lookup f (f p) qs ≡ some p
unfolding lookup
lookup-has f p [] h s = absurd (ground arith)
lookup-has f p (q ∷ qs) h s = elim (Bool-cases (q == p)) [
  | inl e ↦
      let same : q ≡ p = ground arith in
      let equal : key_compare (f p) (f q) ≡ Ordering.eq =
        ap (λ r. key_compare (f p) (f r)) same ∙ key_compare_self (f p) in
      ground (arith, equal, same)
  | inr e ↦
      let behind : has p qs ≡ true = ground arith in
      let less = All-has (λ r. key_compare (f q) (f r) ≡ Ordering.lt) p qs behind s.1 in
      let more = key_compare_turned (f q) (f p) less in
      ground (arith, more, lookup-has f p qs behind s.2)
]

pub has-insert_at_self : (p i : ℕ) (qs : List ℕ) → has p (insert_at i p qs) ≡ true
has-insert_at_self p i qs = ground (arith, has-insert_at p i p qs)
