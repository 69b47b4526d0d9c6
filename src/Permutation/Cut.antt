-- ===== src/Permutation/Cut.antt =====
-- The words that `delete_rank` and `insert` cut out of a permutation, as numbers.
use native.Mathlib.Nat.{mod-lt, div-eq_of_lt, div-mul-le_self}
use yakushima.Common.{
  ℕ, zero, suc, ◌+◌, ◌-◌, ◌*◌, ◌/◌, ◌%◌, ◌^◌, ◌≤◌, ◌<◌, ◌≡◌, refl, ap, ◌∙◌, List, some, arith,
  length, All, Bool-cases, false, ◌==◌, ◌||◌, inl, inr, add64, sub64, mul64, shl, shr, subst, ◌>>=◌,
  lt→ltb,
}
use yakushima.Common.Word.{shl-mul, shr-div, shl-shr}
use yakushima.Permutation.{low_part, delete_left, insert_left, get_cnk}
use yakushima.Permutation.Slots.{
  Slot, slots, word, weight, weight-pos, weight-suc, weight_mono, digit-div, digit-mod, slots-lt,
  get_cnk-word,
}

-- A shift up and back keeps the low bits.
keep_low : (w k j : ℕ) → k < 64 → 64 - k ≡ j → (shl w k >>= λ v. shr v k) ≡ some (w % 2 ^ j)
unfolding shl shr
keep_low w k j h e =
    rw (lt→ltb k 64 h) (ap some (shl-shr w k (omega arith) ∙ ap (λ (i : ℕ). w % 2 ^ i) e))

-- A shift down and up again moves what lies above a bit.
move_high :
    (w a b q i : ℕ)
    → a < 64
    → b < 64
    → b ≡ i
    → w / 2 ^ a ≡ q
    → q * 2 ^ i < 2 ^ 64
    → (shr w a >>= λ v. shl v b) ≡ some (q * 2 ^ i)
move_high w a b q i ha hb e d fits = rw (shr-div w a ha, d, e) (shl-mul q i (omega arith) fits)

pub record CutLow (c rank : ℕ) (ps : List ℕ) : Type 0 where
  pub value : ℕ
  pub returns : low_part (word c ps) rank ≡ some value
  pub small : value < weight (suc rank)
  pub digits : value / 16 ≡ slots ps % weight rank

-- `low_part` keeps the slots below the rank, with no shift out of range.
pub low_part-word : (c rank : ℕ) (ps : List ℕ) → c < 16 → rank < 15 → CutLow c rank ps
unfolding low_part
low_part-word c zero ps hc h = record {
  value = 0;
  returns = refl;
  small = weight-pos 1;
  digits = omega arith;
}
low_part-word c (suc r) ps hc h = record {
  value = word c ps % weight (suc (suc r));
  returns =
      let skip : (suc r == 0) ≡ false = ground arith in
      rw skip (
        keep_low (word c ps) (mul64 4 (sub64 15 (suc r))) (4 * suc (suc r)) (omega arith)
          (omega arith));
  small = mod-lt _ (weight-pos (suc (suc r)));
  digits =
      let cut : word c ps % weight (suc (suc r)) ≡ c + 16 * (slots ps % weight (suc r)) =
        ap (λ (w : ℕ). word c ps % w) (weight-suc (suc r))
        ∙ digit-mod c (slots ps) (weight (suc r)) (weight-pos (suc r)) hc in
      rw cut (omega arith);
}

above_rank :
    (c rank : ℕ) (ps : List ℕ) (j : ℕ)
    → c < 16
    → j ≡ 4 * suc rank
    → word c ps / 2 ^ j ≡ slots ps / weight rank
above_rank c rank ps j hc e =
    ap (λ (i : ℕ). word c ps / 2 ^ i) e
    ∙ ap (λ (w : ℕ). word c ps / w) (weight-suc rank)
    ∙ digit-div c (slots ps) (weight rank) hc

-- `delete_left` keeps the slots above the rank.
pub delete_left-word :
    (rank : ℕ) (ps : List ℕ)
    → length ps ≤ 15
    → All Slot ps
    → rank < length ps
    → delete_left (word (length ps) ps) rank
      ≡ some (slots ps / weight (suc rank) * weight (suc rank))
unfolding delete_left
delete_left-word rank ps few small h =
    elim (Bool-cases (rank == sub64 (get_cnk (word (length ps) ps)) 1 || rank == 14)) [
      | inl top ↦
          let full : length ps ≡ suc rank =
            ground (arith, get_cnk-word (length ps) ps (omega arith)) in
          let none_above : slots ps / weight (suc rank) ≡ 0 =
            div-eq_of_lt (subst (λ n. slots ps < weight n) full (slots-lt ps small)) in
          rw (top, none_above) (ap some (omega arith))
      | inr inner ↦
          let more : suc rank < length ps =
            ground (arith, get_cnk-word (length ps) ps (omega arith)) in
          rw inner (
            move_high (word (length ps) ps) (mul64 4 (add64 rank 2)) (mul64 4 (add64 rank 1))
              (slots ps / weight (suc rank)) (4 * suc rank) (omega arith) (omega arith)
              (omega arith) (above_rank (length ps) (suc rank) ps _ (omega arith) (omega arith))
              (omega (
                arith,
                div-mul-le_self (slots ps) (weight (suc rank)),
                slots-lt ps small,
                weight_mono (length ps) 15 few,
              )))
    ]

-- `insert_left` keeps the slots from the rank on, and loses none.
pub insert_left-word :
    (rank : ℕ) (ps : List ℕ)
    → length ps < 15
    → All Slot ps
    → rank ≤ length ps
    → insert_left (word (suc (length ps)) ps) rank
      ≡ some (slots ps / weight rank * weight (suc (suc rank)))
unfolding insert_left
insert_left-word rank ps few small h =
    elim (Bool-cases (rank == sub64 (get_cnk (word (suc (length ps)) ps)) 1)) [
      | inl top ↦
          let full : length ps ≡ rank =
            ground (arith, get_cnk-word (suc (length ps)) ps (omega arith)) in
          let none_above : slots ps / weight rank ≡ 0 =
            div-eq_of_lt (subst (λ n. slots ps < weight n) full (slots-lt ps small)) in
          rw (top, none_above) (ap some (omega arith))
      | inr inner ↦
          let more : rank < length ps =
            ground (arith, get_cnk-word (suc (length ps)) ps (omega arith)) in
          rw inner (
            move_high (word (suc (length ps)) ps) (mul64 4 (add64 rank 1)) (mul64 4 (add64 rank 2))
              (slots ps / weight rank) (4 * suc (suc rank)) (omega arith) (omega arith)
              (omega arith) (above_rank (suc (length ps)) rank ps _ (omega arith) (omega arith))
              (omega (
                arith,
                div-mul-le_self (slots ps) (weight rank),
                ap (λ (w : ℕ). slots ps / weight rank * w) (weight-suc rank),
                ap (λ (w : ℕ). slots ps / weight rank * w) (weight-suc (suc rank)),
                slots-lt ps small,
                weight_mono (length ps) 14 (omega arith),
              )))
    ]
