-- ===== src/Permutation/Refinement.antt =====
-- The word of `permutation` refines the list of slots in the order of their ranks: each operation
-- of include/permutation.h on the word is the plain operation on that list.
use native.Mathlib.Nat.{mul-le-mul_left, mul-le-mul_right}
use yakushima.Common.{
  ℕ, suc, ◌+◌, ◌*◌, ◌/◌, ◌^◌, ◌≤◌, ◌<◌, ◌≡◌, ap, sym, ◌∙◌, List, some, arith, length,
  length-insert_at, length-remove_at, get_elem?, lt-length_of_get_elem?, insert_at, remove_at, All,
  All-insert_at, All-remove_at, Distinct, Distinct-insert_at, Distinct-remove_at, has, false, ◌==◌,
  if◌then◌else◌, Bool-cases, inl, inr, add64, mul64, shl, shr, ◌>>=◌, bit_or,
}
use yakushima.Common.Word.{shl-mul, shr-div}
use yakushima.Common.Bits.{bit_or_fields, bit_and_mask}
use yakushima.Permutation.{
  get_cnk, put_cnk, inc_key_num, dec_key_num, delete_rank, insert, get_index_of_rank,
}
use yakushima.Permutation.Slots.{
  Slot, slots, word, weight, weight-pos, weight-suc, weight_mono, slots-lt, slots-get,
  slots-remove_at, slots-insert_at, get_cnk-word, put_cnk-eq, inc_key_num-word, dec_key_num-word,
}
use yakushima.Permutation.Cut.{low_part-word, delete_left-word, insert_left-word}

-- The slots of the ranks: at most 15 of them, all different, and each below 15.
pub record IsOrder (ps : List ℕ) : Type 0 where
  pub few : length ps ≤ 15
  pub small : All Slot ps
  pub distinct : Distinct ps

-- The word that stands for a list of slots.
abbrev pub encode : List ℕ → ℕ
encode ps = word (length ps) ps

-- `get_cnk` is the number of keys.
pub get_cnk-encode : {ps : List ℕ} → IsOrder ps → get_cnk (encode ps) ≡ length ps
get_cnk-encode {ps} o = get_cnk-word (length ps) ps (omega (arith, o.few))

-- `get_index_of_rank` reads the slot of a rank that is in use.
pub get_index_of_rank-encode :
    {ps : List ℕ} (rank : ℕ) {p : ℕ}
    → IsOrder ps
    → get_elem? ps rank ≡ some p
    → get_index_of_rank (encode ps) rank ≡ some p
unfolding get_index_of_rank
get_index_of_rank-encode {ps} rank o e =
    let below : rank < length ps = lt-length_of_get_elem? ps rank e in
    let whole : shr (encode ps) 4 ≡ some (slots ps) =
      shr-div (encode ps) 4 (omega arith) ∙ ap some (omega (arith, o.few)) in
    let cut : (if rank == 0 then some (slots ps) else shr (slots ps) (mul64 4 rank))
        ≡ some (slots ps / weight rank) =
      elim (Bool-cases (rank == 0)) [
        | inl first ↦ let z : rank ≡ 0 = ground arith in rw (first, z) (ap some (omega arith))
        | inr later ↦ rw later (
            shr-div (slots ps) (mul64 4 rank) (omega (arith, o.few))
            ∙ ap (λ (j : ℕ). some (slots ps / 2 ^ j)) (omega (arith, o.few)))
      ] in
    rw (whole, cut)
      (ap some (bit_and_mask 4 (slots ps / weight rank) ∙ slots-get rank ps o.small e))

-- The two cuts put together under a count.
join :
    (c q v rank : ℕ) (qs : List ℕ)
    → c < 16
    → length qs ≤ 15
    → All Slot qs
    → v < weight (suc rank)
    → slots qs ≡ v / 16 + weight rank * q
    → put_cnk (bit_or (q * weight (suc rank)) v) c ≡ word c qs
join c q v rank qs hc few small hv e =
    let high : q * weight (suc rank) ≡ 16 * (weight rank * q) =
      omega (arith, ap (λ (w : ℕ). q * w) (weight-suc rank)) in
    let top : slots qs < weight 15 =
      omega (arith, slots-lt qs small, weight_mono (length qs) 15 few) in
    rw (bit_or_fields (4 * suc rank) q v hv)
      (put_cnk-eq (q * weight (suc rank) + v) c (omega arith) hc ∙ omega arith)

-- The word after `delete_rank`, whose count is still the old one.
delete_rank-word :
    (rank : ℕ) (ps : List ℕ)
    → length ps ≤ 15
    → All Slot ps
    → rank < length ps
    → delete_rank (encode ps) rank ≡ some (word (length ps) (remove_at rank ps))
unfolding delete_rank
delete_rank-word rank ps few small h =
    let low = low_part-word (length ps) rank ps (omega arith) (omega arith) in
    rw
      (delete_left-word rank ps few small h, low.returns, get_cnk-word (length ps) ps (omega arith))
      (ap some (
        join (length ps) (slots ps / weight (suc rank)) low.value rank (remove_at rank ps)
          (omega arith) (omega (arith, length-remove_at rank ps h))
          (All-remove_at Slot rank ps small) low.small
          (slots-remove_at rank ps small
            ∙ ap (λ (l : ℕ). l + weight rank * (slots ps / weight (suc rank))) (sym low.digits))))

insert-word :
    (rank p : ℕ) (ps : List ℕ)
    → length ps < 15
    → All Slot ps
    → p < 15
    → rank ≤ length ps
    → insert (word (suc (length ps)) ps) rank p ≡ some (encode (insert_at rank p ps))
unfolding insert
insert-word rank p ps few small fits h =
    let low = low_part-word (suc (length ps)) rank ps (omega arith) (omega arith) in
    let d = slots ps / weight rank in
    let target : shl p (mul64 4 (add64 rank 1)) ≡ some (p * weight (suc rank)) =
      ap (shl p) {y = 4 * suc rank} (omega arith)
      ∙ shl-mul p (4 * suc rank) (omega arith) (
          omega (
            arith,
            mul-le-mul_left {m = weight (suc rank)} {n = weight 15} p
                (weight_mono (suc rank) 15 (omega arith)),
          )) in
    let both : bit_or (d * weight (suc (suc rank))) (p * weight (suc rank))
        ≡ (p + 16 * d) * weight (suc rank) =
      bit_or_fields (4 * suc (suc rank)) d (p * weight (suc rank)) (
        omega (
          arith,
          weight-suc (suc rank),
          weight-pos (suc rank),
          mul-le-mul_right {m = p} {n = 15} (weight (suc rank)) (omega arith),
        ))
      ∙ omega (arith, ap (λ (w : ℕ). d * w) (weight-suc (suc rank))) in
    rw
      (
        target,
        insert_left-word rank ps few small h,
        low.returns,
        get_cnk-word (suc (length ps)) ps (omega arith),
        both,
        length-insert_at,
      )
      (ap some (
        join (suc (length ps)) (p + 16 * d) low.value rank (insert_at rank p ps) (omega arith)
          (omega (arith, length-insert_at rank p ps)) (All-insert_at Slot rank p ps fits small)
          low.small
          (slots-insert_at rank p ps small h
            ∙ ap (λ (l : ℕ). l + weight rank * (p + 16 * d)) (sym low.digits))))

-- `delete_rank` and then `dec_key_num`, as `border_node::delete_at` calls them, remove the rank
-- from the order: no shift is out of range, and what is left is again an order.
pub delete-encode :
    {ps : List ℕ} (rank : ℕ)
    → IsOrder ps
    → rank < length ps
    → ((do w ← delete_rank (encode ps) rank; some (dec_key_num w))
        ≡ some (encode (remove_at rank ps)))
      × IsOrder (remove_at rank ps)
delete-encode {ps} rank o h =
    let small = All-remove_at Slot rank ps o.small in
    let count = length-remove_at rank ps h in
    (
      rw (delete_rank-word rank ps o.few o.small h, ← count)
          (ap some (
            dec_key_num-word _ (remove_at rank ps) (omega (arith, o.few)) (omega (arith, o.few))
              small)),
      record {
        few = omega (arith, o.few);
        small = small;
        distinct = Distinct-remove_at rank ps o.distinct;
      },
    )

-- `inc_key_num` and then `insert`, as `border_node::insert_lv_at` calls them, put a slot that is
-- not in use at the rank, and move the ranks from there on up by one, where the node is not full.
pub insert-encode :
    {ps : List ℕ} (rank p : ℕ)
    → IsOrder ps
    → length ps < 15
    → rank ≤ length ps
    → p < 15
    → has p ps ≡ false
    → (insert (inc_key_num (encode ps)) rank p ≡ some (encode (insert_at rank p ps)))
      × IsOrder (insert_at rank p ps)
insert-encode {ps} rank p o few h fits unused = (
  rw (inc_key_num-word (length ps) ps few o.few o.small) (insert-word rank p ps few o.small fits h),
  record {
    few = omega (arith, length-insert_at rank p ps);
    small = All-insert_at Slot rank p ps fits o.small;
    distinct = Distinct-insert_at rank p ps unused o.distinct;
  },
)
