-- ===== src/Permutation/Slots.antt =====
-- The word of a permutation as a number: a count, and the slots as digits in base 16.
use native.Mathlib.Nat.{
  one-le-pow, div-div-eq-div-mul, pow-le-pow_right, div-add-mod, zero-div, zero-mod,
}
use yakushima.Common.{
  ℕ, zero, suc, ◌+◌, ◌*◌, ◌/◌, ◌%◌, ◌^◌, ◌≤◌, ◌<◌, ◌≡◌, ap, sym, ◌∙◌, subst, List, [], ◌∷◌, some,
  arith, length, get_elem?, insert_at, remove_at, All, bit_and,
}
use yakushima.Common.Word.{pow-add}
use yakushima.Common.Bits.{bit_and_mask, bit_and_clear, bit_or_fields}
use yakushima.Permutation.{cnk_mask, get_cnk, put_cnk, dec_key_num, inc_key_num}

abbrev pub Slot : ℕ → Type 0
Slot p = p < 15

abbrev pub slots : List ℕ → ℕ
slots [] = 0
slots (p ∷ ps) = p + 16 * slots ps

-- The word with the count `c` and the slots `ps` in the order of their ranks.
abbrev pub word : ℕ → List ℕ → ℕ
word c ps = c + 16 * slots ps

-- The weight of the digit of a rank.
abbrev pub weight : ℕ → ℕ
weight rank = 2 ^ (4 * rank)

pub weight-pos : (r : ℕ) → 0 < weight r
weight-pos r = one-le-pow (4 * r) 2 (omega arith)

pub weight-suc : (r : ℕ) → weight (suc r) ≡ 16 * weight r
weight-suc r =
    ap (λ (j : ℕ). 2 ^ j) {x = 4 * suc r} {y = 4 + 4 * r} (omega arith) ∙ pow-add 4 (4 * r)

pub weight_mono : (r s : ℕ) → r ≤ s → weight r ≤ weight s
weight_mono r s h = pow-le-pow_right {n = 2} (omega arith) (omega arith)

-- A digit below the rest of the number.
pub digit-div : (x s b : ℕ) → x < 16 → (x + 16 * s) / (16 * b) ≡ s / b
digit-div x s b h = sym (div-div-eq-div-mul (x + 16 * s) 16 b) ∙ ap (λ (j : ℕ). j / b) (omega arith)

pub digit-mod : (x s b : ℕ) → 0 < b → x < 16 → (x + 16 * s) % (16 * b) ≡ x + 16 * (s % b)
digit-mod x s b pos h = omega (
  arith,
  div-add-mod (x + 16 * s) (16 * b),
  ap (λ (j : ℕ). 16 * b * j) (digit-div x s b h),
  ap (λ (j : ℕ). 16 * j) (div-add-mod s b),
)

pub slots-lt : (ps : List ℕ) → All Slot ps → slots ps < weight (length ps)
slots-lt [] h = omega arith
slots-lt (p ∷ ps) h = omega (arith, weight-suc (length ps), slots-lt ps h.1, h.0)

pub slots-get :
    (r : ℕ) {p : ℕ} (ps : List ℕ)
    → All Slot ps
    → get_elem? ps r ≡ some p
    → slots ps / weight r % 16 ≡ p
slots-get r [] h e = absurd (ground arith)
slots-get zero (q ∷ ps) h e = ground arith
slots-get (suc r) (q ∷ ps) h e =
    rw (weight-suc r, digit-div q (slots ps) (weight r) (omega arith)) (slots-get r ps h.1 e)

-- A digit below a number that is cut at a weight `w`, with a part `d` above the cut.
cut_step :
    (p s w d l : ℕ)
    → 0 < w
    → p < 16
    → l ≡ s % w + w * d
    → p + 16 * l ≡ (p + 16 * s) % (16 * w) + 16 * w * d
cut_step p s w d l pos h e = omega (arith, digit-mod p s w pos h, ap (λ (j : ℕ). 16 * j) e)

pub slots-remove_at :
    (r : ℕ) (ps : List ℕ)
    → All Slot ps
    → slots (remove_at r ps) ≡ slots ps % weight r + weight r * (slots ps / weight (suc r))
slots-remove_at r [] h = rw (zero-div, zero-mod) (omega arith)
slots-remove_at zero (p ∷ ps) h = omega (arith, h.0)
slots-remove_at (suc r) (p ∷ ps) h =
    let d = slots ps / weight (suc r) in
    let above : slots (p ∷ ps) / weight (suc (suc r)) ≡ d =
      ap (λ (w : ℕ). (p + 16 * slots ps) / w) (weight-suc (suc r))
      ∙ digit-div p (slots ps) (weight (suc r)) (omega arith) in
    rw above (
      subst (λ w. p + 16 * slots (remove_at r ps) ≡ (p + 16 * slots ps) % w + w * d)
        (sym (weight-suc r))
        (cut_step p (slots ps) (weight r) d _ (weight-pos r) (omega arith)
          (slots-remove_at r ps h.1)))

pub slots-insert_at :
    (r q : ℕ) (ps : List ℕ)
    → All Slot ps
    → r ≤ length ps
    → slots (insert_at r q ps) ≡ slots ps % weight r + weight r * (q + 16 * (slots ps / weight r))
slots-insert_at zero q ps h le = omega arith
slots-insert_at (suc r) q [] h le = elim le [ ]
slots-insert_at (suc r) q (p ∷ ps) h le =
    let d = q + 16 * (slots ps / weight r) in
    let above : (p + 16 * slots ps) / weight (suc r) ≡ slots ps / weight r =
      ap (λ (w : ℕ). (p + 16 * slots ps) / w) (weight-suc r)
      ∙ digit-div p (slots ps) (weight r) (omega arith) in
    rw above (
      subst (λ w. p + 16 * slots (insert_at r q ps) ≡ (p + 16 * slots ps) % w + w * d)
        (sym (weight-suc r))
        (cut_step p (slots ps) (weight r) d _ (weight-pos r) (omega arith)
          (slots-insert_at r q ps h.1 (omega arith))))

-- The count of a word is its low digit, and a store of a count leaves the slots alone.
pub get_cnk-word : (c : ℕ) (ps : List ℕ) → c < 16 → get_cnk (word c ps) ≡ c
unfolding get_cnk
get_cnk-word c ps h = omega (arith, bit_and_mask 4 (word c ps))

pub mask-word : (c : ℕ) (ps : List ℕ) → c < 16 → bit_and (word c ps) cnk_mask ≡ c
mask-word c ps h = omega (arith, bit_and_mask 4 (word c ps))

pub put_cnk-eq : (body c : ℕ) → body < 2 ^ 64 → c < 16 → put_cnk body c ≡ body / 16 * 16 + c
unfolding put_cnk
put_cnk-eq body c h fits = rw (bit_and_clear 60 4 body h) (bit_or_fields 4 (body / 16) c fits)

pub word-lt : (c : ℕ) (ps : List ℕ) → c < 16 → length ps ≤ 15 → All Slot ps → word c ps < 2 ^ 64
word-lt c ps h few small = omega (arith, slots-lt ps small, weight_mono (length ps) 15 few)

pub put_cnk-word :
    (c d : ℕ) (ps : List ℕ)
    → c < 16
    → d < 16
    → length ps ≤ 15
    → All Slot ps
    → put_cnk (word c ps) d ≡ word d ps
put_cnk-word c d ps hc hd few small =
    omega (arith, put_cnk-eq (word c ps) d (word-lt c ps hc few small) hd)

pub inc_key_num-word :
    (c : ℕ) (ps : List ℕ)
    → c < 15
    → length ps ≤ 15
    → All Slot ps
    → inc_key_num (word c ps) ≡ word (suc c) ps
unfolding inc_key_num
inc_key_num-word c ps h few small = rw (mask-word c ps (omega arith)) (
    put_cnk-word c _ ps (omega arith) (omega arith) few small
    ∙ ap (λ (d : ℕ). word d ps) (omega arith))

pub dec_key_num-word :
    (c : ℕ) (ps : List ℕ)
    → c < 15
    → length ps ≤ 15
    → All Slot ps
    → dec_key_num (word (suc c) ps) ≡ word c ps
unfolding dec_key_num
dec_key_num-word c ps h few small = rw (mask-word (suc c) ps (omega arith)) (
    put_cnk-word (suc c) _ ps (omega arith) (omega arith) few small
    ∙ ap (λ (d : ℕ). word d ps) (omega arith))
