-- ===== src/Value/Word.antt =====
-- Flags and addresses in a value word.
use yakushima.Common.{ℕ, ◌+◌, ◌-◌, ◌*◌, ◌/◌, ◌%◌, ◌^◌, ◌<◌, ◌≡◌, true, false, arith, bit_or}
use yakushima.Common.Bits.{bit_and_split, bit_and_flag, bit_or_flag, bit_and_mask, bit_and_clear}
use yakushima.Value.{val_ptr_flag, remove_ptr_flag, is_value_ptr}

-- `remove_ptr_flag` clears bit 62 and keeps all others.
pub remove_ptr_flag-eq : (w : ℕ) → w < 2 ^ 64 → remove_ptr_flag w ≡ w / 2 ^ 63 * 2 ^ 63 + w % 2 ^ 62
unfolding remove_ptr_flag
remove_ptr_flag-eq w h =
    let cut =
      bit_and_split 62 (w / 2 ^ 62) 2 (w % 2 ^ 62) (2 ^ 62 - 1) (omega arith) (omega arith) in
    let top = bit_and_clear 1 1 (w / 2 ^ 62) (omega arith) in
    let low = bit_and_mask 62 (w % 2 ^ 62) in
    let whole : w / 2 ^ 62 * 2 ^ 62 + w % 2 ^ 62 ≡ w = omega arith in
    ground (arith, cut, top, low, whole)

pub is_value_ptr-flag : (p : ℕ) → p < 2 ^ 62 → is_value_ptr (bit_or p val_ptr_flag) ≡ true
unfolding is_value_ptr
is_value_ptr-flag p h = ground (arith, bit_or_flag 62 p h, bit_and_flag 62 (bit_or p (2 ^ 62)))

pub is_value_ptr-inline : (w : ℕ) → w < 2 ^ 62 → is_value_ptr w ≡ false
unfolding is_value_ptr
is_value_ptr-inline w h = ground (arith, bit_and_flag 62 w)
