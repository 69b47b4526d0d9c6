-- ===== src/LinkOrValue/Kinds.antt =====
-- A word of a border node reads as what was stored: a link, a value, or nothing.
use yakushima.Common.{ℕ, ◌+◌, ◌-◌, ◌*◌, ◌/◌, ◌%◌, ◌^◌, ◌<◌, ◌≤◌, ◌≡◌, ◌≢◌, refl, arith}
use yakushima.Common.Bits.{bit_and_flag, bit_or_flag, bit_and_mask}
use yakushima.LinkOrValue.{get_next_layer, get_value, init_lv, set_next_layer}

get_next_layer-eq : (w : ℕ) → w < 2 ^ 64 → get_next_layer w ≡ (w / 2 ^ 63) * (w % 2 ^ 63)
unfolding get_next_layer
get_next_layer-eq w h = ground (arith, bit_and_flag 63 w, bit_and_mask 63 w)

-- A link reads as the node that was stored, and as no value; an address is below `2 ^ 63`.
pub set_next_layer-read :
    (p : ℕ)
    → p < 2 ^ 63
    → (get_next_layer (set_next_layer p) ≡ p) × (get_value (set_next_layer p) ≡ 0)
unfolding get_next_layer get_value set_next_layer
set_next_layer-read p h =
    ground (arith, bit_or_flag 63 p h, bit_and_flag 63 (2 ^ 63 + p), bit_and_mask 63 (2 ^ 63 + p))

-- A word below `2 ^ 63` that is not the bare flag reads as a value, and as no link.
pub get_value-read : (w : ℕ) → w < 2 ^ 63 → w ≢ init_lv → (get_value w ≡ w) × (get_next_layer w ≡ 0)
unfolding get_next_layer get_value
get_value-read w h ne = ground (arith, bit_and_flag 63 w)

-- A fresh word reads as neither.
pub init_lv-read : (get_value init_lv ≡ 0) × (get_next_layer init_lv ≡ 0)
unfolding get_next_layer get_value
init_lv-read = (refl, refl)

-- A word with bit 63 set reads as a link and never as a value.
pub inline_value_taken_for_link :
    (w : ℕ) → 2 ^ 63 ≤ w → w < 2 ^ 64 → (get_value w ≡ 0) × (get_next_layer w ≡ w - 2 ^ 63)
unfolding get_next_layer get_value
inline_value_taken_for_link w lo hi = ground (arith, bit_and_flag 63 w, bit_and_mask 63 w)
