-- ===== src/Permutation.antt =====
-- include/permutation.h: the order of the slots of a border node in one 64-bit word.
-- The low 4 bits count the keys, and the 4 bits from `4 * (rank + 1)` on hold the slot of `rank`.
-- An operation takes the word that it loads and returns the word that it stores; a shift by 64 or
-- more, or a bit out of the `std::bitset<15>`, is a fault (`none`).
pub mod Slots
mod Cut
pub mod Refinement
pub mod EmptySlot
pub mod Split
use yakushima.Common.{
  ℕ, zero, suc, ◌+◌, ◌-◌, ◌^◌, ◌%◌, bit_and, bit_or, Bool, true, false, ◌||◌, Option, none, some,
  ◌>>=◌, if◌then◌else◌, ◌==◌, Array, set_at, add64, sub64, mul64, complement, shl, shr,
}
use yakushima.Scheme.{key_slice_length}

abbrev pub cnk_mask : ℕ
cnk_mask = 0b1111

abbrev pub cnk_bit_size : ℕ
cnk_bit_size = 4

abbrev pub pkey_bit_size : ℕ
pkey_bit_size = 4

-- `static_cast<uint8_t>(per_body & cnk_mask)`
unfoldable pub get_cnk : ℕ → ℕ
get_cnk body = bit_and body cnk_mask % 2 ^ 8

-- The store of a new count: `per_body &= ~cnk_mask; per_body |= cnk`.
unfoldable pub put_cnk : ℕ → ℕ → ℕ
put_cnk body cnk = bit_or (bit_and body (complement cnk_mask)) cnk

unfoldable pub dec_key_num : ℕ → ℕ
dec_key_num body = put_cnk body (sub64 (bit_and body cnk_mask) 1)

unfoldable pub inc_key_num : ℕ → ℕ
inc_key_num body = put_cnk body (add64 (bit_and body cnk_mask) 1)

unfoldable pub set_cnk : ℕ → ℕ → ℕ
set_cnk body cnk = put_cnk body cnk

-- `permutation::init`
abbrev pub init : ℕ
init = 0

-- `right` of `delete_rank` and `insert`: the word below the slot of `rank`.
unfoldable pub low_part : ℕ → ℕ → Option ℕ
low_part body rank = if rank == 0 then some 0 else do
  right ← shl body (mul64 pkey_bit_size (sub64 key_slice_length rank))
  shr right (mul64 pkey_bit_size (sub64 key_slice_length rank))

-- `left` of `delete_rank`: the slots above `rank`, moved down by one.
unfoldable pub delete_left : ℕ → ℕ → Option ℕ
delete_left body rank =
    if rank == sub64 (get_cnk body) 1 || rank == sub64 key_slice_length 1 then some 0 else do
      left ← shr body (mul64 pkey_bit_size (add64 rank 2))
      shl left (mul64 pkey_bit_size (add64 rank 1))

unfoldable pub delete_rank : ℕ → ℕ → Option ℕ
delete_rank body rank = do
  left ← delete_left body rank
  right ← low_part body rank
  some (put_cnk (bit_or left right) (get_cnk body))

-- `left` of `insert`: the slots from `rank` on, moved up by one.
unfoldable pub insert_left : ℕ → ℕ → Option ℕ
insert_left body rank = if rank == sub64 (get_cnk body) 1 then some 0 else do
  left ← shr body (mul64 pkey_bit_size (add64 rank 1))
  shl left (mul64 pkey_bit_size (add64 rank 2))

unfoldable pub insert : ℕ → ℕ → ℕ → Option ℕ
insert body rank pos = do
  target ← shl pos (mul64 pkey_bit_size (add64 rank 1))
  left ← insert_left body rank
  right ← low_part body rank
  some (put_cnk (bit_or (bit_or left target) right) (get_cnk body))

-- The first loop of `get_empty_slot`, with the rounds that are left: each takes the next slot.
unfoldable pub mark_slots : ℕ → ℕ → Array Bool → Option (Array Bool)
mark_slots zero body bs = some bs
mark_slots (suc left) body bs = do
  next ← shr body cnk_bit_size
  bs' ← set_at 15 bs (bit_and next cnk_mask) true
  mark_slots left next bs'

-- Its second loop, from bit `i` on; 0 after the logged programming error.
unfoldable pub first_clear : ℕ → ℕ → Array Bool → ℕ
first_clear zero i bs = 0
first_clear (suc left) i bs = let rest = first_clear left (i + 1) bs in if bs i then rest else i

unfoldable pub get_empty_slot : ℕ → Option ℕ
get_empty_slot body =
    if bit_and body cnk_mask == 0
    then some 0
    else do bs ← mark_slots (bit_and body cnk_mask) body (λ _. false); some (first_clear 15 0 bs)

unfoldable pub get_lowest_key_pos : ℕ → Option ℕ
get_lowest_key_pos body = do per ← shr body cnk_bit_size; some (bit_and per cnk_mask)

unfoldable pub get_index_of_rank : ℕ → ℕ → Option ℕ
get_index_of_rank body rank = do
  per ← shr body cnk_bit_size
  per' ← if rank == 0 then some per else shr per (mul64 pkey_bit_size rank)
  some (bit_and per' cnk_mask)

-- The loop of `split_dest` at `i`, with the rounds that are left.
unfoldable pub split_loop : ℕ → ℕ → ℕ → Option ℕ
split_loop zero i body = some body
split_loop (suc left) i body = do
  slot ← shl i (mul64 pkey_bit_size (add64 i 1))
  split_loop left (add64 i 1) (bit_or body slot)

unfoldable pub split_dest : ℕ → Option ℕ
split_dest num = do body ← split_loop (num - 1) 1 0; some (bit_or body num)
