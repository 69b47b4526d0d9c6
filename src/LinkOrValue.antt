-- ===== src/LinkOrValue.antt =====
-- include/link_or_value.h: one word of a border node, the root of the next layer (flag in bit 63)
-- or a value word (include/value.h). A null pointer is the address 0.
pub mod Kinds
use yakushima.Common.{
  ℕ, ◌+◌, ◌^◌, Bool, true, false, not, ◌&&◌, ◌||◌, Option, none, some, ◌>>=◌, ◌==◌, ltb,
  if◌then◌else◌, bit_and, bit_or, complement,
}
use yakushima.Value.{Memory, val_ptr_flag, need_delete, delete_value, get_body}

abbrev pub child_flag : ℕ
child_flag = 2 ^ 63

unfoldable pub get_next_layer : ℕ → ℕ
get_next_layer lv = if bit_and lv child_flag == 0 then 0 else bit_and lv (complement child_flag)

unfoldable pub get_value : ℕ → ℕ
get_value lv = if ltb 0 (bit_and lv child_flag) || lv == val_ptr_flag then 0 else lv

abbrev pub init_lv : ℕ
init_lv = val_ptr_flag

unfoldable pub set_next_layer : ℕ → ℕ
set_next_layer new_next_layer = bit_or new_next_layer child_flag

-- What `set_value` leaves: the word, the memory of the values, and what it writes through its two
-- pointer arguments (`none` where it writes nothing).
pub record SetValue : Type 0 where
  pub lv : ℕ
  pub memory : Memory
  pub old_value : Option ℕ
  pub created_value : Option ℕ

-- The value that is replaced, if it is active: handed out if the caller asks for it, else deleted.
unfoldable pub drop_active : Memory → ℕ → Bool → Option (Memory × Option ℕ)
drop_active m cur_v true = some (m, some cur_v)
drop_active m cur_v false = do m' ← delete_value m cur_v; some (m', none)

unfoldable pub drop_value : Memory → ℕ → Bool → Option (Memory × Option ℕ)
drop_value m cur_v wants_old = if cur_v == 0 then some (m, none) else do
  active ← need_delete m cur_v
  if active then drop_active m cur_v wants_old else some (m, none)

-- `*created_value_ptr = value::get_body(v_ptr)`, if the pointer is not null.
unfoldable pub created_body : Memory → ℕ → Bool → Option (Option ℕ)
created_body m v true = do body ← get_body m v; some (some body)
created_body m v false = some none

unfoldable pub set_value : Memory → ℕ → ℕ → Bool → Bool → Option SetValue
set_value m lv new_value wants_created wants_old = do
  (m', old) ← drop_value m (get_value lv) wants_old
  created ← created_body m' new_value wants_created
  some (record { lv = new_value; memory = m'; old_value = old; created_value = created })
