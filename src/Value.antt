-- ===== src/Value.antt =====
-- include/value.h: a value is one word, either the value itself (inline) or the address of a
-- header with a flag in bit 62.
pub mod Word
pub mod Region
use yakushima.Common.{
  ℕ, ◌+◌, ◌-◌, ◌%◌, ◌^◌, Bool, true, false, List, Option, none, some, ◌>>=◌, ◌==◌, ltb,
  if◌then◌else◌, update, bit_and, bit_or, complement, add64,
}

-- The fields of `value`: 32, 16 and 1 bits.
pub record Header : Type 0 where
  pub len : ℕ
  pub align : ℕ
  pub need_delete : Bool

-- The memory that the values own: headers by their address, and the bytes that are copied behind
-- them. An address with no header is not allocated.
pub record Memory : Type 0 where
  pub header : ℕ → Option Header
  pub bytes : ℕ → List ℕ

abbrev pub val_ptr_flag : ℕ
val_ptr_flag = 2 ^ 62

unfoldable pub remove_ptr_flag : ℕ → ℕ
remove_ptr_flag val = bit_and val (complement val_ptr_flag)

unfoldable pub is_value_ptr : ℕ → Bool
is_value_ptr val = ltb 0 (bit_and val val_ptr_flag)

unfoldable pub need_delete : Memory → ℕ → Option Bool
need_delete m val =
    let v = remove_ptr_flag val in
    if v == val then some false else do h ← m.header v; some h.need_delete

-- The address of the bytes; an inline value stands for itself.
unfoldable pub get_body : Memory → ℕ → Option ℕ
get_body m val =
    let v = remove_ptr_flag val in
    if v == val then some v else do h ← m.header v; some (add64 v h.align)

unfoldable pub get_len : Memory → ℕ → Option ℕ
get_len m val =
    let v = remove_ptr_flag val in if v == val then some 8 else do h ← m.header v; some h.len

-- Address, size and alignment for `operator delete`; the sum is made in 32 bits.
unfoldable pub get_gc_info : Memory → ℕ → Option (ℕ × ℕ × ℕ)
get_gc_info m val =
    let v = remove_ptr_flag val in
    if v == val
    then some (0, 0, 0)
    else do h ← m.header v; some (v, (h.len + h.align) % 2 ^ 32, h.align)

unfoldable pub remove_delete_flag : Memory → ℕ → Option Memory
remove_delete_flag m val =
    let v = remove_ptr_flag val in
    if v == val then some m else do
      h ← m.header v
      some (record m { header = update m.header v (some (record h { need_delete = false })) })

-- `delete_value`: the region of the header is given back.
unfoldable pub delete_value : Memory → ℕ → Option Memory
delete_value m val =
    let v = remove_ptr_flag val in
    if v == val
    then some m
    else do h ← m.header v; some (record m { header = update m.header v none })

-- The constructor: the length and the alignment are cut to the width of their fields.
abbrev pub new_header : ℕ → ℕ → Header
new_header v_len v_align = record {
  len = v_len % 2 ^ 32;
  align = v_align % 2 ^ 16;
  need_delete = true;
}

abbrev pub at_least_8 : ℕ → ℕ
at_least_8 v_align = if ltb v_align 8 then 8 else v_align

-- What `create_value` asks `operator new` for.
unfoldable pub total_len : ℕ → ℕ → ℕ
total_len v_len v_align = add64 v_len (at_least_8 v_align)

-- `create_value<false>` with the address `page` that `operator new` returns; `none` for `page`
-- stands for `std::bad_alloc`, after which the code writes through a null pointer.
unfoldable pub create_value : Memory → Option ℕ → List ℕ → ℕ → ℕ → Option (Memory × ℕ)
create_value m page contents v_len v_align = do
  p ← page
  let h = new_header v_len (at_least_8 v_align)
  let v = bit_or p val_ptr_flag
  let m' = record m { header = update m.header p (some h) }
  body ← get_body m' v
  some (record m' { bytes = update m'.bytes body contents }, v)

-- `create_value<true>`: the word that stands at `in_ptr`.
unfoldable pub create_inline : ℕ → ℕ
create_inline word = word % 2 ^ 64
