-- ===== src/Value/Region.antt =====
-- What `create_value` builds is what the readers see, and what is given back is what was taken.
use yakushima.Common.{
  ℕ, ◌+◌, ◌%◌, ◌^◌, ◌<◌, ◌≤◌, ◌≡◌, ◌∙◌, ap, true, false, ◌==◌, List, some, none, arith, bit_or,
  update, ==_refl, add64,
}
use yakushima.Common.Bits.{bit_or_flag}
use yakushima.Value.{
  Header, Memory, new_header, at_least_8, val_ptr_flag, remove_ptr_flag, is_value_ptr, need_delete,
  get_body, get_len, get_gc_info, create_value, delete_value, total_len,
}
use yakushima.Value.Word.{remove_ptr_flag-eq, is_value_ptr-flag}

-- A word that points to a header.
pub record Points (m : Memory) (val p : ℕ) (h : Header) : Type 0 where
  pub address : remove_ptr_flag val ≡ p
  pub flagged : (p == val) ≡ false
  pub holds : m.header p ≡ some h

module _ {m : Memory} {val p : ℕ} {h : Header} (at : Points m val p h) where
  need_delete-Points : need_delete m val ≡ some h.need_delete
  unfolding need_delete
  need_delete-Points = rw (at.address, at.flagged, at.holds)

  get_body-Points : get_body m val ≡ some (add64 p h.align)
  unfolding get_body
  get_body-Points = rw (at.address, at.flagged, at.holds)

  get_len-Points : get_len m val ≡ some h.len
  unfolding get_len
  get_len-Points = rw (at.address, at.flagged, at.holds)

  get_gc_info-Points : get_gc_info m val ≡ some (p, (h.len + h.align) % 2 ^ 32, h.align)
  unfolding get_gc_info
  get_gc_info-Points = rw (at.address, at.flagged, at.holds)

  delete_value-Points : delete_value m val ≡ some (record m { header = update m.header p none })
  unfolding delete_value
  delete_value-Points = rw (at.address, at.flagged, at.holds)

Points-new :
    (m : Memory) (p : ℕ) (h : Header)
    → p < 2 ^ 62
    → Points (record m { header = update m.header p (some h) }) (bit_or p val_ptr_flag) p h
Points-new m p h lt = record {
  address = ground (arith, remove_ptr_flag-eq (bit_or p val_ptr_flag), bit_or_flag 62 p lt);
  flagged = ground (arith, bit_or_flag 62 p lt);
  holds = rw (==_refl p);
}

-- What a caller of `create_value` can rely on.
pub record Created (m : Memory) (p : ℕ) (contents : List ℕ) (v_len v_align : ℕ) : Type 0 where
  pub memory : Memory
  pub word : ℕ
  pub returns : create_value m (some p) contents v_len v_align ≡ some (memory, word)
  pub pointer : is_value_ptr word ≡ true
  pub active : need_delete memory word ≡ some true
  pub length : get_len memory word ≡ some v_len
  pub body : get_body memory word ≡ some (p + at_least_8 v_align)
  pub stored : memory.bytes (p + at_least_8 v_align) ≡ contents
  pub region : get_gc_info memory word ≡ some (p, total_len v_len v_align, at_least_8 v_align)
  pub released :
      delete_value memory word ≡ some (record memory { header = update memory.header p none })

-- A value whose length, with its header, fits 32 bits and whose alignment fits 16 bits reads back
-- as it was created: flagged, active, with its length and bytes, and with the region that was
-- asked of `operator new` as the one to give back, behind an address below `2 ^ 62`.
pub create_value-Created :
    (m : Memory) (p : ℕ) (contents : List ℕ) (v_len v_align : ℕ)
    → p + at_least_8 v_align < 2 ^ 62
    → at_least_8 v_align < 2 ^ 16
    → v_len + at_least_8 v_align < 2 ^ 32
    → Created m p contents v_len v_align
unfolding create_value total_len
create_value-Created m p contents v_len v_align fits align_fits len_fits = record {
  memory = after;
  word = v;
  returns = rw body1;
  pointer = is_value_ptr-flag p (omega arith);
  active = need_delete-Points there;
  length = get_len-Points there ∙ ap some (omega arith);
  body = get_body-Points there ∙ ap some (omega arith);
  stored = rw (==_refl (p + at_least_8 v_align));
  region =
      get_gc_info-Points there
      ∙ ap (λ (n : ℕ). some (p, n, at_least_8 v_align % 2 ^ 16)) sizes
      ∙ ap (λ (a : ℕ). some (p, add64 v_len (at_least_8 v_align), a)) aligns;
  released = delete_value-Points there;
}
  where
    h : Header
    h = new_header v_len (at_least_8 v_align)

    v : ℕ
    v = bit_or p val_ptr_flag

    before : Memory
    before = record m { header = update m.header p (some h) }

    after : Memory
    after = record before { bytes = update m.bytes (p + at_least_8 v_align) contents }

    here : Points before v p h
    here = Points-new m p h (omega arith)

    there : Points after v p h
    there = record { address = here.address; flagged = here.flagged; holds = here.holds }

    body1 : get_body before v ≡ some (p + at_least_8 v_align)
    body1 = get_body-Points here ∙ ap some (omega arith)

    aligns : at_least_8 v_align % 2 ^ 16 ≡ at_least_8 v_align
    aligns = omega arith

    sizes :
        (v_len % 2 ^ 32 + at_least_8 v_align % 2 ^ 16) % 2 ^ 32 ≡ add64 v_len (at_least_8 v_align)
    sizes = omega arith

-- A length of `2 ^ 32` or more is cut to 32 bits: the length that is read back is smaller than the
-- one that was put, although `value_length_type` is `std::size_t`.
pub get_len-truncated :
    (m : Memory) (p : ℕ) (v_len v_align : ℕ)
    → p < 2 ^ 62
    → 2 ^ 32 ≤ v_len
    → (n : ℕ) × (get_len
          (record m { header = update m.header p (some (new_header v_len (at_least_8 v_align))) })
          (bit_or p val_ptr_flag)
        ≡ some n)
      × (n < v_len)
get_len-truncated m p v_len v_align lt big = (
  v_len % 2 ^ 32,
  get_len-Points (Points-new m p (new_header v_len (at_least_8 v_align)) lt),
  omega arith,
)
