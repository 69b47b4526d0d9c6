-- ===== src/BorderNode/SplitPlaced.antt =====
-- `split_and_insert` loses no entry of a full node and adds the new one.
use Prim.Native.Nat.{Ordering}
use yakushima.Common.{
  sub64, ℕ, suc, ◌+◌, ◌-◌, ◌≤◌, ◌<◌, ◌≡◌, ◌≢◌, refl, sym, subst, ◌∙◌, ap, Bool, true, false, List,
  [], ◌∷◌, ◌++◌, length, get_elem?, has, insert_at, ◌>>=◌, Option, none, some, if◌then◌else◌, arith,
  Bool-cases, inl, inr,
}
use yakushima.Key.{Bytes, prepare, key_compare, prefix_compare}
use yakushima.Key.Lex.{prefix_compare-key_compare}
use yakushima.BaseNode.{Ptr, key_at}
use yakushima.Version.{set_splitting}
use yakushima.LinkOrValue.{init_lv, get_next_layer}
use yakushima.Permutation.EmptySlot.{full-has}
use yakushima.Permutation.Split.{count_from}
use yakushima.InteriorNode.{goes_left}
use yakushima.InteriorNode.Routing.{tuple_at, key_at-in_range}
use yakushima.BorderNode.{BorderNode}
use yakushima.BorderNode.Change.{insert_lv_at, Store}
use yakushima.BorderNode.Entries.{Holds, Sorted}
use yakushima.BorderNode.Search.{lookup, count_smaller, IsBelow, count_smaller-none, nothing_behind}
use yakushima.BorderNode.Insertion.{
  prepare-WellFormed, Agree, count_smaller-le, Sorted-Agree, count_smaller-Agree,
}
use yakushima.BorderNode.Split.{
  Split, split_entries, goes_lower, remaining_size, insert_lower, insert_higher, split_and_insert,
}
use yakushima.BorderNode.Parts.{Halved, split_entries-Halved, length-append}
use yakushima.BorderNode.Divided.{
  stored, All-map, side, Distinct-apart, Sorted-behind, side_slots, Halved-stored,
}
use yakushima.BorderNode.SplitInsert.{
  goes_lower-goes_left, stored-new, stored-old, stored-none, has-behind, put_into,
}
use yakushima.BorderNode.SplitOrder.{
  Sorted-count_from, Sorted-front, count_smaller-append, count_smaller-above, new-apart,
  greater_in_front, count_smaller-count_from,
}

-- The two nodes behind the insertion, with their slots in use.
pub record Served (border : BorderNode) (ps : List ℕ) (pivot key : Bytes) (word : ℕ) (s : Store)
    (result : Option Split) : Type 0 where
  pub after : Split
  pub lower_slots : List ℕ
  pub higher_slots : List ℕ
  pub returns : result ≡ some after
  pub same_store : after.store ≡ s
  pub no_address : after.created ≡ none
  pub lower_holds : Holds after.parts.lower lower_slots
  pub lower_sorted : Sorted (tuple_at after.parts.lower.base) lower_slots
  pub higher_holds : Holds after.parts.higher higher_slots
  pub higher_sorted : Sorted (tuple_at after.parts.higher.base) higher_slots
  pub front : tuple_at after.parts.higher.base 0 ≡ prepare pivot
  pub no_layers : ((q : ℕ) → get_next_layer (border.lv q) ≡ 0) → after.parts.moved_layers ≡ []
  pub lower_parent : after.parts.lower.base.parent ≡ border.base.parent
  pub lower_version : after.parts.lower.base.version ≡ set_splitting true border.base.version
  pub higher_version : after.parts.higher.base.version ≡ set_splitting true border.base.version
  pub relinked : after.parts.relinked ≡ border.next
  pub new :
      (let left = goes_left (prepare key) (prepare pivot) in
        stored (side left after.parts) (prepare key) (if left then lower_slots else higher_slots)
        ≡ some word)
  pub old :
      (k : Bytes)
      → key_compare (prepare k) (prepare key) ≢ Ordering.eq
      → (let left = goes_left (prepare k) (prepare pivot) in
          stored (side left after.parts) (prepare k) (if left then lower_slots else higher_slots)
          ≡ stored border (prepare k) ps)

-- The subtraction of `size_t` where it does not wrap.
sub64-above : (a b : ℕ) → b ≤ a → a ≤ 15 → sub64 a b ≡ a - b
sub64-above a b le few = omega (arith, le, few)

module _ {border : BorderNode} {self fresh : Ptr} {xs ys : List ℕ} {y : ℕ}
    (h : Halved border self fresh xs (y ∷ ys) (split_entries border self fresh))
    (o : Holds border (xs ++ y ∷ ys)) (s : Sorted (tuple_at border.base) (xs ++ y ∷ ys))
    (eight : length xs ≡ 8) (seven : length (y ∷ ys) ≡ 7) (pivot : Bytes)
    (front : tuple_at border.base y ≡ prepare pivot) (fuel : ℕ) (st : Store) (key : Bytes)
    (word : ℕ) (short : length key ≤ 8)
    (new : lookup (tuple_at border.base) (prepare key) (xs ++ y ∷ ys) ≡ none) where
  ps : List ℕ
  ps = xs ++ y ∷ ys

  rank : ℕ
  rank = count_smaller (tuple_at border.base) (prepare key) (xs ++ y ∷ ys)

  full : length (xs ++ y ∷ ys) ≡ 15
  full = omega (arith, length-append xs (y ∷ ys), eight, seven)

  lower_agrees : Agree (tuple_at border.base) (tuple_at h.after.lower.base) xs
  lower_agrees =
      All-map {P = λ x. has x (y ∷ ys) ≡ false} xs (λ x e. h.kept x e)
        (Distinct-apart xs (y ∷ ys) o.order.distinct)

  higher_reads :
      (i q : ℕ)
      → get_elem? (y ∷ ys) i ≡ some q
      → tuple_at h.after.higher.base (0 + i) ≡ tuple_at border.base q
  higher_reads i q e =
      ap (λ (c : ℕ). tuple_at h.after.higher.base c) {x = 0 + i} {y = i} (omega arith)
      ∙ h.moved_key i q e

  lower_sorted : Sorted (tuple_at h.after.lower.base) xs
  lower_sorted =
      Sorted-Agree (tuple_at border.base) (tuple_at h.after.lower.base) xs lower_agrees
        (Sorted-front (tuple_at border.base) xs (y ∷ ys) s)

  higher_sorted : Sorted (tuple_at h.after.higher.base) (count_from 0 7)
  higher_sorted =
      subst (λ c. Sorted (tuple_at h.after.higher.base) (count_from 0 c)) seven
        (Sorted-count_from (tuple_at border.base) (tuple_at h.after.higher.base) 0 (y ∷ ys)
          higher_reads (Sorted-behind (tuple_at border.base) xs (y ∷ ys) s))

  by_key :
      prefix_compare (prepare key) (prepare pivot)
      ≡ key_compare (prepare key) (tuple_at border.base y)
  by_key = prefix_compare-key_compare key pivot ∙ ap (key_compare (prepare key)) (sym front)

  lower_free : (p : ℕ) → p < 15 → has p xs ≡ false → h.after.lower.lv p ≡ init_lv
  lower_free p fits e = h.gone_lv p (has-behind p xs (y ∷ ys) (full-has p o.order full fits) e)

  higher_free : (p : ℕ) → p < 15 → has p (count_from 0 7) ≡ false → h.after.higher.lv p ≡ init_lv
  higher_free p fits e = h.free_lv p (ground (arith, e))

  rank_lower :
      key_compare (prepare key) (tuple_at border.base y) ≡ Ordering.lt
      → rank ≡ count_smaller (tuple_at h.after.lower.base) (prepare key) xs
  unfolding rank
  rank_lower less =
      let below : IsBelow (tuple_at border.base) (prepare key) (y ∷ ys) = (
        less,
        nothing_behind (tuple_at border.base) (prepare key) y ys (prepare-WellFormed key)
            (λ more. absurd (ground (arith, less, more)))
            (Sorted-behind (tuple_at border.base) xs (y ∷ ys) s),
      ) in
      omega (
        arith,
        count_smaller-append (tuple_at border.base) (prepare key) xs (y ∷ ys),
        count_smaller-none (tuple_at border.base) (prepare key) (y ∷ ys) below,
        count_smaller-Agree (tuple_at border.base) (tuple_at h.after.lower.base) (prepare key) xs
            lower_agrees,
      )

  rank_small : rank ≤ 15
  unfolding rank
  rank_small =
      omega
        (arith, count_smaller-le (tuple_at border.base) (prepare key) (xs ++ y ∷ ys), o.order.few)

  rank_higher :
      key_compare (prepare key) (tuple_at border.base y) ≢ Ordering.lt
      → (remaining_size ≤ rank)
        × (rank - remaining_size
            ≡ count_smaller (tuple_at h.after.higher.base) (prepare key) (count_from 0 7))
  unfolding rank
  rank_higher more =
      let all =
        greater_in_front (tuple_at border.base) (prepare key) xs y ys (prepare-WellFormed key) more
          s in
      let behind : count_smaller (tuple_at h.after.higher.base) (prepare key) (count_from 0 7)
          ≡ count_smaller (tuple_at border.base) (prepare key) (y ∷ ys) =
        subst
          (λ c.
            count_smaller (tuple_at h.after.higher.base) (prepare key) (count_from 0 c)
            ≡ count_smaller (tuple_at border.base) (prepare key) (y ∷ ys))
          seven
          (count_smaller-count_from (tuple_at border.base) (tuple_at h.after.higher.base)
            (prepare key) 0 (y ∷ ys) higher_reads) in
      let count = count_smaller-append (tuple_at border.base) (prepare key) xs (y ∷ ys) in
      let eights = count_smaller-above (tuple_at border.base) (prepare key) xs all in
      (omega (arith, count, eights, eight), omega (arith, count, eights, eight, behind))

  decision : goes_lower (prepare key) (prepare pivot) rank ≡ goes_left (prepare key) (prepare pivot)
  decision =
      goes_lower-goes_left (prepare key) (prepare pivot) rank (prepare-WellFormed key)
        (prepare-WellFormed pivot)
        (λ e. new-apart (tuple_at border.base) (prepare key) xs y ys new (sym by_key ∙ e))
        (λ e. (rank_higher (λ less. absurd (ground (arith, sym by_key ∙ e, less)))).0)

  first_key : key_at h.after.higher.base 0 ≡ some (prepare pivot)
  first_key =
      key_at-in_range h.after.higher.base 0 (omega arith) ∙ ap some (h.moved_key 0 y refl ∙ front)

  old_word :
      (k : Bytes) (left : Bool)
      → goes_left (prepare k) (prepare pivot) ≡ left
      → stored (side left h.after) (prepare k) (side_slots left xs)
        ≡ stored border (prepare k) (xs ++ y ∷ ys)
  old_word k left e =
      subst
        (λ t.
          stored (side t h.after) (prepare k) (side_slots t xs)
          ≡ stored border (prepare k) (xs ++ y ∷ ys))
        e (Halved-stored h o s seven pivot k front)

  absent :
      (left : Bool)
      → goes_left (prepare key) (prepare pivot) ≡ left
      → lookup (tuple_at (side left h.after).base) (prepare key) (side_slots left xs) ≡ none
  absent left e =
      stored-none (side left h.after) (prepare key) (side_slots left xs)
        (old_word key left e ∙ ap (λ q. do r ← q; some (border.lv r)) new)

  Served-lower :
      goes_left (prepare key) (prepare pivot) ≡ true
      → Served border
          (xs ++ y ∷ ys)
          pivot
          key
          word
          st
          (split_and_insert (suc fuel) st self fresh border key word false rank)
  unfolding split_and_insert insert_lower rank
  Served-lower e =
      let less : key_compare (prepare key) (tuple_at border.base y) ≡ Ordering.lt =
        ground (arith, by_key, e) in
      let put =
        put_into st fuel self key word rank h.lower_holds lower_sorted (omega (arith, eight))
          (absent true e) short (rank_lower less) lower_free in
      let a = put.placed in
      let after : Split = record {
        parts = record h.after { lower = a.after.node };
        store = a.after.store;
        created = a.after.created;
      } in
      record {
        after = after;
        lower_slots = insert_at rank put.slot xs;
        higher_slots = count_from 0 7;
        returns =
            simp (h.returns)
              (simp (first_key) (simp (decision, e) (simp (put.empty) (simp (a.returns) refl))));
        same_store = a.same_store;
        no_address = a.no_address;
        lower_holds = a.holds;
        lower_sorted = a.sorted;
        higher_holds = h.higher_holds;
        higher_sorted = higher_sorted;
        front = h.moved_key 0 y refl ∙ front;
        no_layers = h.no_layers;
        lower_parent = a.same_parent ∙ h.lower_parent;
        lower_version = a.same_version ∙ h.lower_version;
        higher_version = h.higher_version;
        relinked = h.relinked;
        new =
            subst
              (λ t.
                stored (side t after.parts) (prepare key)
                  (if t then insert_at rank put.slot xs else count_from 0 7)
                ≡ some word)
              (sym e) (stored-new a);
        old = λ k apart. elim (Bool-cases (goes_left (prepare k) (prepare pivot))) [
          | inl f ↦
              subst
                (λ t.
                  stored (side t after.parts) (prepare k)
                    (if t then insert_at rank put.slot xs else count_from 0 7)
                  ≡ stored border (prepare k) (xs ++ y ∷ ys))
                (sym f) (stored-old a (prepare k) put.unused apart ∙ old_word k true f)
          | inr f ↦
              subst
                (λ t.
                  stored (side t after.parts) (prepare k)
                    (if t then insert_at rank put.slot xs else count_from 0 7)
                  ≡ stored border (prepare k) (xs ++ y ∷ ys))
                (sym f) (old_word k false f)
        ];
      }

  Served-higher :
      goes_left (prepare key) (prepare pivot) ≡ false
      → Served border
          (xs ++ y ∷ ys)
          pivot
          key
          word
          st
          (split_and_insert (suc fuel) st self fresh border key word false rank)
  unfolding split_and_insert insert_higher rank
  Served-higher e =
      let more : key_compare (prepare key) (tuple_at border.base y) ≢ Ordering.lt =
        λ c. absurd (ground (arith, by_key, e, c)) in
      let same : sub64 rank remaining_size ≡ rank - remaining_size =
        sub64-above rank remaining_size (rank_higher more).0 rank_small in
      let put =
        put_into st fuel fresh key word (rank - remaining_size) h.higher_holds higher_sorted
          (omega arith) (absent false e) short (rank_higher more).1 higher_free in
      let a = put.placed in
      let after : Split = record {
        parts = record h.after { higher = a.after.node };
        store = a.after.store;
        created = a.after.created;
      } in
      let used : 0 ≢ put.slot = ground (arith, put.unused) in
      let wrapped =
        subst
          (λ r.
            insert_lv_at (suc fuel) st fresh h.after.higher put.slot key word false r
            ≡ some a.after)
          (sym same) a.returns in
      record {
        after = after;
        lower_slots = xs;
        higher_slots = insert_at (rank - remaining_size) put.slot (count_from 0 7);
        returns =
            simp (h.returns)
              (simp (first_key) (simp (decision, e) (simp (put.empty) (simp (wrapped) refl))));
        same_store = a.same_store;
        no_address = a.no_address;
        lower_holds = h.lower_holds;
        lower_sorted = lower_sorted;
        higher_holds = a.holds;
        higher_sorted = a.sorted;
        front = (a.others 0 used).0 ∙ h.moved_key 0 y refl ∙ front;
        no_layers = h.no_layers;
        lower_parent = h.lower_parent;
        lower_version = h.lower_version;
        higher_version = a.same_version ∙ h.higher_version;
        relinked = h.relinked;
        new =
            subst
              (λ t.
                stored (side t after.parts) (prepare key)
                  (if t then xs else insert_at (rank - remaining_size) put.slot (count_from 0 7))
                ≡ some word)
              (sym e) (stored-new a);
        old = λ k apart. elim (Bool-cases (goes_left (prepare k) (prepare pivot))) [
          | inl f ↦
              subst
                (λ t.
                  stored (side t after.parts) (prepare k)
                    (if t then xs else insert_at (rank - remaining_size) put.slot (count_from 0 7))
                  ≡ stored border (prepare k) (xs ++ y ∷ ys))
                (sym f) (old_word k true f)
          | inr f ↦
              subst
                (λ t.
                  stored (side t after.parts) (prepare k)
                    (if t then xs else insert_at (rank - remaining_size) put.slot (count_from 0 7))
                  ≡ stored border (prepare k) (xs ++ y ∷ ys))
                (sym f) (stored-old a (prepare k) put.unused apart ∙ old_word k false f)
        ];
      }

-- A key of at most 8 bytes that a full border node does not hold is put into it by the split of the
-- node, which faults nowhere: the entries of the old node and of the new one are in order, the node
-- that the interior node above sends the key to, by the first key of the new node, holds the word
-- for it, and the node that any other key is sent to holds for that key the word that the old node held, or
-- nothing where that held nothing. The entries of the old node are in order, `rank` is the number of
-- smaller ones, and the caller does not ask for the address of the value.
pub split_and_insert-Served :
    (fuel : ℕ) (st : Store) (self fresh : Ptr) (border : BorderNode) (xs : List ℕ) (y : ℕ)
    (ys : List ℕ) (pivot key : Bytes) (word : ℕ)
    → Holds border (xs ++ y ∷ ys)
    → Sorted (tuple_at border.base) (xs ++ y ∷ ys)
    → length xs ≡ 8
    → length ys ≡ 6
    → tuple_at border.base y ≡ prepare pivot
    → length key ≤ 8
    → lookup (tuple_at border.base) (prepare key) (xs ++ y ∷ ys) ≡ none
    → Served border (xs ++ y ∷ ys) pivot key word st (
        split_and_insert
          (suc fuel)
          st
          self
          fresh
          border
          key
          word
          false
          (count_smaller (tuple_at border.base) (prepare key) (xs ++ y ∷ ys)))
unfolding rank
split_and_insert-Served fuel st self fresh border xs y ys pivot key word o s eight six front short
      new =
    let seven : length (y ∷ ys) ≡ 7 = omega (arith, six) in
    let h = split_entries-Halved border self fresh xs (y ∷ ys) o eight seven in
    elim (Bool-cases (goes_left (prepare key) (prepare pivot))) [
      | inl e ↦ Served-lower h o s eight seven pivot front fuel st key word short new e
      | inr e ↦ Served-higher h o s eight seven pivot front fuel st key word short new e
    ]
