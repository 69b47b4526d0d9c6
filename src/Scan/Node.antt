-- ===== src/Scan/Node.antt =====
-- `scan_border` on a node that nobody changes hands out the entries of the range.
use mathlib.Core.List.{map}
use yakushima.Common.{
  ℕ, suc, ◌+◌, ◌≤◌, ◌<◌, ◌≡◌, refl, ◌∙◌, ap, true, false, List, ◌++◌, length, get_elem?, All, some,
  ◌>>=◌, ltb, lt→ltb, arith,
}
use yakushima.Scheme.{Status}
use yakushima.Key.{Bytes, prepare, key_length}
use yakushima.BaseNode.{Ptr}
use yakushima.Version.{VersionBody}
use yakushima.Permutation.{get_index_of_rank}
use yakushima.Permutation.Refinement.{get_index_of_rank-encode}
use yakushima.Permutation.Slots.{Slot}
use yakushima.InteriorNode.Routing.{tuple_at, key_at-in_range}
use yakushima.BorderNode.{BorderNode, get_lv_at}
use yakushima.BorderNode.Entries.{Holds, All-get_elem?}
use yakushima.Tree.{World, border_node, version_at}
use yakushima.Tree.Descent.{still, IsLive, border_at-here, stable_version_at-still, equal_refl}
use yakushima.Scan.{Out, Query, scan_check_retry, visit}
use yakushima.Scan.Range.{visit-placed, full_key-short, placed}
use yakushima.Scan.Entries.{Entry, IsAt, IsSorted, in_left_of, in_right_of}
use yakushima.Scan.Border.{
  ScanBelow, Pass, next_entry, scan_end, in_range, pushed_out, log_empty, visit_value, visit_entry,
  scan_entry, scan_entries,
}

-- A border node in a tree that nobody changes, with values in order.
pub record QuietNode (w : World) (b : Ptr) (v : VersionBody) (n : BorderNode) (es : List Entry)
    : Type 0 where
  pub here : w.nodes b ≡ some (border_node n)
  pub version : version_at w b ≡ some v
  pub live : IsLive v
  pub holds : Holds n (map (λ e. e.slot) es)
  pub entries : All (IsAt w n) es
  pub sorted : IsSorted es

pub scan_check_retry_self : (v : VersionBody) → scan_check_retry v v ≡ (Status.ok, v)
unfolding scan_check_retry
scan_check_retry_self v = rw (equal_refl v) refl

module _ (below : ScanBelow) (fuel : ℕ) {w : World} {b : Ptr} {v : VersionBody} {n : BorderNode}
    {es : List Entry} (h : QuietNode w b v n es) (q : Query) (sizes : ℕ × ℕ)
    (whole : q.max_size ≡ 0) where
  visit_entry-prepare :
      (k : Bytes) (word : ℕ) (s : Pass) (t : ℕ)
      → length k ≤ 8
      → visit_entry below w b v q sizes (prepare k) word s t ≡ (do
        turn ←
            visit_value (visit q (prepare k) (q.key_prefix ++ k)) w b v q (q.key_prefix ++ k) word s
        some (turn, t))
  unfolding visit_entry
  visit_entry-prepare k word s t short =
      let small : ltb 8 (key_length k) ≡ false = ground (arith, short) in
      simp (visit_entry, full_key-short q.key_prefix k short, small) refl

  visit_entry-IsAt :
      (e : Entry) (s : Pass) (t : ℕ)
      → IsAt w n e
      → visit_entry below w b v q sizes (tuple_at n.base e.slot) (n.lv e.slot) s t ≡ (do
        turn ←
            visit_value
              (placed (in_left_of q e) (in_right_of q e))
              w
              b
              v
              q
              (q.key_prefix ++ e.key)
              (n.lv e.slot)
              s
        some (turn, t))
  visit_entry-IsAt e s t a =
      let full = q.key_prefix ++ e.key in
      ap (λ key. visit_entry below w b v q sizes key (n.lv e.slot) s t) a.same
      ∙ visit_entry-prepare e.key (n.lv e.slot) s t a.short
      ∙ ap (λ r. do turn ← visit_value r w b v q full (n.lv e.slot) s; some (turn, t))
          (visit-placed q e.key full a.short)

  scan_entry-IsAt :
      (i : ℕ) (e : Entry) (s : Pass) (t : ℕ)
      → get_elem? (map (λ f. f.slot) es) i ≡ some e.slot
      → IsAt w n e
      → scan_entry below (suc fuel) (still w) b n.permutation v q sizes i s t ≡ (do
        turn ←
            visit_value
              (placed (in_left_of q e) (in_right_of q e))
              w
              b
              v
              q
              (q.key_prefix ++ e.key)
              (n.lv e.slot)
              s
        some (turn, t + 1 + 1))
  unfolding scan_entry get_lv_at
  scan_entry-IsAt i e s t at_i a =
      let fits : e.slot < 15 =
        All-get_elem? Slot (map (λ f. f.slot) es) i h.holds.order.small at_i in
      let index : get_index_of_rank n.permutation i ≡ some e.slot =
        ap (λ word. get_index_of_rank word i) h.holds.word
        ∙ get_index_of_rank-encode i h.holds.order at_i in
      simp
        (
          scan_entry,
          border_at-here w b h.here,
          index,
          key_at-in_range n.base e.slot fits,
          lt→ltb e.slot 15 fits,
          stable_version_at-still fuel w b (t + 1) h.version h.live.quiet,
          scan_check_retry_self v,
        )
        (visit_entry-IsAt e s (t + 1 + 1) a)

  -- What a turn hands on where it goes on at once.
  pub scan_entries-next :
      (i left : ℕ) (e : Entry) (s s' : Pass) (t : ℕ)
      → get_elem? (map (λ f. f.slot) es) i ≡ some e.slot
      → IsAt w n e
      → visit_value
          (placed (in_left_of q e) (in_right_of q e))
          w
          b
          v
          q
          (q.key_prefix ++ e.key)
          (n.lv e.slot)
          s
        ≡ some (next_entry s')
      → scan_entries (suc left) below (suc fuel) (still w) b n.permutation v q sizes i s t
        ≡ scan_entries left below
            (suc fuel)
            (still w)
            b
            n.permutation
            v
            q
            sizes
            (i + 1)
            s'
            (t + 1 + 1)
  unfolding scan_entries
  scan_entries-next i left e s s' t at_i a r =
      simp (scan_entries, scan_entry-IsAt i e s t at_i a) (simp (r) refl)

  pub scan_entries-ends :
      (i left : ℕ) (e : Entry) (s : Pass) (o : Out) (t : ℕ)
      → get_elem? (map (λ f. f.slot) es) i ≡ some e.slot
      → IsAt w n e
      → visit_value
          (placed (in_left_of q e) (in_right_of q e))
          w
          b
          v
          q
          (q.key_prefix ++ e.key)
          (n.lv e.slot)
          s
        ≡ some (scan_end o)
      → scan_entries (suc left) below (suc fuel) (still w) b n.permutation v q sizes i s t
        ≡ some (scan_end o, t + 1 + 1)
  unfolding scan_entries
  scan_entries-ends i left e s o t at_i a r =
      simp (scan_entries, scan_entry-IsAt i e s t at_i a) (simp (r) refl)

  pub visit-hand_out :
      (e : Entry) (s : Pass)
      → IsAt w n e
      → in_left_of q e ≡ true
      → in_right_of q e ≡ true
      → visit_value
          (placed (in_left_of q e) (in_right_of q e))
          w
          b
          v
          q
          (q.key_prefix ++ e.key)
          (n.lv e.slot)
          s
        ≡ some (
            next_entry (record {
              out = pushed_out b v (q.key_prefix ++ e.key) e.body e.len s.out;
              tuple_pushed_num = true;
            }))
  unfolding in_range
  visit-hand_out e s a l r = simp (l, r, a.has_body, a.has_len, whole) refl

  pub visit-skip :
      (e : Entry) (s : Pass)
      → in_left_of q e ≡ false
      → visit_value
          (placed (in_left_of q e) (in_right_of q e))
          w
          b
          v
          q
          (q.key_prefix ++ e.key)
          (n.lv e.slot)
          s
        ≡ some (next_entry s)
  visit-skip e s l = simp (l) refl

  pub visit-leave :
      (e : Entry) (s : Pass)
      → in_left_of q e ≡ true
      → in_right_of q e ≡ false
      → visit_value
          (placed (in_left_of q e) (in_right_of q e))
          w
          b
          v
          q
          (q.key_prefix ++ e.key)
          (n.lv e.slot)
          s
        ≡ some (scan_end (log_empty b v s))
  visit-leave e s l r = simp (l, r) refl
