-- ===== src/Scan/NodeLoop.antt =====
-- The loop of `scan_border` over the entries of a node that nobody changes, and what follows it.
use Prim.Native.Nat.{Ordering}
use mathlib.Core.List.{map, append-nil, append_assoc}
use yakushima.Common.{
  ℕ, suc, ◌+◌, ◌≡◌, refl, sym, ◌∙◌, ap, true, false, List, [], ◌∷◌, ◌++◌, length, get_elem?, All,
  Option, some, ◌==◌, arith, Bool-cases, inl, inr,
}
use yakushima.BaseNode.{Ptr}
use yakushima.Version.{VersionBody}
use yakushima.Key.Lex.{lex}
use yakushima.Permutation.{get_cnk}
use yakushima.Permutation.Refinement.{get_cnk-encode}
use yakushima.BorderNode.{BorderNode}
use yakushima.BorderNode.Search.{From, From-start, From-tail}
use yakushima.Tree.{World, version_at}
use yakushima.Tree.Descent.{still, IsLive, border_at-here, stable_version_at-still}
use yakushima.Scan.{Out, Query, ScanTuple, sizes_of}
use yakushima.Scan.Entries.{
  Entry, IsAt, IsSorted, in_left_of, in_right_of, tuple_of, wanted, wanted-none,
}
use yakushima.Scan.Border.{
  ScanBelow, Pass, Turn, next_entry, scan_end, scan_continue, pushed_out, log_empty, scan_entries,
  scan_close, scan_pass, scan_border, scan_retries,
}
use yakushima.Scan.Node.{
  QuietNode, scan_check_retry_self, scan_entries-next, scan_entries-ends, visit-hand_out,
  visit-skip, visit-leave,
}

-- No entry behind these is in the range.
abbrev pub IsOver : Query → List Entry → Type 0
IsOver q es = (gs : List Entry) → IsSorted (es ++ gs) → wanted q gs ≡ []

-- What the loop leaves: it has seen all entries, or the range has ended.
data Looped (q : Query) (fs : List Entry) (r : Option (Turn × ℕ)) (tuples : List ScanTuple)
    : Type 0 where
  runs_out :
      (s : Pass) (t : ℕ)
      → r ≡ some (next_entry s, t)
      → s.out.tuple_list ≡ tuples
      → Looped q fs r tuples
  ends :
      (o : Out) (t : ℕ)
      → r ≡ some (scan_end o, t)
      → o.tuple_list ≡ tuples
      → IsOver q fs
      → Looped q fs r tuples

Looped-step :
    {q : Query} {fs : List Entry} {r r' : Option (Turn × ℕ)} {ts ts' : List ScanTuple} (e : Entry)
    → r ≡ r'
    → ts ≡ ts'
    → Looped q fs r' ts
    → Looped q (e ∷ fs) r ts'
Looped-step e f g (runs_out s t x y) = runs_out s t (f ∙ x) (y ∙ g)
Looped-step e f g (ends o t x y over) = ends o t (f ∙ x) (y ∙ g) (λ gs sorted. over gs sorted.1)

All-append : (P : Entry → Type 0) (fs gs : List Entry) → All P (fs ++ gs) → All P gs
All-append P [] gs a = a
All-append P (f ∷ fs) gs a = All-append P fs gs a.1

log_empty-tuples :
    (b : Ptr) (v : VersionBody) (s : Pass) → (log_empty b v s).tuple_list ≡ s.out.tuple_list
log_empty-tuples b v s = elim (Bool-cases s.tuple_pushed_num) [
  | inl e ↦ simp (e) refl
  | inr e ↦ simp (e) refl
]

module _ (below : ScanBelow) (fuel : ℕ) {w : World} {b : Ptr} {v : VersionBody} {n : BorderNode}
    {es : List Entry} (h : QuietNode w b v n es) (q : Query) (sizes : ℕ × ℕ)
    (whole : q.max_size ≡ 0) where
  scan_entries-wanted :
      (fs : List Entry) (i : ℕ) (s : Pass) (t : ℕ)
      → From (map (λ f. f.slot) es) i (map (λ f. f.slot) fs)
      → All (IsAt w n) fs
      → IsSorted fs
      → Looped q fs
          (scan_entries (length fs) below (suc fuel) (still w) b n.permutation v q sizes i s t)
          (s.out.tuple_list ++ wanted q fs)
  unfolding scan_entries wanted
  scan_entries-wanted [] i s t at_i a sorted = runs_out s t refl (sym (append-nil s.out.tuple_list))
  scan_entries-wanted (e ∷ fs) i s t at_i a sorted =
      let here : get_elem? (map (λ f. f.slot) es) i ≡ some e.slot =
        ap (get_elem? (map (λ f. f.slot) es)) {x = i} (omega arith) ∙ at_i 0 e.slot refl in
      let later = From-tail (map (λ f. f.slot) es) i e.slot (map (λ f. f.slot) fs) at_i in
      let s' : Pass = record {
        out = pushed_out b v (q.key_prefix ++ e.key) e.body e.len s.out;
        tuple_pushed_num = true;
      } in
      elim (Bool-cases (in_left_of q e)) [
        | inr l ↦
            Looped-step e
              (scan_entries-next below fuel h q sizes whole i (length fs) e s s (t) here a.0
                (visit-skip below fuel h q sizes whole e s l))
              (ap (λ r. s.out.tuple_list ++ r) (sym (simp (l) refl)))
              (scan_entries-wanted fs (i + 1) s (t + 1 + 1) later a.1 sorted.1)
        | inl l ↦ elim (Bool-cases (in_right_of q e)) [
          | inl r ↦
              Looped-step e
                (scan_entries-next below fuel h q sizes whole i (length fs) e s s' t here a.0
                  (visit-hand_out below fuel h q sizes whole e s a.0 l r))
                (append_assoc s.out.tuple_list (tuple_of q e ∷ []) (wanted q fs)
                  ∙ ap (λ r. s.out.tuple_list ++ r) (sym (simp (l, r) refl)))
                (scan_entries-wanted fs (i + 1) s' (t + 1 + 1) later a.1 sorted.1)
          | inr r ↦
              let none_left : wanted q (e ∷ fs) ≡ [] =
                simp (l, r) (wanted-none q e fs r sorted.0) in
              ends (log_empty b v s) (t + 1 + 1)
                (scan_entries-ends below fuel h q sizes whole i (length fs) e s (log_empty b v s) t
                  here a.0 (visit-leave below fuel h q sizes whole e s l r))
                (log_empty-tuples b v s
                  ∙ sym (ap (λ z. s.out.tuple_list ++ z) none_left ∙ append-nil s.out.tuple_list))
                (λ gs whole_sorted.
                  wanted-none q e gs r
                    (All-append (λ f. lex e.key f.key ≡ Ordering.lt) fs gs whole_sorted.0))
        ]
      ]

  -- Behind the loop.
  scan_close-last :
      (s : Pass) (t : ℕ)
      → n.next ≡ 0
      → scan_close (suc fuel) (still w) b v sizes n.next s t
        ≡ some (scan_end (log_empty b v s), t + 1)
  unfolding scan_close
  scan_close-last s t e =
      simp
        (
          scan_close,
          e,
          stable_version_at-still fuel w b t h.version h.live.quiet,
          scan_check_retry_self v,
        )
        refl

  scan_close-next :
      (s : Pass) (t : ℕ) {u : VersionBody}
      → (n.next == 0) ≡ false
      → version_at w n.next ≡ some u
      → IsLive u
      → scan_close (suc fuel) (still w) b v sizes n.next s t
        ≡ some (scan_continue n.next u (log_empty b v s), t + 1 + 1)
  unfolding scan_close
  scan_close-next s t e next live =
      simp
        (
          scan_close,
          e,
          stable_version_at-still fuel w n.next t next live.quiet,
          stable_version_at-still fuel w b (t + 1) h.version h.live.quiet,
          scan_check_retry_self v,
        )
        refl

length-map : (es : List Entry) → length (map (λ f. f.slot) es) ≡ length es
length-map [] = refl
length-map (e ∷ es) = ap suc (length-map es)

-- How the scan of a node ends: at its caller, or with the next node.
pub data Scanned (q : Query) (es : List Entry) (next : Ptr) (u : VersionBody)
    (r : Option (Turn × ℕ)) (tuples : List ScanTuple) : Type 0 where
  over :
      (o : Out) (t : ℕ)
      → r ≡ some (scan_end o, t)
      → o.tuple_list ≡ tuples
      → IsOver q es
      → Scanned q es next u r tuples
  goes_on :
      (o : Out) (t : ℕ)
      → r ≡ some (scan_continue next u o, t)
      → o.tuple_list ≡ tuples
      → Scanned q es next u r tuples

module _ (below : ScanBelow) (fuel : ℕ) {w : World} {b : Ptr} {v : VersionBody} {n : BorderNode}
    {es : List Entry} (h : QuietNode w b v n es) (q : Query) (whole : q.max_size ≡ 0) (o : Out)
    (t : ℕ) where
  begins : Pass
  begins = record { out = o; tuple_pushed_num = false }

  cnk : get_cnk n.permutation ≡ length es
  cnk = ap get_cnk h.holds.word ∙ get_cnk-encode h.holds.order ∙ length-map es

  loop :
      Looped q es
        (scan_entries
          (length es)
          below
          (suc fuel)
          (still w)
          b
          n.permutation
          v
          q
          (sizes_of o)
          0
          begins
          (t + 1))
        (o.tuple_list ++ wanted q es)
  unfolding begins
  loop =
      scan_entries-wanted below fuel h q (sizes_of o) whole es 0 begins (t + 1)
        (From-start (map (λ f. f.slot) es)) h.entries h.sorted

  -- On a node that is the last one, `scan_border` returns `OK_SCAN_END` with the entries of the range.
  pub scan_border-last :
      n.next ≡ 0
      → (o' : Out) × (t' : ℕ) × (scan_border below (suc fuel) (still w) b v q o t
          ≡ some (scan_end o', t'))
        × (o'.tuple_list ≡ o.tuple_list ++ wanted q es)
  unfolding scan_border scan_retries scan_pass begins
  scan_border-last last = elim loop [
    | ends o' t' e ts out ↦
        (o', t', simp (scan_pass, border_at-here w b h.here, cnk) (simp (e) refl), ts)
    | runs_out s t' e ts ↦ (
      log_empty b v s,
      t' + 1,
      simp (scan_pass, border_at-here w b h.here, cnk)
          (simp (e) (simp (scan_close-last below fuel h q (sizes_of o) whole s t' last) refl)),
      log_empty-tuples b v s ∙ ts,
    )
  ]

  -- On another node it returns that, where no later entry is in the range, or `OK_SCAN_CONTINUE` with the
  -- next node and its version.
  pub scan_border-next :
      (u : VersionBody)
      → (n.next == 0) ≡ false
      → version_at w n.next ≡ some u
      → IsLive u
      → Scanned q es n.next u
          (scan_border below (suc fuel) (still w) b v q o t)
          (o.tuple_list ++ wanted q es)
  unfolding scan_border scan_retries scan_pass begins
  scan_border-next u some_next at_next live = elim loop [
    | ends o' t' e ts out ↦
        over o' t' (simp (scan_pass, border_at-here w b h.here, cnk) (simp (e) refl)) ts out
    | runs_out s t' e ts ↦
        goes_on (log_empty b v s) (t' + 1 + 1)
          (simp (scan_pass, border_at-here w b h.here, cnk)
            (simp (e) (
              simp (scan_close-next below fuel h q (sizes_of o) whole s t' some_next at_next live)
                refl)))
          (log_empty-tuples b v s ∙ ts)
  ]
