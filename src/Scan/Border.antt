-- ===== src/Scan/Border.antt =====
-- include/scan_helper.h: `scan_border`, the scan of one border node. The scan of the layer below an
-- entry is an argument.
use yakushima.Common.{
  ℕ, zero, suc, ◌+◌, Bool, true, false, not, ◌&&◌, [], ◌∷◌, ◌++◌, length, Option, none, some, ◌>>=◌,
  ◌==◌, ltb, leb, if◌then◌else◌,
}
use yakushima.Scheme.{Status, slice_size}
use yakushima.Key.{Bytes, KeyTuple}
use yakushima.BaseNode.{Ptr, key_at}
use yakushima.Version.{VersionBody}
use yakushima.Version
use yakushima.Value.{get_body, get_len}
use yakushima.LinkOrValue.{get_value, get_next_layer}
use yakushima.Permutation.{get_cnk, get_index_of_rank}
use yakushima.BorderNode.{get_lv_at}
use yakushima.Tree.{World, History, border_at, stable_version_at}
use yakushima.Scan.{
  Out, Query, clean_up, sizes_of, log_version, scan_check_retry, full_key, below_left, below_right,
  Visit, skip, hand_out, leave, visit,
}

-- The scan of a layer: its root, the query, the lists and the time; a status with the lists and
-- the time behind it.
abbrev pub ScanBelow : Type 0
ScanBelow = Ptr → Query → Out → ℕ → Option (Status × Out × ℕ)

-- The lists in the middle of a node, and `tuple_pushed_num`.
pub record Pass : Type 0 where
  pub out : Out
  pub tuple_pushed_num : Bool

-- How it goes on: with the next entry, at `retry` with a version, or at the caller with
-- `OK_SCAN_END`, `OK_RETRY_FROM_ROOT`, or `OK_SCAN_CONTINUE` and the next node with its version.
pub data Turn : Type 0 where
  next_entry : Pass → Turn
  retry : VersionBody → Out → Turn
  scan_end : Out → Turn
  retry_from_root : Out → Turn
  scan_continue : Ptr → VersionBody → Out → Turn

-- The lists behind `in_range`.
abbrev pub pushed_out : Ptr → VersionBody → Bytes → ℕ → ℕ → Out → Out
pushed_out bn v full body len o =
    log_version v bn (record o {
      tuple_list = o.tuple_list ++ (record { key = full; body = body; len = len }) ∷ [];
    })

abbrev pub pushed : Query → Out → Turn
pushed q o =
    if not (q.max_size == 0) && leb q.max_size (length o.tuple_list)
    then scan_end o
    else next_entry (record { out = o; tuple_pushed_num = true })

-- `in_range`
unfoldable pub in_range : World → Ptr → VersionBody → Query → Bytes → ℕ → Out → Option Turn
in_range w bn v q full word o = do
  body ← get_body w.memory (get_value word)
  len ← get_len w.memory (get_value word)
  some (pushed q (pushed_out bn v full body len o))

-- The version of a node of which nothing was handed out goes into the list all the same.
abbrev pub log_empty : Ptr → VersionBody → Pass → Out
log_empty bn v s = if s.tuple_pushed_num then s.out else log_version v bn s.out

-- An entry that holds a value.
abbrev pub visit_value : Visit → World → Ptr → VersionBody → Query → Bytes → ℕ → Pass → Option Turn
visit_value skip w bn v q full word s = some (next_entry s)
visit_value hand_out w bn v q full word s = in_range w bn v q full word s.out
visit_value leave w bn v q full word s = some (scan_end (log_empty bn v s))

abbrev pub is_ok : Status → Bool
is_ok s = elim s [ Status.ok ↦ true | _ ↦ false ]

-- An entry that holds the root of the next layer.
unfoldable pub visit_layer :
    ScanBelow → VersionBody → Query → ℕ × ℕ → KeyTuple → Bytes → ℕ → Pass → ℕ → Option (Turn × ℕ)
visit_layer below v q sizes key full word s t = elim (below_left q key.slice) [
  | none ↦ some (next_entry s, t)
  | some l ↦ elim (below_right q full) [
    | none ↦ some (scan_end s.out, t)
    | some r ↦ do
      let q' : Query = record {
        l_key = l.0;
        l_end = l.1;
        r_key = r.0;
        r_end = r.1;
        key_prefix = full;
        max_size = q.max_size;
      }
      (status, out, t') ← below (get_next_layer word) q' s.out t
      some (
        if is_ok status then next_entry (record s { out = out }) else retry v (clean_up sizes out),
        t',
      )
  ]
]

unfoldable pub visit_entry :
    ScanBelow
    → World
    → Ptr
    → VersionBody
    → Query
    → ℕ × ℕ
    → KeyTuple
    → ℕ
    → Pass
    → ℕ
    → Option (Turn × ℕ)
visit_entry below w bn v q sizes key word s t =
    let full = full_key q.key_prefix key in
    if ltb slice_size key.size
    then visit_layer below v q sizes key full word s t
    else do turn ← visit_value (visit q key full) w bn v q full word s; some (turn, t)

-- A check of the version, with what comes behind it where the check passes.
abbrev pub verified : Status × VersionBody → ℕ × ℕ → Out → ℕ → Option (Turn × ℕ) → Option (Turn × ℕ)
verified check sizes o t rest = elim check.0 [
  | Status.ok ↦ rest
  | Status.ok_retry_from_root ↦ some (retry_from_root (clean_up sizes o), t)
  | _ ↦ some (retry check.1 (clean_up sizes o), t)
]

-- The body of the loop at the rank `i`.
unfoldable pub scan_entry :
    ScanBelow
    → ℕ
    → History
    → Ptr
    → ℕ
    → VersionBody
    → Query
    → ℕ × ℕ
    → ℕ
    → Pass
    → ℕ
    → Option (Turn × ℕ)
scan_entry below fuel h bn perm v q sizes i s t = do
  n ← border_at (h t) bn
  index ← get_index_of_rank perm i
  key ← key_at n.base index
  word ← get_lv_at n index
  (check, t') ← stable_version_at fuel h bn (t + 1)
  verified (scan_check_retry check v) sizes s.out t'
      (visit_entry below (h t') bn v q sizes key word s t')

-- What comes next, where the loop goes on.
abbrev pub continued : Turn → ℕ → (Pass → ℕ → Option (Turn × ℕ)) → Option (Turn × ℕ)
continued (next_entry s) t rest = rest s t
continued (retry v o) t rest = some (retry v o, t)
continued (scan_end o) t rest = some (scan_end o, t)
continued (retry_from_root o) t rest = some (retry_from_root o, t)
continued (scan_continue p v o) t rest = some (scan_continue p v o, t)

-- The loop over the entries from the rank `i` on.
unfoldable pub scan_entries :
    ℕ
    → ScanBelow
    → ℕ
    → History
    → Ptr
    → ℕ
    → VersionBody
    → Query
    → ℕ × ℕ
    → ℕ
    → Pass
    → ℕ
    → Option (Turn × ℕ)
scan_entries zero below fuel h bn perm v q sizes i s t = some (next_entry s, t)
scan_entries (suc left) below fuel h bn perm v q sizes i s t = do
  (turn, t') ← scan_entry below fuel h bn perm v q sizes i s t
  continued turn t' (λ s' t''. scan_entries left below fuel h bn perm v q sizes (i + 1) s' t'')

-- The version of the next node, if there is one.
abbrev pub next_version_at : ℕ → History → Ptr → ℕ → Option (VersionBody × ℕ)
next_version_at fuel h next t =
    if next == 0 then some (Version.init, t) else stable_version_at fuel h next t

-- Behind the loop: the next node, and the final check.
unfoldable pub scan_close :
    ℕ → History → Ptr → VersionBody → ℕ × ℕ → Ptr → Pass → ℕ → Option (Turn × ℕ)
scan_close fuel h bn v sizes next s t = do
  let o = log_empty bn v s
  (next_version, t') ← next_version_at fuel h next t
  (check, t'') ← stable_version_at fuel h bn t'
  verified (scan_check_retry check v) sizes o t''
      (some (if next == 0 then scan_end o else scan_continue next next_version o, t''))

-- From `retry` on.
unfoldable pub scan_pass :
    ScanBelow → ℕ → History → Ptr → VersionBody → Query → ℕ × ℕ → Out → ℕ → Option (Turn × ℕ)
scan_pass below fuel h bn v q sizes o t = do
  n ← border_at (h t) bn
  (turn, t') ←
      scan_entries (get_cnk n.permutation) below fuel h bn n.permutation v q sizes 0
        (record { out = o; tuple_pushed_num = false }) (t + 1)
  continued turn t' (λ s t''. scan_close fuel h bn v sizes n.next s t'')

-- What comes next, where it starts again.
abbrev pub retried : Turn → ℕ → (VersionBody → Out → ℕ → Option (Turn × ℕ)) → Option (Turn × ℕ)
retried (retry v o) t again = again v o t
retried (next_entry s) t again = none
retried (scan_end o) t again = some (scan_end o, t)
retried (retry_from_root o) t again = some (retry_from_root o, t)
retried (scan_continue p v o) t again = some (scan_continue p v o, t)

unfoldable pub scan_retries :
    ℕ → ScanBelow → ℕ → History → Ptr → VersionBody → Query → ℕ × ℕ → Out → ℕ → Option (Turn × ℕ)
scan_retries zero below fuel h bn v q sizes o t = none
scan_retries (suc tries) below fuel h bn v q sizes o t = do
  (turn, t') ← scan_pass below fuel h bn v q sizes o t
  retried turn t' (λ v' o' t''. scan_retries tries below fuel h bn v' q sizes o' t'')

-- `scan_border`, on fuel for its retries and waits.
unfoldable pub scan_border :
    ScanBelow → ℕ → History → Ptr → VersionBody → Query → Out → ℕ → Option (Turn × ℕ)
scan_border below fuel h bn v q o t = scan_retries fuel below fuel h bn v q (sizes_of o) o t
