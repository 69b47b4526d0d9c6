-- ===== src/Scan/Layers.antt =====
-- The scan of a layer (include/scan_helper.h) and of the whole tree (include/interface_scan.h).
use yakushima.Common.{
  ℕ, zero, suc, ◌+◌, Bool, true, false, not, ◌&&◌, ◌||◌, List, [], ◌∷◌, length, Option, none, some,
  ◌>>=◌, ◌==◌, if◌then◌else◌, ◌%◌, ◌^◌,
}
use yakushima.Scheme.{Status}
use yakushima.Key.{Bytes, KeyTuple, key_slice}
use yakushima.BaseNode.{Ptr}
use yakushima.Version.{VersionBody}
use yakushima.Tree.{
  History, version_at, Find, find_retry, find_at, find_done, retry_from_root_of_all, find_border,
}
use yakushima.Scan.{Out, Query, sizes_of, clean_up, is_exclusive}
use yakushima.Scan.Border.{
  ScanBelow, Turn, next_entry, retry, scan_end, retry_from_root, scan_continue, scan_border,
}

-- The scans prepare the left key with its whole length, in 8 bits.
abbrev pub scan_key : Bytes → KeyTuple
scan_key l_key = record { slice = key_slice l_key; size = length l_key % 2 ^ 8 }

-- Where a scan stands: at its label `retry`, at a border node with its version, or at its end.
pub data Stage : Type 0 where
  to_find : Out → Stage
  at_border : Ptr → VersionBody → Out → Stage
  scan_done : Status → Out → Stage

-- What `find_border` and `scan_border` returned, as the scan of a layer goes on with it.
abbrev pub layer_found : Find → Out → Option Stage
layer_found (find_done b v) o = some (at_border b v o)
layer_found retry_from_root_of_all o = some (scan_done Status.ok_retry_after_fb o)
layer_found find_retry o = none
layer_found (find_at n v) o = none

abbrev pub layer_turn : ℕ × ℕ → Turn → Option Stage
layer_turn sizes (scan_end o) = some (scan_done Status.ok o)
layer_turn sizes (scan_continue p v o) = some (at_border p v o)
layer_turn sizes (retry_from_root o) = some (to_find (clean_up sizes o))
layer_turn sizes (next_entry s) = none
layer_turn sizes (retry v o) = none

unfoldable pub layer_find : ℕ → History → Ptr → Query → Out → ℕ → Option (Stage × ℕ)
layer_find fuel h root q o t = do
  v ← version_at (h t) root
  if v.deleted || not v.root then some (scan_done Status.ok_retry_from_root o, t + 1) else do
    (found, t') ← find_border fuel h root (scan_key q.l_key) (t + 1)
    s ← layer_found found o
    some (s, t')

unfoldable pub layer_border :
    ScanBelow → ℕ → History → Query → ℕ × ℕ → Ptr → VersionBody → Out → ℕ → Option (Stage × ℕ)
layer_border below fuel h q sizes b v o t = do
  (turn, t') ← scan_border below fuel h b v q o t
  s ← layer_turn sizes turn
  some (s, t')

-- The scan of a layer from a stage on, on fuel for its rounds.
unfoldable pub layer_from :
    ℕ → ScanBelow → ℕ → History → Ptr → Query → ℕ × ℕ → Stage → ℕ → Option (Status × Out × ℕ)
layer_from zero below fuel h root q sizes s t = none
layer_from (suc rounds) below fuel h root q sizes (scan_done status o) t = some (status, o, t)
layer_from (suc rounds) below fuel h root q sizes (to_find o) t = do
  (s, t') ← layer_find fuel h root q o t
  layer_from rounds below fuel h root q sizes s t'
layer_from (suc rounds) below fuel h root q sizes (at_border b v o) t = do
  (s, t') ← layer_border below fuel h q sizes b v o t
  layer_from rounds below fuel h root q sizes s t'

-- `scan` of scan_helper.h, on fuel for the layers below each other.
unfoldable pub scan_layer : ℕ → ℕ → History → ScanBelow
scan_layer zero fuel h root q o t = none
scan_layer (suc layers) fuel h root q o t =
    layer_from fuel (scan_layer layers fuel h) fuel h root q (sizes_of o) (to_find o) t

abbrev pub clear_versions : Option (List (VersionBody × Ptr)) → Option (List (VersionBody × Ptr))
clear_versions none = none
clear_versions (some vs) = some []

abbrev pub clear : Out → Out
clear o = record { tuple_list = []; node_version_vec = clear_versions o.node_version_vec }

-- `node_version_vec` for an empty tree.
abbrev pub only_version :
    VersionBody → Ptr → Option (List (VersionBody × Ptr)) → Option (List (VersionBody × Ptr))
only_version v p none = none
only_version v p (some vs) = some ((v, p) ∷ [])

-- The same for the scan of the whole tree.
abbrev pub tree_found : Find → Out → Option Stage
tree_found (find_done b v) o = some (at_border b v o)
tree_found retry_from_root_of_all o = some (to_find o)
tree_found find_retry o = none
tree_found (find_at n v) o = none

abbrev pub tree_turn : Turn → Option Stage
tree_turn (scan_end o) = some (scan_done Status.ok o)
tree_turn (scan_continue p v o) = some (at_border p v o)
tree_turn (retry_from_root o) = some (to_find o)
tree_turn (next_entry s) = none
tree_turn (retry v o) = none

-- From `retry_from_root` on.
unfoldable pub tree_find : ℕ → History → Query → Out → ℕ → Option (Stage × ℕ)
tree_find fuel h q o t =
    let root = (h t).root in
    if root == 0 then some (scan_done Status.ok_root_is_null (clear o), t + 1) else do
      (found, t') ← find_border fuel h root (scan_key q.l_key) (t + 1)
      s ← tree_found found (clear o)
      some (s, t')

unfoldable pub tree_border :
    ScanBelow → ℕ → History → Query → Ptr → VersionBody → Out → ℕ → Option (Stage × ℕ)
tree_border below fuel h q b v o t =
    if v.deleted && v.root
    then some (
      scan_done Status.ok (record o { node_version_vec = only_version v b o.node_version_vec }),
      t,
    )
    else do (turn, t') ← scan_border below fuel h b v q o t; s ← tree_turn turn; some (s, t')

unfoldable pub tree_from :
    ℕ → ScanBelow → ℕ → History → Query → Stage → ℕ → Option (Status × Out × ℕ)
tree_from zero below fuel h q s t = none
tree_from (suc rounds) below fuel h q (scan_done status o) t = some (status, o, t)
tree_from (suc rounds) below fuel h q (to_find o) t = do
  (s, t') ← tree_find fuel h q o t
  tree_from rounds below fuel h q s t'
tree_from (suc rounds) below fuel h q (at_border b v o) t = do
  (s, t') ← tree_border below fuel h q b v o t
  tree_from rounds below fuel h q s t'

abbrev pub same_bytes : Bytes → Bytes → Bool
same_bytes [] [] = true
same_bytes [] (y ∷ k) = false
same_bytes (x ∷ j) [] = false
same_bytes (x ∷ j) (y ∷ k) = let rest = same_bytes j k in x == y && rest

-- `std::string key_prefix;`
abbrev pub from_top : Query → Query
from_top q = record q { key_prefix = [] }

-- `scan` of interface_scan.h for a tree, on fuel for the layers, and for the rest.
unfoldable pub scan : ℕ → ℕ → History → Query → Out → ℕ → Option (Status × Out × ℕ)
scan layers fuel h q o t =
    if same_bytes q.l_key q.r_key && (is_exclusive q.l_end || is_exclusive q.r_end)
    then some (Status.err_bad_usage, o, t)
    else tree_from fuel (scan_layer layers fuel h) fuel h (from_top q) (to_find o) t
