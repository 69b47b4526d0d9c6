-- ===== src/Tree/Remove.antt =====
-- include/interface_remove.h: a key is removed, with reads and locks as for `put`.
use yakushima.Common.{
  ℕ, zero, suc, ◌+◌, true, not, [], false, Option, none, some, ◌>>=◌, ◌==◌, ltb, if◌then◌else◌,
}
use yakushima.Scheme.{Status, slice_size}
use yakushima.Key.{Bytes, prepare, remove_prefix}
use yakushima.BaseNode.{Ptr, get_key_length_at}
use yakushima.Version.{VersionBody, set_locked, released}
use yakushima.Permutation.{get_cnk}
use yakushima.LinkOrValue.{get_next_layer}
use yakushima.BorderNode.{get_lv_at, get_lv_of_without_lock}
use yakushima.BorderNode.Change.{Retiring, RetiredValue, delete_of}
use yakushima.Tree.{
  World, History, border_at, version_at, stable_version_at, find_done, retry_from_root_of_all, Find,
  find_retry, find_at, find_border, lv_of_at,
}
use yakushima.Tree.Get.{is_wrong}
use yakushima.Tree.Unlink.{RetiredNodes, unlink}
use yakushima.Tree.Put.{locked_at, put_version, put_node}

-- What `remove` does to the tree: the tree behind it, with the value and the nodes that are
-- retired.
pub data Removal : Type 0 where
  keeps : Removal
  removes : World → Option RetiredValue → RetiredNodes → Removal

-- Where `remove` stands, at its labels.
pub data Remove : Type 0 where
  remove_retry_from_root : Remove
  remove_find_border : Ptr → Bytes → Remove
  remove_fetch_lv : Ptr → VersionBody → Bytes → Remove
  remove_done : Status → Removal → Remove

-- Where a check sends `remove` back to, if it does.
abbrev pub remove_checked :
    VersionBody
    → VersionBody
    → VersionBody
    → Ptr
    → Bytes
    → ℕ
    → Option (Remove × ℕ)
    → Option (Remove × ℕ)
remove_checked v v_at_fb v_at_fetch_lv b key t next =
    if is_wrong v v_at_fb
    then some (remove_retry_from_root, t)
    else if not (v.vinsert_delete == v_at_fetch_lv.vinsert_delete)
    then some (remove_fetch_lv b v_at_fb key, t)
    else next

-- What `delete_of` has left on the node at `b`, which had `cnk` entries: an empty node is unlinked.
abbrev pub removal : ℕ → ℕ → World → Ptr → ℕ → Retiring → Option Removal
removal fuel begin_epoch w b cnk r =
    let w' = put_node (record w { memory = r.memory }) b r.node in
    elim (cnk == 1) [
      | false ↦ some (removes w' r.retired [])
      | true ↦ do (w'', nodes) ← unlink fuel w' begin_epoch b; some (removes w'' r.retired nodes)
    ]

-- Behind the checks under the lock, on the node at `b`: the search is repeated. The fuel is for the
-- layers above that become empty.
unfoldable pub remove_under_lock : ℕ → ℕ → World → Ptr → Bytes → Option Remove
remove_under_lock begin_epoch fuel w b key = do
  n ← border_at w b
  let n' = put_version (set_locked true n.base.version) n
  slot ← get_lv_of_without_lock n' (prepare key)
  elim slot [
    | none ↦ some (
        remove_done Status.ok_not_found
          (removes (put_node w b (put_version (released n'.base.version) n')) none []))
    | some q ↦ do
      r ← delete_of n' w.memory begin_epoch (prepare key) true (w.root == b)
      e ← removal fuel begin_epoch w b (get_cnk n.permutation) r
      some (remove_done Status.ok e)
  ]

abbrev pub done_at : Option Remove → ℕ → Option (Remove × ℕ)
done_at none t = none
done_at (some s) t = some (s, t)

unfoldable pub remove_locked :
    ℕ → ℕ → History → VersionBody → VersionBody → Ptr → Bytes → ℕ → Option (Remove × ℕ)
remove_locked begin_epoch fuel h v_at_fb v_at_fetch_lv b key t = do
  t' ← locked_at fuel h b t
  v ← version_at (h t') b
  remove_checked v v_at_fb v_at_fetch_lv b key (t' + 1)
      (done_at (remove_under_lock begin_epoch fuel (h t') b key) (t' + 1))

unfoldable pub remove_below :
    ℕ → History → VersionBody → VersionBody → Ptr → Bytes → ℕ → ℕ → Option (Remove × ℕ)
remove_below fuel h v_at_fb v_at_fetch_lv b key lv_pos t = do
  n ← border_at (h t) b
  word ← get_lv_at n lv_pos
  (final, t') ← stable_version_at fuel h b (t + 1)
  remove_checked final v_at_fb v_at_fetch_lv b key t'
      (some (remove_find_border (get_next_layer word) (remove_prefix slice_size key), t'))

unfoldable pub remove_at_slot :
    ℕ → ℕ → History → VersionBody → VersionBody → Ptr → Bytes → ℕ → ℕ → Option (Remove × ℕ)
remove_at_slot begin_epoch fuel h v_at_fb v_at_fetch_lv b key lv_pos t = do
  n ← border_at (h t) b
  size ← get_key_length_at n.base lv_pos
  if ltb slice_size size
      then remove_below fuel h v_at_fb v_at_fetch_lv b key lv_pos (t + 1)
      else remove_locked begin_epoch fuel h v_at_fb v_at_fetch_lv b key (t + 1)

-- No entry: the version is checked once more.
unfoldable pub remove_nothing :
    ℕ → History → VersionBody → VersionBody → Ptr → Bytes → ℕ → Option (Remove × ℕ)
remove_nothing fuel h v_at_fb v_at_fetch_lv b key t = do
  (final, t') ← stable_version_at fuel h b t
  if not (final.vinsert_delete == v_at_fetch_lv.vinsert_delete)
      then some (remove_fetch_lv b v_at_fb key, t')
      else some (remove_done Status.ok_not_found keeps, t')

abbrev pub remove_slot :
    ℕ → ℕ → History → VersionBody → VersionBody → Ptr → Bytes → Option ℕ → ℕ → Option (Remove × ℕ)
remove_slot begin_epoch fuel h v_at_fb v_at_fetch_lv b key none t =
    remove_nothing fuel h v_at_fb v_at_fetch_lv b key t
remove_slot begin_epoch fuel h v_at_fb v_at_fetch_lv b key (some lv_pos) t =
    remove_at_slot begin_epoch fuel h v_at_fb v_at_fetch_lv b key lv_pos t

-- A null pointer from `find_border` starts again.
abbrev pub remove_found : Find → Bytes → Option Remove
remove_found (find_done b v) key =
    if b == 0 then some remove_retry_from_root else some (remove_fetch_lv b v key)
remove_found retry_from_root_of_all key = some remove_retry_from_root
remove_found find_retry key = none
remove_found (find_at n v) key = none

unfoldable pub remove_step : ℕ → ℕ → History → Bytes → Remove → ℕ → Option (Remove × ℕ)
remove_step begin_epoch fuel h key remove_retry_from_root t =
    let root = (h t).root in
    if root == 0
    then some (remove_done Status.ok_root_is_null keeps, t + 1)
    else some (remove_find_border root key, t + 1)
remove_step begin_epoch fuel h key (remove_find_border root rest) t = do
  (found, t') ← find_border fuel h root (prepare rest) t
  s ← remove_found found rest
  some (s, t')
remove_step begin_epoch fuel h key (remove_fetch_lv b v_at_fb rest) t = do
  (slot, v_at_fetch_lv, t') ← lv_of_at fuel h b (prepare rest) t
  if is_wrong v_at_fetch_lv v_at_fb
      then some (remove_retry_from_root, t')
      else remove_slot begin_epoch fuel h v_at_fb v_at_fetch_lv b rest slot t'
remove_step begin_epoch fuel h key (remove_done status e) t = some (remove_done status e, t)

-- `remove` on fuel for its jumps; each wait, each descent and the way up from an emptied node have
-- the same fuel.
unfoldable pub remove_from :
    ℕ → ℕ → ℕ → History → Bytes → Remove → ℕ → Option (Status × Removal × ℕ)
remove_from zero begin_epoch fuel h key s t = none
remove_from (suc jumps) begin_epoch fuel h key (remove_done status e) t = some (status, e, t)
remove_from (suc jumps) begin_epoch fuel h key remove_retry_from_root t = do
  (s, t') ← remove_step begin_epoch fuel h key remove_retry_from_root t
  remove_from jumps begin_epoch fuel h key s t'
remove_from (suc jumps) begin_epoch fuel h key (remove_find_border root rest) t = do
  (s, t') ← remove_step begin_epoch fuel h key (remove_find_border root rest) t
  remove_from jumps begin_epoch fuel h key s t'
remove_from (suc jumps) begin_epoch fuel h key (remove_fetch_lv b v rest) t = do
  (s, t') ← remove_step begin_epoch fuel h key (remove_fetch_lv b v rest) t
  remove_from jumps begin_epoch fuel h key s t'

unfoldable pub remove : ℕ → ℕ → ℕ → History → Bytes → ℕ → Option (Status × Removal × ℕ)
remove jumps begin_epoch fuel h key t =
    remove_from jumps begin_epoch fuel h key remove_retry_from_root t
