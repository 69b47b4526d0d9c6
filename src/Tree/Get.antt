-- ===== src/Tree/Get.antt =====
-- include/interface_get.h: the lookup of a key, layer by layer.
use yakushima.Common.{
  ℕ, zero, suc, ◌+◌, Bool, not, ◌&&◌, ◌||◌, Option, none, some, ◌>>=◌, ◌==◌, leb, if◌then◌else◌,
}
use yakushima.Scheme.{Status, slice_size}
use yakushima.Key.{Bytes, prepare, remove_prefix}
use yakushima.BaseNode.{Ptr, get_key_length_at}
use yakushima.Version.{VersionBody}
use yakushima.Value.{get_body, get_len}
use yakushima.LinkOrValue.{get_value, get_next_layer}
use yakushima.BorderNode.{get_lv_at}
use yakushima.Tree.{
  History, border_at, stable_version_at, find_done, retry_from_root_of_all, Find, find_retry,
  find_at, find_border, lv_of_at,
}

-- Status, and the value with its length where there is one.
pub record Found : Type 0 where
  pub status : Status
  pub out : Option (ℕ × ℕ)

-- Where `get` stands, at its labels: `retry_from_root`, `retry_find_border` with the root of a
-- layer and what is left of the key, `retry_fetch_lv` with the border node and its version.
pub data Get : Type 0 where
  get_retry_from_root : Get
  get_find_border : Ptr → Bytes → Get
  get_fetch_lv : Ptr → VersionBody → Bytes → Get
  get_done : Found → Get

-- The border node is no longer the one to look in: it has split, or has been deleted and is not the
-- root.
abbrev pub is_wrong : VersionBody → VersionBody → Bool
is_wrong v v_at_fb = not (v.vsplit == v_at_fb.vsplit) || (v.deleted && not v.root)

-- Where the checks behind a read send `get` back to, if they do.
abbrev pub get_checked : VersionBody → VersionBody → VersionBody → Ptr → Bytes → Get → Get
get_checked final v_at_fb v_at_fetch_lv border key next =
    if is_wrong final v_at_fb
    then get_retry_from_root
    else if not (final.vinsert_delete == v_at_fetch_lv.vinsert_delete)
    then get_fetch_lv border v_at_fb key
    else next

-- The part of `get` for an entry that holds a value: the body is read in front of the last check,
-- the length behind it.
unfoldable pub get_value_of :
    ℕ → History → Ptr → VersionBody → VersionBody → Bytes → ℕ → ℕ → Option (Get × ℕ)
get_value_of fuel h border v_at_fb v_at_fetch_lv key word t = do
  body ← get_body (h t).memory (get_value word)
  (final, t') ← stable_version_at fuel h border (t + 1)
  len ← get_len (h t').memory (get_value word)
  let out = get_done (record { status = Status.ok; out = some (body, len) })
  some (get_checked final v_at_fb v_at_fetch_lv border key out, t')

-- The part for an entry that holds the root of the next layer.
unfoldable pub get_below :
    ℕ → History → Ptr → VersionBody → VersionBody → Bytes → ℕ → ℕ → Option (Get × ℕ)
get_below fuel h border v_at_fb v_at_fetch_lv key word t = do
  (final, t') ← stable_version_at fuel h border (t + 1)
  let below = get_find_border (get_next_layer word) (remove_prefix slice_size key)
  some (get_checked final v_at_fb v_at_fetch_lv border key below, t')

-- The part of `get` behind `get_lv_of`, for the slot that it has found.
unfoldable pub get_at_slot :
    ℕ → History → Ptr → VersionBody → VersionBody → Bytes → ℕ → ℕ → Option (Get × ℕ)
get_at_slot fuel h border v_at_fb v_at_fetch_lv key lv_pos t = do
  n ← border_at (h t) border
  size ← get_key_length_at n.base lv_pos
  word ← get_lv_at n lv_pos
  if leb size slice_size
      then get_value_of fuel h border v_at_fb v_at_fetch_lv key word t
      else get_below fuel h border v_at_fb v_at_fetch_lv key word t

-- The part of `get` behind `get_lv_of`: the node is checked, and the slot is followed if there is one.
abbrev pub get_slot :
    ℕ → History → Ptr → VersionBody → VersionBody → Bytes → Option ℕ → ℕ → Option (Get × ℕ)
get_slot fuel h border v_at_fb v_at_fetch_lv key none t =
    some (get_done (record { status = Status.warn_not_exist; out = none }), t)
get_slot fuel h border v_at_fb v_at_fetch_lv key (some lv_pos) t =
    get_at_slot fuel h border v_at_fb v_at_fetch_lv key lv_pos t

-- What `find_border` found, as `get` goes on with it.
abbrev pub get_found : Find → Bytes → Option Get
get_found (find_done border v) key = some (get_fetch_lv border v key)
get_found retry_from_root_of_all key = some get_retry_from_root
get_found find_retry key = none
get_found (find_at n v) key = none

unfoldable pub get_step : ℕ → History → Bytes → Get → ℕ → Option (Get × ℕ)
get_step fuel h key get_retry_from_root t =
    let root = (h t).root in
    if root == 0
    then some (get_done (record { status = Status.warn_not_exist; out = none }), t + 1)
    else some (get_find_border root key, t + 1)
get_step fuel h key (get_find_border root rest) t = do
  (found, t') ← find_border fuel h root (prepare rest) t
  s ← get_found found rest
  some (s, t')
get_step fuel h key (get_fetch_lv border v_at_fb rest) t = do
  (slot, v_at_fetch_lv, t') ← lv_of_at fuel h border (prepare rest) t
  if is_wrong v_at_fetch_lv v_at_fb
      then some (get_retry_from_root, t')
      else get_slot fuel h border v_at_fb v_at_fetch_lv rest slot t'
get_step fuel h key (get_done f) t = some (get_done f, t)

-- `get` on fuel for its jumps; each wait and each descent has the same fuel.
unfoldable pub get_from : ℕ → ℕ → History → Bytes → Get → ℕ → Option (Found × ℕ)
get_from zero fuel h key s t = none
get_from (suc jumps) fuel h key (get_done f) t = some (f, t)
get_from (suc jumps) fuel h key get_retry_from_root t = do
  (s, t') ← get_step fuel h key get_retry_from_root t
  get_from jumps fuel h key s t'
get_from (suc jumps) fuel h key (get_find_border root rest) t = do
  (s, t') ← get_step fuel h key (get_find_border root rest) t
  get_from jumps fuel h key s t'
get_from (suc jumps) fuel h key (get_fetch_lv border v rest) t = do
  (s, t') ← get_step fuel h key (get_fetch_lv border v rest) t
  get_from jumps fuel h key s t'

unfoldable pub get : ℕ → ℕ → History → Bytes → ℕ → Option (Found × ℕ)
get jumps fuel h key t = get_from jumps fuel h key get_retry_from_root t
