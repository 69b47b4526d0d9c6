-- ===== src/Scan.antt =====
-- The range scan (include/scan_helper.h, include/interface_scan.h): what a scan asks for, what it
-- hands out, and how it decides about one entry of a border node.
pub mod Border
pub mod Layers
pub mod Range
pub mod Entries
pub mod Node
pub mod NodeLoop
pub mod Chain
use Prim.Native.Nat.{Ordering}
use yakushima.Common.{
  ℕ, ◌+◌, Bool, true, false, not, ◌&&◌, ◌||◌, List, [], ◌∷◌, ◌++◌, length, take, Option, none, some,
  ◌==◌, ltb, leb, if◌then◌else◌,
}
use yakushima.Scheme.{Status, ScanEndpoint, slice_size}
use yakushima.Key.{Bytes, KeyTuple, memcmp, key_slice, remove_prefix, shorter}
use yakushima.BaseNode.{Ptr}
use yakushima.Version.{VersionBody, equal}

-- An element of `tuple_list`: key, body and length.
pub record ScanTuple : Type 0 where
  pub key : Bytes
  pub body : ℕ
  pub len : ℕ

-- The two lists that a scan fills; `none` where `node_version_vec` is null. A pointer to the
-- version of a node is the address of the node.
pub record Out : Type 0 where
  pub tuple_list : List ScanTuple
  pub node_version_vec : Option (List (VersionBody × Ptr))

-- The arguments that a scan passes down.
pub record Query : Type 0 where
  pub l_key : Bytes
  pub l_end : ScanEndpoint
  pub r_key : Bytes
  pub r_end : ScanEndpoint
  pub key_prefix : Bytes
  pub max_size : ℕ

abbrev pub versions_length : Option (List (VersionBody × Ptr)) → ℕ
versions_length none = 0
versions_length (some vs) = length vs

abbrev pub take_versions : ℕ → Option (List (VersionBody × Ptr)) → Option (List (VersionBody × Ptr))
take_versions n none = none
take_versions n (some vs) = some (take n vs)

-- `initial_size_of_tuple_list` and `initial_size_of_node_version_vec`
abbrev pub sizes_of : Out → ℕ × ℕ
sizes_of o = (length o.tuple_list, versions_length o.node_version_vec)

-- `clean_up_tuple_list_nvc`
unfoldable pub clean_up : ℕ × ℕ → Out → Out
clean_up sizes o = record {
  tuple_list = take sizes.0 o.tuple_list;
  node_version_vec = take_versions sizes.1 o.node_version_vec;
}

abbrev pub log_into :
    VersionBody → Ptr → Option (List (VersionBody × Ptr)) → Option (List (VersionBody × Ptr))
log_into v p none = none
log_into v p (some vs) = some (vs ++ (v, p) ∷ [])

-- `node_version_vec->emplace_back`, if it is not null
abbrev pub log_version : VersionBody → Ptr → Out → Out
log_version v p o = record o { node_version_vec = log_into v p o.node_version_vec }

abbrev pub is_inf : ScanEndpoint → Bool
is_inf ScanEndpoint.inf = true
is_inf ScanEndpoint.inclusive = false
is_inf ScanEndpoint.exclusive = false

abbrev pub is_inclusive : ScanEndpoint → Bool
is_inclusive ScanEndpoint.inf = false
is_inclusive ScanEndpoint.inclusive = true
is_inclusive ScanEndpoint.exclusive = false

abbrev pub is_exclusive : ScanEndpoint → Bool
is_exclusive ScanEndpoint.inf = false
is_exclusive ScanEndpoint.inclusive = false
is_exclusive ScanEndpoint.exclusive = true

-- `scan_check_retry` on the stable version that it reads: the status, and what is left in `v_at_fb`.
unfoldable pub scan_check_retry : VersionBody → VersionBody → Status × VersionBody
scan_check_retry check v_at_fb =
    if equal check v_at_fb
    then (Status.ok, v_at_fb)
    else if not (check.vsplit == v_at_fb.vsplit) || check.deleted
    then (Status.ok_retry_from_root, v_at_fb)
    else (Status.ok_retry_after_fb, check)

-- The bytes of an entry behind those of the layers above.
abbrev pub full_key : Bytes → KeyTuple → Bytes
full_key key_prefix key = key_prefix ++ take (shorter key.size slice_size) key.slice

-- The left end for the layer below an entry; `none` where the entry is in front of the range.
unfoldable pub below_left : Query → Bytes → Option (Bytes × ScanEndpoint)
below_left q slice =
    if is_inf q.l_end
    then some ([], ScanEndpoint.inf)
    else elim (memcmp slice_size (key_slice q.l_key) slice) [
      | Ordering.lt ↦ some ([], ScanEndpoint.inf)
      | Ordering.eq ↦ some (
        if ltb slice_size (length q.l_key) then remove_prefix slice_size q.l_key else [],
        q.l_end,
      )
      | Ordering.gt ↦ none
    ]

-- The right end for that layer; `none` where the entry is behind the range.
unfoldable pub below_right : Query → Bytes → Option (Bytes × ScanEndpoint)
below_right q full =
    if is_inf q.r_end
    then some ([], ScanEndpoint.inf)
    else elim (memcmp (shorter (length q.r_key) (length full)) q.r_key full) [
      | Ordering.lt ↦ none
      | Ordering.eq ↦ if leb (length q.r_key) (length full) then none else some (q.r_key, q.r_end)
      | Ordering.gt ↦ some ([], ScanEndpoint.inf)
    ]

-- What is done with an entry that holds a value.
pub data Visit : Type 0 where
  skip : Visit
  hand_out : Visit
  leave : Visit

-- An entry with a value is in front of the range.
unfoldable pub left_out : Query → KeyTuple → Bool
left_out q key = elim (memcmp slice_size (key_slice q.l_key) key.slice) [
  | Ordering.lt ↦ false
  | Ordering.eq ↦
      ltb key.size (length q.l_key) || (length q.l_key == key.size && is_exclusive q.l_end)
  | Ordering.gt ↦ true
]

-- It is not behind the range.
unfoldable pub right_in : Query → Bytes → Bool
right_in q full = elim (memcmp (shorter (length q.r_key) (length full)) q.r_key full) [
  | Ordering.lt ↦ false
  | Ordering.eq ↦
      ltb (length full) (length q.r_key) || (length q.r_key == length full && is_inclusive q.r_end)
  | Ordering.gt ↦ true
]

unfoldable pub visit : Query → KeyTuple → Bytes → Visit
visit q key full =
    if is_inf q.l_end && is_inf q.r_end
    then hand_out
    else if not (is_inf q.l_end) && left_out q key
    then skip
    else if is_inf q.r_end
    then hand_out
    else if right_in q full
    then hand_out
    else leave
