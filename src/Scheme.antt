-- ===== src/Scheme.antt =====
-- include/scheme.h: constants, the status codes and the scan endpoints.
use Prim.Native.String.{String}
use text.Mathlib.Text.{◌==◌ as str_eq}
use yakushima.Common.{
  ℕ, ◌≡◌, refl, Option, none, some, ap, List, [], ◌∷◌, if◌then◌else◌, some_inj, sym, ◌∙◌,
}

-- Slots of a node.
abbrev pub key_slice_length : ℕ
key_slice_length = 15

-- `sizeof(key_slice_type)`: a key slice holds 8 bytes of a key.
abbrev pub slice_size : ℕ
slice_size = 8

pub data Status : Type 0 where
  warn_bad_usage : Status
  warn_concurrent_operations : Status
  warn_exist : Status
  warn_not_exist : Status
  warn_invalid_token : Status
  warn_retry_from_root_of_all : Status
  warn_storage_not_exist : Status
  warn_max_sessions : Status
  warn_unique_restriction : Status
  ok : Status
  ok_destroy_all : Status
  ok_destroy_border : Status
  ok_destroy_interior : Status
  ok_not_found : Status
  ok_retry_fetch_lv : Status
  ok_retry_after_fb : Status
  ok_retry_from_root : Status
  ok_root_is_deleted : Status
  ok_root_is_null : Status
  ok_scan_continue : Status
  ok_scan_end : Status
  err_argument : Status
  err_bad_usage : Status
  err_boundary : Status
  err_fatal : Status
  err_unknown_root : Status

pub data ScanEndpoint : Type 0 where
  exclusive inclusive inf : ScanEndpoint

unfoldable pub to_string_view : Status → String
to_string_view warn_bad_usage = "WARN_BAD_USAGE"
to_string_view warn_concurrent_operations = "WARN_CONCURRENT_OPERATIONS"
to_string_view warn_exist = "WARN_EXIST"
to_string_view warn_not_exist = "WARN_NOT_EXIST"
to_string_view warn_invalid_token = "WARN_INVALID_TOKEN"
to_string_view warn_retry_from_root_of_all = "WARN_RETRY_FROM_ROOT_OF_ALL"
to_string_view warn_storage_not_exist = "WARN_STORAGE_NOT_EXIST"
to_string_view warn_max_sessions = "WARN_MAX_SESSIONS"
to_string_view warn_unique_restriction = "WARN_UNIQUE_RESTRICTION"
to_string_view ok = "OK"
to_string_view ok_destroy_all = "OK_DESTROY_ALL"
to_string_view ok_destroy_border = "OK_DESTROY_BORDER"
to_string_view ok_destroy_interior = "OK_DESTROY_INTERIOR"
to_string_view ok_not_found = "OK_NOT_FOUND"
to_string_view ok_retry_fetch_lv = "OK_RETRY_FETCH_LV"
to_string_view ok_retry_after_fb = "OK_RETRY_AFTER_FB"
to_string_view ok_retry_from_root = "OK_RETRY_FROM_ROOT"
to_string_view ok_root_is_deleted = "OK_ROOT_IS_DELETED"
to_string_view ok_root_is_null = "OK_ROOT_IS_NULL"
to_string_view ok_scan_continue = "OK_SCAN_CONTINUE"
to_string_view ok_scan_end = "OK_SCAN_END"
to_string_view err_argument = "ERR_ARGUMENT"
to_string_view err_bad_usage = "ERR_BAD_USAGE"
to_string_view err_boundary = "ERR_BOUNDARY"
to_string_view err_fatal = "ERR_FATAL"
to_string_view err_unknown_root = "ERR_UNKNOWN_ROOT"

-- The first status of a list that prints as a text.
named : String → List Status → Option Status
named t [] = none
named t (s ∷ rest) = if str_eq (to_string_view s) t then some s else named t rest

abbrev statuses : List Status
statuses =
    warn_bad_usage ∷ warn_concurrent_operations ∷ warn_exist ∷ warn_not_exist ∷ warn_invalid_token
    ∷ warn_retry_from_root_of_all ∷ warn_storage_not_exist ∷ warn_max_sessions
    ∷ warn_unique_restriction ∷ ok ∷ ok_destroy_all ∷ ok_destroy_border ∷ ok_destroy_interior
    ∷ ok_not_found ∷ ok_retry_fetch_lv ∷ ok_retry_after_fb ∷ ok_retry_from_root ∷ ok_root_is_deleted
    ∷ ok_root_is_null ∷ ok_scan_continue ∷ ok_scan_end ∷ err_argument ∷ err_bad_usage ∷ err_boundary
    ∷ err_fatal ∷ err_unknown_root ∷ []

named-to_string_view : (s : Status) → named (to_string_view s) statuses ≡ some s
unfolding named to_string_view
named-to_string_view warn_bad_usage = refl
named-to_string_view warn_concurrent_operations = refl
named-to_string_view warn_exist = refl
named-to_string_view warn_not_exist = refl
named-to_string_view warn_invalid_token = refl
named-to_string_view warn_retry_from_root_of_all = refl
named-to_string_view warn_storage_not_exist = refl
named-to_string_view warn_max_sessions = refl
named-to_string_view warn_unique_restriction = refl
named-to_string_view ok = refl
named-to_string_view ok_destroy_all = refl
named-to_string_view ok_destroy_border = refl
named-to_string_view ok_destroy_interior = refl
named-to_string_view ok_not_found = refl
named-to_string_view ok_retry_fetch_lv = refl
named-to_string_view ok_retry_after_fb = refl
named-to_string_view ok_retry_from_root = refl
named-to_string_view ok_root_is_deleted = refl
named-to_string_view ok_root_is_null = refl
named-to_string_view ok_scan_continue = refl
named-to_string_view ok_scan_end = refl
named-to_string_view err_argument = refl
named-to_string_view err_bad_usage = refl
named-to_string_view err_boundary = refl
named-to_string_view err_fatal = refl
named-to_string_view err_unknown_root = refl

-- No two status codes print alike.
pub to_string_view-injective : (s t : Status) → to_string_view s ≡ to_string_view t → s ≡ t
to_string_view-injective s t e =
    some_inj (sym (named-to_string_view s) ∙ ap (λ v. named v statuses) e ∙ named-to_string_view t)
