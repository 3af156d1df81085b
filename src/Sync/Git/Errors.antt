-- ===== src/Sync/Git/Errors.antt =====
-- sync/git/git_error_translator.cpp and sync/retry_policy.cpp: what an error of libgit2 means. The
-- last error of libgit2 is an argument.
use vxcore.Utils.Strings.{find, is_empty}
use vxcore.Prelude.{
  codes, is_some, ◌+◌, ◌||◌, ◌&&◌, not, none, false, ◌==◌, true, some, if◌then◌else◌, [], ℕ, Option,
  Bytes, Bool,
}
use vxcore.Errors.{
  err_unknown, err_invalid_param, err_sync_auth_failed, err_not_found, vxcore_ok, err_sync_conflict,
  err_sync_network, VxCoreError,
}

pub data ℤ : Type 0 where
  pos : ℕ → ℤ
  negsuc : ℕ → ℤ

-- rc == 0
unfoldable pub is_zero : ℤ → Bool
is_zero (pos n) = n == 0
is_zero (negsuc n) = false

-- rc >= 0
unfoldable pub is_nonnegative : ℤ → Bool
is_nonnegative (pos n) = true
is_nonnegative (negsuc n) = false

-- rc == -n
unfoldable pub is_minus : ℕ → ℤ → Bool
is_minus n (pos m) = (n == 0) && (m == 0)
is_minus n (negsuc m) = n == m + 1

-- The codes of git_error_code in libgit2's errors.h, without their sign.
abbrev pub git_enotfound : ℕ
git_enotfound = 3

abbrev pub git_euser : ℕ
git_euser = 7

abbrev pub git_ebarerepo : ℕ
git_ebarerepo = 8

abbrev pub git_eunbornbranch : ℕ
git_eunbornbranch = 9

abbrev pub git_eunmerged : ℕ
git_eunmerged = 10

abbrev pub git_enonfastforward : ℕ
git_enonfastforward = 11

abbrev pub git_einvalidspec : ℕ
git_einvalidspec = 12

abbrev pub git_econflict : ℕ
git_econflict = 13

abbrev pub git_eauth : ℕ
git_eauth = 16

abbrev pub git_ecertificate : ℕ
git_ecertificate = 17

abbrev pub git_eapplied : ℕ
git_eapplied = 18

abbrev pub git_euncommitted : ℕ
git_euncommitted = 22

abbrev pub git_emergeconflict : ℕ
git_emergeconflict = 24

abbrev pub git_iterover : ℕ
git_iterover = 31

-- The categories of git_error_t that the code names.
pub data ErrorClass : Type 0 where
  class_http class_net class_ssl class_ssh class_merge class_checkout : ErrorClass
  class_invalid class_index class_other : ErrorClass

-- git_error: the category and the message, which may be null.
pub record GitError : Type 0 where
  pub klass : ErrorClass
  pub message : Option Bytes

pub data GitOpError : Type 0 where
  no_error network_unavailable auth_failure merge_conflict non_fast_forward : GitOpError
  repo_corrupt remote_diverged cancelled unknown : GitOpError

-- `err ? err->klass : 0`
unfoldable pub class_of : Option GitError → ErrorClass
class_of none = class_other
class_of (some err) = err.klass

-- `(err && err->message) ? err->message : ""`
unfoldable pub message_of : Option GitError → Bytes
message_of none = []
message_of (some err) = elim (err.message) [ none ↦ [] | some text ↦ text ]

unfoldable pub has_substr : Bytes → Bytes → Bool
has_substr haystack needle =
    if is_empty haystack || is_empty needle then false else is_some (find haystack needle 0)

-- The switch over the code; `none` is its default.
unfoldable pub classify_code : ℤ → Option GitOpError
classify_code rc =
    if is_minus git_euser rc
    then some cancelled
    else if is_minus git_eauth rc
    then some auth_failure
    else if is_minus git_ecertificate rc
    then some network_unavailable
    else if is_minus git_enonfastforward rc
    then some non_fast_forward
    else if is_minus git_eunmerged rc || is_minus git_emergeconflict rc || is_minus git_econflict rc
    then some merge_conflict
    else if is_minus git_euncommitted rc || is_minus git_ebarerepo rc
    then some repo_corrupt
    else none

-- The tests on the category; `none` goes on to the message.
unfoldable pub classify_class : ErrorClass → Option GitOpError
classify_class class_net = some network_unavailable
classify_class class_ssl = some network_unavailable
classify_class class_ssh = some network_unavailable
classify_class class_merge = some merge_conflict
classify_class class_checkout = some merge_conflict
classify_class class_index = some repo_corrupt
classify_class _ = none

unfoldable pub is_push_rejection : Bytes → Bool
is_push_rejection text =
    has_substr text (codes "non-fast-forward")
    || has_substr text (codes "non fast forward")
    || has_substr text (codes "fast-forward")
    || has_substr text (codes "rejected")

unfoldable pub is_denial : Bytes → Bool
is_denial text =
    has_substr text (codes "401")
    || has_substr text (codes "403")
    || has_substr text (codes "authenticat")
    || has_substr text (codes "credentials")

unfoldable pub is_http : ErrorClass → Bool
is_http class_http = true
is_http _ = false

unfoldable pub classify_message : ErrorClass → Bytes → GitOpError
classify_message klass text =
    if is_push_rejection text
    then non_fast_forward
    else if not (is_http klass)
    then unknown
    else if is_denial text
    then auth_failure
    else network_unavailable

unfoldable pub classify_git_op : Option GitError → ℤ → Bytes → GitOpError
classify_git_op err rc text = if is_zero rc then no_error else elim (classify_code rc) [
  | some e ↦ e
  | none ↦ elim (classify_class (class_of err)) [
    | some e ↦ e
    | none ↦ classify_message (class_of err) text
  ]
]

unfoldable pub is_auth_failure : GitOpError → Bool
is_auth_failure auth_failure = true
is_auth_failure _ = false

-- What is left once the HTTP category is behind.
unfoldable pub translate_class : ErrorClass → ℤ → VxCoreError
translate_class class_net rc = err_sync_network
translate_class class_ssl rc = err_sync_network
translate_class class_ssh rc = err_sync_network
translate_class class_merge rc = err_sync_conflict
translate_class class_checkout rc = err_sync_conflict
translate_class class_invalid rc =
    if is_minus git_enotfound rc then err_not_found else err_invalid_param
translate_class _ rc =
    if is_minus git_enotfound rc
    then err_not_found
    else if is_minus git_einvalidspec rc
    then err_invalid_param
    else err_unknown

unfoldable pub translate_git_error : Option GitError → ℤ → VxCoreError
translate_git_error err rc =
    if is_nonnegative rc
    then vxcore_ok
    else if is_minus git_eauth rc
    then err_sync_auth_failed
    else if is_http (class_of err)
    then if is_auth_failure (classify_git_op err rc (message_of err))
      then err_sync_auth_failed
      else err_sync_network
    else translate_class (class_of err) rc

-- The constant that retry_policy.cpp calls kGitETimeout; no other code is retried.
abbrev pub k_git_etimeout : ℕ
k_git_etimeout = 12

unfoldable pub is_retryable_network_error : ℤ → Bool
is_retryable_network_error rc = if is_zero rc then false else is_minus k_git_etimeout rc
