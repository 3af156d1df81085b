-- ===== src/Sync/Git/Agreement.antt =====
-- How the classifications of a libgit2 error relate, and which codes are retried.
use vxcore.Errors.{err_invalid_param, err_sync_auth_failed}
use vxcore.Sync.Git.Errors.{
  unknown, class_other, class_index, cancelled, remote_diverged, class_invalid, repo_corrupt,
  class_checkout, non_fast_forward, class_merge, pos, merge_conflict, class_ssh,
  network_unavailable, message_of, class_ssl, no_error, class_net, class_of, class_http,
  auth_failure, negsuc, is_nonnegative, is_http, git_eauth, ℤ, translate_git_error, is_zero,
  is_minus, GitOpError, GitError, ErrorClass, translate_class, is_retryable_network_error,
  is_auth_failure, classify_message, classify_git_op, classify_code, classify_class,
}
use vxcore.Prelude.{
  inr, inl, Bool-cases, refl, ap, ◌↔◌, none, some, arith, ◌≢◌, true, false, ◌≡◌, ℕ, Bytes, Bool,
  Option,
}

unfoldable finds_auth : Option GitOpError → Bool
finds_auth none = false
finds_auth (some e) = is_auth_failure e

-- The switch over the code finds a refused login for GIT_EAUTH only.
classify_code-auth :
    (n : ℕ) → is_minus git_eauth (negsuc n) ≡ false → finds_auth (classify_code (negsuc n)) ≡ false
unfolding classify_code is_auth_failure finds_auth is_minus
classify_code-auth n h = ground (arith, h)

classify_class-auth : (c : ErrorClass) → finds_auth (classify_class c) ≡ false
unfolding classify_class is_auth_failure finds_auth
classify_class-auth class_http = refl
classify_class-auth class_net = refl
classify_class-auth class_ssl = refl
classify_class-auth class_ssh = refl
classify_class-auth class_merge = refl
classify_class-auth class_checkout = refl
classify_class-auth class_invalid = refl
classify_class-auth class_index = refl
classify_class-auth class_other = refl

classify_message-auth :
    (c : ErrorClass) (text : Bytes)
    → is_http c ≡ false
    → is_auth_failure (classify_message c text) ≡ false
unfolding classify_message is_auth_failure
classify_message-auth c text h = ground (arith, h)

classify_git_op-auth :
    (err : Option GitError) (n : ℕ) (text : Bytes)
    → is_minus git_eauth (negsuc n) ≡ false
    → is_http (class_of err) ≡ false
    → is_auth_failure (classify_git_op err (negsuc n) text) ≡ false
unfolding classify_git_op is_zero finds_auth
classify_git_op-auth err n text h k = ground (
  arith,
  h,
  k,
  classify_code-auth n h,
  classify_class-auth (class_of err),
  classify_message-auth (class_of err) text k,
)

translate_class-auth : (c : ErrorClass) (rc : ℤ) → translate_class c rc ≢ err_sync_auth_failed
unfolding translate_class
translate_class-auth class_http rc h = ground (arith, h)
translate_class-auth class_net rc h = ground (arith, h)
translate_class-auth class_ssl rc h = ground (arith, h)
translate_class-auth class_ssh rc h = ground (arith, h)
translate_class-auth class_merge rc h = ground (arith, h)
translate_class-auth class_checkout rc h = ground (arith, h)
translate_class-auth class_invalid rc h = ground (arith, h)
translate_class-auth class_index rc h = ground (arith, h)
translate_class-auth class_other rc h = ground (arith, h)

is_auth_failure-holds : (e : GitOpError) → is_auth_failure e ≡ true → e ≡ auth_failure
unfolding is_auth_failure
is_auth_failure-holds auth_failure h = refl
is_auth_failure-holds no_error h = ground (arith, h)
is_auth_failure-holds network_unavailable h = ground (arith, h)
is_auth_failure-holds merge_conflict h = ground (arith, h)
is_auth_failure-holds non_fast_forward h = ground (arith, h)
is_auth_failure-holds repo_corrupt h = ground (arith, h)
is_auth_failure-holds remote_diverged h = ground (arith, h)
is_auth_failure-holds cancelled h = ground (arith, h)
is_auth_failure-holds unknown h = ground (arith, h)

is_auth_failure-of : {e : GitOpError} → e ≡ auth_failure → is_auth_failure e ≡ true
unfolding is_auth_failure
is_auth_failure-of h = ap is_auth_failure h

classify_git_op-eauth :
    (err : Option GitError) (n : ℕ) (text : Bytes)
    → is_minus git_eauth (negsuc n) ≡ true
    → classify_git_op err (negsuc n) text ≡ auth_failure
unfolding classify_git_op is_zero classify_code is_minus
classify_git_op-eauth err n text h = ground (arith, h)

-- TranslateGitError reports a refused login exactly where ClassifyGitOp finds an authentication
-- failure in the last error of libgit2 and its message, for every code below 0.
pub translate_git_error-classify_git_op :
    (err : Option GitError) (n : ℕ)
    → (translate_git_error err (negsuc n) ≡ err_sync_auth_failed)
      ↔ (classify_git_op err (negsuc n) (message_of err) ≡ auth_failure)
unfolding translate_git_error is_nonnegative
translate_git_error-classify_git_op err n = elim (Bool-cases (is_minus git_eauth (negsuc n))) [
  | inl auth ↦ (λ h. classify_git_op-eauth err n (message_of err) auth, λ h. ground (arith, auth))
  | inr h ↦ elim (Bool-cases (is_http (class_of err))) [
    | inl http ↦ (
      λ e.
          is_auth_failure-holds (classify_git_op err (negsuc n) (message_of err))
            (ground (arith, h, http, e)),
      λ e. ground (arith, h, http, is_auth_failure-of e),
    )
    | inr k ↦ (
      λ e. ground (arith, h, k, translate_class-auth (class_of err) (negsuc n), e),
      λ e. ground (arith, classify_git_op-auth err n (message_of err) h k, is_auth_failure-of e),
    )
  ]
]

-- A code that is_retryable_network_error retries is GIT_EINVALIDSPEC, which without a last error
-- TranslateGitError reports as an invalid parameter, and no network error.
pub is_retryable_network_error-invalid_param :
    (rc : ℤ)
    → is_retryable_network_error rc ≡ true
    → (rc ≡ negsuc 11) × (translate_git_error none rc ≡ err_invalid_param)
unfolding is_retryable_network_error is_zero is_minus translate_git_error is_nonnegative
    translate_class class_of is_http
is_retryable_network_error-invalid_param (pos n) h = ground (arith, h)
is_retryable_network_error-invalid_param (negsuc n) h =
    let e : n ≡ 11 = ground (arith, h) in (ap negsuc e, ground (arith, e))
