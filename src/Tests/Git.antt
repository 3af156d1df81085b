-- ===== src/Tests/Git.antt =====
-- sync/git/ at concrete inputs: a libgit2 whose state is the number of operations left.
use vxcore.Utils.Strings.{starts_with, find_from, find}
use vxcore.Sync.Git.Agreement.{
  translate_git_error-classify_git_op, is_retryable_network_error-invalid_param,
}
use vxcore.Errors.{vxcore_ok, err_sync_conflict, err_sync_auth_failed, err_invalid_param}
use vxcore.Sync.Git.Replay.{drive_rebase_loop-ends, Runs, RebaseLaws}
use vxcore.Sync.Git.Rebase.{
  fast_forward, pre_check, start_rebase, rebase_found, finish, rebase_from, drive_rebase_loop,
  rebase_onto_origin, continue_rebase_after_resolution, LibGit,
}
use vxcore.Sync.Git.Handle.{Leaves, rebase_onto_origin-Leaves}
use vxcore.Sync.Git.Errors.{
  is_auth_failure, has_substr, is_denial, is_push_rejection, classify_message, classify_class,
  auth_failure, message_of, classify_code, classify_git_op, is_http, pos, class_of, ℤ,
  is_nonnegative, is_minus, class_http, translate_git_error, negsuc, is_zero,
  is_retryable_network_error, GitError,
}
use vxcore.Prelude.{arith, ◌↔◌, ◌==◌, ◌<◌, zero, refl, true, suc, codes, ◌≡◌, some, none, false, ℕ}

toy_next : ℕ → ℤ × ℕ
toy_next zero = (negsuc 30, 0)
toy_next (suc n) = (pos 0, n)

-- The local branch is 1, the remote one 2, and they have diverged from 0; the last operation conflicts.
abbrev toy : LibGit ℕ ℕ ℕ ℕ
toy = record {
  last_error = λ w. none;
  error_clear = λ w. w;
  repository_head = λ w. (pos 0, 1, w);
  reference_shorthand = λ f. some "main";
  reference_lookup = λ name w. (pos 0, 2, w);
  reference_target = λ f. some f;
  merge_base = λ a b w. (pos 0, 0, w);
  oid_equal = λ a b. a == b;
  object_lookup = λ o w. (pos 0, w);
  checkout_tree = λ o w. (pos 0, w);
  reference_set_target = λ f o w. (pos 0, w);
  annotated_commit_from_ref = λ f w. (pos 0, w);
  rebase_init = λ f g w. (pos 0, 7, w);
  signature_now = λ w. (pos 0, w);
  is_rebase_merge = λ w. true;
  rebase_next = λ r w. toy_next w;
  repository_index = λ w. (pos 0, w);
  has_conflicts = λ w. w == 1;
  rebase_commit = λ r w. (pos 0, w);
  rebase_finish = λ r w. (pos 0, w);
  rebase_free = λ r w. w;
  rest = λ r w. w;
}

toy_performs : (r w : ℕ) → is_zero (toy_next w).0 ≡ true → (toy_next w).1 < w
unfolding is_zero toy_next
toy_performs r zero h = ground (arith, h)
toy_performs r (suc n) h = omega arith

toy-RebaseLaws : RebaseLaws toy
toy-RebaseLaws = record {
  next_performs = toy_performs;
  index_performs_none = λ r w. refl;
  commit_performs_none = λ r w. refl;
  clear_performs_none = λ r w. refl;
}

-- Three operations are left and the second one conflicts.
rebase_conflict : rebase_onto_origin toy 4 none 3 ≡ some (err_sync_conflict, some 7, 1)
unfolding rebase_onto_origin rebase_from rebase_found start_rebase pre_check drive_rebase_loop
    is_minus is_zero toy_next fast_forward
rebase_conflict = refl

rebase_done : rebase_onto_origin toy 1 none 0 ≡ some (vxcore_ok, none, 0)
unfolding rebase_onto_origin rebase_from rebase_found start_rebase pre_check drive_rebase_loop
    is_minus is_zero toy_next fast_forward finish
rebase_done = refl

after_resolution : continue_rebase_after_resolution toy 2 (some 7) 1 ≡ some (vxcore_ok, none, 0)
unfolding continue_rebase_after_resolution drive_rebase_loop is_minus is_zero toy_next finish
after_resolution = refl

drive_rebase_loop-ends_example :
    Runs toy 7 false err_sync_conflict 3 (drive_rebase_loop toy 4 7 false err_sync_conflict 3)
drive_rebase_loop-ends_example =
    drive_rebase_loop-ends toy toy-RebaseLaws 4 7 false err_sync_conflict 3 (omega arith)

rebase_onto_origin-Leaves_example : Leaves toy (some 5) (rebase_onto_origin toy 4 (some 5) 3)
unfolding pre_check is_zero
rebase_onto_origin-Leaves_example =
    rebase_onto_origin-Leaves toy toy-RebaseLaws 4 (some 5) 3 (omega arith)

abbrev denied : GitError
denied = record { klass = class_http; message = some (codes "status code: 401") }

denied_class : translate_git_error (some denied) (negsuc 0) ≡ err_sync_auth_failed
unfolding translate_git_error is_nonnegative is_minus class_of is_http classify_git_op is_zero
    classify_code classify_class classify_message message_of is_push_rejection is_denial has_substr
    is_auth_failure find find_from starts_with
denied_class = refl

translate_git_error-classify_git_op_example :
    (translate_git_error (some denied) (negsuc 0) ≡ err_sync_auth_failed)
    ↔ (classify_git_op (some denied) (negsuc 0) (message_of (some denied)) ≡ auth_failure)
translate_git_error-classify_git_op_example = translate_git_error-classify_git_op (some denied) 0

retried : is_retryable_network_error (negsuc 11) ≡ true
unfolding is_retryable_network_error is_zero is_minus
retried = refl

is_retryable_network_error-invalid_param_example :
    (negsuc 11 ≡ negsuc 11) × (translate_git_error none (negsuc 11) ≡ err_invalid_param)
is_retryable_network_error-invalid_param_example =
    is_retryable_network_error-invalid_param (negsuc 11) retried
