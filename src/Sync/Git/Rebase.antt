-- ===== src/Sync/Git/Rebase.antt =====
-- sync/git/git_sync_pipeline.cpp: the rebase onto the remote branch and its continuation. libgit2 and
-- the repository are parameters; the handle `*rebase_out` is an Option.
use vxcore.Sync.Git.Errors.{
  git_eapplied, git_iterover, git_eunbornbranch, git_enotfound, is_zero, is_minus,
  translate_git_error, GitError, ℤ,
}
use vxcore.Prelude.{
  zero, ◌++ˢ◌, ◌&&◌, true, suc, not, String, some, none, if◌then◌else◌, false, Bool, ℕ, Option,
}
use vxcore.Errors.{err_unknown, vxcore_ok, err_sync_conflict, VxCoreError}

-- The calls of libgit2 for one repository and author, with the code each returns; `W` is the
-- repository and libgit2's state, `R` a git_rebase, `F` a git_reference and `O` a git_oid. `rest`
-- counts the operations of a rebase that git_rebase_next has not performed.
pub record LibGit (W R F O : Type 0) : Type 0 where
  pub last_error : W → Option GitError
  pub error_clear : W → W
  pub repository_head : W → ℤ × F × W
  pub reference_shorthand : F → Option String
  pub reference_lookup : String → W → ℤ × F × W
  pub reference_target : F → Option O
  pub merge_base : O → O → W → ℤ × O × W
  pub oid_equal : O → O → Bool
  pub object_lookup : O → W → ℤ × W
  pub checkout_tree : O → W → ℤ × W
  pub reference_set_target : F → O → W → ℤ × W
  pub annotated_commit_from_ref : F → W → ℤ × W
  pub rebase_init : F → F → W → ℤ × R × W
  pub signature_now : W → ℤ × W
  pub is_rebase_merge : W → Bool
  pub rebase_next : R → W → ℤ × W
  pub repository_index : W → ℤ × W
  pub has_conflicts : W → Bool
  pub rebase_commit : R → W → ℤ × W
  pub rebase_finish : R → W → ℤ × W
  pub rebase_free : R → W → W
  pub rest : R → W → ℕ

module _ {W R F O : Type 0} (git : LibGit W R F O) where
  -- TranslateGitError
  unfoldable pub translate : W → ℤ → VxCoreError
  translate w rc = translate_git_error (git.last_error w) rc

  -- The translation of the code, with the rebase freed and the handle reset.
  unfoldable pub fail : R → ℤ → W → VxCoreError × Option R × W
  fail r rc w = (translate w rc, none, git.rebase_free r w)

  -- What the loop does at GIT_ITEROVER.
  unfoldable pub finish : R → W → VxCoreError × Option R × W
  finish r w =
      let (rc, w1) = git.rebase_finish r (git.error_clear w) in
      let w2 = git.rebase_free r w1 in (if is_zero rc then vxcore_ok else translate w2 rc, none, w2)

  -- The loop, with fuel; `none` where the fuel runs out.
  unfoldable pub drive_rebase_loop :
      ℕ → R → Bool → VxCoreError → W → Option (VxCoreError × Option R × W)
  drive_rebase_loop zero r allow_eapplied on_conflict w = none
  drive_rebase_loop (suc fuel) r allow_eapplied on_conflict w =
      let (rc, w1) = git.rebase_next r w in
      let (irc, w2) = git.repository_index w1 in
      let (crc, w3) = git.rebase_commit r w2 in
      let rest =
        drive_rebase_loop fuel r allow_eapplied on_conflict
          (if allow_eapplied then git.error_clear w3 else w3) in
      if is_minus git_iterover rc
      then some (finish r w1)
      else if not (is_zero rc)
      then some (fail r rc w1)
      else if not (is_zero irc)
      then some (fail r irc w2)
      else if git.has_conflicts w2
      then some (on_conflict, some r, w2)
      else if not (is_zero crc) && not (allow_eapplied && is_minus git_eapplied crc)
      then some (fail r crc w3)
      else rest

  -- RebaseOntoOrigin from the commits of the two branches on. git_rebase_init overwrites the handle,
  -- which is reset where it fails.
  unfoldable pub start_rebase : ℕ → Option R → F → F → W → Option (VxCoreError × Option R × W)
  start_rebase fuel handle head remote w =
      let (arc, w1) = git.annotated_commit_from_ref head w in
      let (brc, w2) = git.annotated_commit_from_ref remote w1 in
      let (irc, r, w3) = git.rebase_init head remote w2 in
      let (src, w4) = git.signature_now w3 in
      let w5 = git.rebase_free r w4 in
      let run = drive_rebase_loop fuel r false err_sync_conflict w4 in
      if not (is_zero arc)
      then some (translate w1 arc, handle, w1)
      else if not (is_zero brc)
      then some (translate w2 brc, handle, w2)
      else if not (is_zero irc)
      then some (translate w3 irc, none, w3)
      else if not (is_zero src)
      then some (translate w5 src, none, w5)
      else run

  -- The local branch is moved to the remote commit.
  unfoldable pub fast_forward : F → O → W → VxCoreError × W
  fast_forward head remote_oid w =
      let (lrc, w1) = git.object_lookup remote_oid w in
      let (crc, w2) = git.checkout_tree remote_oid w1 in
      let (src, w3) = git.reference_set_target head remote_oid w2 in
      if not (is_zero lrc)
      then (translate w1 lrc, w1)
      else if not (is_zero crc)
      then (translate w2 crc, w2)
      else if not (is_zero src)
      then (translate w3 src, w3)
      else (vxcore_ok, w3)

  -- The pre-check; `none` goes on to the rebase.
  unfoldable pub pre_check : F → F → W → Option VxCoreError × W
  pre_check head remote w = elim (git.reference_target head) [
    | none ↦ (none, w)
    | some local_oid ↦ elim (git.reference_target remote) [
      | none ↦ (none, w)
      | some remote_oid ↦
          let (rc, base, w1) = git.merge_base local_oid remote_oid w in
          let base_eq_local = git.oid_equal base local_oid in
          let base_eq_remote = git.oid_equal base remote_oid in
          let (forwarded, w2) = fast_forward head remote_oid w1 in
          if is_zero rc
          then if base_eq_local && base_eq_remote
            then (some vxcore_ok, w1)
            else if base_eq_remote && not base_eq_local
            then (some vxcore_ok, w1)
            else if base_eq_local && not base_eq_remote
            then (some forwarded, w2)
            else (none, w1)
          else if is_minus git_enotfound rc
          then (none, git.error_clear w1)
          else (none, w1)
    ]
  ]

  -- RebaseOntoOrigin once HEAD has a branch.
  unfoldable pub rebase_found : ℕ → Option R → F → String → W → Option (VxCoreError × Option R × W)
  rebase_found fuel handle head branch w =
      let (rrc, remote, w2) = git.reference_lookup ("refs/remotes/origin/" ++ˢ branch) w in
      let (checked, w3) = pre_check head remote w2 in
      let rebased = start_rebase fuel handle head remote w3 in
      if is_minus git_enotfound rrc
      then some (vxcore_ok, handle, git.error_clear w2)
      else if not (is_zero rrc)
      then some (translate w2 rrc, handle, w2)
      else (elim checked [ none ↦ rebased | some err ↦ some (err, handle, w3) ])

  -- `name` is the shorthand of HEAD.
  unfoldable pub rebase_from :
      ℕ → Option R → Option String → W → Option (VxCoreError × Option R × W)
  rebase_from fuel handle name w =
      let (hrc, head, w1) = git.repository_head w in
      if is_minus git_eunbornbranch hrc
      then some (vxcore_ok, handle, git.error_clear w1)
      else if not (is_zero hrc)
      then some (translate w1 hrc, handle, w1)
      else (elim name [
        | none ↦ some (err_unknown, handle, w1)
        | some branch ↦ rebase_found fuel handle head branch w1
      ])

  -- RebaseOntoOrigin on an open repository, with `*rebase_in_progress_` as it is when it is called.
  unfoldable pub rebase_onto_origin : ℕ → Option R → W → Option (VxCoreError × Option R × W)
  rebase_onto_origin fuel handle w =
      rebase_from fuel handle (git.reference_shorthand (git.repository_head w).1) w

  unfoldable pub continue_rebase_after_resolution :
      ℕ → Option R → W → Option (VxCoreError × Option R × W)
  continue_rebase_after_resolution fuel none w = some (vxcore_ok, none, w)
  continue_rebase_after_resolution fuel (some r) w =
      let (src, w1) = git.signature_now w in
      let (crc, w2) = git.rebase_commit r w1 in
      let run = drive_rebase_loop fuel r true vxcore_ok (git.error_clear w2) in
      if not (git.is_rebase_merge w)
      then some (vxcore_ok, some r, w)
      else if not (is_zero src)
      then some (translate w1 src, some r, w1)
      else if not (is_zero crc) && not (is_minus git_eapplied crc)
      then some (translate w2 crc, some r, w2)
      else run
