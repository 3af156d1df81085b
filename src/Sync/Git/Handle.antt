-- ===== src/Sync/Git/Handle.antt =====
-- The handle that RebaseOntoOrigin of sync/git/git_sync_pipeline.cpp leaves in the backend.
use vxcore.Sync.Git.Errors.{git_eunbornbranch, git_enotfound, is_zero, is_minus}
use vxcore.Errors.{err_unknown, err_sync_conflict, VxCoreError}
use vxcore.Sync.Git.Replay.{
  commit_failed, in_conflict, index_failed, next_failed, drive_rebase_loop-ends, all_done, Ending,
  RebaseLaws,
}
use vxcore.Prelude.{
  Option-cases, sym, inr, ◌⊎◌, subst, inl, Bool-cases, ◌<◌, refl, true, none, ◌≡◌, ◌++ˢ◌, some,
  false, String, ℕ, Option,
}
use vxcore.Sync.Git.Rebase.{
  pre_check, drive_rebase_loop, start_rebase, rebase_onto_origin, rebase_from, rebase_found, fail,
  finish, LibGit,
}

module _ {W R F O : Type 0} (git : LibGit W R F O) where
  -- The run returns. It leaves no rebase, or that of before, or it returns SYNC_CONFLICT with a
  -- conflict in the index.
  abbrev pub Leaves : Option R → Option (VxCoreError × Option R × W) → Type 0
  Leaves handle none = ⊥
  Leaves handle (some (err, h, w)) =
      (h ≡ none) ⊎ (h ≡ handle) ⊎ ((err ≡ err_sync_conflict) × (git.has_conflicts w ≡ true))

  Ending-Leaves :
      (handle : Option R) (r : R) (v : W) (result : VxCoreError × Option R × W)
      → Ending git r false err_sync_conflict v result
      → Leaves handle (some result)
  unfolding finish fail
  Ending-Leaves handle r v result (all_done h) = inl refl
  Ending-Leaves handle r v result (next_failed h k) = inl refl
  Ending-Leaves handle r v result (index_failed h k) = inl refl
  Ending-Leaves handle r v result (in_conflict h k) = inr (inr (refl, k))
  Ending-Leaves handle r v result (commit_failed h k l) = inl refl

  -- The rebase that is started and the state its loop starts in.
  abbrev started : F → F → W → R × W
  started head remote w =
      let (irc, r, w3) =
        git.rebase_init head remote
          (git.annotated_commit_from_ref remote (git.annotated_commit_from_ref head w).1).1 in
      (r, (git.signature_now w3).1)

  -- Enough fuel: the operations of the rebase that would be started.
  abbrev found_fuel : F → String → W → ℕ
  found_fuel head branch w =
      let (rrc, remote, w2) = git.reference_lookup ("refs/remotes/origin/" ++ˢ branch) w in
      let (r, w4) = started head remote (pre_check git head remote w2).1 in git.rest r w4

  abbrev from_fuel : Option String → W → ℕ
  from_fuel none w = 0
  from_fuel (some branch) w =
      let (hrc, head, w1) = git.repository_head w in found_fuel head branch w1

  abbrev pub rebase_fuel : W → ℕ
  rebase_fuel w = from_fuel (git.reference_shorthand (git.repository_head w).1) w

  module _ (laws : RebaseLaws git) where
    drive_rebase_loop-Leaves :
        (fuel : ℕ) (handle : Option R) (r : R) (w : W)
        → git.rest r w < fuel
        → Leaves handle (drive_rebase_loop git fuel r false err_sync_conflict w)
    drive_rebase_loop-Leaves fuel handle r w k =
        let (v, replayed, result, e, ending) =
          drive_rebase_loop-ends git laws fuel r false err_sync_conflict w k in
        subst (Leaves handle) (sym e) (Ending-Leaves handle r v result ending)

    start_rebase-Leaves :
        (fuel : ℕ) (handle : Option R) (head remote : F) (w : W)
        → git.rest (started head remote w).0 (started head remote w).1 < fuel
        → Leaves handle (start_rebase git fuel handle head remote w)
    unfolding start_rebase
    start_rebase-Leaves fuel handle head remote w k =
        let (arc, w1) = git.annotated_commit_from_ref head w in
        let (brc, w2) = git.annotated_commit_from_ref remote w1 in
        let (irc, r, w3) = git.rebase_init head remote w2 in
        let (src, w4) = git.signature_now w3 in
        elim (Bool-cases (is_zero arc)) [
          | inr a ↦ rw a (inr (inl refl))
          | inl a ↦ elim (Bool-cases (is_zero brc)) [
            | inr b ↦ rw (a, b) (inr (inl refl))
            | inl b ↦ elim (Bool-cases (is_zero irc)) [
              | inr i ↦ rw (a, b, i) (inl refl)
              | inl i ↦ elim (Bool-cases (is_zero src)) [
                | inr s ↦ rw (a, b, i, s) (inl refl)
                | inl s ↦ rw (a, b, i, s) (drive_rebase_loop-Leaves fuel handle r w4 k)
              ]
            ]
          ]
        ]

    rebase_found-Leaves :
        (fuel : ℕ) (handle : Option R) (head : F) (branch : String) (w : W)
        → found_fuel head branch w < fuel
        → Leaves handle (rebase_found git fuel handle head branch w)
    unfolding rebase_found
    rebase_found-Leaves fuel handle head branch w k =
        let (rrc, remote, w2) = git.reference_lookup ("refs/remotes/origin/" ++ˢ branch) w in
        let (checked, w3) = pre_check git head remote w2 in
        elim (Bool-cases (is_minus git_enotfound rrc)) [
          | inl missing ↦ rw missing (inr (inl refl))
          | inr there ↦ elim (Bool-cases (is_zero rrc)) [
            | inr failed ↦ rw (there, failed) (inr (inl refl))
            | inl found ↦ elim (Option-cases checked) [
              | inr (err, e) ↦ rw (there, found, e) (inr (inl refl))
              | inl e ↦ rw (there, found, e) (start_rebase-Leaves fuel handle head remote w3 k)
            ]
          ]
        ]

    named_branch-Leaves :
        (fuel : ℕ) (handle : Option R) (name : Option String) (w : W)
        → from_fuel name w < fuel
        → let (hrc, head, w1) = git.repository_head w in
          Leaves handle (elim name [
            | none ↦ some (err_unknown, handle, w1)
            | some branch ↦ rebase_found git fuel handle head branch w1
          ])
    named_branch-Leaves fuel handle none w k = inr (inl refl)
    named_branch-Leaves fuel handle (some branch) w k =
        let (hrc, head, w1) = git.repository_head w in
        rebase_found-Leaves fuel handle head branch w1 k

    rebase_from-Leaves :
        (fuel : ℕ) (handle : Option R) (name : Option String) (w : W)
        → from_fuel name w < fuel
        → Leaves handle (rebase_from git fuel handle name w)
    unfolding rebase_from
    rebase_from-Leaves fuel handle name w k =
        let (hrc, head, w1) = git.repository_head w in
        elim (Bool-cases (is_minus git_eunbornbranch hrc)) [
          | inl unborn ↦ rw unborn (inr (inl refl))
          | inr born ↦ elim (Bool-cases (is_zero hrc)) [
            | inr failed ↦ rw (born, failed) (inr (inl refl))
            | inl found ↦ rw (born, found) (named_branch-Leaves fuel handle name w k)
          ]
        ]

    -- With more fuel than the rebase has operations, RebaseOntoOrigin returns, if libgit2 performs
    -- an operation with each git_rebase_next and with no other call. Unless it returns
    -- SYNC_CONFLICT with a conflict in the index, the handle is then null or what it was before: no
    -- rebase of its own is left behind.
    pub rebase_onto_origin-Leaves :
        (fuel : ℕ) (handle : Option R) (w : W)
        → rebase_fuel w < fuel
        → Leaves handle (rebase_onto_origin git fuel handle w)
    unfolding rebase_onto_origin
    rebase_onto_origin-Leaves fuel handle w k =
        rebase_from-Leaves fuel handle (git.reference_shorthand (git.repository_head w).1) w k
