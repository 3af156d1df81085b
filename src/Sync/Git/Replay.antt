-- ===== src/Sync/Git/Replay.antt =====
-- The runs of the rebase loop of sync/git/git_sync_pipeline.cpp, and the handle that
-- RebaseOntoOrigin leaves.
use vxcore.Errors.{VxCoreError}
use vxcore.Sync.Git.Errors.{git_eapplied, ℤ, git_iterover, is_zero, is_minus}
use vxcore.Prelude.{
  zero, inr, inl, arith, Bool-cases, ◌&&◌, suc, some, ◌||◌, ◌<◌, true, false, Option, ◌≡◌, ℕ,
  if◌then◌else◌, Bool,
}
use vxcore.Sync.Git.Rebase.{fail, finish, drive_rebase_loop, LibGit}

-- What libgit2 documents: git_rebase_next performs an operation of the rebase, and no other call does.
pub record RebaseLaws {W R F O : Type 0} (git : LibGit W R F O) : Type 0 where
  pub next_performs :
      (r : R) (w : W)
      → is_zero (git.rebase_next r w).0 ≡ true
      → git.rest r (git.rebase_next r w).1 < git.rest r w
  pub index_performs_none : (r : R) (w : W) → git.rest r (git.repository_index w).1 ≡ git.rest r w
  pub commit_performs_none : (r : R) (w : W) → git.rest r (git.rebase_commit r w).1 ≡ git.rest r w
  pub clear_performs_none : (r : R) (w : W) → git.rest r (git.error_clear w) ≡ git.rest r w

module _ {W R F O : Type 0} (git : LibGit W R F O) where
  abbrev pub after_next : R → W → W
  after_next r w = (git.rebase_next r w).1

  abbrev pub after_index : R → W → W
  after_index r w = (git.repository_index (after_next r w)).1

  abbrev pub after_commit : R → W → W
  after_commit r w = (git.rebase_commit r (after_index r w)).1

  abbrev pub cleared : Bool → W → W
  cleared allow_eapplied w = if allow_eapplied then git.error_clear w else w

  -- The code of git_rebase_commit that the loop goes on with.
  abbrev pub is_accepted : Bool → ℤ → Bool
  is_accepted allow_eapplied rc = is_zero rc || (allow_eapplied && is_minus git_eapplied rc)

  abbrev pub HasIndex : R → W → Type 0
  HasIndex r w =
      (is_minus git_iterover (git.rebase_next r w).0 ≡ false)
      × (is_zero (git.rebase_next r w).0 ≡ true)
      × (is_zero (git.repository_index (after_next r w)).0 ≡ true)

  -- The operations of the rebase that are applied without a conflict and committed.
  pub data Replayed (r : R) (allow_eapplied : Bool) : W → W → Type 0 where
    none_yet : {w : W} → Replayed r allow_eapplied w w
    one_more :
        {w v : W}
        → HasIndex r w
        → git.has_conflicts (after_index r w) ≡ false
        → is_accepted allow_eapplied (git.rebase_commit r (after_index r w)).0 ≡ true
        → Replayed r allow_eapplied (cleared allow_eapplied (after_commit r w)) v
        → Replayed r allow_eapplied w v

  -- How a run ends: all operations are done, a call fails, or an operation leaves a conflict.
  pub data Ending (r : R) (allow_eapplied : Bool) (on_conflict : VxCoreError) (w : W)
      : VxCoreError × Option R × W → Type 0 where
    all_done :
        is_minus git_iterover (git.rebase_next r w).0 ≡ true
        → Ending r allow_eapplied on_conflict w (finish git r (after_next r w))
    next_failed :
        is_minus git_iterover (git.rebase_next r w).0 ≡ false
        → is_zero (git.rebase_next r w).0 ≡ false
        → Ending r allow_eapplied on_conflict w
            (fail git r (git.rebase_next r w).0 (after_next r w))
    index_failed :
        is_zero (git.rebase_next r w).0 ≡ true
        → is_zero (git.repository_index (after_next r w)).0 ≡ false
        → Ending r allow_eapplied on_conflict w
            (fail git r (git.repository_index (after_next r w)).0 (after_index r w))
    in_conflict :
        HasIndex r w
        → git.has_conflicts (after_index r w) ≡ true
        → Ending r allow_eapplied on_conflict w (on_conflict, some r, after_index r w)
    commit_failed :
        HasIndex r w
        → git.has_conflicts (after_index r w) ≡ false
        → is_accepted allow_eapplied (git.rebase_commit r (after_index r w)).0 ≡ false
        → Ending r allow_eapplied on_conflict w
            (fail git r (git.rebase_commit r (after_index r w)).0 (after_commit r w))

  abbrev pub Runs : R → Bool → VxCoreError → W → Option (VxCoreError × Option R × W) → Type 0
  Runs r allow_eapplied on_conflict w o =
      (v : W) × Replayed r allow_eapplied w v
      × (result : VxCoreError × Option R × W) × (o ≡ some result)
      × Ending r allow_eapplied on_conflict v result

  module _ (laws : RebaseLaws git) where
    fewer :
        (r : R) (allow_eapplied : Bool) (w : W) (n : ℕ)
        → is_zero (git.rebase_next r w).0 ≡ true
        → git.rest r w < suc n
        → git.rest r (cleared allow_eapplied (after_commit r w)) < n
    fewer r true w n h k = omega (
      arith,
      k,
      laws.next_performs r w h,
      laws.index_performs_none r (after_next r w),
      laws.commit_performs_none r (after_index r w),
      laws.clear_performs_none r (after_commit r w),
    )
    fewer r false w n h k = omega (
      arith,
      k,
      laws.next_performs r w h,
      laws.index_performs_none r (after_next r w),
      laws.commit_performs_none r (after_index r w),
    )

    -- If each git_rebase_next performs an operation and no other call does, the rebase loop ends on
    -- fuel above the number of operations left. It replays operations without a conflict, each of
    -- them committed, or found to be applied already where that is allowed, and then one of the
    -- endings decides its result.
    pub drive_rebase_loop-ends :
        (fuel : ℕ) (r : R) (allow_eapplied : Bool) (on_conflict : VxCoreError) (w : W)
        → git.rest r w < fuel
        → Runs r allow_eapplied on_conflict w
            (drive_rebase_loop git fuel r allow_eapplied on_conflict w)
    unfolding drive_rebase_loop
    drive_rebase_loop-ends zero r allow_eapplied on_conflict w k = elim k [ ]
    drive_rebase_loop-ends (suc fuel) r allow_eapplied on_conflict w k =
        elim (Bool-cases (is_minus git_iterover (git.rebase_next r w).0)) [
          | inl over ↦ (w, none_yet, _, rw over, all_done over)
          | inr going ↦ elim (Bool-cases (is_zero (git.rebase_next r w).0)) [
            | inr failed ↦ (w, none_yet, _, ground (arith, going, failed), next_failed going failed)
            | inl taken ↦ elim (Bool-cases (is_zero (git.repository_index (after_next r w)).0)) [
              | inr failed ↦
                  (w, none_yet, _, ground (arith, going, taken, failed), index_failed taken failed)
              | inl found ↦ elim (Bool-cases (git.has_conflicts (after_index r w))) [
                | inl conflict ↦ (
                  w,
                  none_yet,
                  _,
                  ground (arith, going, taken, found, conflict),
                  in_conflict (going, taken, found) conflict,
                )
                | inr clean ↦
                    elim (Bool-cases
                      (is_accepted allow_eapplied (git.rebase_commit r (after_index r w)).0)) [
                        | inr failed ↦ (
                          w,
                          none_yet,
                          _,
                          ground (arith, going, taken, found, clean, failed),
                          commit_failed (going, taken, found) clean failed,
                        )
                        | inl accepted ↦
                            let (v, replayed, result, e, ending) =
                              drive_rebase_loop-ends fuel r allow_eapplied on_conflict
                                (cleared allow_eapplied (after_commit r w))
                                (fewer r allow_eapplied w fuel taken k) in
                            (
                              v,
                              one_more (going, taken, found) clean accepted replayed,
                              result,
                              ground (arith, going, taken, found, clean, accepted, e),
                              ending,
                            )
                      ]
              ]
            ]
          ]
        ]
