-- ===== src/Workspaces/Current.antt =====
-- core/workspace_manager.cpp: what holds of the manager after any sequence of its operations.
use vxcore.Workspaces.Load.{first_key_or, restore_all, load_workspaces}
use vxcore.Prelude.Assoc.{lookup-without, lookup-put, without, put, has, Assoc, lookup}
use vxcore.Prelude.{
  false, refl, ◌∷◌, ◌++◌, eq_refl, eq_iff, inr, [], inl, arith, Option-cases, List, ◌||◌, true,
  str_eq, ◌≡◌, String, Bool,
}
use vxcore.Workspaces.{
  remove_buffer, with_workspace, set_workspaces, close_orphan, update_session_workspaces,
  set_buffer_metadata, set_workspace_metadata, set_buffer_order, set_current_buffer_in_workspace,
  remove_buffer_from_workspace, add_buffer_to_workspace, set_current_workspace_id, rename_workspace,
  first_key, delete_workspace, Workspace, create_workspace, Workspaces,
}
use vxcore.Buffers.Disk.{Files}

-- The current workspace is one that is there, or none is current.
abbrev pub known_current : {J D : Type 0} → Workspaces J D → Bool
known_current s = str_eq s.current_workspace_id "" || has s.current_workspace_id s.workspaces

module _ {J D : Type 0} (f : Files D) where
  -- One call of an operation that changes the manager.
  pub data Step : Workspaces J D → Workspaces J D → Type 0 where
    created :
        (uuid name : String) (object : J) (s : Workspaces J D)
        → Step s (create_workspace uuid object name s).1
    deleted : (id : String) (s : Workspaces J D) → Step s (delete_workspace id s).1
    renamed : (id name : String) (s : Workspaces J D) → Step s (rename_workspace id name s).1
    selected : (id : String) (s : Workspaces J D) → Step s (set_current_workspace_id id s).1
    added : (ws buf : String) (s : Workspaces J D) → Step s (add_buffer_to_workspace ws buf s).1
    dropped :
        (ws buf : String) (s : Workspaces J D) → Step s (remove_buffer_from_workspace f ws buf s).1
    showed :
        (ws buf : String) (s : Workspaces J D) → Step s (set_current_buffer_in_workspace ws buf s).1
    ordered :
        (ws : String) (ids : List String) (s : Workspaces J D)
        → Step s (set_buffer_order ws ids s).1
    described :
        (ws : String) (j : J) (s : Workspaces J D) → Step s (set_workspace_metadata ws j s).1
    annotated :
        (ws buf : String) (j : J) (s : Workspaces J D) → Step s (set_buffer_metadata ws buf j s).1
    saved : (s : Workspaces J D) → Step s (update_session_workspaces s)

  -- What the calls reach from the state that the constructor loads.
  pub data Reachable : Workspaces J D → Type 0 where
    start :
        (recover : Bool) (s : Workspaces J D)
        → s.current_workspace_id ≡ ""
        → Reachable (load_workspaces recover s)
    next : {s t : Workspaces J D} → Reachable s → Step s t → Reachable t

  has-first_key : (m : Assoc (Workspace J)) → str_eq (first_key m) "" || has (first_key m) m ≡ true
  unfolding lookup
  has-first_key [] = refl
  has-first_key ((k, w) ∷ m) = ground (arith, eq_refl k)

  has-first_key_or :
      (m : Assoc (Workspace J)) → str_eq (first_key_or "" m) "" || has (first_key_or "" m) m ≡ true
  unfolding lookup
  has-first_key_or [] = refl
  has-first_key_or ((k, w) ∷ m) = ground (arith, eq_refl k)

  load-known_current :
      (recover : Bool) (s : Workspaces J D)
      → s.current_workspace_id ≡ ""
      → known_current (load_workspaces recover s) ≡ true
  unfolding load_workspaces
  load-known_current true s fresh =
      ground (arith, fresh, has-first_key_or (restore_all s.buffer_manager s.session_workspaces []))
  load-known_current false s fresh = ground (arith, eq_iff s.current_workspace_id "")

  put-known_current :
      (ws : String) (w : Workspace J) (s : Workspaces J D)
      → known_current s ≡ true
      → known_current (set_workspaces (put ws w s.workspaces) s) ≡ true
  put-known_current ws w s k = ground (arith, lookup-put ws s.current_workspace_id w s.workspaces)

  change-known_current :
      (ws : String) (change : Workspace J → Workspace J) (s : Workspaces J D)
      → known_current s ≡ true
      → known_current (with_workspace ws change s).1 ≡ true
  change-known_current ws change s k = elim (Option-cases (lookup ws s.workspaces)) [
    | inl absent ↦ ground (arith, absent)
    | inr (w, here) ↦ ground (arith, here, put-known_current ws (change w) s k)
  ]

  add-known_current :
      (ws buf : String) (s : Workspaces J D)
      → known_current s ≡ true
      → known_current (add_buffer_to_workspace ws buf s).1 ≡ true
  unfolding add_buffer_to_workspace
  add-known_current ws buf s k = elim (Option-cases (lookup ws s.workspaces)) [
    | inl absent ↦ ground (arith, absent)
    | inr (w, here) ↦
        let w' = record w { buffer_ids = w.buffer_ids ++ buf ∷ [] } in
        ground (arith, here, put-known_current ws w' s k)
  ]

  close_orphan-known_current :
      (buf : String) (s : Workspaces J D) → known_current (close_orphan f buf s) ≡ known_current s
  unfolding close_orphan
  close_orphan-known_current buf s = ground arith

  drop-known_current :
      (ws buf : String) (s : Workspaces J D)
      → known_current s ≡ true
      → known_current (remove_buffer_from_workspace f ws buf s).1 ≡ true
  unfolding remove_buffer_from_workspace
  drop-known_current ws buf s k = elim (Option-cases (lookup ws s.workspaces)) [
    | inl absent ↦ ground (arith, absent)
    | inr (w, here) ↦
        let t = set_workspaces (put ws (remove_buffer buf w) s.workspaces) s in
        ground (
          arith,
          here,
          close_orphan-known_current buf t,
          put-known_current ws (remove_buffer buf w) s k,
        )
  ]

  delete-known_current :
      (id : String) (s : Workspaces J D)
      → known_current s ≡ true
      → known_current (delete_workspace id s).1 ≡ true
  unfolding delete_workspace
  delete-known_current id s k = ground (
    arith,
    has-first_key (without id s.workspaces),
    lookup-without id s.current_workspace_id s.workspaces,
    eq_iff s.current_workspace_id id,
    eq_iff id s.current_workspace_id,
  )

  step-known_current :
      {s t : Workspaces J D} → Step s t → known_current s ≡ true → known_current t ≡ true
  unfolding create_workspace rename_workspace set_current_workspace_id
      set_current_buffer_in_workspace set_buffer_order set_workspace_metadata set_buffer_metadata
      update_session_workspaces
  step-known_current (created uuid name object s) k = put-known_current uuid _ s k
  step-known_current (deleted id s) k = delete-known_current id s k
  step-known_current (renamed id name s) k = change-known_current id _ s k
  step-known_current (selected id s) k = ground (arith, k)
  step-known_current (added ws buf s) k = add-known_current ws buf s k
  step-known_current (dropped ws buf s) k = drop-known_current ws buf s k
  step-known_current (showed ws buf s) k = change-known_current ws _ s k
  step-known_current (ordered ws ids s) k = change-known_current ws _ s k
  step-known_current (described ws j s) k = change-known_current ws _ s k
  step-known_current (annotated ws buf j s) k = change-known_current ws _ s k
  step-known_current (saved s) k = k

  -- Whatever sequence of operations runs after loading, the current workspace exists or there is none.
  pub reachable-known_current : (s : Workspaces J D) → Reachable s → known_current s ≡ true
  reachable-known_current s (start recover t fresh) = load-known_current recover t fresh
  reachable-known_current s (next r step) = step-known_current step (reachable-known_current _ r)
