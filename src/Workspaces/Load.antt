-- ===== src/Workspaces/Load.antt =====
-- core/workspace_manager.cpp: `LoadWorkspaces`.
use vxcore.Prelude.Assoc.{has, put, Assoc}
use vxcore.Workspaces.{Workspaces, Workspace}
use vxcore.Prelude.{
  ◌&&◌, not, contains, str_eq, is_some, [], ◌∷◌, if◌then◌else◌, String, List, Bool,
}
use vxcore.Buffers.Manager.{get_buffer, Manager}

unfoldable pub known : {D : Type 0} → Manager D → List String → List String
known m [] = []
known m (id ∷ ids) = let rest = known m ids in if is_some (get_buffer id m) then id ∷ rest else rest

abbrev front : List String → String
front [] = ""
front (x ∷ xs) = x

-- The current buffer of a record, among the buffers that are left.
unfoldable pub restore_current : String → List String → String
restore_current current ids =
    if str_eq current "" then "" else if contains current ids then current else front ids

unfoldable pub restore_workspace : {J D : Type 0} → Manager D → Workspace J → Workspace J
unfolding known restore_current
restore_workspace m r =
    let ids = known m r.buffer_ids in
    record r { buffer_ids = ids; current_buffer_id = restore_current r.current_buffer_id ids }

unfoldable pub restore_all :
    {J D : Type 0} → Manager D → List (Workspace J) → Assoc (Workspace J) → Assoc (Workspace J)
unfolding restore_workspace
restore_all m [] ws = ws
restore_all m (r ∷ rs) ws = restore_all m rs (put r.id (restore_workspace m r) ws)

-- The first workspace becomes current; with none, what was current stays.
abbrev pub first_key_or : {J : Type 0} → String → Assoc (Workspace J) → String
first_key_or current [] = current
first_key_or current (w ∷ ws) = w.0

unfoldable pub load_workspaces : {J D : Type 0} → Bool → Workspaces J D → Workspaces J D
unfolding restore_all
load_workspaces recover_last_session s =
    let ws = restore_all s.buffer_manager s.session_workspaces [] in
    let id = s.session_current_id in
    if recover_last_session
    then record s {
      workspaces = ws;
      current_workspace_id =
          if not (str_eq id "") && has id ws then id else first_key_or s.current_workspace_id ws;
    }
    else record s { workspaces = []; session_workspaces = []; session_current_id = "" }
