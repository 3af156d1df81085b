-- ===== src/Workspaces.antt =====
-- core/workspace_manager.cpp: the workspaces and the buffers that each of them shows.
use vxcore.Buffers.Manager.Content.{close_buffer}
use vxcore.Prelude.Assoc.{has, without, put, lookup, Assoc}
use vxcore.Prelude.{
  true, some, ◌||◌, ◌++◌, ◌&&◌, str_eq, not, none, is_some, ◌∷◌, if◌then◌else◌, false, [], Option,
  map, contains, String, List, Bool,
}
use vxcore.Buffers.Manager.{get_buffer, Manager}
use vxcore.Buffers.Disk.{Files}
pub mod Order
pub mod Current
pub mod Orphans
pub mod Session
pub mod Load

-- `J` stands for nlohmann::json. WorkspaceRecord of the session's configuration has the same fields.
pub record Workspace (J : Type 0) : Type 0 where
  pub id : String
  pub name : String
  pub buffer_ids : List String
  pub current_buffer_id : String
  pub metadata : J
  pub buffer_metadata : Assoc J

-- The manager, the buffer manager that it calls, and the workspaces in the session's configuration.
pub record Workspaces (J D : Type 0) : Type 0 where
  pub workspaces : Assoc (Workspace J)
  pub current_workspace_id : String
  pub buffer_manager : Manager D
  pub session_workspaces : List (Workspace J)
  pub session_current_id : String

-- workspaces_.begin()->first, or "" in an empty map
abbrev pub first_key : {A : Type 0} → Assoc A → String
first_key [] = ""
first_key (e ∷ m) = e.0

-- buffer_ids.erase(std::find(...))
unfoldable pub erase_first : String → List String → List String
erase_first a [] = []
erase_first a (x ∷ xs) = if str_eq x a then xs else x ∷ erase_first a xs

-- The requested ids that are there and were not seen yet.
unfoldable pub accept : List String → List String → List String → List String
unfolding contains
accept existing seen [] = []
accept existing seen (id ∷ ids) =
    let kept = accept existing (id ∷ seen) ids in
    let rest = accept existing seen ids in
    if contains id existing && not (contains id seen) then id ∷ kept else rest

unfoldable pub unseen : List String → List String → List String
unfolding contains
unseen seen [] = []
unseen seen (id ∷ ids) = let rest = unseen seen ids in if contains id seen then rest else id ∷ rest

-- The accepted ids, which are those seen, and the existing ones that were not asked for.
unfoldable pub reorder : List String → List String → List String
unfolding accept unseen
reorder existing requested =
    let accepted = accept existing [] requested in accepted ++ unseen accepted existing

unfoldable pub remove_buffer : {J : Type 0} → String → Workspace J → Workspace J
unfolding erase_first
remove_buffer buf w = record w {
  buffer_ids = erase_first buf w.buffer_ids;
  buffer_metadata = without buf w.buffer_metadata;
  current_buffer_id = if str_eq w.current_buffer_id buf then "" else w.current_buffer_id;
}

unfoldable pub in_any : {J : Type 0} → String → Assoc (Workspace J) → Bool
unfolding contains
in_any buf [] = false
in_any buf ((id, w) ∷ ws) = contains buf w.buffer_ids || in_any buf ws

metadata_of : {J : Type 0} → J → String → Workspace J → J
metadata_of object buf w = elim (lookup buf w.buffer_metadata) [ none ↦ object | some j ↦ j ]

module _ {J D : Type 0} where
  abbrev pub set_workspaces : Assoc (Workspace J) → Workspaces J D → Workspaces J D
  set_workspaces ws s = record s { workspaces = ws }

  -- Most operations change one workspace in place, and return whether it is there.
  abbrev pub with_workspace :
      String → (Workspace J → Workspace J) → Workspaces J D → Bool × Workspaces J D
  with_workspace ws change s = elim (lookup ws s.workspaces) [
    | none ↦ (false, s)
    | some w ↦ (true, set_workspaces (put ws (change w) s.workspaces) s)
  ]

  unfoldable pub update_session_workspaces : Workspaces J D → Workspaces J D
  update_session_workspaces s = record s {
    session_workspaces = map (λ e. e.1) s.workspaces;
    session_current_id = s.current_workspace_id;
  }

  -- `uuid` is GenerateUUID() and `object` json::object().
  unfoldable pub create_workspace : String → J → String → Workspaces J D → String × Workspaces J D
  create_workspace uuid object name s = (
    uuid,
    set_workspaces
        (put uuid
          (record {
            id = uuid;
            name = name;
            buffer_ids = [];
            current_buffer_id = "";
            metadata = object;
            buffer_metadata = [];
          })
          s.workspaces)
        s,
  )

  unfoldable pub delete_workspace : String → Workspaces J D → Bool × Workspaces J D
  delete_workspace id s =
      let ws = without id s.workspaces in
      let next =
        if str_eq s.current_workspace_id id then first_key ws else s.current_workspace_id in
      if has id s.workspaces
      then (true, record s { workspaces = ws; current_workspace_id = next })
      else (false, s)

  unfoldable pub get_workspace : String → Workspaces J D → Option (Workspace J)
  get_workspace id s = lookup id s.workspaces

  unfoldable pub list_workspaces : Workspaces J D → List (Workspace J)
  list_workspaces s = map (λ e. e.1) s.workspaces

  unfoldable pub rename_workspace : String → String → Workspaces J D → Bool × Workspaces J D
  rename_workspace id name = with_workspace id λ w. record w { name = name }

  unfoldable pub set_current_workspace_id : String → Workspaces J D → Bool × Workspaces J D
  set_current_workspace_id id s =
      if has id s.workspaces then (true, record s { current_workspace_id = id }) else (false, s)

  unfoldable pub add_buffer_to_workspace : String → String → Workspaces J D → Bool × Workspaces J D
  add_buffer_to_workspace ws buf s = elim (lookup ws s.workspaces) [
    | none ↦ (false, s)
    | some w ↦ if contains buf w.buffer_ids then (true, s) else (
      true,
      set_workspaces (put ws (record w { buffer_ids = w.buffer_ids ++ buf ∷ [] }) s.workspaces) s,
    )
  ]

  unfoldable pub set_current_buffer_in_workspace :
      String → String → Workspaces J D → Bool × Workspaces J D
  set_current_buffer_in_workspace ws buf =
      with_workspace ws λ w. record w { current_buffer_id = buf }

  unfoldable pub set_buffer_order : String → List String → Workspaces J D → Bool × Workspaces J D
  set_buffer_order ws requested =
      with_workspace ws λ w. record w { buffer_ids = reorder w.buffer_ids requested }

  unfoldable pub set_workspace_metadata : String → J → Workspaces J D → Bool × Workspaces J D
  set_workspace_metadata ws j = with_workspace ws λ w. record w { metadata = j }

  unfoldable pub set_buffer_metadata : String → String → J → Workspaces J D → Bool × Workspaces J D
  set_buffer_metadata ws buf j =
      with_workspace ws λ w. record w { buffer_metadata = put buf j w.buffer_metadata }

  unfoldable pub get_buffer_metadata : J → String → String → Workspaces J D → J
  unfolding metadata_of
  get_buffer_metadata object ws buf s = elim (lookup ws s.workspaces) [
    | none ↦ object
    | some w ↦ metadata_of object buf w
  ]

  -- A buffer that no workspace shows any more is closed.
  unfoldable pub close_orphan : Files D → String → Workspaces J D → Workspaces J D
  close_orphan f buf s =
      if in_any buf s.workspaces
      then s
      else record s { buffer_manager = (close_buffer f buf s.buffer_manager).1 }

  unfoldable pub remove_buffer_from_workspace :
      Files D → String → String → Workspaces J D → Bool × Workspaces J D
  remove_buffer_from_workspace f ws buf s = elim (lookup ws s.workspaces) [
    | none ↦ (false, s)
    | some w ↦
        if contains buf w.buffer_ids
        then (
          true,
          close_orphan f buf (set_workspaces (put ws (remove_buffer buf w) s.workspaces) s),
        )
        else (false, s)
  ]
