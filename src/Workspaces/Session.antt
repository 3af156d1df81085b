-- ===== src/Workspaces/Session.antt =====
-- core/workspace_manager.cpp: saving the workspaces in the session and loading them again.
use vxcore.Prelude.Assoc.{Assoc}
use vxcore.Prelude.{true, contains, ◌||◌, [], ◌∷◌, str_eq, is_some, ◌≡◌, All, String, List}
use vxcore.Workspaces.{Workspaces, Workspace}
use vxcore.Buffers.Manager.{get_buffer, Manager}

module _ {D : Type 0} (m : Manager D) where
  abbrev pub IsOpen : List String → Type 0
  IsOpen = All λ id. is_some (get_buffer id m) ≡ true

module _ {J D : Type 0} (m : Manager D) where
  -- A workspace that a session can hold: its key is its id, its buffers are open, and its current
  -- buffer is one of them, or none.
  pub record IsStorable (k : String) (w : Workspace J) : Type 0 where
    pub key : w.id ≡ k
    pub opened : IsOpen m w.buffer_ids
    pub current : str_eq w.current_buffer_id "" || contains w.current_buffer_id w.buffer_ids ≡ true

  abbrev pub AllStorable : Assoc (Workspace J) → Type 0
  AllStorable [] = Unit
  AllStorable ((k, w) ∷ ws) = IsStorable k w × AllStorable ws
