-- ===== src/Workspaces/Orphans.antt =====
-- core/workspace_manager.cpp: `RemoveBufferFromWorkspace`, and the buffers that it closes.
use vxcore.Buffers.Manager.Content.{close_buffer}
use vxcore.Workspaces.Order.{Distinct}
use vxcore.Prelude.Assoc.{lookup-put, put, lookup-without, lookup}
use vxcore.Prelude.{
  [], eq_iff, ◌∷◌, eq_refl, false, true, str_eq, arith, some, none, if◌then◌else◌, ◌≡◌, List,
  contains, String,
}
use vxcore.Workspaces.{
  set_workspaces, in_any, remove_buffer, close_orphan, remove_buffer_from_workspace, Workspaces,
  Workspace, erase_first,
}
use vxcore.Buffers.Manager.{get_buffer, Manager}
use vxcore.Buffers.Disk.{Files}

contains-erase_first :
    (j a : String) (xs : List String)
    → Distinct xs
    → contains j (erase_first a xs) ≡ (if str_eq a j then false else contains j xs)
unfolding erase_first contains
contains-erase_first j a [] d = ground arith
contains-erase_first j a (x ∷ xs) d =
    ground (arith, contains-erase_first j a xs, eq_iff x j, eq_iff x a, eq_iff a j)

lookup-close_buffer :
    {D : Type 0} (f : Files D) (buf : String) (m : Manager D)
    → lookup buf (close_buffer f buf m).1.buffers ≡ none
unfolding close_buffer
lookup-close_buffer f buf m = ground (arith, lookup-without buf buf m.buffers, eq_refl buf)

close_orphan_lem :
    {J D : Type 0} (f : Files D) (buf : String) (s : Workspaces J D)
    → ((close_orphan f buf s).workspaces ≡ s.workspaces)
      × (get_buffer buf (close_orphan f buf s).buffer_manager
          ≡ (if in_any buf s.workspaces then get_buffer buf s.buffer_manager else none))
unfolding close_orphan get_buffer
close_orphan_lem f buf s = ground (arith, lookup-close_buffer f buf s.buffer_manager)

cleared :
    {J : Type 0} (buf : String) (w : Workspace J)
    → str_eq (remove_buffer buf w).current_buffer_id buf ≡ true
    → buf ≡ ""
unfolding remove_buffer
cleared buf w h = ground (arith, h, eq_iff "" buf)

module _ {J D : Type 0} (f : Files D) (ws buf : String) (w : Workspace J) (s : Workspaces J D)
    (here : lookup ws s.workspaces ≡ some w) (shown : contains buf w.buffer_ids ≡ true)
    (distinct : Distinct w.buffer_ids) where
  -- Removing a buffer that a workspace shows, once, takes that buffer and no other from it, and the
  -- workspace's current buffer is not the removed one, where its id is not
  -- empty. The buffer is closed exactly if no workspace shows it any more.
  pub remove_buffer_from_workspace_lem :
      str_eq buf "" ≡ false
      → let r = remove_buffer_from_workspace f ws buf s in
        let w' = remove_buffer buf w in
        (r.0 ≡ true)
        × (lookup ws r.1.workspaces ≡ some w')
        × ((j : String)
            → contains j w'.buffer_ids ≡ (if str_eq buf j then false else contains j w.buffer_ids))
        × (str_eq w'.current_buffer_id buf ≡ false)
        × (get_buffer buf r.1.buffer_manager
            ≡ (if in_any buf r.1.workspaces then get_buffer buf s.buffer_manager else none))
  unfolding remove_buffer_from_workspace
  remove_buffer_from_workspace_lem named =
      let w' = remove_buffer buf w in
      let t = set_workspaces (put ws w' s.workspaces) s in
      let c = close_orphan_lem f buf t in
      (
        ground (arith, here, shown),
        ground (arith, here, shown, c.0, lookup-put ws ws w' s.workspaces, eq_refl ws),
        λ j. unfold remove_buffer in contains-erase_first j buf w.buffer_ids distinct,
        ground (arith, cleared buf w, named, eq_iff buf ""),
        ground (arith, here, shown, c),
      )
