-- ===== src/Buffers/Manager/Content.antt =====
-- core/buffer_manager.cpp: closing buffers, and reading and saving their content.
use vxcore.Prelude.Assoc.{without, lookup, put}
use vxcore.Errors.{vxcore_ok, err_not_found, err_buffer_not_found, err_io, VxCoreError}
use vxcore.Prelude.{str_eq, true, if◌then◌else◌, false, none, [], ◌∷◌, Bool, Bytes, String, List}
use vxcore.Buffers.Manager.{some, set_buffers, Manager, ids_of_notebook}
use vxcore.Buffers.Content.{
  normal, file_missing, save_failed, Buffer, set_content, save_content, resolve_full_path,
  load_content,
}
use vxcore.Buffers.Backup.{discard_backup}
use vxcore.Buffers.Disk.{Files}

module _ {D : Type 0} (f : Files D) where
  unfoldable pub close_buffer : String → Manager D → Bool × Manager D
  unfolding discard_backup
  close_buffer id m = elim (lookup id m.buffers) [
    | none ↦ (false, m)
    | some b ↦
        (true, record m { buffers = without id m.buffers; disk = (discard_backup f b m.disk).1 })
  ]

  unfoldable pub close_all : List String → Manager D → Manager D
  unfolding close_buffer
  close_all [] m = m
  close_all (id ∷ ids) m = close_all ids (close_buffer id m).1

  unfoldable pub close_buffers_for_notebook : String → Manager D → Manager D
  unfolding close_all ids_of_notebook
  close_buffers_for_notebook nb m = close_all (ids_of_notebook nb m.buffers) m

  -- The buffer that an operation changed, in place, and the disk.
  abbrev stored : String → Buffer × D → Manager D → Manager D
  stored id (b, d) m = record m { buffers = put id b m.buffers; disk = d }

  saved : String → Buffer × D → Manager D → VxCoreError × Manager D
  unfolding discard_backup
  saved id (b, d) m = elim b.state [
    | save_failed ↦ (err_io, stored id (b, d) m)
    | normal ↦ (vxcore_ok, stored id (discard_backup f b d) m)
    | _ ↦ (vxcore_ok, stored id (b, d) m)
  ]

  -- The event `file.saved`, which follows, is not modelled.
  unfoldable pub save_buffer : String → Manager D → VxCoreError × Manager D
  unfolding saved save_content resolve_full_path
  save_buffer id m = elim (lookup id m.buffers) [
    | none ↦ (err_buffer_not_found, m)
    | some b ↦
        let path = resolve_full_path b in
        if b.is_virtual
        then (vxcore_ok, m)
        else if str_eq path ""
        then (err_io, m)
        else saved id (save_content f path m.disk b) m
  ]

  -- `LoadContent` and the test that follows it.
  unfoldable pub load_into : String → String → Buffer → Manager D → VxCoreError × Manager D
  unfolding load_content
  load_into id path b m =
      let b' = load_content f path m.disk b in
      let m' = set_buffers (put id b' m.buffers) m in
      elim b'.state [ file_missing ↦ (err_not_found, m') | _ ↦ (vxcore_ok, m') ]

  unfoldable pub reload_buffer : String → Manager D → VxCoreError × Manager D
  unfolding load_into resolve_full_path
  reload_buffer id m = elim (lookup id m.buffers) [
    | none ↦ (err_buffer_not_found, m)
    | some b ↦
        let path = resolve_full_path b in
        if b.is_virtual
        then (vxcore_ok, m)
        else if str_eq path ""
        then (err_not_found, m)
        else load_into id path b m
  ]

  unfoldable pub get_buffer_content : String → Manager D → VxCoreError × Manager D
  unfolding load_into resolve_full_path
  get_buffer_content id m = elim (lookup id m.buffers) [
    | none ↦ (err_buffer_not_found, m)
    | some b ↦
        let path = resolve_full_path b in
        if b.content_loaded
        then (vxcore_ok, m)
        else if str_eq path ""
        then (err_not_found, m)
        else load_into id path b m
  ]

  unfoldable pub set_buffer_content : String → Bytes → Manager D → VxCoreError × Manager D
  unfolding set_content
  set_buffer_content id new m = elim (lookup id m.buffers) [
    | none ↦ (err_buffer_not_found, m)
    | some b ↦ (vxcore_ok, set_buffers (put id (set_content new b) m.buffers) m)
  ]
