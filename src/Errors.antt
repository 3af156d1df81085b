-- ===== src/Errors.antt =====
-- include/vxcore/vxcore_types.h: the error codes of the C interface.
use vxcore.Prelude.{Bool, true, false}

pub data VxCoreError : Type 0 where
  vxcore_ok err_invalid_param err_null_pointer err_out_of_memory err_not_found : VxCoreError
  err_already_exists err_io err_database err_json_parse err_json_serialize : VxCoreError
  err_invalid_state err_not_initialized err_already_initialized : VxCoreError
  err_permission_denied err_unsupported err_not_implemented err_buffer_not_found : VxCoreError
  err_workspace_not_found err_file_changed_outside err_buffer_already_open : VxCoreError
  err_cancelled err_sync_in_progress err_sync_conflict err_sync_auth_failed : VxCoreError
  err_sync_network err_sync_not_enabled err_unknown_backend err_git_init_failed : VxCoreError
  err_missing_credentials err_read_only err_permutation_mismatch : VxCoreError
  err_node_not_exists err_unknown : VxCoreError

-- err == VXCORE_OK
unfoldable pub is_ok : VxCoreError → Bool
is_ok vxcore_ok = true
is_ok _ = false

-- err == VXCORE_ERR_SYNC_CONFLICT
unfoldable pub is_conflict : VxCoreError → Bool
is_conflict err_sync_conflict = true
is_conflict _ = false

-- err == VXCORE_ERR_ALREADY_EXISTS
unfoldable pub is_already_exists : VxCoreError → Bool
is_already_exists err_already_exists = true
is_already_exists _ = false

-- err == VXCORE_ERR_NOT_FOUND
unfoldable pub is_not_found : VxCoreError → Bool
is_not_found err_not_found = true
is_not_found _ = false
