-- ===== src/Snippets/Laws.antt =====
-- core/snippet_manager.cpp: a snippet that was created, and the built-in ones.
use vxcore.Errors.{err_invalid_param, err_already_exists, vxcore_ok}
use vxcore.Prelude.{arith, inr, true, ◌≡◌, Bool, Bytes}
use vxcore.Snippets.Manager.{
  builtin_data, is_builtin_name, is_valid_snippet_name, SnippetFiles, create_snippet, get_snippet,
  delete_snippet, rename_snippet, update_snippet,
}

-- What a write that succeeds is read as.
abbrev pub KeepsWrites : {D J : Type 0} → SnippetFiles D J → Type 0
KeepsWrites {D} fs =
    (path content : Bytes) (d : D)
    → (fs.write_file path content d).0 ≡ vxcore_ok
    → (fs.exists path (fs.write_file path content d).1 ≡ true)
      × (fs.read_file path (fs.write_file path content d).1 ≡ inr content)

module _ {D J : Type 0} (folder : Bytes) (is_relative : Bytes → Bool) (fs : SnippetFiles D J) where
  -- No call changes the disk by the name of a built-in snippet: it is refused, and always found.
  pub builtin_protected :
      (name other json_content : Bytes) (d : D)
      → is_valid_snippet_name is_relative name ≡ true
      → is_valid_snippet_name is_relative other ≡ true
      → is_builtin_name name ≡ true
      → (create_snippet folder is_relative fs name json_content d ≡ (err_already_exists, d))
        × (delete_snippet folder is_relative fs name d ≡ (err_invalid_param, d))
        × (update_snippet folder is_relative fs name json_content d ≡ (err_invalid_param, d))
        × (rename_snippet folder is_relative fs name other d ≡ (err_invalid_param, d))
        × ((rename_snippet folder is_relative fs other name d).1 ≡ d)
        × (get_snippet folder is_relative fs name d ≡ inr (builtin_data name))
  unfolding create_snippet delete_snippet update_snippet rename_snippet get_snippet
  builtin_protected name other json_content d v v' b = (
    ground (arith, v, b),
    ground (arith, v, b),
    ground (arith, v, b),
    ground (arith, v, v', b),
    ground (arith, v, v', b),
    ground (arith, v, b),
  )
