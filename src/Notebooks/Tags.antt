-- ===== src/Notebooks/Tags.antt =====
-- core/notebook.cpp: the tags of a notebook, each below at most one other tag.
pub mod Forest
pub mod Changes
pub mod Operations
pub mod Subtree
pub mod Deleted
pub mod Deletion
pub mod Reachable
use vxcore.Utils.Paths.{split_path_components, concatenate_paths}
use vxcore.Prelude.{
  ◌==◌, length, ◌&&◌, ◌++◌, zero, not, is_some, ◌||◌, suc, true, str_eq, some, none, contains, [],
  ◌∷◌, if◌then◌else◌, false, Option, ℕ, String, List, Bool,
}
use vxcore.Errors.{
  is_already_exists, is_ok, err_not_found, err_already_exists, err_invalid_param, err_read_only,
  vxcore_ok, VxCoreError,
}
use vxcore.Folders.{erase_name, FileRecord}
use mathlib.Core.List.{reverse}

-- `J` is the type of JSON values.
pub record TagNode (J : Type 0) : Type 0 where
  pub name : String
  pub parent : String
  pub metadata : J

-- The fields that the tags' operations read or write; `rest` stands for the others.
pub record NotebookConfig (J : Type 0) : Type 0 where
  pub tags : List (TagNode J)
  pub tags_modified_utc : ℕ
  pub rest : J

pub record Notebook (W J : Type 0) : Type 0 where
  pub config : NotebookConfig J
  pub read_only : Bool
  pub world : W

-- Notebook::UpdateConfig, which is virtual and saves the configuration, the folder manager, an
-- interface too, and the clock. The callback of `iterate_all_files` goes on with `true`.
pub record Host (W J : Type 0) : Type 0 where
  pub update_config : NotebookConfig J → W → VxCoreError × W
  pub iterate_all_files : (String → FileRecord J → W → Bool × W) → W → W
  pub update_file_tags : String → List String → W → VxCoreError × W
  pub now : W → ℕ
  pub no_metadata : J

module _ {J : Type 0} where
  unfoldable pub find_tag : String → List (TagNode J) → Option (TagNode J)
  find_tag tag_name [] = none
  find_tag tag_name (tag ∷ tags) =
      let later = find_tag tag_name tags in if str_eq tag.name tag_name then some tag else later

  -- A change of the parent through the pointer that FindTag gives.
  unfoldable pub set_parent : String → String → List (TagNode J) → List (TagNode J)
  set_parent tag_name parent_tag [] = []
  set_parent tag_name parent_tag (tag ∷ tags) =
      let later = set_parent tag_name parent_tag tags in
      if str_eq tag.name tag_name then record tag { parent = parent_tag } ∷ tags else tag ∷ later

  unfoldable pub erase_tag : String → List (TagNode J) → List (TagNode J)
  erase_tag tag_name [] = []
  erase_tag tag_name (tag ∷ tags) =
      let later = erase_tag tag_name tags in if str_eq tag.name tag_name then tags else tag ∷ later

  unfoldable pub erase_tags : List String → List (TagNode J) → List (TagNode J)
  erase_tags [] tags = tags
  erase_tags (name ∷ names) tags = erase_tags names (erase_tag name tags)

  -- The inner loop of DeleteTag: the tags right below `current`, in order.
  unfoldable pub children : String → List (TagNode J) → List String
  children current [] = []
  children current (tag ∷ tags) =
      let later = children current tags in
      if str_eq tag.parent current then tag.name ∷ later else later

  -- The outer loop: `tags_to_delete` grows at its end, and the top of the stack `to_process` is its
  -- first element here. `none`: out of fuel.
  unfoldable pub subtree_loop :
      ℕ → List (TagNode J) → List String → List String → Option (List String)
  subtree_loop zero tags tags_to_delete to_process = none
  subtree_loop (suc fuel) tags tags_to_delete [] = some tags_to_delete
  subtree_loop (suc fuel) tags tags_to_delete (current ∷ to_process) =
      let below = children current tags in
      subtree_loop fuel tags (tags_to_delete ++ below) (reverse below ++ to_process)

  -- The loop of MoveTag: whether `tag_name` stands above or at `current_parent`.
  unfoldable pub is_above : ℕ → List (TagNode J) → String → String → Option Bool
  is_above zero tags tag_name current_parent = none
  is_above (suc fuel) tags tag_name current_parent =
      let up = λ (node : TagNode J). is_above fuel tags tag_name node.parent in
      if str_eq current_parent ""
      then some false
      else if str_eq current_parent tag_name
      then some true
      else (elim (find_tag current_parent tags) [ none ↦ some false | some node ↦ up node ])

-- The callback of DeleteTag: a file loses each of the tags once.
unfoldable pub erase_names : List String → List String → List String
erase_names [] tags = tags
erase_names (name ∷ names) tags = erase_names names (erase_name name tags)

unfoldable pub has_one : List String → List String → Bool
has_one [] tags = false
has_one (name ∷ names) tags = contains name tags || has_one names tags

-- The end of an operation: the new tags are stamped and saved; they stay when the save fails.
module _ {W J : Type 0} (host : Host W J) where
  unfoldable pub save_tags : List (TagNode J) → Notebook W J → VxCoreError × Notebook W J
  save_tags tags n =
      let config = record n.config { tags = tags; tags_modified_utc = host.now n.world } in
      let (err, w) = host.update_config config n.world in
      (err, record n { config = config; world = w })

  unfoldable pub create_tag : String → String → Notebook W J → VxCoreError × Notebook W J
  create_tag tag_name parent_tag n =
      let tag : TagNode J = record {
        name = tag_name;
        parent = parent_tag;
        metadata = host.no_metadata;
      } in
      if n.read_only
      then (err_read_only, n)
      else if str_eq tag_name ""
      then (err_invalid_param, n)
      else if is_some (find_tag tag_name n.config.tags)
      then (err_already_exists, n)
      else if not (str_eq parent_tag "") && not (is_some (find_tag parent_tag n.config.tags))
      then (err_not_found, n)
      else save_tags (n.config.tags ++ tag ∷ []) n

  -- The loop of CreateTagPath; `above` is the component before.
  unfoldable pub create_tags : String → List String → Notebook W J → VxCoreError × Notebook W J
  create_tags above [] n = (vxcore_ok, n)
  create_tags above (tag_name ∷ names) n =
      let (err, n') = create_tag tag_name above n in
      let created = create_tags tag_name names n' in
      let passed = create_tags tag_name names n in
      if str_eq tag_name ""
      then (err_invalid_param, n)
      else if is_some (find_tag tag_name n.config.tags)
      then passed
      else if is_ok err || is_already_exists err
      then created
      else (err, n')

  unfoldable pub create_tag_path : String → Notebook W J → VxCoreError × Notebook W J
  create_tag_path tag_path n =
      if n.read_only
      then (err_read_only, n)
      else if str_eq tag_path ""
      then (err_invalid_param, n)
      else if length (split_path_components tag_path) == 0
      then (err_invalid_param, n)
      else create_tags "" (split_path_components tag_path) n

  unfoldable pub forget_tags : List String → String → FileRecord J → W → Bool × W
  forget_tags tags_to_delete folder_path file w =
      let (err, w') =
        host.update_file_tags (concatenate_paths folder_path file.name)
          (erase_names tags_to_delete file.tags) w in
      (true, if has_one tags_to_delete file.tags then w' else w)

  unfoldable pub delete_tag : ℕ → String → Notebook W J → Option (VxCoreError × Notebook W J)
  delete_tag fuel tag_name n =
      if n.read_only
      then some (err_read_only, n)
      else if str_eq tag_name ""
      then some (err_invalid_param, n)
      else if not (is_some (find_tag tag_name n.config.tags))
      then some (err_not_found, n)
      else (elim (subtree_loop fuel n.config.tags (tag_name ∷ []) (tag_name ∷ [])) [
        | none ↦ none
        | some tags_to_delete ↦
            let w = host.iterate_all_files (forget_tags tags_to_delete) n.world in
            some (save_tags (erase_tags tags_to_delete n.config.tags) record n { world = w })
      ])

  unfoldable pub move_tag : ℕ → String → String → Notebook W J → Option (VxCoreError × Notebook W J)
  move_tag fuel tag_name parent_tag n =
      if n.read_only
      then some (err_read_only, n)
      else if str_eq tag_name ""
      then some (err_invalid_param, n)
      else if str_eq parent_tag tag_name
      then some (err_invalid_param, n)
      else if not (is_some (find_tag tag_name n.config.tags))
      then some (err_not_found, n)
      else if not (str_eq parent_tag "") && not (is_some (find_tag parent_tag n.config.tags))
      then some (err_not_found, n)
      else (elim (is_above fuel n.config.tags tag_name parent_tag) [
        | none ↦ none
        | some true ↦ some (err_invalid_param, n)
        | some false ↦ some (save_tags (set_parent tag_name parent_tag n.config.tags) n)
      ])
