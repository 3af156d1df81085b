-- ===== src/Snippets/Manager.antt =====
-- core/snippet_manager.cpp: the snippets of the user, each a JSON file in the snippet folder, beside
-- the built-in ones.
use vxcore.Snippets.Week.{Tm}
use vxcore.Snippets.Expand.{
  apply_marks_and_expand, snippet, find_override, value, ApplyResult, Resolved, Overrides, bytes_eq,
}
use vxcore.Snippets.Descriptions.{builtin_descriptions, description_of}
use vxcore.Snippets.Dynamic.{dynamic_callbacks, find_callback, DateTimeNames}
use vxcore.Errors.{
  vxcore_ok, err_not_found, err_io, err_already_exists, err_invalid_param, VxCoreError,
}
use vxcore.Prelude.{
  map, ◌||◌, inr, ◌==◌, inl, ◌⊎◌, ◌∷◌, ◌&&◌, true, not, length, ◌++◌, some, none, ltb, is_some,
  if◌then◌else◌, false, codes, [], List, ℕ, Option, Bytes, Bool,
}

pub data SnippetType : Type 0 where
  dynamic_snippet text_snippet : SnippetType

pub record SnippetData : Type 0 where
  pub name : Bytes
  pub type : SnippetType
  pub description : Bytes
  pub content : Bytes
  pub cursor_mark : Bytes
  pub selection_mark : Bytes
  pub indent_as_first_line : Bool
  pub is_builtin : Bool

pub record DirectoryEntry : Type 0 where
  pub filename : Bytes
  pub stem : Bytes
  pub extension : Bytes
  pub is_regular_file : Bool

-- std::filesystem, the streams and nlohmann::json. `parse` is `none` for a text that is not JSON; a
-- field is `some none` where it is missing and `none` where it has another type, which throws.
pub record SnippetFiles (D J : Type 0) : Type 0 where
  pub create_directories : D → Bool × D
  pub exists : Bytes → D → Bool
  pub read_file : Bytes → D → VxCoreError ⊎ Bytes
  pub write_file : Bytes → Bytes → D → VxCoreError × D
  pub remove : Bytes → D → Bool × D
  pub rename : Bytes → Bytes → D → Bool × D
  pub entries : D → List DirectoryEntry
  pub parse : Bytes → Option J
  pub text_field : Bytes → J → Option (Option Bytes)
  pub bool_field : Bytes → J → Option (Option Bool)

abbrev pub or_default {ℓ} : {A : Type ℓ} → Option (Option A) → A → Option A
or_default none d = none
or_default (some none) d = some d
or_default (some (some a)) d = some a

-- find_first_of on a single byte
unfoldable pub has_byte : ℕ → Bytes → Bool
has_byte c [] = false
has_byte c (d ∷ s) = (c == d) || has_byte c s

-- IsSingleName on a relative path; 92 is the backslash. `is_relative` is that of std::filesystem.
module _ (is_relative : Bytes → Bool) where
  unfoldable pub is_valid_snippet_name : Bytes → Bool
  is_valid_snippet_name name =
      ltb 0 (length name)
      && not (bytes_eq name (codes "."))
      && not (bytes_eq name (codes ".."))
      && is_relative name
      && not (has_byte (b'/') name)
      && not (has_byte 92 name)
      && not (has_byte (b'%') name)

-- Nameless, or with a name that starts with a dot.
unfoldable pub is_dot_file : Bytes → Bool
is_dot_file [] = true
is_dot_file (c ∷ filename) = c == b'.'

unfoldable pub is_builtin_name : Bytes → Bool
is_builtin_name name = is_some (find_callback name dynamic_callbacks)

unfoldable pub builtin_data : Bytes → SnippetData
builtin_data name = record {
  name = name;
  type = dynamic_snippet;
  description = description_of name builtin_descriptions;
  content = [];
  cursor_mark = codes "@@";
  selection_mark = codes "$$";
  indent_as_first_line = false;
  is_builtin = true;
}

abbrev type_of : Bytes → SnippetType
type_of type = if bytes_eq type (codes "dynamic") then dynamic_snippet else text_snippet

unfoldable pub get_snippet_file_path : Bytes → Bytes → Bytes
get_snippet_file_path folder name = folder ++ (b'/' ∷ (name ++ codes ".json"))

module _ {D J : Type 0} (fs : SnippetFiles D J) where
  -- The fields of a parsed file, with their defaults; `none` where one throws.
  unfoldable pub snippet_from_json : Bytes → J → Option SnippetData
  snippet_from_json name j = elim (or_default (fs.text_field (codes "type") j) (codes "text")) [
    | none ↦ none
    | some type ↦ elim (or_default (fs.text_field (codes "description") j) []) [
      | none ↦ none
      | some description ↦ elim (or_default (fs.text_field (codes "content") j) []) [
        | none ↦ none
        | some content ↦ elim (or_default (fs.text_field (codes "cursorMark") j) (codes "@@")) [
          | none ↦ none
          | some cursor_mark ↦
              elim (or_default (fs.text_field (codes "selectionMark") j) (codes "$$")) [
                | none ↦ none
                | some selection_mark ↦
                    elim (or_default (fs.bool_field (codes "indentAsFirstLine") j) false) [
                      | none ↦ none
                      | some indent ↦
                          let snippet_data : SnippetData = record {
                            name = name;
                            type = type_of type;
                            description = description;
                            content = content;
                            cursor_mark = cursor_mark;
                            selection_mark = selection_mark;
                            indent_as_first_line = indent;
                            is_builtin = false;
                          } in
                          some snippet_data
                    ]
              ]
        ]
      ]
    ]
  ]

  unfoldable pub parse_snippet : Bytes → Bytes → Option SnippetData
  parse_snippet name content = elim (fs.parse content) [
    | none ↦ none
    | some j ↦ snippet_from_json name j
  ]

module _ {D J : Type 0} (folder : Bytes) (is_relative : Bytes → Bool) (fs : SnippetFiles D J) where
  unfoldable pub get_snippet : Bytes → D → VxCoreError ⊎ SnippetData
  get_snippet name d =
      let path = get_snippet_file_path folder name in
      if not (is_valid_snippet_name is_relative name)
      then inl err_invalid_param
      else if is_builtin_name name
      then inr (builtin_data name)
      else if not (fs.exists path d)
      then inl err_not_found
      else (elim (fs.read_file path d) [
        | inl err ↦ inl err
        | inr content ↦ elim (parse_snippet fs name content) [
          | none ↦ inl err_io
          | some snippet_data ↦ inr snippet_data
        ]
      ])

  -- The guards of the loop over the snippet folder.
  unfoldable pub is_user_file : DirectoryEntry → Bool
  is_user_file entry =
      entry.is_regular_file
      && not (is_dot_file entry.filename)
      && bytes_eq entry.extension (codes ".json")
      && not (is_builtin_name entry.stem)

  -- A file that cannot be read or parsed is passed over.
  unfoldable pub user_snippets : List DirectoryEntry → D → List SnippetData
  user_snippets [] d = []
  user_snippets (entry ∷ entries) d =
      let rest = user_snippets entries d in
      if not (is_user_file entry)
      then rest
      else (elim (fs.read_file (get_snippet_file_path folder entry.stem) d) [
        | inl err ↦ rest
        | inr content ↦ elim (parse_snippet fs entry.stem content) [
          | none ↦ rest
          | some snippet_data ↦ snippet_data ∷ rest
        ]
      ])

  unfoldable pub list_snippets : D → (VxCoreError ⊎ List SnippetData) × D
  list_snippets d =
      let (made, d') = fs.create_directories d in
      if not made then (inl err_io, d') else (
        inr (map (λ c. builtin_data c.0) dynamic_callbacks ++ user_snippets (fs.entries d') d'),
        d',
      )

  unfoldable pub create_snippet : Bytes → Bytes → D → VxCoreError × D
  create_snippet name json_content d =
      let (made, d') = fs.create_directories d in
      let path = get_snippet_file_path folder name in
      if not (is_valid_snippet_name is_relative name)
      then (err_invalid_param, d)
      else if is_builtin_name name
      then (err_already_exists, d)
      else if not made
      then (err_io, d')
      else if fs.exists path d'
      then (err_already_exists, d')
      else if not (is_some (fs.parse json_content))
      then (err_invalid_param, d')
      else fs.write_file path json_content d'

  unfoldable pub delete_snippet : Bytes → D → VxCoreError × D
  delete_snippet name d =
      let path = get_snippet_file_path folder name in
      let (removed, d') = fs.remove path d in
      if not (is_valid_snippet_name is_relative name)
      then (err_invalid_param, d)
      else if is_builtin_name name
      then (err_invalid_param, d)
      else if not (fs.exists path d)
      then (err_not_found, d)
      else if not removed
      then (err_io, d')
      else (vxcore_ok, d')

  unfoldable pub rename_snippet : Bytes → Bytes → D → VxCoreError × D
  rename_snippet old_name new_name d =
      let (made, d1) = fs.create_directories d in
      let old_path = get_snippet_file_path folder old_name in
      let new_path = get_snippet_file_path folder new_name in
      let (renamed, d2) = fs.rename old_path new_path d1 in
      let valid =
        is_valid_snippet_name is_relative old_name && is_valid_snippet_name is_relative new_name in
      if not valid
      then (err_invalid_param, d)
      else if is_builtin_name old_name
      then (err_invalid_param, d)
      else if is_builtin_name new_name
      then (err_already_exists, d)
      else if not made
      then (err_io, d1)
      else if not (fs.exists old_path d1)
      then (err_not_found, d1)
      else if bytes_eq old_name new_name
      then (vxcore_ok, d1)
      else if fs.exists new_path d1
      then (err_already_exists, d1)
      else if not renamed
      then (err_io, d2)
      else (vxcore_ok, d2)

  unfoldable pub update_snippet : Bytes → Bytes → D → VxCoreError × D
  update_snippet name json_content d =
      let path = get_snippet_file_path folder name in
      if not (is_valid_snippet_name is_relative name)
      then (err_invalid_param, d)
      else if is_builtin_name name
      then (err_invalid_param, d)
      else if not (fs.exists path d)
      then (err_not_found, d)
      else if not (is_some (fs.parse json_content))
      then (err_invalid_param, d)
      else fs.write_file path json_content d

  module _ (names : DateTimeNames) (tm : Tm) (d : D) where
    -- ResolveSnippetContent behind the overrides, which are asked before.
    unfoldable pub resolve_snippet : Bytes → Option Resolved
    resolve_snippet name = elim (find_callback name dynamic_callbacks) [
      | some callback ↦ some (value (callback names tm))
      | none ↦ elim (get_snippet name d) [
        | inl err ↦ none
        | inr found ↦
            if found.is_builtin
            then none
            else some (
                snippet found.content found.cursor_mark found.selection_mark
                  found.indent_as_first_line)
      ]
    ]

    unfoldable pub apply_snippet : Bytes → Bytes → Bytes → Overrides → ApplyResult
    apply_snippet name selected_text indentation overrides =
        let direct : Bytes → ApplyResult =
          λ text. record { text = text; cursor_offset = some (length text) } in
        elim (find_override name overrides) [
          | some text ↦ direct text
          | none ↦ elim (resolve_snippet name) [
            | none ↦ record { text = []; cursor_offset = none }
            | some (value text) ↦ direct text
            | some (snippet content cursor_mark selection_mark indent_first) ↦
                apply_marks_and_expand resolve_snippet overrides selected_text content indentation
                  cursor_mark selection_mark indent_first false
          ]
        ]
