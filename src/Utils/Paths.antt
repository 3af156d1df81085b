-- ===== src/Utils/Paths.antt =====
-- utils/file_utils.cpp: paths as text.
use Prim.Native.Char.{code}
use vxcore.Prelude.{
  ◌∷◌, ◌++ˢ◌, ◌||◌, ◌==◌, [], str_eq, some, none, if◌then◌else◌, Option, List, String,
}
pub mod Split

unfoldable pub concatenate_paths : String → String → String
concatenate_paths parent child =
    if str_eq parent "" || str_eq parent "." then child else parent ++ˢ "/" ++ˢ child

-- The text before and after the last '/', `none` where it has none.
unfoldable pub split_last : String → Option (String × String)
split_last String.[] = none
split_last (String.◌∷◌ c s) = elim (split_last s) [
  | some (parent, child) ↦ some (String.◌∷◌ c parent, child)
  | none ↦ if code c == b'/' then some ("", s) else none
]

unfoldable pub split_path : String → String × String
split_path path = elim (split_last path) [ none ↦ (".", path) | some parts ↦ parts ]

-- The loop of SplitPathComponents: `part` is the text since the last '/'.
unfoldable pub components_from : String → String → List String
components_from part String.[] = if str_eq part "" then [] else part ∷ []
components_from part (String.◌∷◌ c s) =
    let ended = components_from "" s in
    let on = components_from (part ++ˢ String.◌∷◌ c "") s in
    if code c == b'/' then (if str_eq part "" then ended else part ∷ ended) else on

unfoldable pub split_path_components : String → List String
split_path_components path = components_from "" path
