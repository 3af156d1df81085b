-- ===== src/Utils/Paths/Split.antt =====
-- utils/file_utils.cpp: splitting undoes joining.
use vxcore.Utils.Paths.{concatenate_paths, split_path, split_last}
use Prim.Native.Char.{code, Char}
use text.Mathlib.TextLemmas.{nil-append, cons-append}
use vxcore.Prelude.{
  ◌∙◌, ap, inr, eq_iff, inl, ◌||◌, Bool-cases, refl, str_eq, arith, some, none, if◌then◌else◌,
  false, ◌≡◌, ◌++ˢ◌, ◌==◌, String,
}

-- The text has no '/'.
abbrev pub IsName : String → Type 0
IsName String.[] = Unit
IsName (String.◌∷◌ c s) = ((code c == b'/') ≡ false) × IsName s

split_last-name : (s : String) → IsName s → split_last s ≡ none
unfolding split_last
split_last-name String.[] h = refl
split_last-name (String.◌∷◌ c s) h = ground (arith, h, split_last-name s (h.1))

split_last-slash : (child : String) → IsName child → split_last ("/" ++ˢ child) ≡ some ("", child)
unfolding split_last
split_last-slash child h =
    ap split_last (cons-append "/" "" child ∙ ap (λ s. String.◌∷◌ "/" s) (nil-append child))
    ∙ ground (arith, split_last-name child h)

split_last-cons :
    (c : Char) (s parent child : String)
    → split_last s ≡ some (parent, child)
    → split_last (String.◌∷◌ c s) ≡ some (String.◌∷◌ c parent, child)
unfolding split_last
split_last-cons c s parent child h = ground (arith, h)

split_last-append :
    (parent child : String)
    → IsName child
    → split_last (parent ++ˢ "/" ++ˢ child) ≡ some (parent, child)
split_last-append String.[] child h =
    ap split_last (nil-append ("/" ++ˢ child)) ∙ split_last-slash child h
split_last-append (String.◌∷◌ c parent) child h =
    ap split_last (cons-append c parent ("/" ++ˢ child))
    ∙ split_last-cons c (parent ++ˢ "/" ++ˢ child) parent child (split_last-append parent child h)

-- Joining a folder's path and a name without '/', and splitting the result again, gives the two back;
-- for the root, whichever of its two spellings is joined, it gives ".".
pub split_path-concatenate_paths :
    (parent child : String)
    → IsName child
    → split_path (concatenate_paths parent child)
      ≡ (if str_eq parent "" then "." else parent, child)
unfolding split_path concatenate_paths
split_path-concatenate_paths parent child h =
    elim (Bool-cases (str_eq parent "" || str_eq parent ".")) [
      | inl root ↦
          ground (arith, root, split_last-name child h, eq_iff parent "", eq_iff parent ".")
      | inr inner ↦
          ground
            (arith, inner, split_last-append parent child h, eq_iff parent "", eq_iff parent ".")
    ]
