-- ===== src/Snippets/Descriptions.antt =====
-- core/snippet_manager.cpp: the descriptions of the built-in snippets.
use vxcore.Snippets.Expand.{bytes_eq}
use vxcore.Prelude.{if◌then◌else◌, ◌∷◌, codes, [], List, Bytes}

-- LoadBuiltInSnippets: the second argument of each `add`, by the first.
unfoldable pub builtin_descriptions : List (Bytes × Bytes)
builtin_descriptions =
    (codes "d", codes "the day as number without a leading zero (1 to 31)")
    ∷ (codes "dd", codes "the day as number with a leading zero (01 to 31)")
    ∷ (codes "ddd", codes "the abbreviated day name (locale-aware, follows the app locale)")
    ∷ (codes "dddd", codes "the full day name (locale-aware, follows the app locale)")
    ∷ (codes "M", codes "the month as number without a leading zero (1 to 12)")
    ∷ (codes "MM", codes "the month as number with a leading zero (01 to 12)")
    ∷ (codes "MMM", codes "the abbreviated month name (locale-aware, follows the app locale)")
    ∷ (codes "MMMM", codes "the full month name (locale-aware, follows the app locale)")
    ∷ (codes "yy", codes "the year as two digit number (00 to 99)")
    ∷ (codes "yyyy", codes "the year as four digit number")
    ∷ (codes "w", codes "the ISO week number without a leading zero (1 to 53)")
    ∷ (codes "ww", codes "the ISO week number with a leading zero (01 to 53)")
    ∷ (codes "H", codes "the hour without a leading zero (0 to 23)")
    ∷ (codes "HH", codes "the hour with a leading zero (00 to 23)")
    ∷ (codes "m", codes "the minute without a leading zero (0 to 59)")
    ∷ (codes "mm", codes "the minute with a leading zero (00 to 59)")
    ∷ (codes "s", codes "the second without a leading zero (0 to 59)")
    ∷ (codes "ss", codes "the second with a leading zero (00 to 59)")
    ∷ (codes "date", codes "the date in format YYYY-MM-DD")
    ∷ (codes "da", codes "the date in format YYYYMMDD")
    ∷ (codes "time", codes "the time in format HH:mm:ss")
    ∷ (codes "datetime", codes "the datetime in format YYYY-MM-DD_HH:mm:ss")
    ∷ (codes "note", codes "the note name")
    ∷ (codes "no", codes "the note name without suffix")
    ∷ []

-- The description of a name that is added; nothing for another.
unfoldable pub description_of : Bytes → List (Bytes × Bytes) → Bytes
description_of name [] = []
description_of name ((key, description) ∷ rows) =
    let later = description_of name rows in if bytes_eq key name then description else later
