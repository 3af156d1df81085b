-- ===== src/Snippets/Dynamic.antt =====
-- core/snippet_manager.cpp: the built-in snippets, whose values are read from the clock.
use vxcore.Utils.Decimal.{to_string}
use vxcore.Snippets.Expand.{bytes_eq}
use vxcore.Prelude.{
  some, ◌%◌, zero, if◌then◌else◌, ◌∷◌, ◌+◌, none, length, ◌-◌, ◌++◌, suc, codes, [], Option, ℕ,
  List, Bytes,
}
use vxcore.Snippets.Week.{iso_week_number, Tm}

unfoldable pub zeros : ℕ → Bytes
zeros zero = []
zeros (suc n) = b'0' ∷ zeros n

unfoldable pub zero_pad : ℕ → ℕ → Bytes
zero_pad n width = zeros (width - length (to_string n)) ++ to_string n

-- core/datetime_names.cpp: the names of one locale, by the number of the day or the month.
pub record DateTimeNames : Type 0 where
  pub short_day : ℕ → Bytes
  pub long_day : ℕ → Bytes
  pub short_month : ℕ → Bytes
  pub long_month : ℕ → Bytes

abbrev pub DynamicCallback : Type 0
DynamicCallback = DateTimeNames → Tm → Bytes

unfoldable pub year_text : Tm → Bytes
year_text tm = to_string tm.year

unfoldable pub compact_date : Tm → Bytes
compact_date tm = year_text tm ++ (zero_pad (tm.mon + 1) 2 ++ zero_pad tm.mday 2)

unfoldable pub date_text : Tm → Bytes
date_text tm = year_text tm ++ (b'-' ∷ (zero_pad (tm.mon + 1) 2 ++ (b'-' ∷ zero_pad tm.mday 2)))

unfoldable pub time_text : Tm → Bytes
time_text tm = zero_pad tm.hour 2 ++ (b':' ∷ (zero_pad tm.min 2 ++ (b':' ∷ zero_pad tm.sec 2)))

-- LoadBuiltInSnippets: the names in the order in which they are added, each with its callback.
unfoldable pub dynamic_callbacks : List (Bytes × DynamicCallback)
dynamic_callbacks =
    (codes "d", λ names tm. to_string tm.mday)
    ∷ (codes "dd", λ names tm. zero_pad tm.mday 2)
    ∷ (codes "ddd", λ names tm. names.short_day tm.wday)
    ∷ (codes "dddd", λ names tm. names.long_day tm.wday)
    ∷ (codes "M", λ names tm. to_string (tm.mon + 1))
    ∷ (codes "MM", λ names tm. zero_pad (tm.mon + 1) 2)
    ∷ (codes "MMM", λ names tm. names.short_month tm.mon)
    ∷ (codes "MMMM", λ names tm. names.long_month tm.mon)
    ∷ (codes "yy", λ names tm. zero_pad (tm.year % 100) 2)
    ∷ (codes "yyyy", λ names tm. year_text tm)
    ∷ (codes "w", λ names tm. to_string (iso_week_number tm))
    ∷ (codes "ww", λ names tm. zero_pad (iso_week_number tm) 2)
    ∷ (codes "H", λ names tm. to_string tm.hour)
    ∷ (codes "HH", λ names tm. zero_pad tm.hour 2)
    ∷ (codes "m", λ names tm. to_string tm.min)
    ∷ (codes "mm", λ names tm. zero_pad tm.min 2)
    ∷ (codes "s", λ names tm. to_string tm.sec)
    ∷ (codes "ss", λ names tm. zero_pad tm.sec 2)
    ∷ (codes "date", λ names tm. date_text tm)
    ∷ (codes "da", λ names tm. compact_date tm)
    ∷ (codes "time", λ names tm. time_text tm)
    ∷ (codes "datetime", λ names tm. date_text tm ++ (b'_' ∷ time_text tm))
    ∷ (codes "note", λ names tm. codes "[Value Not Available]")
    ∷ (codes "no", λ names tm. codes "[Value Not Available]")
    ∷ []

unfoldable pub find_callback : Bytes → List (Bytes × DynamicCallback) → Option DynamicCallback
find_callback name [] = none
find_callback name ((key, callback) ∷ callbacks) =
    let later = find_callback name callbacks in if bytes_eq key name then some callback else later
