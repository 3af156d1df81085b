-- ===== src/History/Recent.antt =====
-- core/history_manager.cpp: which of the files opened so far the history holds.
use vxcore.Prelude.{
  sym, eq_iff, subst, ◌∙◌, some, inr, refl, inl, false, zero, str_eq, arith, ap, [], Bool-cases,
  ◌≡◌, ◌∷◌, suc, All, take, ℕ, String, List,
}
use vxcore.History.{
  meta_key_history, parsed, record_file_open, max_history_items, get_history, add_entry, Store,
  HistoryEntry, without_file,
}

-- Every file opened so far, once, the last one first.
abbrev pub all_opened : List HistoryEntry → List HistoryEntry → List HistoryEntry
all_opened es [] = es
all_opened es (e ∷ opens) = all_opened (e ∷ without_file e.file_id es) opens

abbrev NoFile : String → List HistoryEntry → Type 0
NoFile id = All λ e. str_eq e.file_id id ≡ false

abbrev pub DistinctFiles : List HistoryEntry → Type 0
DistinctFiles [] = Unit
DistinctFiles (e ∷ es) = NoFile e.file_id es × DistinctFiles es

without_file-absent :
    (id : String) (es : List HistoryEntry) → NoFile id es → without_file id es ≡ es
unfolding without_file
without_file-absent id [] h = refl
without_file-absent id (e ∷ es) h = ground (arith, without_file-absent id es)

take-NoFile : (id : String) (n : ℕ) (es : List HistoryEntry) → NoFile id es → NoFile id (take n es)
take-NoFile id zero es h = tt
take-NoFile id (suc n) [] h = tt
take-NoFile id (suc n) (e ∷ es) h = (h.0, take-NoFile id n es h.1)

take-take {ℓ} : {A : Type ℓ} (n : ℕ) (xs : List A) → take n (take n xs) ≡ take n xs
take-take zero xs = refl
take-take (suc n) [] = refl
take-take (suc n) (x ∷ xs) = ap (λ l. x ∷ l) (take-take n xs)

NoFile-without_file :
    (id j : String) (es : List HistoryEntry) → NoFile j es → NoFile j (without_file id es)
unfolding without_file
NoFile-without_file id j [] h = tt
NoFile-without_file id j (e ∷ es) h = elim (Bool-cases (str_eq e.file_id id)) [
  | inl same ↦ rw same (NoFile-without_file id j es h.1)
  | inr other ↦ rw other (h.0, NoFile-without_file id j es h.1)
]

without_file-NoFile : (id : String) (es : List HistoryEntry) → NoFile id (without_file id es)
unfolding without_file
without_file-NoFile id [] = tt
without_file-NoFile id (e ∷ es) = elim (Bool-cases (str_eq e.file_id id)) [
  | inl same ↦ rw same (without_file-NoFile id es)
  | inr other ↦ rw other (other, without_file-NoFile id es)
]

without_file-DistinctFiles :
    (id : String) (es : List HistoryEntry) → DistinctFiles es → DistinctFiles (without_file id es)
unfolding without_file
without_file-DistinctFiles id [] d = tt
without_file-DistinctFiles id (e ∷ es) d = elim (Bool-cases (str_eq e.file_id id)) [
  | inl same ↦ rw same (without_file-DistinctFiles id es d.1)
  | inr other ↦
      rw other (NoFile-without_file id e.file_id es d.0, without_file-DistinctFiles id es d.1)
]

-- Dropping a file from the part that is kept is as good as dropping it from the whole list.
take-without_file :
    (n : ℕ) (id : String) (es : List HistoryEntry)
    → DistinctFiles es
    → take n (without_file id (take (suc n) es)) ≡ take n (without_file id es)
unfolding without_file
take-without_file n id [] d = refl
take-without_file zero id (e ∷ es) d = refl
take-without_file (suc n) id (e ∷ es) d = elim (Bool-cases (str_eq e.file_id id)) [
  | inl same ↦
      let none_left = subst (λ j. NoFile j es) ((eq_iff e.file_id id).0 same) d.0 in
      let kept = without_file-absent id (take (suc n) es) (take-NoFile id (suc n) es none_left) in
      rw same (
        ap (take (suc n)) kept
        ∙ take-take (suc n) es
        ∙ sym (ap (take (suc n)) (without_file-absent id es none_left)))
  | inr other ↦ rw other (ap (λ l. e ∷ l) (take-without_file n id es d.1))
]

add_entry-take :
    (e : HistoryEntry) (es : List HistoryEntry)
    → DistinctFiles es
    → add_entry e (take max_history_items es)
      ≡ take max_history_items (e ∷ without_file e.file_id es)
unfolding add_entry
add_entry-take e es d = ap (λ l. e ∷ l) (take-without_file 49 e.file_id es d)

-- The laws of a store that keeps what it is given, and of JSON.
pub record KeepsHistory {D T : Type 0} (store : Store D T) : Type 0 where
  pub stores :
      (k : String) (text : T) (d : D)
      → store.get_notebook_metadata k (store.set_notebook_metadata k text d).1 ≡ some text
  pub parses : (es : List HistoryEntry) → store.parse (store.dump es) ≡ some es

abbrev pub IsNamed : List HistoryEntry → Type 0
IsNamed = All λ e. str_eq e.file_id "" ≡ false

module _ {D T : Type 0} (store : Store D T) where
  -- One call of `RecordFileOpen` after the other.
  abbrev pub open_files : List HistoryEntry → D → D
  open_files [] d = d
  open_files (e ∷ opens) d = open_files opens (record_file_open store e.file_id e.opened_utc d).1

module _ {D T : Type 0} (store : Store D T) (q : KeepsHistory store) where
  get_history-record_file_open :
      (e : HistoryEntry) (d : D)
      → str_eq e.file_id "" ≡ false
      → get_history store (record_file_open store e.file_id e.opened_utc d).1
        ≡ add_entry e (get_history store d)
  unfolding record_file_open get_history parsed
  get_history-record_file_open e d named =
      let es = add_entry e (get_history store d) in
      rw (named, q.stores meta_key_history (store.dump es) d, parsed, q.parses es) refl

  -- Where the store keeps what it is given and JSON is parsed to what was dumped: whatever files, with
  -- ids that are not empty, are opened, the history is the first fifty of all files opened so far,
  -- each once and the last one first, if it was the first fifty of some distinct files before.
  pub get_history-open_files :
      (opens es : List HistoryEntry) (d : D)
      → IsNamed opens
      → DistinctFiles es
      → get_history store d ≡ take max_history_items es
      → get_history store (open_files store opens d) ≡ take max_history_items (all_opened es opens)
  get_history-open_files [] es d named distinct h = h
  get_history-open_files (e ∷ opens) es d named distinct h =
      get_history-open_files opens (e ∷ without_file e.file_id es)
        (record_file_open store e.file_id e.opened_utc d).1 named.1
        (without_file-NoFile e.file_id es, without_file-DistinctFiles e.file_id es distinct)
        (get_history-record_file_open e d named.0
          ∙ ap (add_entry e) h
          ∙ add_entry-take e es distinct)
