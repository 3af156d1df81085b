-- ===== src/History.antt =====
-- core/history_manager.cpp: the files of a notebook that were opened last.
use vxcore.Prelude.{
  none, false, str_eq, some, ◌∷◌, take, if◌then◌else◌, [], ℕ, String, Option, List, Bool,
}
pub mod Recent

pub record HistoryEntry : Type 0 where
  pub file_id : String
  pub opened_utc : ℕ

-- MetadataStore, on a state `D`, and nlohmann::json, whose texts are the type `T`: `none` stands for a
-- text that is not a JSON array. The pointer to the store is not null, which those that call
-- RecordFileOpen test.
pub record Store (D T : Type 0) : Type 0 where
  pub get_notebook_metadata : String → D → Option T
  pub set_notebook_metadata : String → T → D → Bool × D
  pub parse : T → Option (List HistoryEntry)
  pub dump : List HistoryEntry → T
  -- "[]"
  pub empty_array : T

abbrev pub max_history_items : ℕ
max_history_items = 50

abbrev meta_key_history : String
meta_key_history = "history"

-- std::remove_if and erase
unfoldable pub without_file : String → List HistoryEntry → List HistoryEntry
without_file id [] = []
without_file id (e ∷ es) =
    let rest = without_file id es in if str_eq e.file_id id then rest else e ∷ rest

-- The list with the new entry in front, cut to its greatest length.
unfoldable pub add_entry : HistoryEntry → List HistoryEntry → List HistoryEntry
unfolding without_file
add_entry e es = take max_history_items (e ∷ without_file e.file_id es)

module _ {D T : Type 0} (store : Store D T) where
  parsed : Option T → List HistoryEntry
  parsed none = []
  parsed (some text) = elim (store.parse text) [ none ↦ [] | some es ↦ es ]

  unfoldable pub get_history : D → List HistoryEntry
  unfolding parsed
  get_history d = parsed (store.get_notebook_metadata meta_key_history d)

  unfoldable pub record_file_open : String → ℕ → D → Bool × D
  record_file_open id now d =
      if str_eq id ""
      then (false, d)
      else store.set_notebook_metadata meta_key_history
          (store.dump (add_entry (record { file_id = id; opened_utc = now }) (get_history d))) d

  unfoldable pub clear_history : D → Bool × D
  clear_history d = store.set_notebook_metadata meta_key_history store.empty_array d
