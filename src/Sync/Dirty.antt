-- ===== src/Sync/Dirty.antt =====
-- sync/dirty_tracker.cpp: for each notebook the set of its dirty paths. The tracker locks itself, so
-- each operation is one step.
use vxcore.Prelude.{
  String, Bool, true, false, ◌≡◌, refl, List, [], ◌∷◌, none, some, arith, contains, str_eq, eq_iff,
  if◌then◌else◌,
}
use vxcore.Prelude.Assoc.{Assoc, lookup, put, without, lookup-put, lookup-without, DistinctKeys}

abbrev pub DirtyTracker : Type 0
DirtyTracker = Assoc (List String)

-- std::unordered_set::insert
unfoldable pub set_insert : String → List String → List String
unfolding contains
set_insert p ps = if contains p ps then ps else p ∷ ps

-- dirty_[id]: the entry, or an empty one
unfoldable pub dirty_paths : String → DirtyTracker → List String
dirty_paths id t = elim (lookup id t) [ none ↦ [] | some ps ↦ ps ]

unfoldable pub mark_dirty : String → String → DirtyTracker → DirtyTracker
unfolding dirty_paths set_insert
mark_dirty id path t = put id (set_insert path (dirty_paths id t)) t

unfoldable pub take_dirty : String → DirtyTracker → List String × DirtyTracker
take_dirty id t = elim (lookup id t) [ none ↦ ([], t) | some ps ↦ (ps, without id t) ]

abbrev not_empty : List String → Bool
not_empty [] = false
not_empty (p ∷ ps) = true

unfoldable pub has_dirty : String → DirtyTracker → Bool
has_dirty id t = elim (lookup id t) [ none ↦ false | some ps ↦ not_empty ps ]

unfoldable pub clear : String → DirtyTracker → DirtyTracker
clear id t = without id t

unfoldable pub clear_all : DirtyTracker → DirtyTracker
clear_all t = []

unfoldable pub list_dirty_notebooks : DirtyTracker → List String
list_dirty_notebooks [] = []
list_dirty_notebooks ((id, ps) ∷ t) =
    let rest = list_dirty_notebooks t in if not_empty ps then id ∷ rest else rest

not_empty-set_insert : (p : String) (ps : List String) → not_empty (set_insert p ps) ≡ true
unfolding set_insert
not_empty-set_insert p [] = refl
not_empty-set_insert p (q ∷ ps) = ground arith

contains-set_insert :
    (p q : String) (ps : List String)
    → contains q (set_insert p ps) ≡ (if str_eq p q then true else contains q ps)
unfolding set_insert contains
contains-set_insert p q ps = ground (arith, eq_iff p q)

-- A marked notebook is dirty, and marking it says nothing about any other.
pub has_dirty-mark_dirty :
    (id j path : String) (t : DirtyTracker)
    → has_dirty j (mark_dirty id path t) ≡ (if str_eq id j then true else has_dirty j t)
unfolding has_dirty mark_dirty
has_dirty-mark_dirty id j path t = ground (
  arith,
  lookup-put id j (set_insert path (dirty_paths id t)) t,
  not_empty-set_insert path (dirty_paths id t),
)

-- A cleared notebook is clean, and no other notebook changes.
pub has_dirty-clear :
    (id j : String) (t : DirtyTracker)
    → has_dirty j (clear id t) ≡ (if str_eq id j then false else has_dirty j t)
unfolding has_dirty clear
has_dirty-clear id j t = ground (arith, lookup-without id j t)

-- `TakeDirty` hands out exactly the paths held and leaves the notebook clean and the others alone.
take_dirty_lem :
    (id j : String) (t : DirtyTracker)
    → ((take_dirty id t).0 ≡ dirty_paths id t)
      × (has_dirty j (take_dirty id t).1 ≡ (if str_eq id j then false else has_dirty j t))
unfolding take_dirty has_dirty dirty_paths
take_dirty_lem id j t = ground (arith, lookup-without id j t, eq_iff id j)

-- Where no notebook has two entries, the list of dirty notebooks holds exactly those that `HasDirty`
-- answers for.
contains-list_dirty_notebooks :
    (id : String) (t : DirtyTracker)
    → DistinctKeys t
    → contains id (list_dirty_notebooks t) ≡ has_dirty id t
unfolding contains list_dirty_notebooks has_dirty lookup
contains-list_dirty_notebooks id [] d = refl
contains-list_dirty_notebooks id ((j, ps) ∷ t) d =
    ground (arith, contains-list_dirty_notebooks id t, eq_iff j id)
