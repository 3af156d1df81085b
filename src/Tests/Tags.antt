-- ===== src/Tests/Tags.antt =====
-- core/notebook.cpp: tags at concrete inputs. "b" stands below "a" and "c" below "b".
use vxcore.Notebooks.Tags.Deletion.{delete_rounds, delete_tag-subtree}
use vxcore.Errors.{vxcore_ok, VxCoreError}
use vxcore.Prelude.{
  true, is_some, arith, ◌+◌, refl, map, ◌∷◌, some, none, false, [], ◌≡◌, ℕ, String, Option, List,
}
use vxcore.Notebooks.Tags.{
  subtree_loop, save_tags, erase_tags, erase_tag, children, TagNode, Notebook, Host, find_tag,
  delete_tag, move_tag, create_tag_path, is_above,
}
use vxcore.Notebooks.Tags.Forest.{ends, IsWellFormed}
use vxcore.Notebooks.Tags.Operations.{TagsAreWellFormed, move_tag-IsWellFormed}
use vxcore.Notebooks.Tags.Reachable.{
  move_tag-cycle, TagSteps-AreWellFormed, next, here, created_path,
}

-- Saving always works, and the world counts the saves.
abbrev host : Host ℕ ℕ
host = record {
  update_config = λ config w. (vxcore_ok, w + 1);
  iterate_all_files = λ callback w. w;
  update_file_tags = λ path tags w. (vxcore_ok, w);
  now = λ w. w;
  no_metadata = 0;
}

abbrev tag_below : String → String → TagNode ℕ
tag_below name parent = record { name = name; parent = parent; metadata = 0 }

abbrev notebook_with : List (TagNode ℕ) → Notebook ℕ ℕ
notebook_with tags = record {
  config = record { tags = tags; tags_modified_utc = 0; rest = 0 };
  read_only = false;
  world = 0;
}

abbrev abc : List (TagNode ℕ)
abc = tag_below "a" "" ∷ tag_below "b" "a" ∷ tag_below "c" "b" ∷ []

abc-IsWellFormed : IsWellFormed abc
unfolding ends find_tag
abc-IsWellFormed = record {
  forest = (2, (refl, (refl, (refl, tt))));
  distinct = (refl, (refl, (refl, tt)));
  named = (refl, (refl, (refl, tt)));
}

move_tag-IsWellFormed_example :
    (r : VxCoreError × Notebook ℕ ℕ) × (move_tag host 4 "c" "a" (notebook_with abc) ≡ some r)
    × TagsAreWellFormed r.1
unfolding abc-IsWellFormed
move_tag-IsWellFormed_example =
    move_tag-IsWellFormed host "c" "a" (notebook_with abc) 4 abc-IsWellFormed (omega arith)

c_below_b : is_above 3 abc "b" "c" ≡ some true
unfolding is_above find_tag
c_below_b = refl

b_is_tag : is_some (find_tag "b" abc) ≡ true
unfolding find_tag
b_is_tag = refl

abbrev rounds_of_b : ℕ
rounds_of_b = delete_rounds "b" (notebook_with abc) abc-IsWellFormed refl b_is_tag

delete_tag-subtree_example :
    (r : VxCoreError × Notebook ℕ ℕ) × (delete_tag host rounds_of_b "b" (notebook_with abc)
      ≡ some r)
    × TagsAreWellFormed r.1
    × (find_tag "c" r.1.config.tags ≡ none)
delete_tag-subtree_example =
    delete_tag-subtree host "b" (notebook_with abc) rounds_of_b "c" 3 true abc-IsWellFormed refl
      b_is_tag refl (omega arith) c_below_b

names_after : Option (VxCoreError × Notebook ℕ ℕ) → Option (List String)
names_after none = none
names_after (some (err, n)) = some (map (λ t. t.name) n.config.tags)

deletes_below : names_after (delete_tag host 9 "b" (notebook_with abc)) ≡ some ("a" ∷ [])
unfolding names_after delete_tag find_tag subtree_loop children save_tags erase_tags erase_tag
deletes_below = refl

abbrev after_path : Notebook ℕ ℕ
after_path = (create_tag_path host "a/b/c" (notebook_with [])).1

TagSteps-AreWellFormed_example : TagsAreWellFormed after_path
TagSteps-AreWellFormed_example =
    TagSteps-AreWellFormed host (notebook_with []) after_path refl
      (next here (created_path "a/b/c" refl))

abbrev cyclic : List (TagNode ℕ)
cyclic = tag_below "a" "b" ∷ tag_below "b" "a" ∷ tag_below "c" "" ∷ []

move_tag-cycle_example : move_tag host 1000 "c" "b" (notebook_with cyclic) ≡ none
unfolding find_tag
move_tag-cycle_example =
    move_tag-cycle host 1000 "c" (notebook_with cyclic) (tag_below "c" "") (tag_below "a" "b")
      (tag_below "b" "a") refl refl refl refl refl refl refl
