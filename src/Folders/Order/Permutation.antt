-- ===== src/Folders/Order/Permutation.antt =====
-- core/bundled_folder_manager.cpp: a new order loses no node.
use vxcore.Folders.Order.Complete.{sorted_perm}
use mathlib.Core.List.{Perm}
use mathlib.Core.List.Perm
use vxcore.Prelude.{
  subst, none, false, Bool-cases, inr, inl, Option-cases, eq_refl, ap, ◌∙◌, refl, sym, eq_iff, [],
  ◌||◌, arith, ◌∷◌, true, str_eq, some, is_some, ◌≡◌, String, List, contains,
}
use vxcore.Folders.{FileRecord, find_file_record}
use vxcore.Folders.Order.{sorted, names_of, insert_name, same_names, reorder_files, is_permutation}

contains-insert_name :
    (a b : String) (xs : List String)
    → contains a (insert_name b xs) ≡ (str_eq b a || contains a xs)
unfolding contains insert_name
contains-insert_name a b [] = ground arith
contains-insert_name a b (x ∷ xs) = ground (arith, contains-insert_name a b xs)

contains-sorted : (a : String) (xs : List String) → contains a (sorted xs) ≡ contains a xs
unfolding contains sorted
contains-sorted a [] = refl
contains-sorted a (x ∷ xs) =
    ground (arith, contains-insert_name a x (sorted xs), contains-sorted a xs)

pub same_names-eq : (xs ys : List String) → same_names xs ys ≡ true → xs ≡ ys
unfolding same_names
same_names-eq [] [] h = refl
same_names-eq [] (y ∷ ys) h = ground (arith, h)
same_names-eq (x ∷ xs) [] h = ground (arith, h)
same_names-eq (x ∷ xs) (y ∷ ys) h = ground (arith, h, same_names-eq xs ys, eq_iff x y)

-- What passes the check is a permutation of the old order.
pub is_permutation_perm : (xs ys : List String) → is_permutation xs ys ≡ true → Perm xs ys
unfolding is_permutation
is_permutation_perm xs ys h =
    let same = same_names-eq (sorted xs) (sorted ys) (ground (arith, h)) in
    Perm.trans (Perm.symm (sorted_perm xs)) (subst (λ zs. Perm zs ys) (sym same) (sorted_perm ys))

-- What passes the check has the names of the old order.
is_permutation-contains :
    (xs ys : List String) (a : String) → is_permutation xs ys ≡ true → contains a ys ≡ contains a xs
unfolding is_permutation
is_permutation-contains xs ys a h =
    let same = same_names-eq (sorted xs) (sorted ys) (ground (arith, h)) in
    sym (contains-sorted a ys) ∙ ap (contains a) (sym same) ∙ contains-sorted a xs

module _ {J : Type 0} where
  pub find_file_record-name :
      (a : String) (files : List (FileRecord J)) (file : FileRecord J)
      → find_file_record a files ≡ some file
      → file.name ≡ a
  unfolding find_file_record
  find_file_record-name a [] file h = ground (arith, h)
  find_file_record-name a (f ∷ files) file h =
      ground (arith, h, find_file_record-name a files file, eq_iff f.name a)

  find_file_record-contains :
      (a : String) (files : List (FileRecord J))
      → is_some (find_file_record a files) ≡ contains a (names_of files)
  unfolding find_file_record contains names_of
  find_file_record-contains a [] = refl
  find_file_record-contains a (f ∷ files) = ground (arith, find_file_record-contains a files)

  -- Every name of the order has a record: the loop finds them all, under their names.
  reorder_files-some :
      (names : List String) (files : List (FileRecord J))
      → ((a : String) → contains a names ≡ true → contains a (names_of files) ≡ true)
      → (files' : List (FileRecord J)) × (reorder_files names files ≡ some files')
        × (names_of files' ≡ names)
        × ((a : String)
            → contains a names ≡ true
            → find_file_record a files' ≡ find_file_record a files)
  unfolding reorder_files names_of contains find_file_record
  reorder_files-some [] files known = ([], refl, refl, λ a h. ground (arith, h))
  reorder_files-some (name ∷ names) files known =
      let there : contains name (names_of files) ≡ true =
        known name (ground (arith, eq_refl name)) in
      let (later, p, q, r) = reorder_files-some names files (λ a h. known a (ground (arith, h))) in
      elim (Option-cases (find_file_record name files)) [
        | inl missing ↦
            absurd (ground (arith, missing, there, find_file_record-contains name files))
        | inr (file, here) ↦
            let named = find_file_record-name name files file here in
            (
              file ∷ later,
              ground (arith, here, p),
              ground (arith, named, q),
              λ a h. ground (arith, h, r a, here, named, eq_iff name a, eq_iff file.name a),
            )
      ]

  find_missing :
      (a : String) (files : List (FileRecord J))
      → contains a (names_of files) ≡ false
      → find_file_record a files ≡ none
  find_missing a files h = ground (arith, h, find_file_record-contains a files)

  -- An order that passes the check: its names and, under each name, the record of before.
  pub reorder_files-permutation :
      (order : List String) (files : List (FileRecord J))
      → is_permutation (names_of files) order ≡ true
      → (files' : List (FileRecord J)) × (reorder_files order files ≡ some files')
        × (names_of files' ≡ order)
        × ((a : String) → find_file_record a files' ≡ find_file_record a files)
  reorder_files-permutation order files h =
      let same = λ (a : String). is_permutation-contains (names_of files) order a h in
      let (files', p, q, r) = reorder_files-some order files (λ a k. sym (same a) ∙ k) in
      (
        files',
        p,
        q,
        λ a. elim (Bool-cases (contains a order)) [
          | inl known ↦ r a known
          | inr unknown ↦
              find_missing a files' (ap (contains a) q ∙ unknown)
              ∙ sym (find_missing a files (sym (same a) ∙ unknown))
        ],
      )
