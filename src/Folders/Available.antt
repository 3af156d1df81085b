-- ===== src/Folders/Available.antt =====
-- core/folder_manager.cpp: what the folder managers share, a free name for a node and the folders of a
-- path.
use vxcore.Utils.Paths.{concatenate_paths, split_path_components}
use vxcore.Errors.{is_not_found, err_unknown, err_invalid_param, VxCoreError}
use vxcore.Prelude.{
  length, ◌||◌, refl, ◌==◌, zero, subst, str_eq, drop, ap, take, if◌then◌else◌, arith, Bool-cases,
  ◌+◌, true, suc, some, inr, false, ◌⊎◌, ◌≡◌, ◌∷◌, ◌<◌, ◌++◌, inl, [], ℕ, none, Option, List, Bool,
  String, Bytes,
}
use vxcore.Utils.Decimal.{to_string}

-- find_last_of('.')
unfoldable pub last_dot : Bytes → Option ℕ
last_dot [] = none
last_dot (c ∷ s) = elim (last_dot s) [
  | some i ↦ some (suc i)
  | none ↦ if c == b'.' then some 0 else none
]

-- The base name and the extension; a dot at the start makes no extension.
unfoldable pub split_extension : Bytes → Bytes × Bytes
split_extension name = elim (last_dot name) [
  | none ↦ (name, [])
  | some zero ↦ (name, [])
  | some (suc i) ↦ (take (suc i) name, drop (suc i) name)
]

unfoldable pub candidate : Bytes → ℕ → Bytes
candidate name suffix =
    let (base_name, extension) = split_extension name in
    base_name ++ (b'_' ∷ (to_string suffix ++ extension))

-- `exists` asks for a name in the folder.
module _ (exists : Bytes → Bool) where
  -- The loop over the suffixes, with the number of those left.
  unfoldable pub available_loop : ℕ → Bytes → ℕ → VxCoreError ⊎ Bytes
  available_loop zero name suffix = inl err_unknown
  available_loop (suc left) name suffix =
      let rest = available_loop left name (suffix + 1) in
      if exists (candidate name suffix) then rest else inr (candidate name suffix)

  unfoldable pub get_available_name : Bytes → VxCoreError ⊎ Bytes
  get_available_name [] = inl err_invalid_param
  get_available_name (c ∷ name) =
      let numbered = available_loop 10000 (c ∷ name) 1 in
      if exists (c ∷ name) then numbered else inr (c ∷ name)

  -- The candidates from `first` on are taken, `n` of them.
  abbrev pub AreTaken : Bytes → ℕ → ℕ → Type 0
  AreTaken name first n = (m : ℕ) → m < n → exists (candidate name (first + m)) ≡ true

  AreTaken-suc :
      (name : Bytes) (first n : ℕ)
      → exists (candidate name first) ≡ true
      → AreTaken name (first + 1) n
      → AreTaken name first (suc n)
  AreTaken-suc name first n h rest zero k =
      let e : first ≡ first + 0 = omega arith in subst (λ i. exists (candidate name i) ≡ true) e h
  AreTaken-suc name first n h rest (suc m) k =
      let e : first + 1 + m ≡ first + suc m = omega arith in
      subst (λ i. exists (candidate name i) ≡ true) e (rest m (omega (arith, k)))

  abbrev pub FirstFree : Bytes → ℕ → ℕ → VxCoreError ⊎ Bytes → Type 0
  FirstFree name first left r =
      ((r ≡ inl err_unknown) × AreTaken name first left)
      ⊎ ((n : ℕ) × (n < left)
          × (r ≡ inr (candidate name (first + n)))
          × (exists (candidate name (first + n)) ≡ false)
          × AreTaken name first n)

  available_loop-FirstFree :
      (left : ℕ) (name : Bytes) (first : ℕ)
      → FirstFree name first left (available_loop left name first)
  unfolding available_loop
  available_loop-FirstFree zero name first = inl (refl, λ m k. elim k [ ])
  available_loop-FirstFree (suc left) name first =
      elim (Bool-cases (exists (candidate name first))) [
        | inr free ↦
            let e : first ≡ first + 0 = omega arith in
            inr (
              0,
              omega arith,
              rw free (ap (λ i. inr (candidate name i)) e),
              subst (λ i. exists (candidate name i) ≡ false) e free,
              λ m k. elim k [ ],
            )
        | inl taken ↦ elim (available_loop-FirstFree left name (first + 1)) [
          | inl (r, all) ↦ inl (ground (arith, taken, r), AreTaken-suc name first left taken all)
          | inr (n, k, r, free, all) ↦
              let e : first + 1 + n ≡ first + suc n = omega arith in
              inr (
                suc n,
                omega (arith, k),
                ground (arith, taken, r, ap (candidate name) e),
                subst (λ i. exists (candidate name i) ≡ false) e free,
                AreTaken-suc name first n taken all,
              )
        ]
      ]

  -- GetAvailableName gives the name if it is free. If it is taken, the result is the first free name of
  -- those with a suffix from 1 to 10000, and an error exactly if all of them are taken.
  pub get_available_name_lem :
      (c : ℕ) (name : Bytes)
      → ((exists (c ∷ name) ≡ false) × (get_available_name (c ∷ name) ≡ inr (c ∷ name)))
        ⊎ ((exists (c ∷ name) ≡ true)
            × FirstFree (c ∷ name) 1 10000 (get_available_name (c ∷ name)))
  unfolding get_available_name
  get_available_name_lem c name = elim (Bool-cases (exists (c ∷ name))) [
    | inr free ↦ inl (free, rw free)
    | inl taken ↦
        let same : available_loop 10000 (c ∷ name) 1 ≡ get_available_name (c ∷ name) =
          ground (arith, taken) in
        inr (
          taken,
          subst (FirstFree (c ∷ name) 1 10000) same (available_loop-FirstFree 10000 (c ∷ name) 1),
        )
  ]

-- The abstract folder manager: the id of a folder that is there, and CreateFolder.
pub record FolderInterface (W : Type 0) : Type 0 where
  pub get_folder_id : String → W → (VxCoreError ⊎ String) × W
  pub create_folder : String → String → W → (VxCoreError ⊎ String) × W

module _ {W : Type 0} (manager : FolderInterface W) where
  -- The loop of CreateFolderPath, with the folder and the id reached so far.
  unfoldable pub create_components : String → String → List String → W → (VxCoreError ⊎ String) × W
  create_components current_parent folder_id [] w = (inr folder_id, w)
  create_components current_parent folder_id (folder_name ∷ names) w =
      let path = concatenate_paths current_parent folder_name in
      let (found, w1) = manager.get_folder_id path w in
      let (made, w2) = manager.create_folder current_parent folder_name w1 in
      elim (str_eq folder_name "") [
        | true ↦ (inl err_invalid_param, w)
        | false ↦ elim found [
          | inr id ↦ create_components path id names w1
          | inl err ↦ elim (is_not_found err) [
            | false ↦ (inl err, w1)
            | true ↦ elim made [
              | inl err' ↦ (inl err', w2)
              | inr id ↦ create_components path id names w2
            ]
          ]
        ]
      ]

  unfoldable pub create_folder_path : String → W → (VxCoreError ⊎ String) × W
  create_folder_path folder_path w =
      let names = split_path_components folder_path in
      if str_eq folder_path "" || (length names == 0)
      then (inl err_invalid_param, w)
      else create_components "." "" names w
