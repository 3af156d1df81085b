-- ===== src/Folders/Cached.antt =====
-- core/bundled_folder_manager.cpp: operations on a folder whose vx.json was read before.
use vxcore.Errors.{err_io, is_ok}
use vxcore.Prelude.Assoc.{lookup-put, Assoc, put, lookup}
use vxcore.Prelude.{
  eq_refl, refl, inr, [], ◌∷◌, ◌++◌, inl, Bool-cases, false, ◌⊎◌, none, arith, true, suc, some, ◌≡◌,
  ℕ, String,
}
use vxcore.Folders.Config.{got, with_config, save_folder_config, get_folder_config, with_saved}
use vxcore.Folders.{
  folder_config_changed, get_config_path, emit_event, Outcome, cache_config, FolderState,
  MetadataStore, FileSystem, Notebook, FolderConfig,
}

module _ {D S J : Type 0} (n : Notebook) (fs : FileSystem D J) (db : MetadataStore S J) where
  get_folder_config-cached :
      (fuel : ℕ) (folder : String) (st : FolderState D S J) (config : FolderConfig J)
      → lookup folder st.config_cache ≡ some config
      → get_folder_config n fs db (suc fuel) folder none st ≡ (got config, st)
  unfolding get_folder_config
  get_folder_config-cached fuel folder st config h = ground (arith, h)

  -- The config of a folder in the cache is the one that an operation works on.
  pub with_config-cached :
      (fuel : ℕ) (folder : String) (st : FolderState D S J) (config : FolderConfig J)
      (next : FolderConfig J → FolderState D S J → Outcome D S J)
      → lookup folder st.config_cache ≡ some config
      → with_config n fs db (suc fuel) folder st next ≡ next config st
  unfolding with_config
  with_config-cached fuel folder st config next h =
      ground (arith, get_folder_config-cached fuel folder st config h)

module _ {D S J : Type 0} (n : Notebook) (fs : FileSystem D J) where
  -- The cache has the new config and the disk what the write left.
  abbrev pub IsWritten : String → FolderConfig J → FolderState D S J → FolderState D S J → Type 0
  IsWritten folder config st st' =
      (st'.disk ≡ (fs.write_json (get_config_path n folder) config st.disk).1)
      × (st'.store ≡ st.store)
      × (st'.config_cache ≡ put folder config st.config_cache)

  -- A write that succeeds goes on to the next step; one that fails ends the operation, with the cache
  -- changed all the same.
  pub with_saved-cases :
      (folder : String) (config : FolderConfig J) (st : FolderState D S J)
      (next : FolderState D S J → Outcome D S J)
      → (st' : FolderState D S J) × IsWritten folder config st st'
        × (((fs.write_json (get_config_path n folder) config st.disk).0 ≡ true)
              × (with_saved n fs folder config st next ≡ next st')
            ⊎ ((fs.write_json (get_config_path n folder) config st.disk).0 ≡ false)
              × (with_saved n fs folder config st next ≡ some (err_io, st')))
  unfolding with_saved save_folder_config cache_config emit_event is_ok
  with_saved-cases folder config st next =
      let w = fs.write_json (get_config_path n folder) config st.disk in
      let st' = record st { disk = w.1; config_cache = put folder config st.config_cache } in
      elim (Bool-cases (w.0)) [
        | inl written ↦ (
          record st' { emitted = st.emitted ++ folder_config_changed folder ∷ [] },
          (refl, refl, refl),
          inl (written, ground (arith, written)),
        )
        | inr failed_write ↦
            (st', (refl, refl, refl), inr (failed_write, ground (arith, failed_write)))
      ]

pub lookup-put_same {ℓ} :
    {V : Type ℓ} (k : String) (v : V) (m : Assoc V) → lookup k (put k v m) ≡ some v
lookup-put_same k v m = ground (arith, lookup-put k k v m, eq_refl k)
