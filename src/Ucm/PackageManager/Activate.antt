-- ===== src/Ucm/PackageManager/Activate.antt =====
-- src/ara/ucm/package_manager.cpp: `Activate` and `GetSwClusterInfo`.
use Prim.Native.String.{String, ◌++◌ as ◌+str◌}
use text.Mathlib.Text.{◌==◌ as str_eq}
use adaptive_autosar.Prelude.{
  ℕ, Bool, true, false, ◌||◌, Option, none, some, List, [], ◌∷◌, if◌then◌else◌, ltb, inl, inr,
}
use adaptive_autosar.Ucm.Environment.{Environment}
use adaptive_autosar.Ucm.PackageManager.{
  PackageManager, PackageInfo, Outcome, idle, activated, activation_failed, staging, is_empty,
}

-- The value of the least key, which `begin` of a map points to.
unfoldable pub least {ℓ} : {A : Type ℓ} → ℕ × A → List (ℕ × A) → ℕ × A
least first [] = first
least first (entry ∷ table) = least (if ltb entry.0 first.0 then entry else first) table

unfoldable pub first_transfer : List (ℕ × PackageInfo) → Option PackageInfo
first_transfer [] = none
first_transfer (entry ∷ table) = some (least entry table).1

-- What a failure of `Activate` leaves.
unfoldable pub fails : {W : Type 0} → W → PackageManager → W × PackageManager × Outcome
fails w m = (w, record m { update_state = idle }, inl activation_failed)

module _ {W Xml : Type 0} (env : Environment W Xml) where
  -- The copy of the binary, by a temporary file and a rename, and whether it succeeded.
  unfoldable pub install : W → PackageManager → String → W × Bool
  install w m install_root =
      let source = (staging m +str "/bin/") +str m.staged_binary_name in
      let target = (install_root +str "/") +str m.staged_binary_name in
      let temporary = target +str ".ucm_tmp" in
      if env.open_source w source
      then (let (opened, is_open) = env.open_target w temporary in
          if is_open
          then (let (copied, is_copied) = env.copy opened source temporary in
              if is_copied
              then (let (renamed, is_renamed) = env.rename copied temporary target in
                  if is_renamed then (renamed, true) else (env.unlink renamed temporary, false))
              else (env.unlink copied temporary, false))
          else (opened, false))
      else (w, false)

  -- The loop that looks for a child of the name.
  unfoldable pub is_present : String → List Xml → Bool
  is_present name [] = false
  is_present name (child ∷ children) =
      str_eq (env.child_text child "SHORT-NAME") name || is_present name children

  -- The manifest with the process, unless one of its name is there; none without a `PROCESSES`
  -- node.
  unfoldable pub inject : Xml → Xml → Option Xml
  unfolding is_present
  inject manifest document = elim (env.select_node manifest "//PROCESSES") [
    | none ↦ none
    | some processes ↦
        let new_process = env.document_element document in
        let new_name = env.child_text new_process "SHORT-NAME" in
        some (
          if is_present new_name (env.children processes "PROCESS")
          then manifest
          else env.append_copy manifest "//PROCESSES" new_process)
  ]

  -- The documents, and the manifest to save; none if a step fails.
  unfoldable pub updated_manifest : W → PackageManager → String → Option Xml
  updated_manifest w m manifest_path =
      elim (env.load_xml w (staging m +str "/manifest/process_entry.xml")) [
        | none ↦ none
        | some process ↦ elim (env.load_xml w manifest_path) [
          | none ↦ none
          | some manifest ↦ inject manifest process
        ]
      ]

  -- The registry's step.
  unfoldable pub register_first : W → PackageManager → W
  register_first w m =
      if m.has_registry
      then elim (first_transfer m.pending_transfers) [
        | none ↦ w
        | some info ↦ env.register w info.name info.version
      ]
      else w

  unfoldable pub activate : W → PackageManager → String → String → W × PackageManager × Outcome
  activate w m install_root manifest_path =
      if is_empty m.staged_binary_name
      then (w, m, inl activation_failed)
      else (let (installed, is_installed) = install w m install_root in
          if is_installed
          then elim (updated_manifest installed m manifest_path) [
            | none ↦ fails installed m
            | some manifest ↦
                let (saved, is_saved) = env.save_xml installed manifest_path manifest in
                if is_saved
                then (register_first saved m, record m { update_state = activated }, inr tt)
                else fails saved m
          ]
          else fails installed m)
