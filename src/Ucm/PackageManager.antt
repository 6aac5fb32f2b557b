-- ===== src/Ucm/PackageManager.antt =====
-- src/ara/ucm/package_manager.cpp. The calls outside are the fields of `Environment`. A transfer
-- identifier is 32 bits wide; a `Result` is a sum of its error and its value.
pub mod Activate
pub mod Injection
pub mod Transfer
pub mod Stale
use Prim.Native.String.{String, ◌++◌ as ◌+str◌}
use text.Mathlib.Text.{◌==◌ as str_eq}
use adaptive_autosar.Prelude.{
  ℕ, suc, ◌+◌, ◌%◌, ◌^◌, Bool, true, false, ◌||◌, not, Option, none, some, List, [], ◌∷◌, ◌++◌,
  if◌then◌else◌, ◌==◌, ltb, length, find, assign, ◌⊎◌, inl, inr, ◌&&◌,
}
use adaptive_autosar.Ucm.Environment.{Environment}

pub data UpdateStateType : Type 0 where
  idle transferring processing activating activated rolling_back rolled_back : UpdateStateType

pub data UcmErrc : Type 0 where
  invalid_transfer_id transfer_not_complete package_malformed activation_failed : UcmErrc
  rollback_failed insufficient_space operation_in_progress : UcmErrc

-- A `Result<void>`.
abbrev pub Outcome : Type 0
Outcome = UcmErrc ⊎ Unit {0}

pub record PackageInfo : Type 0 where
  pub name : String
  pub version : String
  pub size : ℕ

pub record PackageManager : Type 0 where
  pub storage_root : String
  pub has_storage : Bool
  pub has_registry : Bool
  pub update_state : UpdateStateType
  pub next_id : ℕ
  pub pending_transfers : List (ℕ × PackageInfo)
  pub accumulated_data : List (ℕ × List ℕ)
  pub staged_package_path : String
  pub staged_binary_name : String

-- The constructor, with whether the two storages open.
unfoldable pub new_package_manager : String → Bool → Bool → PackageManager
new_package_manager storage_root has_storage has_registry = record {
  storage_root = storage_root;
  has_storage = has_storage;
  has_registry = has_registry;
  update_state = idle;
  next_id = 1;
  pending_transfers = [];
  accumulated_data = [];
  staged_package_path = "";
  staged_binary_name = "";
}

unfoldable pub reset : PackageManager → PackageManager
reset m = record m {
  update_state = idle;
  pending_transfers = [];
  accumulated_data = [];
  staged_package_path = "";
  staged_binary_name = "";
}

unfoldable pub is_idle : UpdateStateType → Bool
is_idle idle = true
is_idle _ = false

unfoldable pub transfer_start : PackageManager → PackageInfo → PackageManager × (UcmErrc ⊎ ℕ)
transfer_start m info =
    if is_idle m.update_state
    then (
      record m {
        next_id = (m.next_id + 1) % 2 ^ 32;
        pending_transfers = assign m.next_id info m.pending_transfers;
        accumulated_data = assign m.next_id [] m.accumulated_data;
        update_state = transferring;
      },
      inr m.next_id,
    )
    else (m, inl operation_in_progress)

-- `mAccumulatedData[id]`, which makes an empty entry when there is none.
unfoldable pub accumulated : PackageManager → ℕ → List ℕ
accumulated m id = elim (find id m.accumulated_data) [ none ↦ [] | some bytes ↦ bytes ]

-- The block counter is not used.
unfoldable pub transfer_data : PackageManager → ℕ → List ℕ → PackageManager × Outcome
transfer_data m id block = elim (find id m.pending_transfers) [
  | none ↦ (m, inl invalid_transfer_id)
  | some info ↦ (
    record m { accumulated_data = assign id (accumulated m id ++ block) m.accumulated_data },
    inr tt,
  )
]

unfoldable pub package_file : String → String
package_file name = name +str ".swpkg.tar.gz"

unfoldable pub staging : PackageManager → String
staging m = m.storage_root +str "/staging"

unfoldable pub is_empty : String → Bool
is_empty text = str_eq text ""

module _ {W Xml : Type 0} (env : Environment W Xml) where
  -- The write of the assembled package, which is left out when there is no storage.
  unfoldable pub store_package : W → PackageManager → String → List ℕ → W × Bool
  store_package w m name bytes =
      if m.has_storage then env.write_file w (package_file name) bytes else (w, true)

  -- `TransferExit`; for a size of zero the package is a file that is there already.
  unfoldable pub transfer_exit : W → PackageManager → ℕ → W × PackageManager × Outcome
  transfer_exit w m id = elim (find id m.pending_transfers) [
    | none ↦ (w, m, inl invalid_transfer_id)
    | some info ↦
        if info.size == 0
        then (if env.exists w info.name
            then (w, record m { staged_package_path = info.name }, inr tt)
            else (w, m, inl transfer_not_complete))
        else if length (accumulated m id) == info.size
        then (if (store_package w m info.name (accumulated m id)).1
            then (
              (store_package w m info.name (accumulated m id)).0,
              record m {
                staged_package_path = (m.storage_root +str "/") +str package_file info.name;
              },
              inr tt,
            )
            else ((store_package w m info.name (accumulated m id)).0, m, inl insufficient_space))
        else (w, m, inl transfer_not_complete)
  ]

  -- `tar`, run on the staged package.
  unfoldable pub extract : W → PackageManager → W × Bool
  extract w m =
      env.run_command (env.make_directory w (staging m))
        (((("tar xzf \"" +str m.staged_package_path) +str "\" -C \"") +str staging m) +str "\"")

  -- The reading of the metadata. The name of the binary is written even when it is empty.
  unfoldable pub read_binary_name : W → PackageManager → PackageManager × Outcome
  read_binary_name w m = elim (env.binary_name w (staging m +str "/metadata.json")) [
    | none ↦ (record m { update_state = idle }, inl package_malformed)
    | some name ↦
        if is_empty name
        then (record m { staged_binary_name = name; update_state = idle }, inl package_malformed)
        else (record m { staged_binary_name = name }, inr tt)
  ]

  unfoldable pub process_sw_package : W → PackageManager → ℕ → W × PackageManager × Outcome
  process_sw_package w m id = elim (find id m.pending_transfers) [
    | none ↦ (w, m, inl invalid_transfer_id)
    | some info ↦
        if is_empty m.staged_package_path
        then (w, m, inl package_malformed)
        else if (extract w m).1
        then (let (next, outcome) =
              read_binary_name (extract w m).0 (record m { update_state = processing }) in
            ((extract w m).0, next, outcome))
        else ((extract w m).0, record m { update_state = idle }, inl package_malformed)
  ]
