-- ===== src/Ucm/PackageManager/Stale.antt =====
-- src/ara/ucm/package_manager.cpp: what a package leaves behind when its processing fails.
use Prim.Native.String.{String, ◌++◌ as ◌+str◌}
use adaptive_autosar.Prelude.{
  ℕ, ◌%◌, ◌+◌, ◌^◌, ◌≡◌, refl, ap, ◌∙◌, true, false, some, [], find, assign, find-assign, inl, inr,
}
use adaptive_autosar.Ucm.Environment.{Environment}
use adaptive_autosar.Ucm.PackageManager.{
  PackageManager, PackageInfo, idle, package_malformed, is_idle, is_empty, transfer_start,
  process_sw_package, extract, read_binary_name, processing, staging, transferring,
}

-- The path of the metadata.
unfoldable pub metadata : PackageManager → String
metadata m = staging m +str "/metadata.json"

module _ {W Xml : Type 0} (env : Environment W Xml) where
  failed_process :
      (w : W) (m : PackageManager) (id : ℕ) (info : PackageInfo)
      → find id m.pending_transfers ≡ some info
      → is_empty m.staged_package_path ≡ false
      → (extract env w m).1 ≡ false
      → process_sw_package env w m id
        ≡ ((extract env w m).0, record m { update_state = idle }, inl package_malformed)
  unfolding process_sw_package
  failed_process w m id info pending staged broken =
      rw (process_sw_package, pending, staged, broken) refl

  extracted :
      (w : W) (m : PackageManager) (id : ℕ) (info : PackageInfo) (name : String)
      → find id m.pending_transfers ≡ some info
      → is_empty m.staged_package_path ≡ false
      → (extract env w m).1 ≡ true
      → env.binary_name (extract env w m).0 (metadata m) ≡ some name
      → is_empty name ≡ false
      → process_sw_package env w m id ≡ (
        (extract env w m).0,
        record m { update_state = processing; staged_binary_name = name },
        inr tt,
      )
  unfolding process_sw_package read_binary_name metadata staging
  extracted w m id info name pending staged works named full =
      rw (process_sw_package, pending, staged, works, read_binary_name, named, full) refl

  started_after :
      (m : PackageManager) (other : PackageInfo)
      → (transfer_start (record m { update_state = idle }) other).0 ≡ record m {
        next_id = (m.next_id + 1) % 2 ^ 32;
        pending_transfers = assign m.next_id other m.pending_transfers;
        accumulated_data = assign m.next_id [] m.accumulated_data;
        update_state = transferring;
      }
  unfolding transfer_start is_idle
  started_after m other = refl

  -- When the extraction of a staged package fails and another package is started, a request to
  -- process the other one, of which nothing has been transferred, extracts the first package again;
  -- if that works now and names a binary, the other package counts as processed, with that binary.
  pub process_sw_package-stale :
      (w v : W) (m : PackageManager) (id : ℕ) (info other : PackageInfo) (name : String)
      → find id m.pending_transfers ≡ some info
      → is_empty m.staged_package_path ≡ false
      → (extract env w m).1 ≡ false
      → (extract env v m).1 ≡ true
      → env.binary_name (extract env v m).0 (metadata m) ≡ some name
      → is_empty name ≡ false
      → (let started = (transfer_start (process_sw_package env w m id).1 other).0 in
          process_sw_package env v started m.next_id ≡ (
            (extract env v m).0,
            record started { update_state = processing; staged_binary_name = name },
            inr tt,
          ))
  unfolding extract metadata staging
  process_sw_package-stale w v m id info other name pending staged broken works named full =
      let failed =
        ap (λ r. (transfer_start r.1 other).0) (failed_process w m id info pending staged broken)
        ∙ started_after m other in
      rw (failed) (
        extracted v _ m.next_id other name (find-assign m.next_id other m.pending_transfers) staged
          works named full)
