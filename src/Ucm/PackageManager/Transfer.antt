-- ===== src/Ucm/PackageManager/Transfer.antt =====
-- src/ara/ucm/package_manager.cpp: a transfer from its start to its exit.
use Prim.Native.String.{String, ◌++◌ as ◌+str◌}
use mathlib.Core.Path.{subst}
use mathlib.Core.List.{append_assoc, append-nil}
use adaptive_autosar.Prelude.{
  ℕ, ◌≡◌, ◌≢◌, refl, sym, ap, ◌∙◌, true, false, some, List, [], ◌∷◌, ◌++◌, ◌==◌, ==_iff, Bool-cases,
  arith, length, find, assign, find-assign, inl, inr,
}
use adaptive_autosar.Ucm.Environment.{Environment}
use adaptive_autosar.Ucm.PackageManager.{
  PackageManager, PackageInfo, Outcome, insufficient_space, transfer_not_complete, is_idle,
  transfer_start, transfer_data, transfer_exit, accumulated, store_package, package_file,
}

-- The blocks of a transfer, sent one after the other.
unfoldable pub send_blocks : PackageManager → ℕ → List (List ℕ) → PackageManager
send_blocks m id [] = m
send_blocks m id (block ∷ blocks) = send_blocks (transfer_data m id block).0 id blocks

unfoldable pub join : List (List ℕ) → List ℕ
join [] = []
join (block ∷ blocks) = block ++ join blocks

-- The manager that has accumulated bytes for a transfer.
unfoldable pub holding : PackageManager → ℕ → List ℕ → PackageManager
holding m id bytes = record m { accumulated_data = assign id bytes m.accumulated_data }

transfer_data-accumulated :
    (m : PackageManager) (id : ℕ) (info : PackageInfo) (block : List ℕ)
    → find id m.pending_transfers ≡ some info
    → (transfer_data m id block).0 ≡ holding m id (accumulated m id ++ block)
unfolding transfer_data holding
transfer_data-accumulated m id info block pending = rw (transfer_data, pending) refl

accumulated-holding :
    (m : PackageManager) (id : ℕ) (bytes : List ℕ) → accumulated (holding m id bytes) id ≡ bytes
unfolding accumulated holding
accumulated-holding m id bytes = rw (accumulated, find-assign id bytes m.accumulated_data) refl

send_blocks-accumulated :
    (m : PackageManager) (id : ℕ) (info : PackageInfo) (blocks : List (List ℕ))
    → find id m.pending_transfers ≡ some info
    → (accumulated (send_blocks m id blocks) id ≡ accumulated m id ++ join blocks)
      × ((send_blocks m id blocks).pending_transfers ≡ m.pending_transfers)
unfolding send_blocks join holding
send_blocks-accumulated m id info [] pending = (sym (append-nil (accumulated m id)), refl)
send_blocks-accumulated m id info (block ∷ blocks) pending =
    let bytes = accumulated m id ++ block in
    let (total, others) = send_blocks-accumulated (holding m id bytes) id info blocks pending in
    rw (send_blocks, transfer_data-accumulated m id info block pending)
      (
        total
            ∙ ap (λ b. b ++ join blocks) (accumulated-holding m id bytes)
            ∙ append_assoc (accumulated m id) block (join blocks),
        others,
      )

started-pending :
    (m : PackageManager) (info : PackageInfo)
    → is_idle m.update_state ≡ true
    → (find m.next_id (transfer_start m info).0.pending_transfers ≡ some info)
      × (accumulated (transfer_start m info).0 m.next_id ≡ [])
unfolding transfer_start accumulated
started-pending m info idle = (
  rw (transfer_start, idle) (find-assign m.next_id info m.pending_transfers),
  rw (transfer_start, idle, accumulated, find-assign m.next_id [] m.accumulated_data) refl,
)

unfoldable pub staged_path : PackageManager → PackageInfo → String
staged_path m info = (m.storage_root +str "/") +str (info.name +str ".swpkg.tar.gz")

module _ {W Xml : Type 0} (env : Environment W Xml) where
  -- What the exit of a transfer leaves and returns when it has got some bytes of a package.
  pub data IsStored (w : W) (m : PackageManager) (info : PackageInfo) (bytes : List ℕ)
      : W × PackageManager × Outcome → Type 0 where
    incomplete :
        length bytes ≢ info.size → IsStored w m info bytes (w, m, inl transfer_not_complete)
    unstored :
        length bytes ≡ info.size
        → m.has_storage ≡ false
        → IsStored w m info bytes (w, record m { staged_package_path = staged_path m info }, inr tt)
    written :
        (after : W)
        → length bytes ≡ info.size
        → m.has_storage ≡ true
        → after ≡ (env.write_file w (info.name +str ".swpkg.tar.gz") bytes).0
        → (env.write_file w (info.name +str ".swpkg.tar.gz") bytes).1 ≡ true
        → IsStored w m info bytes
            (after, record m { staged_package_path = staged_path m info }, inr tt)
    full :
        (after : W)
        → length bytes ≡ info.size
        → m.has_storage ≡ true
        → after ≡ (env.write_file w (info.name +str ".swpkg.tar.gz") bytes).0
        → (env.write_file w (info.name +str ".swpkg.tar.gz") bytes).1 ≡ false
        → IsStored w m info bytes (after, m, inl insufficient_space)

  store_package-storage :
      (w : W) (m : PackageManager) (name : String) (bytes : List ℕ)
      → m.has_storage ≡ true
      → store_package env w m name bytes ≡ env.write_file w (name +str ".swpkg.tar.gz") bytes
  unfolding store_package package_file
  store_package-storage w m name bytes storage = rw (storage, store_package) refl

  store_package-no_storage :
      (w : W) (m : PackageManager) (name : String) (bytes : List ℕ)
      → m.has_storage ≡ false
      → store_package env w m name bytes ≡ (w, true)
  unfolding store_package
  store_package-no_storage w m name bytes missing = rw (missing, store_package) refl

  transfer_exit-IsStored :
      (w : W) (m : PackageManager) (id : ℕ) (info : PackageInfo)
      → find id m.pending_transfers ≡ some info
      → info.size ≢ 0
      → IsStored w m info (accumulated m id) (transfer_exit env w m id)
  unfolding transfer_exit package_file staged_path
  transfer_exit-IsStored w m id info pending sized =
      let bytes = accumulated m id in
      let some_size : (info.size == 0) ≡ false = ground arith in
      elim (Bool-cases (length bytes == info.size)) [
        | inr differs ↦ rw (transfer_exit, pending, some_size, differs) (incomplete (ground arith))
        | inl same ↦
            let complete = (==_iff (length bytes) info.size).0 same in
            elim (Bool-cases m.has_storage) [
              | inr missing ↦
                  rw
                    (
                      transfer_exit,
                      pending,
                      some_size,
                      same,
                      store_package-no_storage w m info.name bytes missing,
                    )
                    (unstored complete missing)
              | inl storage ↦
                  elim (Bool-cases (env.write_file w (info.name +str ".swpkg.tar.gz") bytes).1) [
                    | inl writes ↦
                        rw
                          (
                            transfer_exit,
                            pending,
                            some_size,
                            same,
                            store_package-storage w m info.name bytes storage,
                            writes,
                          )
                          (written _ complete storage refl writes)
                    | inr fails ↦
                        rw
                          (
                            transfer_exit,
                            pending,
                            some_size,
                            same,
                            store_package-storage w m info.name bytes storage,
                            fails,
                          )
                          (full _ complete storage refl fails)
                  ]
            ]
      ]

  -- When the manager is idle, and a package of a size other than zero is started, sent in any
  -- blocks and exited, then the exit fails as not complete and changes nothing, if all blocks one
  -- behind the other have not the package's size together. Otherwise, with a storage, all of them
  -- are written to it under the package's name and the suffix .swpkg.tar.gz: if the write fails,
  -- the error is that there is too little space, and the manager is unchanged; if it succeeds, the
  -- file's path below the storage's root is staged. Without a storage the path is staged and
  -- nothing is written.
  pub transfer_exit-blocks :
      (w : W) (m : PackageManager) (info : PackageInfo) (blocks : List (List ℕ))
      → is_idle m.update_state ≡ true
      → info.size ≢ 0
      → (let sent = send_blocks (transfer_start m info).0 m.next_id blocks in
          IsStored w sent info (join blocks) (transfer_exit env w sent m.next_id))
  transfer_exit-blocks w m info blocks idle sized =
      let started = (transfer_start m info).0 in
      let sent = send_blocks started m.next_id blocks in
      let (pending, empty) = started-pending m info idle in
      let (total, others) = send_blocks-accumulated started m.next_id info blocks pending in
      subst (λ bytes. IsStored w sent info bytes (transfer_exit env w sent m.next_id))
        (total ∙ ap (λ b. b ++ join blocks) empty)
        (transfer_exit-IsStored w sent m.next_id info (ap (find m.next_id) others ∙ pending) sized)
