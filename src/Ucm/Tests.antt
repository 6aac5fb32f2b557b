-- ===== src/Ucm/Tests.antt =====
-- src/ara/ucm: a world that is the list of the packages written, in which a command works once
-- there is one, and documents that are elements with their children.
use Prim.Native.String.{String}
use text.Mathlib.Text.{◌==◌ as str_eq}
use adaptive_autosar.Prelude.{
  ℕ, ◌≡◌, refl, ap, Bool, true, false, Option, none, some, List, [], ◌∷◌, ◌++◌, find, inr,
  if◌then◌else◌,
}
use adaptive_autosar.Ucm.Environment.{Environment}
use adaptive_autosar.Ucm.PackageManager.{
  PackageManager, PackageInfo, idle, transferring, processing, is_idle, is_empty, extract,
  transfer_start, transfer_exit, process_sw_package,
}
use adaptive_autosar.Ucm.PackageManager.Injection.{IsAppending, IsInjected, inject-IsInjected}
use adaptive_autosar.Ucm.PackageManager.Transfer.{send_blocks, join, IsStored, transfer_exit-blocks}
use adaptive_autosar.Ucm.PackageManager.Stale.{metadata, process_sw_package-stale}

-- An element with its name and its short name, and an element with a child behind its others.
data Document : Type 0 where
  element : String → String → Document
  with_child : Document → Document → Document

abbrev name_of : Document → String
name_of (element tag text) = tag
name_of (with_child document child) = name_of document

abbrev text_of : Document → String
text_of (element tag text) = text
text_of (with_child document child) = text_of document

abbrev children_of : Document → String → List Document
children_of (element tag text) name = []
children_of (with_child document child) name =
    children_of document name ++ (if str_eq (name_of child) name then child ∷ [] else [])

abbrev has_package : List (List ℕ) → Bool
has_package [] = false
has_package (p ∷ packages) = true

abbrev world : Environment (List (List ℕ)) Document
world = record {
  exists = λ w path. false;
  write_file = λ w name bytes. (bytes ∷ w, true);
  make_directory = λ w path. w;
  run_command = λ w command. (w, has_package w);
  binary_name = λ w path. some "clock";
  open_source = λ w path. true;
  open_target = λ w path. (w, true);
  copy = λ w source target. (w, true);
  rename = λ w from to. (w, true);
  unlink = λ w path. w;
  load_xml = λ w path. none;
  document_element = λ document. document;
  select_node = λ document query. some document;
  node_name = name_of;
  children = children_of;
  child_text = λ node name. text_of node;
  append_copy = λ document query node. with_child document node;
  save_xml = λ w path document. (w, true);
  register = λ w name version. w;
}

abbrev clock_package : PackageInfo
clock_package = record { name = "clock"; version = "1.0.0"; size = 3 }

abbrev fresh : PackageManager
fresh = record {
  storage_root = "root";
  has_storage = true;
  has_registry = false;
  update_state = idle;
  next_id = 1;
  pending_transfers = [];
  accumulated_data = [];
  staged_package_path = "";
  staged_binary_name = "";
}

transfer_exit-blocks_example :
    IsStored world []
      (send_blocks (transfer_start fresh clock_package).0 1 ((1 ∷ []) ∷ (2 ∷ 3 ∷ []) ∷ []))
      clock_package
      (join ((1 ∷ []) ∷ (2 ∷ 3 ∷ []) ∷ []))
      (transfer_exit world []
        (send_blocks (transfer_start fresh clock_package).0 1 ((1 ∷ []) ∷ (2 ∷ 3 ∷ []) ∷ []))
        1)
unfolding is_idle
transfer_exit-blocks_example =
    transfer_exit-blocks world [] fresh clock_package ((1 ∷ []) ∷ (2 ∷ 3 ∷ []) ∷ []) refl (λ e. cc)

abbrev or_node : Document → Option Document → Document
or_node node none = node
or_node node (some other) = other

world-IsAppending : IsAppending world
world-IsAppending = record {
  appends = λ manifest process node is_element found. (
    with_child manifest process,
    refl,
    λ name.
        ap (λ n. children_of n name ++ (if str_eq (name_of process) name then process ∷ [] else []))
          (ap (or_node manifest) found),
  );
}

abbrev one_process : Document
one_process = with_child (element "PROCESSES" "") (element "PROCESS" "clock")

inject-IsInjected_example : IsInjected world one_process (element "PROCESS" "speed") one_process
inject-IsInjected_example =
    inject-IsInjected world one_process (element "PROCESS" "speed") one_process world-IsAppending
      refl refl

abbrev staged : PackageManager
staged = record {
  storage_root = "root";
  has_storage = true;
  has_registry = false;
  update_state = transferring;
  next_id = 2;
  pending_transfers = (1, clock_package) ∷ [];
  accumulated_data = [];
  staged_package_path = "root/clock.swpkg.tar.gz";
  staged_binary_name = "";
}

process_sw_package-stale_example :
    process_sw_package world
      ([] ∷ [])
      (transfer_start (process_sw_package world [] staged 1).1 clock_package).0
      2
    ≡ (
      [] ∷ [],
      record (transfer_start (process_sw_package world [] staged 1).1 clock_package).0 {
        update_state = processing;
        staged_binary_name = "clock";
      },
      inr tt,
    )
unfolding extract is_empty find metadata
process_sw_package-stale_example =
    process_sw_package-stale world [] ([] ∷ []) staged 1 clock_package clock_package "clock" refl
      refl refl refl refl refl
