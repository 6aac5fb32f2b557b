-- ===== src/Ucm/Environment.antt =====
-- What src/ara/ucm/package_manager.cpp uses of the system, of JsonCpp and pugixml, and of
-- src/ara/per. `W` is the state of the world outside the package manager, and `Xml` a document.
use Prim.Native.String.{String}
use adaptive_autosar.Prelude.{ℕ, Bool, Option, List}

pub record Environment (W Xml : Type 0) : Type 0 where
  -- `stat` finds the file.
  pub exists : W → String → Bool
  -- `FileStorage::WriteFile`, and whether it succeeded.
  pub write_file : W → String → List ℕ → W × Bool
  pub make_directory : W → String → W
  -- `system`, and whether the command returned zero.
  pub run_command : W → String → W × Bool
  -- The name of the binary in the metadata, if they can be read and parsed (empty, if they have
  -- none). A value of another kind, for which JsonCpp throws and the program ends, is left out.
  pub binary_name : W → String → Option String
  pub open_source : W → String → Bool
  pub open_target : W → String → W × Bool
  -- The reads and writes between two open files, and whether they copied all.
  pub copy : W → String → String → W × Bool
  pub rename : W → String → String → W × Bool
  pub unlink : W → String → W
  pub load_xml : W → String → Option Xml
  -- `document_element`.
  pub document_element : Xml → Xml
  -- The first node that the query finds below a document, with what it holds.
  pub select_node : Xml → String → Option Xml
  -- The element's name.
  pub node_name : Xml → String
  -- The children of the name, in their order.
  pub children : Xml → String → List Xml
  -- `child(name).text().as_string()`.
  pub child_text : Xml → String → String
  -- The first document, after `append_copy` of a node to the node that the query finds.
  pub append_copy : Xml → String → Xml → Xml
  pub save_xml : W → String → Xml → W × Bool
  -- `SetValue` and `SyncToStorage` of the registry, whose results are not looked at.
  pub register : W → String → String → W
