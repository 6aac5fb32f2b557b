-- ===== src/Ucm/PackageManager/Injection.antt =====
-- src/ara/ucm/package_manager.cpp: the process entry in the execution manifest.
use Prim.Native.String.{String}
use mathlib.Core.Path.{subst}
use text.Mathlib.Text.{◌==◌ as str_eq}
use text.Mathlib.TextPositions.{eq_refl}
use adaptive_autosar.Prelude.{
  ◌≡◌, refl, sym, ap, ◌∙◌, Bool, true, false, arith, some, List, [], ◌∷◌, ◌++◌, Bool-cases, inl,
  inr, if◌then◌else◌,
}
use adaptive_autosar.Ucm.Environment.{Environment}
use adaptive_autosar.Ucm.PackageManager.Activate.{is_present, inject}

-- What `append_copy` of an element leaves: the node that the query finds has the children that it
-- had, and the new one behind them, among those of its own name.
pub record IsAppending {W Xml : Type 0} (env : Environment W Xml) : Type 0 where
  pub appends :
      (manifest process node : Xml)
      → str_eq (env.node_name process) "" ≡ false
      → env.select_node manifest "//PROCESSES" ≡ some node
      → (after : Xml) × (env.select_node
            (env.append_copy manifest "//PROCESSES" process)
            "//PROCESSES"
          ≡ some after)
        × ((name : String)
            → env.children after name
              ≡ env.children node name
                ++ (if str_eq (env.node_name process) name then process ∷ [] else []))

module _ {W Xml : Type 0} (env : Environment W Xml) where
  abbrev pub has_name : String → Xml → Bool
  has_name name node = str_eq (env.child_text node "SHORT-NAME") name

  abbrev pub IsAbsent : String → List Xml → Type 0
  IsAbsent name [] = Unit
  IsAbsent name (node ∷ nodes) = (has_name name node ≡ false) × IsAbsent name nodes

  -- The processes after an injection of a process of some name.
  pub data IsAdded (name : String) (before : List Xml) (process : Xml) : List Xml → Type 0 where
    was_there :
        (front back : List Xml) (node : Xml)
        → before ≡ front ++ (node ∷ back)
        → has_name name node ≡ true
        → IsAdded name before process before
    was_added : IsAbsent name before → IsAdded name before process (before ++ (process ∷ []))

  -- A manifest with a node of processes, into which a document's process has been injected.
  pub record IsInjected (manifest document node : Xml) : Type 0 where
    pub result : Xml
    pub after : Xml
    pub returns : inject env manifest document ≡ some result
    pub again : inject env result document ≡ some result
    pub finds : env.select_node result "//PROCESSES" ≡ some after
    pub processes :
        IsAdded
          (env.child_text (env.document_element document) "SHORT-NAME")
          (env.children node "PROCESS")
          (env.document_element document)
          (env.children after "PROCESS")

  is_present-split :
      (name : String) (nodes : List Xml)
      → is_present env name nodes ≡ true
      → (front : List Xml) × (back : List Xml) × (node : Xml) × (nodes ≡ front ++ (node ∷ back))
        × (has_name name node ≡ true)
  unfolding is_present
  is_present-split name [] present = absurd (ground arith)
  is_present-split name (node ∷ nodes) present = elim (Bool-cases (has_name name node)) [
    | inl same ↦ ([], nodes, node, refl, same)
    | inr differs ↦
        let (front, back, found, split, same) = is_present-split name nodes (ground arith) in
        (node ∷ front, back, found, ap (λ l. node ∷ l) split, same)
  ]

  is_present-there :
      (name : String) (process : Xml) (nodes : List Xml)
      → is_present env name nodes ≡ true
      → IsAdded name nodes process nodes
  is_present-there name process nodes present =
      let (front, back, node, split, same) = is_present-split name nodes present in
      was_there front back node split same

  is_present-IsAbsent :
      (name : String) (nodes : List Xml) → is_present env name nodes ≡ false → IsAbsent name nodes
  unfolding is_present
  is_present-IsAbsent name [] absent = tt
  is_present-IsAbsent name (node ∷ nodes) absent = elim (Bool-cases (has_name name node)) [
    | inl same ↦ absurd (ground arith)
    | inr differs ↦ (differs, is_present-IsAbsent name nodes (ground arith))
  ]

  is_present-append :
      (process : Xml) (nodes : List Xml)
      → is_present env (env.child_text process "SHORT-NAME") (nodes ++ (process ∷ [])) ≡ true
  unfolding is_present
  is_present-append process [] = rw (eq_refl (env.child_text process "SHORT-NAME")) refl
  is_present-append process (node ∷ nodes) =
      elim (Bool-cases (has_name (env.child_text process "SHORT-NAME") node)) [
        | inl same ↦ rw (same) refl
        | inr differs ↦ rw (differs) (is_present-append process nodes)
      ]

  inject_present :
      (manifest document node : Xml)
      → env.select_node manifest "//PROCESSES" ≡ some node
      → is_present env
          (env.child_text (env.document_element document) "SHORT-NAME")
          (env.children node "PROCESS")
        ≡ true
      → inject env manifest document ≡ some manifest
  unfolding inject
  inject_present manifest document node found present = rw (inject, found, present) refl

  inject_absent :
      (manifest document node : Xml)
      → env.select_node manifest "//PROCESSES" ≡ some node
      → is_present env
          (env.child_text (env.document_element document) "SHORT-NAME")
          (env.children node "PROCESS")
        ≡ false
      → inject env manifest document
        ≡ some (env.append_copy manifest "//PROCESSES" (env.document_element document))
  unfolding inject
  inject_absent manifest document node found absent = rw (inject, found, absent) refl

  -- Under a library whose append_copy puts the copy behind the node's children of its name, an
  -- injection of a document whose element is a PROCESS into a manifest with a node of processes
  -- succeeds, and a second injection changes nothing. The processes of the node are those before,
  -- if one of them has the short name of the new one, and otherwise none has it and the new one
  -- stands behind them.
  pub inject-IsInjected :
      (manifest document node : Xml)
      → IsAppending env
      → env.select_node manifest "//PROCESSES" ≡ some node
      → env.node_name (env.document_element document) ≡ "PROCESS"
      → IsInjected manifest document node
  inject-IsInjected manifest document node library found named =
      let process = env.document_element document in
      let name = env.child_text process "SHORT-NAME" in
      let nodes = env.children node "PROCESS" in
      elim (Bool-cases (is_present env name nodes)) [
        | inl present ↦
            let e = inject_present manifest document node found present in
            record {
              result = manifest;
              after = node;
              returns = e;
              again = e;
              finds = found;
              processes = is_present-there name process nodes present;
            }
        | inr absent ↦
            let is_element : str_eq (env.node_name process) "" ≡ false = rw (named) refl in
            let (after, finds, children) = library.appends manifest process node is_element found in
            let behind : env.children after "PROCESS" ≡ nodes ++ (process ∷ []) =
              children "PROCESS"
              ∙ ap (λ tag. nodes ++ (if str_eq tag "PROCESS" then process ∷ [] else [])) named in
            record {
              result = env.append_copy manifest "//PROCESSES" process;
              after = after;
              returns = inject_absent manifest document node found absent;
              again =
                  inject_present (env.append_copy manifest "//PROCESSES" process) document after
                    finds (ap (is_present env name) behind ∙ is_present-append process nodes);
              finds = finds;
              processes =
                  subst (IsAdded name nodes process) (sym behind)
                    (was_added (is_present-IsAbsent name nodes absent));
            }
      ]
