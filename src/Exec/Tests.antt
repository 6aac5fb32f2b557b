-- ===== src/Exec/Tests.antt =====
-- src/ara/exec: a machine with two states, in the first of them, and a process that reports.
use adaptive_autosar.Prelude.{ℕ, refl, true, false, List, [], ◌∷◌, same_string}
use adaptive_autosar.Exec.StateServer.{StateServer, all_defined, handle_set_state, has_pair}
use adaptive_autosar.Exec.StateServer.Validity.{
  IsValid, IsServed, all_defined-lookup, handle_set_state-IsServed,
}

abbrev off : List ℕ
off = 79 ∷ 102 ∷ 102 ∷ []

abbrev on : List ℕ
on = 79 ∷ 110 ∷ []

abbrev machine : List ℕ
machine = 77 ∷ []

abbrev machine_server : StateServer
machine_server = record {
  function_group_states = (machine, off) ∷ (machine, on) ∷ [];
  notifiers = (machine, 7) ∷ [];
  current_states = (machine, off) ∷ [];
  initialized = false;
}

machine_server-IsValid : IsValid machine_server
unfolding all_defined has_pair same_string
machine_server-IsValid = record {
  defined = λ group state e.
      all_defined-lookup ((machine, off) ∷ (machine, on) ∷ []) ((machine, off) ∷ []) group state
        refl e;
}

handle_set_state-IsServed_example :
    IsServed machine_server (handle_set_state true machine_server (0 ∷ 0 ∷ []))
handle_set_state-IsServed_example =
    handle_set_state-IsServed true machine_server (0 ∷ 0 ∷ []) machine_server-IsValid
