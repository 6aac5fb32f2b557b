-- ===== src/Exec/StateServer.antt =====
-- src/ara/exec/state_server.cpp. A handler's call takes whether the mutex is free, and returns the
-- server, whether the request succeeded, the response, and the callbacks of the notifiers called. A
-- notifier writes the state to the map's own element, which holds it already; a callback is a
-- number.
pub mod Validity
pub mod Setting
use adaptive_autosar.Prelude.{
  ℕ, ◌+◌, Bool, true, false, ◌&&◌, ◌||◌, Option, none, some, List, [], ◌∷◌, ◌++◌, if◌then◌else◌,
  ltb, length, Result, ok, throws, out_of_range, invalid_argument, logic_error, ◌>>=◌, same_string,
  lookup, store,
}
use adaptive_autosar.Com.Payload.{extract_integer}
use adaptive_autosar.Exec.Common.{
  ExecErrc, invalid_arguments, invalid_transition, general_error, already_in_state, failed,
  inject_error_code, serialize_text, text_between,
}

pub record StateServer : Type 0 where
  pub function_group_states : List (List ℕ × List ℕ)
  pub notifiers : List (List ℕ × ℕ)
  pub current_states : List (List ℕ × List ℕ)
  pub initialized : Bool

-- `find` in the set of the function groups and their states.
unfoldable pub has_pair : List (List ℕ × List ℕ) → List ℕ → List ℕ → Bool
has_pair [] group state = false
has_pair ((g, s) ∷ pairs) group state =
    same_string g group && same_string s state || has_pair pairs group state

-- The constructor's loops: each initial state is defined, and each function group has one.
unfoldable pub all_defined : List (List ℕ × List ℕ) → List (List ℕ × List ℕ) → Bool
all_defined pairs [] = true
all_defined pairs ((g, s) ∷ states) = has_pair pairs g s && all_defined pairs states

unfoldable pub all_initial : List (List ℕ × List ℕ) → List (List ℕ × List ℕ) → Bool
all_initial [] states = true
all_initial ((g, s) ∷ pairs) states = elim (lookup g states) [
  | none ↦ false
  | some state ↦ all_initial pairs states
]

unfoldable pub new_state_server :
    List (List ℕ × List ℕ) → List (List ℕ × List ℕ) → Result StateServer
new_state_server pairs states =
    if all_defined pairs states
    then (if all_initial pairs states
        then ok (record {
          function_group_states = pairs;
          notifiers = [];
          current_states = states;
          initialized = false;
        })
        else throws logic_error)
    else throws invalid_argument

unfoldable pub notify : StateServer → List ℕ → List ℕ
notify s group = elim (lookup group s.notifiers) [ none ↦ [] | some callback ↦ callback ∷ [] ]

-- The state's name, behind the function group's, which lies between the two offsets.
unfoldable pub read_state : List ℕ → ℕ → ℕ → Result (Option (List ℕ × List ℕ))
read_state payload begin_offset end_offset =
    if ltb (length payload) (end_offset + 4) then ok none else do
      group ← text_between payload begin_offset end_offset
      (size, state_offset) ← extract_integer payload end_offset
      if ltb (length payload) (state_offset + size) then ok none else do
        state ← text_between payload state_offset (state_offset + size)
        ok (some (group, state))

-- The function group and the state in a payload, which is none if it is too short.
unfoldable pub read_pair : List ℕ → Result (Option (List ℕ × List ℕ))
read_pair payload =
    if ltb (length payload) 8
    then ok none
    else (extract_integer payload 0 >>= λ group. read_state payload group.1 (group.1 + group.0))

abbrev pub Reply : Type 0
Reply = StateServer × Bool × List ℕ × List ℕ

unfoldable pub refuse : StateServer → ExecErrc → Reply
refuse s error = (s, false, inject_error_code error, [])

-- `handleSetState`, once the names are read.
unfoldable pub set_state : Bool → StateServer → List ℕ → List ℕ → Reply
set_state is_free s group state =
    if has_pair s.function_group_states group state
    then (if is_free
        then elim (lookup group s.current_states) [
          | none ↦ refuse s invalid_transition
          | some current ↦ if same_string current state then refuse s already_in_state else (
            record s { current_states = store group state s.current_states },
            true,
            [],
            notify s group,
          )
        ]
        else refuse s general_error)
    else refuse s invalid_transition

-- `handleSetState`.
unfoldable pub handle_set_state : Bool → StateServer → List ℕ → Result Reply
handle_set_state is_free s payload = read_pair payload >>= λ pair. elim pair [
  | none ↦ ok (refuse s invalid_arguments)
  | some names ↦ ok (set_state is_free s names.0 names.1)
]

-- `handleStateTransition`.
unfoldable pub handle_state_transition : StateServer → List ℕ → Reply
handle_state_transition s [] =
    if s.initialized then refuse s failed else (record s { initialized = true }, true, [], [])
handle_state_transition s (byte ∷ payload) = refuse s invalid_arguments

-- `TryGetState`.
unfoldable pub try_get_state : Bool → StateServer → List ℕ → Option (List ℕ)
try_get_state is_free s group = if is_free then lookup group s.current_states else none

-- `SetNotifier`.
unfoldable pub set_notifier : StateServer → List ℕ → ℕ → Result StateServer
set_notifier s group callback = elim (lookup group s.current_states) [
  | none ↦ throws out_of_range
  | some state ↦ ok (record s { notifiers = store group callback s.notifiers })
]

-- `FunctionGroupState::Serialize`.
unfoldable pub serialize : List ℕ → List ℕ → List ℕ
serialize group state = serialize_text group ++ serialize_text state
