-- ===== src/Exec/StateServer/Validity.antt =====
-- src/ara/exec/state_server.cpp: the current states against the defined ones, over any requests.
use Prim.Native.Nat.{bit_or}
use adaptive_autosar.Prelude.{
  ◌*◌, ◌^◌, ℕ, zero, suc, ◌+◌, ◌<◌, ◌≤◌, ◌≡◌, refl, sym, ap, ◌∙◌, transport, Bool, true, Option,
  none, some, List, [], ◌∷◌, arith, length, ltb, ltb→ge, ltb_ge, take, drop, ◌-◌, Fault, Result, ok,
  throws, ok-inj, Bool-cases, Option-cases, inl, inr, same_string, lookup, store, same_string-eq,
  lookup-store, lookup-store_other, true-ne-false,
}
use adaptive_autosar.Com.Payload.{at, extract_integer}
use adaptive_autosar.Exec.Common.{ExecErrc, text_between, invalid_arguments}
use adaptive_autosar.Exec.StateServer.{
  StateServer, Reply, has_pair, all_defined, all_initial, new_state_server, read_pair, read_state,
  refuse, set_state, handle_set_state,
}

-- Each function group is in a state that is defined for it.
pub record IsValid (s : StateServer) : Type 0 where
  pub defined :
      (group state : List ℕ)
      → lookup group s.current_states ≡ some state
      → has_pair s.function_group_states group state ≡ true

pub at-ok : (v : List ℕ) (i : ℕ) → i < length v → (b : ℕ) × (at v i ≡ ok b)
unfolding at
at-ok [] i h = absurd (omega arith)
at-ok (b ∷ v) zero h = (b, refl)
at-ok (b ∷ v) (suc i) h = at-ok v i (omega arith)

pub extract_integer-ok :
    (v : List ℕ) (i : ℕ)
    → i + 4 ≤ length v
    → (n : ℕ) × (extract_integer v i ≡ ok (n, suc (suc (suc (suc i)))))
unfolding extract_integer
extract_integer-ok v i h =
    let (b3, e3) = at-ok v i (omega arith) in
    let (b2, e2) = at-ok v (suc i) (omega arith) in
    let (b1, e1) = at-ok v (suc (suc i)) (omega arith) in
    let (b0, e0) = at-ok v (suc (suc (suc i))) (omega arith) in
    (bit_or (bit_or (bit_or (b3 * 2 ^ 24) (b2 * 2 ^ 16)) (b1 * 2 ^ 8)) b0, rw (e3, e2, e1, e0) refl)

pub text_between-ok :
    (v : List ℕ) (begin_offset end_offset : ℕ)
    → begin_offset ≤ end_offset
    → end_offset ≤ length v
    → text_between v begin_offset end_offset
      ≡ ok (take (end_offset - begin_offset) (drop begin_offset v))
unfolding text_between
text_between-ok v begin_offset end_offset ordered inside =
    rw (text_between, ltb_ge end_offset begin_offset ordered, ltb_ge (length v) end_offset inside)
      refl

read_state-returns :
    (payload : List ℕ) (begin_offset end_offset : ℕ)
    → begin_offset ≤ end_offset
    → (pair : Option (List ℕ × List ℕ)) × (read_state payload begin_offset end_offset ≡ ok pair)
unfolding read_state
read_state-returns payload begin_offset end_offset ordered =
    elim (Bool-cases (ltb (length payload) (end_offset + 4))) [
      | inl short ↦ (none, rw (read_state, short) refl)
      | inr enough ↦
          let room = ltb→ge (length payload) (end_offset + 4) enough in
          let (n, e) = extract_integer-ok payload end_offset room in
          let group =
            text_between-ok payload begin_offset end_offset ordered (omega (arith, room)) in
          elim (Bool-cases (ltb (length payload) (suc (suc (suc (suc end_offset))) + n))) [
            | inl short ↦ (none, rw (read_state, enough, group, e, short) refl)
            | inr long ↦
                let start = suc (suc (suc (suc end_offset))) in
                let state =
                  text_between-ok payload start (start + n) (omega arith) (ltb→ge _ _ long) in
                (
                  some (
                    take (end_offset - begin_offset) (drop begin_offset payload),
                    take (start + n - start) (drop start payload),
                  ),
                  rw (read_state, enough, group, e, long, state) refl,
                )
          ]
    ]

pub read_pair-returns :
    (payload : List ℕ) → (pair : Option (List ℕ × List ℕ)) × (read_pair payload ≡ ok pair)
unfolding read_pair
read_pair-returns payload = elim (Bool-cases (ltb (length payload) 8)) [
  | inl short ↦ (none, rw (read_pair, short) refl)
  | inr enough ↦
      let long : 8 ≤ length payload = ltb→ge _ _ enough in
      let (n, e) = extract_integer-ok payload 0 (omega arith) in
      let (pair, r) = read_state-returns payload 4 (4 + n) (omega arith) in
      (pair, rw (read_pair, enough, e) r)
]

some-inj : {a b : List ℕ} → some a ≡ some b → a ≡ b
some-inj e = cc

store-IsValid :
    (s : StateServer) (group state : List ℕ)
    → IsValid s
    → has_pair s.function_group_states group state ≡ true
    → IsValid (record s { current_states = store group state s.current_states })
store-IsValid s group state v pair = record {
  defined = λ g t e. elim (Bool-cases (same_string group g)) [
    | inr other ↦ v.defined g t (sym (lookup-store_other group g state s.current_states other) ∙ e)
    | inl same ↦
        let eg : group ≡ g = same_string-eq group g same in
        let et : some state ≡ some t =
          sym (lookup-store group state s.current_states)
          ∙ ap (λ k. lookup k (store group state s.current_states)) eg
          ∙ e in
        rw (sym eg, sym (some-inj et)) pair
  ];
}

set_state-IsValid :
    (is_free : Bool) (s : StateServer) (group state : List ℕ)
    → IsValid s
    → IsValid (set_state is_free s group state).0
unfolding set_state refuse
set_state-IsValid is_free s group state v =
    elim (Bool-cases (has_pair s.function_group_states group state)) [
      | inr undefined_pair ↦ rw (set_state, undefined_pair) v
      | inl pair ↦ elim (Bool-cases is_free) [
        | inr busy ↦ rw (set_state, pair, busy) v
        | inl free ↦ elim (Option-cases (lookup group s.current_states)) [
          | inl nowhere ↦ rw (set_state, pair, free, nowhere) v
          | inr (current, here) ↦ elim (Bool-cases (same_string current state)) [
            | inl same ↦ rw (set_state, pair, free, here, same) v
            | inr other ↦
                rw (set_state, pair, free, here, other) (store-IsValid s group state v pair)
          ]
        ]
      ]
    ]

set_state-groups :
    (is_free : Bool) (s : StateServer) (group state : List ℕ)
    → (set_state is_free s group state).0.function_group_states ≡ s.function_group_states
unfolding set_state refuse
set_state-groups is_free s group state = ground arith

refuse-IsValid : (s : StateServer) (error : ExecErrc) → IsValid s → IsValid (refuse s error).0
unfolding refuse
refuse-IsValid s error v = v

refuse-groups :
    (s : StateServer) (error : ExecErrc)
    → (refuse s error).0.function_group_states ≡ s.function_group_states
unfolding refuse
refuse-groups s error = refl

-- The reply to a request, with a server that is valid after it.
pub record IsServed (s : StateServer) (call : Result Reply) : Type 0 where
  pub reply : Reply
  pub returns : call ≡ ok reply
  pub valid : IsValid reply.0
  pub groups : reply.0.function_group_states ≡ s.function_group_states

-- Whatever the bytes of the payload, and whether the mutex is free or not, a request to set a state
-- of a valid server returns and reads nothing out of range, and leaves each function group in a
-- state defined for it.
pub handle_set_state-IsServed :
    (is_free : Bool) (s : StateServer) (payload : List ℕ)
    → IsValid s
    → IsServed s (handle_set_state is_free s payload)
unfolding handle_set_state
handle_set_state-IsServed is_free s payload v =
    let (pair, e) = read_pair-returns payload in
    elim (Option-cases pair) [
      | inl nothing ↦ record {
        reply = refuse s invalid_arguments;
        returns = rw (handle_set_state, e, nothing) refl;
        valid = refuse-IsValid s invalid_arguments v;
        groups = refuse-groups s invalid_arguments;
      }
      | inr (names, here) ↦ record {
        reply = set_state is_free s names.0 names.1;
        returns = rw (handle_set_state, e, here) refl;
        valid = set_state-IsValid is_free s names.0 names.1 v;
        groups = set_state-groups is_free s names.0 names.1;
      }
    ]

pub all_defined-lookup :
    (pairs states : List (List ℕ × List ℕ)) (group state : List ℕ)
    → all_defined pairs states ≡ true
    → lookup group states ≡ some state
    → has_pair pairs group state ≡ true
unfolding all_defined lookup
all_defined-lookup pairs [] group state h e = cc
all_defined-lookup pairs ((g, s) ∷ states) group state h e =
    elim (Bool-cases (has_pair pairs g s)) [
      | inr missing ↦ absurd (true-ne-false (sym (rw (missing) at h)))
      | inl pair ↦
          let rest : all_defined pairs states ≡ true = rw (pair) at h in
          elim (Bool-cases (same_string g group)) [
            | inr other ↦ all_defined-lookup pairs states group state rest (rw (other) at e)
            | inl same ↦
                let found : some s ≡ some state = rw (same) at e in
                rw (sym (same_string-eq g group same), sym (some-inj found)) pair
          ]
    ]

throws-ne-ok : {A : Type 0} {f : Fault} {a : A} → throws f ≡ ok a → ⊥
throws-ne-ok e = cc

-- A server that the constructor makes is valid.
pub new_state_server-IsValid :
    (pairs states : List (List ℕ × List ℕ)) (s : StateServer)
    → new_state_server pairs states ≡ ok s
    → IsValid s
unfolding new_state_server
new_state_server-IsValid pairs states s e = elim (Bool-cases (all_defined pairs states)) [
  | inr missing ↦ absurd (throws-ne-ok (rw (missing) at e))
  | inl defined ↦ elim (Bool-cases (all_initial pairs states)) [
    | inr missing ↦ absurd (throws-ne-ok (rw (defined, missing) at e))
    | inl initial ↦ transport (ap IsValid (ok-inj (rw (defined, initial) at e))) (record {
      defined = λ group state f. all_defined-lookup pairs states group state defined f;
    })
  ]
]
