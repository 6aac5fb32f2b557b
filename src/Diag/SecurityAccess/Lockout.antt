-- ===== src/Diag/SecurityAccess/Lockout.antt =====
-- src/ara/diag/security_access.cpp: wrong keys, how many there may be before the delay, and what
-- the delay does.
use Prim.Native.Nat.{bit_and}
use adaptive_autosar.Prelude.{
  ℕ, suc, ◌+◌, ◌-◌, ◌%◌, ◌^◌, ◌<◌, ◌≤◌, ◌≡◌, refl, sym, ap, ◌∙◌, Bool, true, false, none, some,
  List, [], ◌∷◌, arith, if◌then◌else◌, ltb, leb, find, ltb_ge, lt→ltb, Bool-cases, ltb→lt, leb_gt,
  le→leb, ltb→ge, length, inl, inr,
}
use adaptive_autosar.Diag.SecurityAccess.{
  SecurityLevel, SecurityAccess, Meta, has_problem, is_reserved, handle_message,
  handle_failed_attempt, handle_send_key, compare_key, handle_valid, generate_negative_response,
}

pub handle_message-problem :
    (s : SecurityAccess) (meta : Meta) (canceled : Bool) (request : List ℕ) (nrc : ℕ)
    → has_problem s request ≡ some nrc
    → handle_message s meta canceled request
      ≡ (s, generate_negative_response (if canceled then 0x10 else nrc))
unfolding handle_message
handle_message-problem s meta canceled request nrc h = rw (h, handle_message) refl

has_problem-delay :
    (s : SecurityAccess) (request : List ℕ)
    → s.delay_active ≡ true
    → (nrc : ℕ) × (has_problem s request ≡ some nrc)
unfolding has_problem
has_problem-delay s [] active = (0x13, refl)
has_problem-delay s (service ∷ []) active = (0x13, refl)
has_problem-delay s (service ∷ sub_function ∷ parameters) active =
    elim (Bool-cases (is_reserved (bit_and sub_function 0x7f))) [
      | inl reserved ↦ (0x12, rw (reserved, has_problem) refl)
      | inr free ↦ (0x36, rw (free, active, has_problem) refl)
    ]

-- While the delay runs, every request gets a negative response and changes nothing.
handle_message-delay :
    (s : SecurityAccess) (meta : Meta) (canceled : Bool) (request : List ℕ)
    → s.delay_active ≡ true
    → (nrc : ℕ) × (handle_message s meta canceled request ≡ (s, generate_negative_response nrc))
handle_message-delay s meta canceled request active =
    let (nrc, problem) = has_problem-delay s request active in
    (if canceled then 0x10 else nrc, handle_message-problem s meta canceled request nrc problem)

-- A request that sends a wrong key to a level that is there.
pub record IsWrongKey (levels : List (ℕ × SecurityLevel)) (meta : Meta) (request : List ℕ)
    : Type 0 where
  pub service : ℕ
  pub sub_function : ℕ
  pub high : ℕ
  pub low : ℕ
  pub level : SecurityLevel
  pub shape : request ≡ service ∷ sub_function ∷ high ∷ low ∷ []
  pub even : sub_function % 2 ≡ 0
  pub free : is_reserved (bit_and sub_function 0x7f) ≡ false
  pub present : find ((sub_function + 2 ^ 8 - 1) % 2 ^ 8) levels ≡ some level
  pub wrong : compare_key meta level high low ≡ false

has_problem-free :
    (s : SecurityAccess) (service sub_function : ℕ) (parameters : List ℕ)
    → s.delay_active ≡ false
    → is_reserved (bit_and sub_function 0x7f) ≡ false
    → has_problem s (service ∷ sub_function ∷ parameters) ≡ none
unfolding has_problem
has_problem-free s service sub_function parameters idle free = rw (free, idle) refl

pub handle_message-valid :
    (s : SecurityAccess) (meta : Meta) (canceled : Bool) (service sub_function : ℕ)
    (parameters : List ℕ)
    → has_problem s (service ∷ sub_function ∷ parameters) ≡ none
    → handle_message s meta canceled (service ∷ sub_function ∷ parameters)
      ≡ handle_valid s meta sub_function parameters
unfolding handle_message
handle_message-valid s meta canceled service sub_function parameters h = rw (h, handle_message) refl

handle_send_key-wrong :
    (s : SecurityAccess) (meta : Meta) (sub_function high low : ℕ) (l : SecurityLevel)
    (suppress : Bool)
    → find ((sub_function + 2 ^ 8 - 1) % 2 ^ 8) s.levels ≡ some l
    → compare_key meta l high low ≡ false
    → (handle_send_key s meta sub_function (high ∷ low ∷ []) suppress).0
      ≡ handle_failed_attempt s meta
unfolding handle_send_key
handle_send_key-wrong s meta sub_function high low l suppress present wrong =
    rw (present, wrong, handle_send_key) refl

handle_message-wrong :
    (s : SecurityAccess) (meta : Meta) (request : List ℕ)
    → s.delay_active ≡ false
    → IsWrongKey s.levels meta request
    → (handle_message s meta false request).0 ≡ handle_failed_attempt s meta
unfolding handle_valid
handle_message-wrong s meta request idle w =
    let free = has_problem-free s w.service w.sub_function (w.high ∷ w.low ∷ []) idle w.free in
    rw
      (
        w.shape,
        handle_message-valid s meta false w.service w.sub_function (w.high ∷ w.low ∷ []) free,
        w.even,
      )
      (handle_send_key-wrong s meta w.sub_function w.high w.low w.level _ w.present w.wrong)

handle_failed_attempt-below :
    (s : SecurityAccess) (meta : Meta) (threshold delay : ℕ)
    → s.delay_active ≡ false
    → meta.attempt_threshold ≡ some threshold
    → meta.exceeded_attempt_delay ≡ some delay
    → s.failed_unlock_attempt < threshold
    → threshold < 2 ^ 8
    → handle_failed_attempt s meta
      ≡ record s { failed_unlock_attempt = s.failed_unlock_attempt + 1 }
unfolding handle_failed_attempt
handle_failed_attempt-below s meta threshold delay idle t d below small =
    let next : (s.failed_unlock_attempt + 1) % 2 ^ 8 ≡ s.failed_unlock_attempt + 1 = omega arith in
    rw (idle, t, d, next, ltb_ge threshold (s.failed_unlock_attempt + 1) (omega arith))
      (ap
        (λ active. record s {
          delay_active = active;
          failed_unlock_attempt = s.failed_unlock_attempt + 1;
        })
        idle)

handle_failed_attempt-last :
    (s : SecurityAccess) (meta : Meta) (threshold delay : ℕ)
    → s.delay_active ≡ false
    → meta.attempt_threshold ≡ some threshold
    → meta.exceeded_attempt_delay ≡ some delay
    → s.failed_unlock_attempt ≡ threshold
    → threshold < 2 ^ 8 - 1
    → handle_failed_attempt s meta ≡ record s { delay_active = true; failed_unlock_attempt = 0 }
unfolding handle_failed_attempt
handle_failed_attempt-last s meta threshold delay idle t d last small =
    let next : (s.failed_unlock_attempt + 1) % 2 ^ 8 ≡ threshold + 1 = omega arith in
    rw (idle, t, d, next, lt→ltb threshold (threshold + 1) (omega arith)) refl

-- The state after a list of requests.
unfoldable pub run : SecurityAccess → Meta → List (List ℕ) → SecurityAccess
run s meta [] = s
run s meta (request ∷ requests) = run (handle_message s meta false request).0 meta requests

pub data AllWrong (levels : List (ℕ × SecurityLevel)) (meta : Meta) : List (List ℕ) → Type 0 where
  nothing : AllWrong levels meta []
  another :
      {request : List ℕ} {requests : List (List ℕ)}
      → IsWrongKey levels meta request
      → AllWrong levels meta requests
      → AllWrong levels meta (request ∷ requests)

run-below :
    (s : SecurityAccess) (meta : Meta) (request : List ℕ) (requests : List (List ℕ))
    → handle_failed_attempt s meta
      ≡ record s { failed_unlock_attempt = s.failed_unlock_attempt + 1 }
    → s.delay_active ≡ false
    → IsWrongKey s.levels meta request
    → run s meta (request ∷ requests)
      ≡ run (record s { failed_unlock_attempt = s.failed_unlock_attempt + 1 }) meta requests
unfolding run
run-below s meta request requests step idle w =
    ap (λ s'. run s' meta requests) (handle_message-wrong s meta request idle w ∙ step)

run-last :
    (s : SecurityAccess) (meta : Meta) (request : List ℕ) (requests : List (List ℕ))
    → handle_failed_attempt s meta ≡ record s { delay_active = true; failed_unlock_attempt = 0 }
    → s.delay_active ≡ false
    → IsWrongKey s.levels meta request
    → length requests ≡ 0
    → (run s meta (request ∷ requests)).delay_active ≡ true
unfolding run
run-last s meta request [] step idle w none_left =
    ap SecurityAccess.delay_active (handle_message-wrong s meta request idle w ∙ step)
run-last s meta request (r ∷ requests) step idle w none_left = absurd (omega arith)

-- With a threshold below 255 and no delay running, wrong keys in a row, counted on from at most as
-- many failed attempts as the threshold, start the delay with the first one over the threshold and
-- not before, as long as no more are sent.
pub run-AllWrong :
    (s : SecurityAccess) (meta : Meta) (threshold delay : ℕ) (requests : List (List ℕ))
    → s.delay_active ≡ false
    → meta.attempt_threshold ≡ some threshold
    → meta.exceeded_attempt_delay ≡ some delay
    → threshold < 2 ^ 8 - 1
    → AllWrong s.levels meta requests
    → s.failed_unlock_attempt ≤ threshold
    → s.failed_unlock_attempt + length requests ≤ suc threshold
    → (run s meta requests).delay_active
      ≡ leb (suc threshold) (s.failed_unlock_attempt + length requests)
unfolding run
run-AllWrong s meta threshold delay [] idle t d small nothing room fits =
    idle ∙ sym (leb_gt (suc threshold) (s.failed_unlock_attempt + 0) (omega arith))
run-AllWrong s meta threshold delay (r ∷ requests) idle t d small (another w ws) room fits =
    elim (Bool-cases (ltb s.failed_unlock_attempt threshold)) [
      | inl below ↦
          let less = ltb→lt s.failed_unlock_attempt threshold below in
          let step =
            handle_failed_attempt-below s meta threshold delay idle t d less (omega arith) in
          let sum : s.failed_unlock_attempt + 1 + length requests
              ≡ s.failed_unlock_attempt + suc (length requests) =
            omega arith in
          let s' : SecurityAccess = record s {
            failed_unlock_attempt = s.failed_unlock_attempt + 1;
          } in
          ap SecurityAccess.delay_active (run-below s meta r requests step idle w)
          ∙ run-AllWrong s' meta threshold delay requests idle t d small ws (omega arith)
              (omega arith)
          ∙ ap (leb (suc threshold)) sum
      | inr last ↦
          let full : s.failed_unlock_attempt ≡ threshold =
            omega (arith, ltb→ge s.failed_unlock_attempt threshold last) in
          let step = handle_failed_attempt-last s meta threshold delay idle t d full small in
          run-last s meta r requests step idle w (omega arith)
          ∙ sym (
              le→leb (suc threshold) (s.failed_unlock_attempt + suc (length requests))
                (omega arith))
    ]
