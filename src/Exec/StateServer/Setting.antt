-- ===== src/Exec/StateServer/Setting.antt =====
-- src/ara/exec/state_server.cpp, on what function_group_state.cpp serialises.
use mathlib.Core.List.{append_assoc}
use adaptive_autosar.Prelude.{
  ℕ, zero, suc, ◌+◌, ◌<◌, ◌^◌, ◌≡◌, refl, sym, ap, ◌∙◌, false, some, List, [], ◌∷◌, ◌++◌, arith,
  length, take, drop, ltb, ltb_ge, ok, length-append, take-append, drop-append, take-length,
}
use adaptive_autosar.Com.Payload.{inject_integer, extract_integer}
use adaptive_autosar.Com.Payload.Laws.{extract_integer-Reads}
use adaptive_autosar.Exec.Common.{serialize_text, text_between}
use adaptive_autosar.Exec.StateServer.Validity.{text_between-ok}
use adaptive_autosar.Exec.StateServer.{StateServer, read_pair, read_state, serialize}

pub length-inject_integer : (n : ℕ) → length (inject_integer n) ≡ 4
unfolding inject_integer
length-inject_integer n = refl

drop_four : (n : ℕ) (rest : List ℕ) → drop 4 (inject_integer n ++ rest) ≡ rest
unfolding inject_integer
drop_four n rest = refl

drop_nil : (b : ℕ) → drop {A = ℕ} b [] ≡ []
drop_nil zero = refl
drop_nil (suc b) = refl

pub drop_text : (text rest : List ℕ) → drop 4 (serialize_text text ++ rest) ≡ text ++ rest
unfolding serialize_text
drop_text text rest =
    ap (drop 4) (append_assoc (inject_integer (length text)) text rest)
    ∙ drop_four (length text) (text ++ rest)

pub drop-plus : (a b : ℕ) (xs : List ℕ) → drop (a + b) xs ≡ drop b (drop a xs)
drop-plus zero b xs = let e : 0 + b ≡ b = omega arith in ap (λ n. drop n xs) e
drop-plus (suc a) b [] = drop_nil (suc a + b) ∙ sym (drop_nil b)
drop-plus (suc a) b (x ∷ xs) =
    let e : suc a + b ≡ suc (a + b) = omega arith in ap (λ n. drop n (x ∷ xs)) e ∙ drop-plus a b xs

-- The payload, with the state's part set apart.
payload_tail :
    (group state : List ℕ) → drop (4 + length group) (serialize group state) ≡ serialize_text state
unfolding serialize serialize_text
payload_tail group state =
    drop-plus 4 (length group) (serialize group state)
    ∙ ap (λ v. drop (length group) v) (drop_text group (serialize_text state))
    ∙ drop-append group (serialize_text state)

-- The strings of a serialised pair are read back.
read_group :
    (group state : List ℕ)
    → length group < 2 ^ 32
    → extract_integer (serialize group state) 0 ≡ ok (length group, 4)
unfolding serialize serialize_text
read_group group state small =
    extract_integer-Reads (serialize group state) 0 (length group) (group ++ serialize_text state)
      small (append_assoc (inject_integer (length group)) group (serialize_text state))

read_state_length :
    (group state : List ℕ)
    → length state < 2 ^ 32
    → extract_integer (serialize group state) (4 + length group)
      ≡ ok (length state, suc (suc (suc (suc (4 + length group)))))
unfolding serialize_text
read_state_length group state small =
    extract_integer-Reads (serialize group state) (4 + length group) (length state) state small
      (payload_tail group state)

length-serialize :
    (group state : List ℕ) → length (serialize group state) ≡ 8 + length group + length state
unfolding serialize serialize_text
length-serialize group state = omega (
  arith,
  length-append (serialize_text group) (serialize_text state),
  length-append (inject_integer (length group)) group,
  length-append (inject_integer (length state)) state,
  length-inject_integer (length group),
  length-inject_integer (length state),
)

group_between :
    (group state : List ℕ) → text_between (serialize group state) 4 (4 + length group) ≡ ok group
unfolding serialize serialize_text
group_between group state =
    text_between-ok (serialize group state) 4 (4 + length group) (omega arith)
      (omega (arith, length-serialize group state))
    ∙ ap ok (
        ap (λ n. take n (drop 4 (serialize group state))) (omega arith)
        ∙ ap (take (length group)) (drop_text group (serialize_text state))
        ∙ take-append group (serialize_text state))

state_between :
    (group state : List ℕ)
    → text_between
        (serialize group state)
        (4 + length group + 4)
        (4 + length group + 4 + length state)
      ≡ ok state
unfolding serialize_text
state_between group state =
    let start = 4 + length group in
    let behind : drop (start + 4) (serialize group state) ≡ state =
      drop-plus start 4 (serialize group state)
      ∙ ap (drop 4) (payload_tail group state)
      ∙ drop_four (length state) state in
    text_between-ok (serialize group state) (start + 4) (start + 4 + length state) (omega arith)
      (omega (arith, length-serialize group state))
    ∙ ap ok (
        ap (λ n. take n (drop (start + 4) (serialize group state))) (omega arith)
        ∙ ap (take (length state)) behind
        ∙ take-length state)

read_state-serialize :
    (group state : List ℕ)
    → length state < 2 ^ 32
    → read_state (serialize group state) 4 (4 + length group) ≡ ok (some (group, state))
unfolding read_state
read_state-serialize group state small =
    let size = length-serialize group state in
    let start : ℕ = suc (suc (suc (suc (4 + length group)))) in
    let place : 4 + length group + 4 ≡ start = omega arith in
    let long : ltb (length (serialize group state)) (4 + length group + 4) ≡ false =
      ltb_ge _ _ (omega (arith, size)) in
    let whole : ltb (length (serialize group state)) (start + length state) ≡ false =
      ltb_ge _ _ (omega (arith, size)) in
    let text : text_between (serialize group state) start (start + length state) ≡ ok state =
      ap (λ n. text_between (serialize group state) n (n + length state)) (sym place)
      ∙ state_between group state in
    rw
      (
        read_state,
        long,
        group_between group state,
        read_state_length group state small,
        whole,
        text,
      )
      refl

-- A function group's name and a state's are read back from what the client serialises.
pub read_pair-serialize :
    (group state : List ℕ)
    → length group < 2 ^ 32
    → length state < 2 ^ 32
    → read_pair (serialize group state) ≡ ok (some (group, state))
unfolding read_pair
read_pair-serialize group state small_group small_state =
    let size = length-serialize group state in
    let long : ltb (length (serialize group state)) 8 ≡ false = ltb_ge _ _ (omega (arith, size)) in
    rw (read_pair, long, read_group group state small_group)
      (read_state-serialize group state small_state)
