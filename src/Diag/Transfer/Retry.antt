-- ===== src/Diag/Transfer/Retry.antt =====
-- src/ara/diag/routing: blocks and requests that are sent again, or that fail.
use mathlib.Core.List.{append_assoc}
use adaptive_autosar.Prelude.{
  ℕ, ◌+◌, ◌≤◌, ◌≡◌, refl, ap, sym, ◌∙◌, true, false, List, [], ◌∷◌, ◌++◌, arith, length, take, drop,
  length-append, length-take, take-append, drop-append, ok, ok-inj, transport, Bool-cases, inl, inr,
  ltb, ltb→ge, ltb_ge, ==_self,
}
use adaptive_autosar.Diag.Routing.{negative_response}
use adaptive_autosar.Diag.Transfer.{
  transfer_data_sid, TransferData, download, upload, write_segment, segment, handle_message,
  try_transfer, is_expected, is_outside, advance, positive,
}
use adaptive_autosar.Diag.Transfer.Bounds.{
  IsValid, IsValid-inside, length-write_segment, TransferDirection-cases,
}

drop_past :
    (a b : ℕ) (xs ys zs : List ℕ)
    → length xs ≡ a
    → length ys ≡ b
    → drop (a + b) (xs ++ (ys ++ zs)) ≡ zs
drop_past a b xs ys zs ea eb =
    ap (λ n. drop n (xs ++ (ys ++ zs))) (omega (arith, length-append xs ys))
    ∙ ap (drop (length (xs ++ ys))) (sym (append_assoc xs ys zs))
    ∙ drop-append (xs ++ ys) zs

-- Writing the same block again leaves the pool as it is.
write_again :
    (address size : ℕ) (pool block : List ℕ)
    → address ≤ length pool
    → size ≤ length block
    → (let once = take address pool ++ (take size block ++ drop (address + size) pool) in
        take address once ++ (take size block ++ drop (address + size) once) ≡ once)
write_again address size pool block inside enough =
    let rest = drop (address + size) pool in
    let once = take address pool ++ (take size block ++ rest) in
    let front_length = length-take address pool inside in
    let front : take address once ≡ take address pool =
      ap (λ n. take n once) (sym front_length)
      ∙ take-append (take address pool) (take size block ++ rest) in
    let back : drop (address + size) once ≡ rest =
      drop_past address size (take address pool) (take size block) rest front_length
        (length-take size block enough) in
    rw (front, back) refl

expected_again : (t : TransferData) (counter : ℕ) → is_expected (advance t counter) counter ≡ true
unfolding is_expected advance
expected_again t counter = rw (==_self counter) refl

again_of :
    (counter : ℕ) (block : List ℕ) (result next : TransferData × List ℕ)
    → try_transfer result.0 counter block ≡ ok result
    → ok result ≡ ok next
    → try_transfer next.0 counter block ≡ ok next
again_of counter block result next h e =
    transport (ap (λ p. try_transfer p.0 counter block ≡ ok p) (ok-inj e)) h

-- A transfer step leads to a result that the same step leads to again.
repeats :
    (t : TransferData) (counter : ℕ) (block : List ℕ) (result next : TransferData × List ℕ)
    → try_transfer t counter block ≡ ok result
    → try_transfer result.0 counter block ≡ ok result
    → try_transfer t counter block ≡ ok next
    → try_transfer next.0 counter block ≡ ok next
repeats t counter block result next first again e =
    again_of counter block result next again (sym first ∙ e)

download_again :
    (t : TransferData) (counter : ℕ) (block : List ℕ)
    → t.direction ≡ download
    → t.memory_address + t.memory_size ≤ length t.memory_pool
    → ltb (length block) t.memory_size ≡ false
    → try_transfer
        (advance (record t { memory_pool = write_segment t block }) counter)
        counter
        block
      ≡ ok (advance (record t { memory_pool = write_segment t block }) counter, positive counter [])
unfolding try_transfer write_segment advance is_expected
download_again t counter block on inside enough =
    let long = ltb→ge _ _ enough in
    let written = write_segment t block in
    let still_inside : ltb (length written) (t.memory_address + t.memory_size) ≡ false =
      ltb_ge _ _ (omega (arith, length-write_segment t block inside long, inside)) in
    rw
      (
        on,
        ==_self counter,
        enough,
        still_inside,
        write_again t.memory_address t.memory_size t.memory_pool block (omega (arith, inside)) long,
      )
      refl

upload_again :
    (t : TransferData) (counter : ℕ) (block : List ℕ)
    → t.direction ≡ upload
    → is_outside t ≡ false
    → try_transfer (advance t counter) counter block
      ≡ ok (advance t counter, positive counter (segment t))
unfolding try_transfer advance is_expected segment
upload_again t counter block on inside = rw (on, ==_self counter, inside) refl

same_again :
    (t : TransferData) (counter : ℕ) (block response : List ℕ) (next : TransferData × List ℕ)
    → try_transfer t counter block ≡ ok (t, response)
    → try_transfer t counter block ≡ ok next
    → try_transfer next.0 counter block ≡ ok next
same_again t counter block response next first e =
    repeats t counter block (t, response) next first first e

unfoldable downloaded : TransferData → ℕ → List ℕ → TransferData × List ℕ
downloaded t counter block =
    (advance (record t { memory_pool = write_segment t block }) counter, positive counter [])

try_transfer-again :
    (t : TransferData) (counter : ℕ) (block : List ℕ) (next : TransferData × List ℕ)
    → IsValid t
    → try_transfer t counter block ≡ ok next
    → try_transfer next.0 counter block ≡ ok next
unfolding try_transfer downloaded
try_transfer-again t counter block next v e = elim (TransferDirection-cases t.direction) [
  | inl off ↦
      same_again t counter block (negative_response transfer_data_sid 0x24) next
        (simp (try_transfer, off)) e
  | inr on ↦ elim (Bool-cases (is_expected t counter)) [
    | inr wrong ↦ elim on [
      | inl down ↦
          same_again t counter block (negative_response transfer_data_sid 0x73) next
            (simp (try_transfer, down, wrong)) e
      | inr up ↦
          same_again t counter block (negative_response transfer_data_sid 0x73) next
            (simp (try_transfer, up, wrong)) e
    ]
    | inl expected ↦ elim on [
      | inr up ↦
          repeats t counter block (advance t counter, positive counter (segment t)) next
            (simp (try_transfer, up, expected, IsValid-inside t v (λ o. cc)))
            (upload_again t counter block up (IsValid-inside t v (λ o. cc))) e
      | inl down ↦ elim (Bool-cases (ltb (length block) t.memory_size)) [
        | inl short ↦ cc
        | inr enough ↦
            repeats t counter block (downloaded t counter block) next
              (simp (try_transfer, down, expected, enough, IsValid-inside t v (λ o. cc)))
              (download_again t counter block down
                (omega (arith, v.segment_inside (λ o. cc), v.pool_length)) enough)
              e
      ]
    ]
  ]
]

again_short :
    (t : TransferData) (next : TransferData × List ℕ)
    → ok (t, negative_response transfer_data_sid 0x13) ≡ ok next
    → ok (next.0, negative_response transfer_data_sid 0x13) ≡ ok next
again_short t next e =
    ap ok (ap (λ p. (p.0, negative_response transfer_data_sid 0x13)) (sym (ok-inj e))) ∙ e

-- For a transfer with its segment inside the pool, a transfer data request that ends in a result is
-- safe to send again: handled once more, it leaves the same state and gives the same response.
pub handle_message-again :
    (t : TransferData) (request : List ℕ) (next : TransferData) (response : List ℕ)
    → IsValid t
    → handle_message t request ≡ ok (next, response)
    → handle_message next request ≡ ok (next, response)
unfolding handle_message
handle_message-again t [] next response v e = again_short t (next, response) e
handle_message-again t (service ∷ []) next response v e = again_short t (next, response) e
handle_message-again t (service ∷ counter ∷ block) next response v e =
    try_transfer-again t counter block (next, response) v e
