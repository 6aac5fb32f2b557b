-- ===== src/Diag/Transfer/Bounds.antt =====
-- src/ara/diag/routing: the segment of a transfer in the memory pool.
use adaptive_autosar.Prelude.{
  ℕ, ◌+◌, ◌^◌, ◌<◌, ◌≤◌, ◌≡◌, ◌≢◌, refl, true, false, List, [], ◌∷◌, arith, length, length-append,
  length-take, length-drop, Result, ok, throws, Bool-cases, ◌⊎◌, inl, inr, ltb, ltb→ge, ltb_ge, ◌∙◌,
}
use adaptive_autosar.Diag.Transfer.{
  TransferDirection, TransferData, nowhere, download, upload, memory_pool_size, write_segment, fits,
  try_set_configuration, try_reset_configuration, is_expected, is_outside, try_transfer,
  handle_message, handle_exit, advance,
}

-- The pool keeps its size, and a transfer that is on has a segment inside it.
pub record IsValid (t : TransferData) : Type 0 where
  pub pool_length : length t.memory_pool ≡ memory_pool_size
  pub segment_inside :
      t.direction ≢ nowhere
      → (0 < t.memory_size) × (t.memory_address + t.memory_size ≤ memory_pool_size)

pub length-write_segment :
    (t : TransferData) (block : List ℕ)
    → t.memory_address + t.memory_size ≤ length t.memory_pool
    → t.memory_size ≤ length block
    → length (write_segment t block) ≡ length t.memory_pool
unfolding write_segment
length-write_segment t block inside enough =
    let front = length-take t.memory_address t.memory_pool (omega arith) in
    let middle = length-take t.memory_size block enough in
    let back = length-drop (t.memory_address + t.memory_size) t.memory_pool in
    rw (length-append, length-append, front, middle, back) (omega arith)

fits-inside :
    (address size : ℕ)
    → size < 2 ^ 16
    → fits address size ≡ true
    → (0 < size) × (address + size ≤ memory_pool_size)
unfolding fits
fits-inside address size small h = ground arith

pub TransferDirection-cases :
    (d : TransferDirection) → (d ≡ nowhere) ⊎ ((d ≡ download) ⊎ (d ≡ upload))
TransferDirection-cases nowhere = inl refl
TransferDirection-cases download = inr (inl refl)
TransferDirection-cases upload = inr (inr refl)

set-IsValid :
    (t : TransferData) (direction : TransferDirection) (address size : ℕ)
    → size < 2 ^ 16
    → IsValid t
    → fits address size ≡ true
    → IsValid (record t { direction = direction; memory_address = address; memory_size = size })
set-IsValid t direction address size small v f = record {
  pool_length = v.pool_length;
  segment_inside = λ on. fits-inside address size small f;
}

pub try_set_configuration-IsValid :
    (t : TransferData) (direction : TransferDirection) (address size : ℕ)
    → size < 2 ^ 16
    → IsValid t
    → IsValid (try_set_configuration t direction address size).0
unfolding try_set_configuration
try_set_configuration-IsValid t nowhere address size small v = v
try_set_configuration-IsValid t download address size small v =
    elim (Bool-cases (fits address size)) [
      | inr outside ↦ rw (outside, try_set_configuration) v
      | inl inside ↦ elim (TransferDirection-cases t.direction) [
        | inl off ↦
            rw (inside, try_set_configuration, off)
              (set-IsValid t download address size small v inside)
        | inr (inl on) ↦ rw (inside, try_set_configuration, on) v
        | inr (inr on) ↦ rw (inside, try_set_configuration, on) v
      ]
    ]
try_set_configuration-IsValid t upload address size small v =
    elim (Bool-cases (fits address size)) [
      | inr outside ↦ rw (outside, try_set_configuration) v
      | inl inside ↦ elim (TransferDirection-cases t.direction) [
        | inl off ↦
            rw (inside, try_set_configuration, off)
              (set-IsValid t upload address size small v inside)
        | inr (inl on) ↦ rw (inside, try_set_configuration, on) v
        | inr (inr on) ↦ rw (inside, try_set_configuration, on) v
      ]
    ]

try_reset_configuration-IsValid :
    (t : TransferData) → IsValid t → IsValid (try_reset_configuration t).0
unfolding try_reset_configuration
try_reset_configuration-IsValid t v = elim (TransferDirection-cases t.direction) [
  | inl off ↦ rw (off, try_reset_configuration) v
  | inr (inl on) ↦
      rw (on, try_reset_configuration)
        (record { pool_length = v.pool_length; segment_inside = λ ne. absurd (ne refl) })
  | inr (inr on) ↦
      rw (on, try_reset_configuration)
        (record { pool_length = v.pool_length; segment_inside = λ ne. absurd (ne refl) })
]

pub IsValid-inside : (t : TransferData) → IsValid t → t.direction ≢ nowhere → is_outside t ≡ false
unfolding is_outside
IsValid-inside t v on = ltb_ge _ _ (omega (arith, v.segment_inside on, v.pool_length))

-- A handler's result is valid, unless it is undefined behaviour.
unfoldable pub Keeps : Result (TransferData × List ℕ) → Type 0
Keeps (throws fault) = Unit
Keeps (ok (t, response)) = IsValid t

advance-IsValid : (t : TransferData) (counter : ℕ) → IsValid t → IsValid (advance t counter)
unfolding advance
advance-IsValid t counter v = record {
  pool_length = v.pool_length;
  segment_inside = v.segment_inside;
}

write-IsValid :
    (t : TransferData) (block : List ℕ)
    → t.direction ≡ download
    → ltb (length block) t.memory_size ≡ false
    → IsValid t
    → IsValid (record t { memory_pool = write_segment t block })
write-IsValid t block on enough v =
    let inside = v.segment_inside (λ e. cc) in
    record {
      pool_length =
          length-write_segment t block (omega (arith, inside, v.pool_length)) (ltb→ge _ _ enough)
          ∙ v.pool_length;
      segment_inside = v.segment_inside;
    }

try_transfer-IsValid :
    (t : TransferData) (counter : ℕ) (block : List ℕ)
    → IsValid t
    → Keeps (try_transfer t counter block)
unfolding try_transfer Keeps
try_transfer-IsValid t counter block v = elim (Bool-cases (is_expected t counter)) [
  | inr wrong ↦ elim (TransferDirection-cases t.direction) [
    | inl off ↦ rw (off, try_transfer) v
    | inr (inl on) ↦ rw (on, try_transfer, wrong) v
    | inr (inr on) ↦ rw (on, try_transfer, wrong) v
  ]
  | inl expected ↦ elim (TransferDirection-cases t.direction) [
    | inl off ↦ rw (off, try_transfer) v
    | inr (inr on) ↦
        rw (on, try_transfer, expected, IsValid-inside t v (λ e. cc)) (advance-IsValid t counter v)
    | inr (inl on) ↦ elim (Bool-cases (ltb (length block) t.memory_size)) [
      | inl short ↦ rw (on, try_transfer, expected, short) tt
      | inr enough ↦
          rw (on, try_transfer, expected, enough, IsValid-inside t v (λ e. cc))
            (advance-IsValid (record t { memory_pool = write_segment t block }) counter
              (write-IsValid t block on enough v))
    ]
  ]
]

pub handle_message-IsValid :
    (t : TransferData) (request : List ℕ) → IsValid t → Keeps (handle_message t request)
unfolding handle_message Keeps
handle_message-IsValid t [] v = v
handle_message-IsValid t (service ∷ []) v = v
handle_message-IsValid t (service ∷ counter ∷ block) v = try_transfer-IsValid t counter block v

pub handle_exit-IsValid :
    (t : TransferData) (request : List ℕ) → IsValid t → Keeps (handle_exit t request)
unfolding handle_exit Keeps
handle_exit-IsValid t request v = elim (Bool-cases (try_reset_configuration t).1) [
  | inl reset ↦ rw (reset, handle_exit) (try_reset_configuration-IsValid t v)
  | inr idle ↦ rw (idle, handle_exit) (try_reset_configuration-IsValid t v)
]
