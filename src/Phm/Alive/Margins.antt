-- ===== src/Phm/Alive/Margins.antt =====
-- src/ara/phm/supervisors/alive_supervision.cpp: the range of the indications against the margins.
use adaptive_autosar.Prelude.{
  ℕ, ◌+◌, ◌-◌, ◌%◌, ◌^◌, ◌<◌, ◌≤◌, ◌≡◌, refl, true, false, ◌&&◌, arith, ltb, ok, throws,
  invalid_argument, true-ne-false, Bool-cases, inl, inr, lt→ltb, ◌⊎◌,
}
use adaptive_autosar.Prelude.Int.{ℤ, pos, ltb_ℤ}
use adaptive_autosar.Phm.Elementary.{deactivated, expired, new_elementary, alive_supervision}
use adaptive_autosar.Phm.Alive.{AliveSupervision, new_alive_supervision, in_range}
use adaptive_autosar.Phm.Alive.Expiry.{IsConsistent}

ne_deactivated-expired : deactivated ≡ expired → ⊥
ne_deactivated-expired e = cc

-- The supervision that the constructor makes from valid arguments.
unfoldable pub constructed : ℕ → ℕ → ℕ → ℕ → AliveSupervision
constructed expected min_margin max_margin tolerance = record {
  base = new_elementary alive_supervision;
  expected_min = expected - min_margin;
  expected_max = (expected + max_margin) % 2 ^ 16;
  tolerance = tolerance;
  alive_counter = 0;
  running = true;
  indications = 0;
}

abbrev pub AreValid : ℕ → ℕ → ℕ → ℤ → ℕ → Type 0
AreValid expected min_margin max_margin cycle tolerance =
    (0 < min_margin)
    × (min_margin < expected)
    × (0 < max_margin)
    × (0 < tolerance)
    × (ltb_ℤ (pos 0) cycle ≡ true)

AreValid-cases :
    (expected min_margin max_margin tolerance : ℕ) (cycle : ℤ)
    → AreValid expected min_margin max_margin cycle tolerance
      ⊎ ¬ AreValid expected min_margin max_margin cycle tolerance
AreValid-cases expected min_margin max_margin tolerance cycle =
    elim (Bool-cases (
      ltb 0 min_margin
      && ltb min_margin expected
      && ltb 0 max_margin
      && ltb 0 tolerance
      && ltb_ℤ (pos 0) cycle)) [
        | inl valid ↦ inl (ground arith)
        | inr invalid ↦ inr (λ h. ground arith)
      ]

accepts :
    (expected min_margin max_margin tolerance : ℕ) (cycle : ℤ)
    → AreValid expected min_margin max_margin cycle tolerance
    → new_alive_supervision expected min_margin max_margin cycle tolerance
      ≡ ok (constructed expected min_margin max_margin tolerance)
unfolding new_alive_supervision constructed
accepts expected min_margin max_margin tolerance cycle (a, b, c, d, e) =
    rw (lt→ltb _ _ a, lt→ltb _ _ b, lt→ltb _ _ c, lt→ltb _ _ d, e) refl

rejects :
    (expected min_margin max_margin tolerance : ℕ) (cycle : ℤ)
    → ¬ AreValid expected min_margin max_margin cycle tolerance
    → new_alive_supervision expected min_margin max_margin cycle tolerance ≡ throws invalid_argument
unfolding new_alive_supervision
rejects expected min_margin max_margin tolerance cycle h = ground arith

pub constructed-IsConsistent :
    (expected min_margin max_margin tolerance : ℕ)
    → 0 < tolerance
    → tolerance < 2 ^ 8
    → IsConsistent (constructed expected min_margin max_margin tolerance)
unfolding constructed new_elementary
constructed-IsConsistent expected min_margin max_margin tolerance positive byte = record {
  tolerates = λ r. positive;
  runs = λ r e. ne_deactivated-expired e;
  stops = λ s. absurd (true-ne-false s);
  byte = byte;
}

-- With a tolerance of one byte, the constructor makes a consistent supervision when the minimum
-- margin lies between zero and the expected indications and the maximum margin, the tolerance and
-- the cycle are positive, and throws an invalid argument otherwise.
pub new_alive_supervision-valid :
    (expected min_margin max_margin tolerance : ℕ) (cycle : ℤ)
    → tolerance < 2 ^ 8
    → (AreValid expected min_margin max_margin cycle tolerance
        × (new_alive_supervision expected min_margin max_margin cycle tolerance
            ≡ ok (constructed expected min_margin max_margin tolerance))
        × IsConsistent (constructed expected min_margin max_margin tolerance))
      ⊎ ((¬ AreValid expected min_margin max_margin cycle tolerance)
          × (new_alive_supervision expected min_margin max_margin cycle tolerance
              ≡ throws invalid_argument))
new_alive_supervision-valid expected min_margin max_margin tolerance cycle byte =
    elim (AreValid-cases expected min_margin max_margin tolerance cycle) [
      | inl valid ↦ inl (
        valid,
        accepts expected min_margin max_margin tolerance cycle valid,
        constructed-IsConsistent expected min_margin max_margin tolerance valid.3 byte,
      )
      | inr invalid ↦ inr (invalid, rejects expected min_margin max_margin tolerance cycle invalid)
    ]

-- When the expected indications and the maximum margin do not fit 16 bits together, the largest
-- number of indications wraps around: with margins that fit 16 bits together, no number of
-- indications is then in the range.
in_range-wrapped :
    (expected min_margin max_margin tolerance n : ℕ)
    → expected < 2 ^ 16
    → max_margin < 2 ^ 16
    → min_margin < expected
    → min_margin + max_margin < 2 ^ 16
    → 2 ^ 16 ≤ expected + max_margin
    → in_range (record (constructed expected min_margin max_margin tolerance) { indications = n })
      ≡ false
unfolding in_range constructed
in_range-wrapped expected min_margin max_margin tolerance n he hm inside margins wraps =
    ground arith
