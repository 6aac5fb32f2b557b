-- ===== src/Phm/Alive.antt =====
-- src/ara/phm/supervisors/alive_supervision.cpp. A step of the supervising thread is one turn of
-- its loop, at the end of a reference cycle; between two turns the indications are reported. The
-- fields are those that are set; there is no operation that starts a supervision again.
pub mod Expiry
pub mod Missed
pub mod Margins
use adaptive_autosar.Prelude.{
  ℕ, zero, suc, ◌+◌, ◌-◌, ◌%◌, ◌^◌, Bool, true, false, ◌&&◌, List, [], ◌∷◌, if◌then◌else◌, ltb, leb,
  Result, ok, throws, invalid_argument,
}
use adaptive_autosar.Prelude.Int.{ℤ, pos, ltb_ℤ}
use adaptive_autosar.Phm.Elementary.{
  ElementarySupervision, TypeOfSupervision, SupervisionStatus, alive_supervision, new_elementary,
  well, failed, expired, report,
}

pub record AliveSupervision : Type 0 where
  pub base : ElementarySupervision
  pub expected_min : ℕ
  pub expected_max : ℕ
  pub tolerance : ℕ
  pub alive_counter : ℕ
  pub running : Bool
  pub indications : ℕ

unfoldable pub new_alive_supervision : ℕ → ℕ → ℕ → ℤ → ℕ → Result AliveSupervision
new_alive_supervision expected min_margin max_margin reference_cycle tolerance =
    if ltb 0 min_margin && ltb min_margin expected
    then (if ltb 0 max_margin
        then (if ltb 0 tolerance
            then (if ltb_ℤ (pos 0) reference_cycle
                then ok (record {
                  base = new_elementary alive_supervision;
                  expected_min = expected - min_margin;
                  expected_max = (expected + max_margin) % 2 ^ 16;
                  tolerance = tolerance;
                  alive_counter = 0;
                  running = true;
                  indications = 0;
                })
                else throws invalid_argument)
            else throws invalid_argument)
        else throws invalid_argument)
    else throws invalid_argument

unfoldable pub report_aliveness : AliveSupervision → AliveSupervision
report_aliveness a =
    if ltb a.indications 0xffff then record a { indications = a.indications + 1 } else a

-- The test of the loop on the indications of the cycle.
unfoldable pub in_range : AliveSupervision → Bool
in_range a = leb a.expected_min a.indications && leb a.indications a.expected_max

-- The loop's first branch.
unfoldable pub passed_cycle : AliveSupervision → AliveSupervision
passed_cycle a = record a {
  indications = 0;
  alive_counter = if ltb 0 a.alive_counter then a.alive_counter - 1 else a.alive_counter;
  base = (report a.base well).0;
}

-- The loop's second branch.
unfoldable pub failed_cycle : AliveSupervision → AliveSupervision
failed_cycle a =
    let counter = (a.alive_counter + 1) % 2 ^ 8 in
    if ltb counter a.tolerance
    then record a { indications = 0; alive_counter = counter; base = (report a.base failed).0 }
    else record a {
      indications = 0;
      alive_counter = counter;
      running = false;
      base = (report a.base expired).0;
    }

-- One turn of `supervise`.
unfoldable pub supervise : AliveSupervision → AliveSupervision
supervise a = if a.running then (if in_range a then passed_cycle a else failed_cycle a) else a

-- A cycle in which aliveness is reported a number of times.
unfoldable pub indicate : AliveSupervision → ℕ → AliveSupervision
indicate a zero = a
indicate a (suc n) = report_aliveness (indicate a n)

unfoldable pub run : AliveSupervision → List ℕ → AliveSupervision
run a [] = a
run a (n ∷ cycles) = run (supervise (indicate a n)) cycles
