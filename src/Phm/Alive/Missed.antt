-- ===== src/Phm/Alive/Missed.antt =====
-- src/ara/phm/supervisors/alive_supervision.cpp: cycles whose indications are out of the range.
use adaptive_autosar.Prelude.{ℕ, ◌+◌, ◌<◌, ◌≤◌, ◌≡◌, true, false, List, [], ◌∷◌, leb, ◌&&◌}
use adaptive_autosar.Phm.Elementary.{failed, expired, report}
use adaptive_autosar.Phm.Alive.{AliveSupervision}

-- Each cycle's indications, which the counter can hold, are out of the range.
unfoldable pub AllMissed : ℕ → ℕ → List ℕ → Type 0
AllMissed low high [] = Unit
AllMissed low high (n ∷ cycles) =
    ((n ≤ 0xffff) × ((leb low n && leb n high) ≡ false)) × AllMissed low high cycles

-- A supervision whose cycles are all missed, once `run` has taken them: it has failed while the
-- missed cycles are within the tolerance, and has expired and stopped when they reach it.
pub record IsMissed (a final : AliveSupervision) (missed : ℕ) : Type 0 where
  pub within :
      missed + a.alive_counter < a.tolerance → (final.base.status ≡ failed) × (final.running ≡ true)
  pub beyond :
      a.tolerance ≤ missed + a.alive_counter
      → (final.base.status ≡ expired) × (final.running ≡ false)

-- The supervision after a missed cycle within the tolerance.
unfoldable missed_once : AliveSupervision → AliveSupervision
missed_once a = record a {
  alive_counter = a.alive_counter + 1;
  indications = 0;
  base = (report a.base failed).0;
}
