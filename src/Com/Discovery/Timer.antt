-- ===== src/Com/Discovery/Timer.antt =====
-- src/ara/com/helper/ttl_timer.cpp, whose waits are steps of the client's thread.
use adaptive_autosar.Prelude.{ℕ, Bool, true, false, ◌||◌, ◌==◌, ltb}

pub record TtlTimer : Type 0 where
  pub requested : Bool
  pub disposing : Bool
  pub signal_flag : Bool
  pub ttl : ℕ

-- The constructor gives the flag of signals no value, so that it has any.
unfoldable pub new_ttl_timer : Bool → TtlTimer
new_ttl_timer signal_flag = record {
  requested = false;
  disposing = false;
  signal_flag = signal_flag;
  ttl = 0;
}

unfoldable pub set_requested : TtlTimer → Bool → TtlTimer
set_requested t requested = record t { requested = requested; signal_flag = true }

unfoldable pub set_offered : TtlTimer → ℕ → TtlTimer
set_offered t ttl = record t { ttl = ttl; signal_flag = true }

unfoldable pub get_offered : TtlTimer → Bool
get_offered t = ltb 0 t.ttl

unfoldable pub dispose : TtlTimer → TtlTimer
dispose t = record t { disposing = true }

-- `WaitForExpiration` before its wait, where it may return true at once, and after it.
unfoldable pub is_expired : TtlTimer → Bool
is_expired t = t.ttl == 0 || t.disposing

unfoldable pub after_wait : TtlTimer → TtlTimer
after_wait t = record t { signal_flag = false }
