-- ===== src/Health.antt =====
-- internal/health/tracker.go: health from a stream of probe results. Durations are nanoseconds of a
-- handshake, which are never negative; the two counters grow by one a probe and do not wrap.
pub mod Hysteresis
pub mod Tests
use lotsman.Prelude.{
  List, [], ◌∷◌, ℕ, ◌+◌, Bool, true, false, not, ◌||◌, ℤ, pos, leb_ℤ, if◌then◌else◌,
}

pub data State : Type 0 where
  unknown up down : State

-- `==` on states.
unfoldable pub is_state : State → State → Bool
is_state unknown unknown = true
is_state up up = true
is_state down down = true
is_state _ _ = false

pub record Tracker : Type 0 where
  pub down_after : ℤ
  pub up_after : ℤ
  pub state : State
  pub fails : ℕ
  pub oks : ℕ
  pub latency : ℕ

unfoldable pub new_tracker : ℤ → ℤ → Tracker
new_tracker down_after up_after = record {
  down_after = down_after;
  up_after = up_after;
  state = unknown;
  fails = 0;
  oks = 0;
  latency = 0;
}

observe_ok : Tracker → ℕ → Tracker
unfolding is_state
observe_ok t latency = record t {
  fails = 0;
  oks = t.oks + 1;
  latency = latency;
  state = if is_state t.state unknown || leb_ℤ t.up_after (pos (t.oks + 1)) then up else t.state;
}

observe_fail : Tracker → Tracker
observe_fail t = record t {
  oks = 0;
  fails = t.fails + 1;
  state = if leb_ℤ t.down_after (pos (t.fails + 1)) then down else t.state;
}

-- The tracker after one probe, and whether its state changed.
unfoldable pub observe : Tracker → Bool → ℕ → Tracker × Bool
unfolding observe_ok observe_fail is_state
observe t ok latency =
    let t' = if ok then observe_ok t latency else observe_fail t in
    (t', not (is_state t'.state t.state))

unfoldable pub set_thresholds : Tracker → ℤ → ℤ → Tracker
set_thresholds t down_after up_after = record t { down_after = down_after; up_after = up_after }

-- A stream of probe results.
unfoldable pub observe_all : Tracker → List (Bool × ℕ) → Tracker
observe_all t [] = t
observe_all t ((ok, latency) ∷ rest) = observe_all (observe t ok latency).0 rest
