-- ===== src/Health/Tests.antt =====
-- Runs of the tracker, and its theorems at concrete inputs.
use lotsman.Prelude.{ℕ, ◌+◌, ◌≡◌, refl, ◌↔◌, Bool, true, false, List, [], ◌∷◌, pos, ◌≤ℤ◌, arith}
use lotsman.Health.{Tracker, up, down, observe, observe_all}
use lotsman.Health.Hysteresis.{
  IsValid, counters_count_runs, trailing, observe-IsValid, stays, longest, stays_up_iff,
  stays_down_iff,
}

-- Up after a first success, with down_after 3 and up_after 2.
abbrev serving : Tracker
serving = record {
  down_after = pos 3;
  up_after = pos 2;
  state = up;
  fails = 0;
  oks = 1;
  latency = 7;
}

abbrev two_lost : List (Bool × ℕ)
two_lost = (false, 0) ∷ (false, 0) ∷ (true, 9) ∷ []

two_lost_run : (observe_all serving two_lost).state ≡ up
unfolding observe_all observe
two_lost_run = refl

three_lost_run : (observe_all serving ((false, 0) ∷ two_lost)).state ≡ down
unfolding observe_all observe
three_lost_run = refl

serving-IsValid : IsValid serving
serving-IsValid = ground arith

counters_count_runs_example :
    ((observe_all serving two_lost).oks ≡ trailing true two_lost serving.oks)
    × ((observe_all serving two_lost).fails ≡ trailing false two_lost serving.fails)
counters_count_runs_example = counters_count_runs serving two_lost

observe-IsValid_example : IsValid (observe serving false 0).0
observe-IsValid_example = observe-IsValid serving false 0 serving-IsValid

stays_up_iff_example :
    (stays up serving two_lost ≡ true)
    ↔ (pos (longest false two_lost serving.fails + 1) ≤ℤ serving.down_after)
stays_up_iff_example = stays_up_iff serving two_lost serving-IsValid refl

-- Down after three failures: one success is not enough, two in a row are.
abbrev lost : Tracker
lost = record serving { state = down; fails = 3; oks = 0 }

lost-IsValid : IsValid lost
lost-IsValid = ground arith

abbrev flapping : List (Bool × ℕ)
flapping = (true, 9) ∷ (false, 0) ∷ (true, 8) ∷ []

recovered_run : (observe_all lost ((true, 9) ∷ (true, 8) ∷ [])).state ≡ up
unfolding observe_all observe
recovered_run = refl

stays_down_iff_example :
    (stays down lost flapping ≡ true) ↔ (pos (longest true flapping lost.oks + 1) ≤ℤ lost.up_after)
stays_down_iff_example = stays_down_iff lost flapping lost-IsValid refl
