-- ===== src/Health/Hysteresis.antt =====
-- The tracker leaves `up` only after enough failures in a row, and `down` only after enough
-- successes in a row.
use lotsman.Prelude.{
  ℕ, ◌+◌, ◌≤◌, ◌≡◌, refl, sym, ◌∙◌, ◌↔◌, ◌⊎◌, inl, inr, Bool, true, false, ◌&&◌, List, [], ◌∷◌,
  arith, max, ℤ, pos, ◌≤ℤ◌,
}
use mathlib.Core.Bool.{false≢true}
use lotsman.Health.{State, unknown, up, down, Tracker, new_tracker, observe, observe_all, is_state}

-- The number of equal results at the end of a stream, oldest first.
pub trailing : Bool → List (Bool × ℕ) → ℕ → ℕ
trailing b [] n = n
trailing true ((true, l) ∷ rest) n = trailing true rest (n + 1)
trailing true ((false, l) ∷ rest) n = trailing true rest 0
trailing false ((false, l) ∷ rest) n = trailing false rest (n + 1)
trailing false ((true, l) ∷ rest) n = trailing false rest 0

-- After any stream of probes the two counters are the lengths of the current runs of successes and
-- of failures, those before the stream included.
pub counters_count_runs :
    (t : Tracker) (probes : List (Bool × ℕ))
    → ((observe_all t probes).oks ≡ trailing true probes t.oks)
      × ((observe_all t probes).fails ≡ trailing false probes t.fails)
unfolding observe_all observe trailing
counters_count_runs t [] = (refl, refl)
counters_count_runs t ((true, l) ∷ rest) = counters_count_runs (observe t true l).0 rest
counters_count_runs t ((false, l) ∷ rest) = counters_count_runs (observe t false l).0 rest

-- A well-formed tracker: what its state and its counters say of each other. `up` means that the
-- current failures are fewer than `down_after`, `down` that the current successes are fewer than
-- `up_after`; at most one of the runs is under way; and only the unknown state has seen no success.
pub record IsValid (t : Tracker) : Type 0 where
  pub down_pos : pos 1 ≤ℤ t.down_after
  pub up_pos : pos 1 ≤ℤ t.up_after
  pub one_run : (t.fails ≡ 0) ⊎ (t.oks ≡ 0)
  pub up_run : t.state ≡ up → (pos (t.fails + 1) ≤ℤ t.down_after)
  pub down_run : t.state ≡ down → (pos (t.oks + 1) ≤ℤ t.up_after)
  pub unknown_run : t.state ≡ unknown → (t.oks ≡ 0) × (pos (t.fails + 1) ≤ℤ t.down_after)

pub new_tracker-IsValid : (d u : ℤ) → pos 1 ≤ℤ d → pos 1 ≤ℤ u → IsValid (new_tracker d u)
unfolding new_tracker
new_tracker-IsValid d u hd hu = ground arith

-- Every probe result keeps a valid tracker valid.
pub observe-IsValid :
    (t : Tracker) (ok : Bool) (latency : ℕ) → IsValid t → IsValid (observe t ok latency).0
unfolding observe
observe-IsValid t true latency v = ground arith
observe-IsValid t false latency v = ground arith

-- The longest run of `b` in a stream, when `n` results `b` have just gone before.
pub longest : Bool → List (Bool × ℕ) → ℕ → ℕ
longest b [] n = n
longest true ((true, l) ∷ rest) n = longest true rest (n + 1)
longest true ((false, l) ∷ rest) n = max n (longest true rest 0)
longest false ((false, l) ∷ rest) n = longest false rest (n + 1)
longest false ((true, l) ∷ rest) n = max n (longest false rest 0)

longest_ge : (b : Bool) (probes : List (Bool × ℕ)) (n : ℕ) → n ≤ longest b probes n
unfolding longest
longest_ge b [] n = omega arith
longest_ge true ((true, l) ∷ rest) n = omega (arith, longest_ge true rest (n + 1))
longest_ge true ((false, l) ∷ rest) n = omega arith
longest_ge false ((false, l) ∷ rest) n = omega (arith, longest_ge false rest (n + 1))
longest_ge false ((true, l) ∷ rest) n = omega arith

-- The tracker is in the state `s` before and after each probe of the stream.
pub stays : State → Tracker → List (Bool × ℕ) → Bool
unfolding is_state
stays s t [] = is_state t.state s
stays s t ((ok, l) ∷ rest) = is_state t.state s && stays s (observe t ok l).0 rest

-- From `up`, a success keeps `up`.
observe-up : (t : Tracker) (l : ℕ) → t.state ≡ up → (observe t true l).0.state ≡ up
unfolding observe
observe-up t l h = ground arith

-- From `up`, a failure that does not reach `down_after` keeps `up`, and one that does leaves it.
observe_fail-up :
    (t : Tracker) (l : ℕ)
    → t.state ≡ up
    → ((observe t false l).0.state ≡ up)
      ⊎ (((observe t false l).0.state ≡ down) × (t.down_after ≤ℤ pos (t.fails + 1)))
unfolding observe
observe_fail-up t l h = ground arith

max_step :
    (b : Bool) (d : ℤ) (f n : ℕ)
    → pos (f + 1) ≤ℤ d
    → (b ≡ true) ↔ (pos (n + 1) ≤ℤ d)
    → (b ≡ true) ↔ (pos (max f n + 1) ≤ℤ d)
max_step b d f n h e = (λ p. let q = e.0 p in omega arith, λ p. e.1 (omega arith))

and_iff : {P : Type 0} (a b : Bool) → a ≡ true → (b ≡ true) ↔ P → ((a && b) ≡ true) ↔ P
and_iff a b h e = (λ p. e.0 (ground (arith, p)), λ p. let q = e.1 p in ground arith)

is_up : (t : Tracker) → t.state ≡ up → is_state t.state up ≡ true
unfolding is_state
is_up t h = rw h

not_stays :
    (s : State) (t : Tracker) (probes : List (Bool × ℕ))
    → is_state t.state s ≡ false
    → stays s t probes ≡ false
unfolding stays
not_stays s t [] e = e
not_stays s t ((ok, l) ∷ rest) e = rw e

-- A valid tracker that is up stays up through a stream of probes exactly when no run of failures
-- in it, those already counted included, reaches `down_after`.
pub stays_up_iff :
    (t : Tracker) (probes : List (Bool × ℕ))
    → IsValid t
    → t.state ≡ up
    → (stays up t probes ≡ true) ↔ (pos (longest false probes t.fails + 1) ≤ℤ t.down_after)
unfolding stays longest observe
stays_up_iff t [] v h = (λ _. v.up_run h, λ _. rw (h, is_state))
stays_up_iff t ((true, l) ∷ rest) v h =
    let t' = (observe t true l).0 in
    and_iff (is_state t.state up) (stays up t' rest) (is_up t h) (
      max_step (stays up t' rest) t.down_after t.fails (longest false rest 0) (v.up_run h)
        (stays_up_iff t' rest (observe-IsValid t true l v) (observe-up t l h)))
stays_up_iff t ((false, l) ∷ rest) v h =
    let t' = (observe t false l).0 in
    and_iff (is_state t.state up) (stays up t' rest) (is_up t h) (elim (observe_fail-up t l h) [
      | inl e ↦ stays_up_iff t' rest (observe-IsValid t false l v) e
      | inr (e, reached) ↦ (
        λ p. absurd (false≢true (sym (not_stays up t' rest (rw (e, is_state))) ∙ p)),
        λ p. absurd (let q = longest_ge false rest (t.fails + 1) in omega arith),
      )
    ])

-- From `down`, a failure keeps `down`.
observe_fail-down : (t : Tracker) (l : ℕ) → t.state ≡ down → (observe t false l).0.state ≡ down
unfolding observe
observe_fail-down t l h = ground arith

-- From `down`, a success that does not reach `up_after` keeps `down`, and one that does leaves it.
observe-down :
    (t : Tracker) (l : ℕ)
    → t.state ≡ down
    → ((observe t true l).0.state ≡ down)
      ⊎ (((observe t true l).0.state ≡ up) × (t.up_after ≤ℤ pos (t.oks + 1)))
unfolding observe
observe-down t l h = ground arith

is_down : (t : Tracker) → t.state ≡ down → is_state t.state down ≡ true
unfolding is_state
is_down t h = rw h

-- A valid tracker that is down stays down through a stream of probes exactly when no run of
-- successes in it, those already counted included, reaches `up_after`.
pub stays_down_iff :
    (t : Tracker) (probes : List (Bool × ℕ))
    → IsValid t
    → t.state ≡ down
    → (stays down t probes ≡ true) ↔ (pos (longest true probes t.oks + 1) ≤ℤ t.up_after)
unfolding stays longest observe
stays_down_iff t [] v h = (λ _. v.down_run h, λ _. rw (h, is_state))
stays_down_iff t ((false, l) ∷ rest) v h =
    let t' = (observe t false l).0 in
    and_iff (is_state t.state down) (stays down t' rest) (is_down t h) (
      max_step (stays down t' rest) t.up_after t.oks (longest true rest 0) (v.down_run h)
        (stays_down_iff t' rest (observe-IsValid t false l v) (observe_fail-down t l h)))
stays_down_iff t ((true, l) ∷ rest) v h =
    let t' = (observe t true l).0 in
    and_iff (is_state t.state down) (stays down t' rest) (is_down t h) (elim (observe-down t l h) [
      | inl e ↦ stays_down_iff t' rest (observe-IsValid t true l v) e
      | inr (e, reached) ↦ (
        λ p. absurd (false≢true (sym (not_stays down t' rest (rw (e, is_state))) ∙ p)),
        λ p. absurd (let q = longest_ge true rest (t.oks + 1) in omega arith),
      )
    ])
