-- ===== src/RateLimit/Tests.antt =====
-- Runs of the limiter, and its theorems at a concrete sequence of requests.
use ullav_user_management.Prelude.{
  ℕ, ◌+◌, ◌≤◌, String, ◌≡◌, refl, true, false, List, [], ◌∷◌, arith,
}
use ullav_user_management.RateLimit.{new, check, run, timestamps, write_back}
use ullav_user_management.RateLimit.History.{promised, allowed_of, between, run_lem, window_bound}

-- The tests of rate_limit.rs: the limit, independent addresses, and expiry of the window.
abbrev calls : List (ℕ × String)
calls =
    (60, "1.2.3.4")
    ∷ (60, "1.2.3.4")
    ∷ (61, "5.6.7.8")
    ∷ (70, "1.2.3.4")
    ∷ (120, "1.2.3.4")
    ∷ (121, "1.2.3.4")
    ∷ []

run_test : run (new 1 60) calls ≡ true ∷ false ∷ true ∷ false ∷ false ∷ true ∷ []
unfolding run check new timestamps write_back
run_test = refl

-- Before one whole window has passed on the platform's clock, the cutoff is the present instant:
-- what was accepted an instant ago no longer counts.
underflow_test :
    run (new 1 60) ((10, "1.2.3.4") ∷ (11, "1.2.3.4") ∷ (12, "1.2.3.4") ∷ [])
    ≡ true ∷ true ∷ true ∷ []
unfolding run check new timestamps write_back
underflow_test = refl

run_lem_example : run (new 1 60) calls ≡ promised 1 60 [] calls
run_lem_example = run_lem 1 60 calls (omega arith)

window_bound_example :
    between "1.2.3.4" 61 (61 + 60) (allowed_of [] calls (run (new 1 60) calls)) ≤ 1
window_bound_example = window_bound 1 60 "1.2.3.4" 61 calls (omega arith)
