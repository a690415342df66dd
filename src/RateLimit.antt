-- ===== src/RateLimit.antt =====
-- utils/rate_limit.rs. An `Instant` is the number of ticks since the earliest instant that the
-- platform can represent, so `checked_sub` fails below 0. The clock is an argument of `check`.
-- `DashMap` locks the entry of an address, so the checks of one address happen one after another.
pub mod History
mod Tests
use ullav_user_management.Prelude.{
  ℕ, ◌-◌, String, Bool, true, false, Option, none, some, List, [], ◌∷◌, ◌++◌, ltb, leb, same,
  if◌then◌else◌, length,
}

-- `DashMap<String, IpState>`: the timestamps of an address, oldest first.
abbrev pub IpStates : Type 0
IpStates = List (String × List ℕ)

-- `entry(ip).or_insert_with(…)`
unfoldable pub timestamps : String → IpStates → List ℕ
timestamps ip [] = []
timestamps ip ((j, ts) ∷ m) = if same j ip then ts else timestamps ip m

unfoldable pub write_back : String → List ℕ → IpStates → IpStates
write_back ip ts [] = (ip, ts) ∷ []
write_back ip ts ((j, us) ∷ m) =
    let rest = write_back ip ts m in if same j ip then (ip, ts) ∷ m else (j, us) ∷ rest

pub record RateLimiter : Type 0 where
  pub state : IpStates
  pub max_requests : ℕ
  pub window : ℕ

unfoldable pub new : ℕ → ℕ → RateLimiter
new max_requests window = record { state = []; max_requests = max_requests; window = window }

-- `now.checked_sub(self.window).unwrap_or(now)`
abbrev pub cutoff_at : ℕ → ℕ → ℕ
cutoff_at window now = if leb window now then now - window else now

-- The loop that drops timestamps outside the window.
unfoldable pub drop_old : ℕ → List ℕ → List ℕ
drop_old cutoff [] = []
drop_old cutoff (t ∷ ts) = let rest = drop_old cutoff ts in if ltb t cutoff then rest else t ∷ ts

unfoldable pub check : RateLimiter → ℕ → String → RateLimiter × Bool
unfolding drop_old
check limiter now ip =
    let cutoff = cutoff_at limiter.window now in
    let kept = drop_old cutoff (timestamps ip limiter.state) in
    if leb limiter.max_requests (length kept)
    then (record limiter { state = write_back ip kept limiter.state }, false)
    else (record limiter { state = write_back ip (kept ++ now ∷ []) limiter.state }, true)

-- The answers to a sequence of checks.
unfoldable pub run : RateLimiter → List (ℕ × String) → List Bool
run limiter [] = []
run limiter ((now, ip) ∷ calls) =
    let (after, allowed) = check limiter now ip in allowed ∷ run after calls
