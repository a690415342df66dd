-- ===== src/RateLimit/History.antt =====
-- The limiter against the list of all requests that it accepted.
use mathlib.Core.Path.{ap₂}
use ullav_user_management.Prelude.{
  ℕ, ◌+◌, ◌-◌, ◌≤◌, String, ◌≡◌, refl, ◌∙◌, Bool, true, false, ◌&&◌, List, [], ◌∷◌, ◌++◌, arith,
  ltb, leb, same, eq_iff, if◌then◌else◌, length, Bool-cases, inl, inr,
}
use ullav_user_management.RateLimit.{
  IpStates, timestamps, write_back, RateLimiter, new, drop_old, check, run,
}

-- Accepted requests, newest first.
abbrev pub Accepted : Type 0
Accepted = List (ℕ × String)

-- How many of them came from `ip` at `from` or later.
unfoldable pub recent : String → ℕ → Accepted → ℕ
recent ip from [] = 0
recent ip from ((t, j) ∷ h) = (if same j ip && leb from t then 1 else 0) + recent ip from h

-- The promise: a request is allowed exactly when fewer than `max` requests of its address were
-- accepted in the window that ends now.
unfoldable pub verdict : ℕ → ℕ → Accepted → ℕ → String → Bool
verdict max window h now ip = ltb (recent ip (now - window) h) max

unfoldable pub promised : ℕ → ℕ → Accepted → List (ℕ × String) → List Bool
promised max window h [] = []
promised max window h ((now, ip) ∷ calls) =
    let allowed = verdict max window h now ip in
    allowed ∷ promised max window (if allowed then (now, ip) ∷ h else h) calls

-- The clock does not run backwards from `t`, and a whole window lies behind each reading.
abbrev pub Ordered : ℕ → ℕ → List (ℕ × String) → Type 0
Ordered window t [] = Unit
Ordered window t ((now, ip) ∷ calls) = (t ≤ now) × (window ≤ now) × Ordered window now calls

timestamps-write_back :
    (ip j : String) (ts : List ℕ) (m : IpStates)
    → timestamps j (write_back ip ts m) ≡ (if same ip j then ts else timestamps j m)
unfolding timestamps write_back
timestamps-write_back ip j ts [] = refl
timestamps-write_back ip j ts ((i, us) ∷ m) =
    ground (arith, eq_iff ip j, eq_iff i ip, eq_iff i j, timestamps-write_back ip j ts m)

abbrev Ascending : ℕ → ℕ → List ℕ → Type 0
Ascending lo hi [] = lo ≤ hi
Ascending lo hi (t ∷ ts) = (lo ≤ t) × Ascending t hi ts

count_ge : ℕ → List ℕ → ℕ
count_ge c [] = 0
count_ge c (t ∷ ts) = (if leb c t then 1 else 0) + count_ge c ts

Ascending-le : (lo lo' hi : ℕ) (ts : List ℕ) → lo' ≤ lo → Ascending lo hi ts → Ascending lo' hi ts
Ascending-le lo lo' hi [] h a = omega arith
Ascending-le lo lo' hi (t ∷ ts) h a = (omega arith, a.1)

Ascending-drop_old :
    (c lo hi : ℕ) (ts : List ℕ) → Ascending lo hi ts → Ascending lo hi (drop_old c ts)
unfolding drop_old
Ascending-drop_old c lo hi [] a = a
Ascending-drop_old c lo hi (t ∷ ts) a = elim (Bool-cases (ltb t c)) [
  | inl old ↦ rw old (Ascending-le t lo hi (drop_old c ts) a.0 (Ascending-drop_old c t hi ts a.1))
  | inr new ↦ rw new a
]

Ascending-push :
    (lo hi now : ℕ) (ts : List ℕ)
    → hi ≤ now
    → Ascending lo hi ts
    → Ascending lo now (ts ++ now ∷ [])
Ascending-push lo hi now [] h a = (omega arith, omega arith)
Ascending-push lo hi now (t ∷ ts) h a = (a.0, Ascending-push t hi now ts h a.1)

Ascending-widen :
    (lo hi now : ℕ) (ts : List ℕ) → hi ≤ now → Ascending lo hi ts → Ascending lo now ts
Ascending-widen lo hi now [] h a = omega arith
Ascending-widen lo hi now (t ∷ ts) h a = (a.0, Ascending-widen t hi now ts h a.1)

-- In an ascending list the loop leaves exactly what is not below the cutoff.
count_ge_all : (c lo hi : ℕ) (ts : List ℕ) → c ≤ lo → Ascending lo hi ts → count_ge c ts ≡ length ts
unfolding count_ge
count_ge_all c lo hi [] h a = refl
count_ge_all c lo hi (t ∷ ts) h a = ground (arith, count_ge_all c t hi ts, a.0, a.1)

length-drop_old :
    (c lo hi : ℕ) (ts : List ℕ) → Ascending lo hi ts → length (drop_old c ts) ≡ count_ge c ts
unfolding drop_old count_ge
length-drop_old c lo hi [] a = refl
length-drop_old c lo hi (t ∷ ts) a =
    ground (arith, length-drop_old c t hi ts, count_ge_all c t hi ts, a.1)

count_ge-drop_old : (c d : ℕ) (ts : List ℕ) → c ≤ d → count_ge d (drop_old c ts) ≡ count_ge d ts
unfolding drop_old count_ge
count_ge-drop_old c d [] h = refl
count_ge-drop_old c d (t ∷ ts) h = ground (arith, count_ge-drop_old c d ts)

count_ge-push :
    (c now : ℕ) (ts : List ℕ)
    → count_ge c (ts ++ now ∷ []) ≡ count_ge c ts + (if leb c now then 1 else 0)
unfolding count_ge
count_ge-push c now [] = omega arith
count_ge-push c now (t ∷ ts) = omega (arith, count_ge-push c now ts)

-- The limiter's state stands for the history `h`, up to the last reading `t` of the clock.
record Follows (limiter : RateLimiter) (h : Accepted) (t : ℕ) : Type 0 where
  ascending : (ip : String) → Ascending 0 t (timestamps ip limiter.state)
  counted :
      (ip : String) (c : ℕ)
      → t ≤ c + limiter.window
      → count_ge c (timestamps ip limiter.state) ≡ recent ip c h

module _ (limiter : RateLimiter) (h : Accepted) (t now : ℕ) (ip : String) (f : Follows limiter h t)
    (later : t ≤ now) (inside : limiter.window ≤ now) where
  kept : List ℕ
  kept = drop_old (now - limiter.window) (timestamps ip limiter.state)

  length-kept : length kept ≡ recent ip (now - limiter.window) h
  unfolding kept
  length-kept =
      length-drop_old (now - limiter.window) 0 t (timestamps ip limiter.state) (f.ascending ip)
      ∙ f.counted ip (now - limiter.window) (omega arith)

  check-verdict : (check limiter now ip).1 ≡ verdict limiter.max_requests limiter.window h now ip
  unfolding check verdict kept
  check-verdict = ground (arith, length-kept)

  abbrev history : Accepted
  history = if verdict limiter.max_requests limiter.window h now ip then (now, ip) ∷ h else h

  check-timestamps :
      (j : String)
      → timestamps j (check limiter now ip).0.state ≡ (
          if same ip j
          then (if verdict limiter.max_requests limiter.window h now ip
              then kept ++ now ∷ []
              else kept)
          else timestamps j limiter.state)
  unfolding check verdict kept
  check-timestamps j = ground (
    arith,
    length-kept,
    timestamps-write_back ip j kept limiter.state,
    timestamps-write_back ip j (kept ++ now ∷ []) limiter.state,
  )

  Ascending-kept : Ascending 0 t kept
  unfolding kept
  Ascending-kept =
      Ascending-drop_old (now - limiter.window) 0 t (timestamps ip limiter.state) (f.ascending ip)

  check-Ascending : (j : String) → Ascending 0 now (timestamps j (check limiter now ip).0.state)
  check-Ascending j =
      rw (check-timestamps j)
        (by_test (same ip j) (verdict limiter.max_requests limiter.window h now ip))
    where
      by_test :
          (here allowed : Bool)
          → Ascending 0 now (
              if here
              then (if allowed then kept ++ now ∷ [] else kept)
              else timestamps j limiter.state)
      by_test true true = Ascending-push 0 t now kept later Ascending-kept
      by_test true false = Ascending-widen 0 t now kept later Ascending-kept
      by_test false allowed =
          Ascending-widen 0 t now (timestamps j limiter.state) later (f.ascending j)

  check-counted :
      (j : String) (c : ℕ)
      → now ≤ c + limiter.window
      → count_ge c (timestamps j (check limiter now ip).0.state) ≡ recent j c history
  unfolding recent kept
  check-counted j c k = rw (check-timestamps j) (
      ground (
        arith,
        eq_iff ip j,
        f.counted j c,
        f.counted ip c,
        count_ge-push c now kept,
        count_ge-drop_old (now - limiter.window) c (timestamps ip limiter.state),
      ))

  check-config :
      ((check limiter now ip).0.window ≡ limiter.window)
      × ((check limiter now ip).0.max_requests ≡ limiter.max_requests)
  unfolding check
  check-config = (ground arith, ground arith)

  check-Follows : Follows (check limiter now ip).0 history now
  check-Follows = record {
    ascending = check-Ascending;
    counted = λ j c k. check-counted j c (rw check-config.0 at k);
  }

run-promised :
    (limiter : RateLimiter) (h : Accepted) (t : ℕ) (calls : List (ℕ × String))
    → Follows limiter h t
    → Ordered limiter.window t calls
    → run limiter calls ≡ promised limiter.max_requests limiter.window h calls
unfolding run promised
run-promised limiter h t [] f o = refl
run-promised limiter h t ((now, ip) ∷ calls) f o =
    let next = check-config limiter h t now ip f o.0 o.1 in
    ap₂ ◌∷◌ (check-verdict limiter h t now ip f o.0 o.1) (
      rw (next.0, next.1) at
        (run-promised (check limiter now ip).0 (history limiter h t now ip f o.0 o.1) now calls
          (check-Follows limiter h t now ip f o.0 o.1) (rw next.0 o.2)))

new-Follows : (max window : ℕ) → Follows (new max window) [] 0
unfolding new timestamps recent count_ge
new-Follows max window = record { ascending = λ ip. omega arith; counted = λ ip c k. refl }

-- A new limiter answers every sequence of requests as promised: while the clock does not run
-- backwards, and is past one whole window, it allows a request exactly when fewer than
-- `max_requests` requests of the same address were allowed in the window that ends now.
pub run_lem :
    (max window : ℕ) (calls : List (ℕ × String))
    → Ordered window 0 calls
    → run (new max window) calls ≡ promised max window [] calls
unfolding new
run_lem max window calls o = run-promised (new max window) [] 0 calls (new-Follows max window) o

-- The requests that were allowed, newest first.
unfoldable pub allowed_of : Accepted → List (ℕ × String) → List Bool → Accepted
allowed_of h (c ∷ calls) (b ∷ answers) = allowed_of (if b then c ∷ h else h) calls answers
allowed_of h _ _ = h

-- How many came from `ip` between two instants, both included.
unfoldable pub between : String → ℕ → ℕ → Accepted → ℕ
between ip from to [] = 0
between ip from to ((t, j) ∷ h) =
    (if same j ip && leb from t && leb t to then 1 else 0) + between ip from to h

between-le-recent :
    (ip : String) (from to c : ℕ) (h : Accepted) → c ≤ from → between ip from to h ≤ recent ip c h
unfolding between recent
between-le-recent ip from to c [] k = omega arith
between-le-recent ip from to c ((t, j) ∷ h) k = ground (arith, between-le-recent ip from to c h)

module _ (max window : ℕ) (ip : String) (from : ℕ) where
  between-step :
      (h : Accepted) (now : ℕ) (j : String)
      → between ip from (from + window) h ≤ max
      → window ≤ now
      → between ip from (from + window) (if verdict max window h now j then (now, j) ∷ h else h)
        ≤ max
  unfolding between verdict
  between-step h now j k w =
      ground (arith, eq_iff j ip, between-le-recent ip from (from + window) (now - window) h)

  promised_bound :
      (h : Accepted) (t : ℕ) (calls : List (ℕ × String))
      → between ip from (from + window) h ≤ max
      → Ordered window t calls
      → between ip from (from + window) (allowed_of h calls (promised max window h calls)) ≤ max
  unfolding promised allowed_of
  promised_bound h t [] k o = k
  promised_bound h t ((now, j) ∷ calls) k o =
      promised_bound (if verdict max window h now j then (now, j) ∷ h else h) now calls
        (between-step h now j k o.1) o.2

  -- While the clock does not run backwards, and is past one whole window, in any stretch of time as
  -- long as the window a new limiter allows at most `max_requests` requests of an address.
  pub window_bound :
      (calls : List (ℕ × String))
      → Ordered window 0 calls
      → between ip from (from + window) (allowed_of [] calls (run (new max window) calls)) ≤ max
  unfolding between
  window_bound calls o = rw (run_lem max window calls o) (promised_bound [] 0 calls (omega arith) o)
