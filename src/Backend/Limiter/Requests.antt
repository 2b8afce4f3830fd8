-- ===== src/Backend/Limiter/Requests.antt =====
-- One request, in each of its cases.
use line_proof.Base.{ℕ, ◌+◌, ◌≤◌, ◌<◌, ◌≡◌, ◌≢◌, true, none, some, arith, ltb}
use line_proof.Backend.Limiter.{
  CounterEntry, Store, RateLimitOptions, is_over, passes, rate_limiter,
}

module _ (options : RateLimitOptions) (caller now now' : ℕ) (s : Store) where
  abbrev pub after : Store
  after = (rate_limiter options now now' caller s).1

  -- The window: a request begins one, or falls into one.
  pub begins :
      is_over now (s.windows caller) ≡ true → after.windows caller ≡ some (now + options.window_ms)
  unfolding rate_limiter
  begins over = ground arith

  pub falls : (r : ℕ) → s.windows caller ≡ some r → now ≤ r → after.windows caller ≡ some r
  unfolding rate_limiter
  falls r at within = ground arith

  abbrev pub Restarted : Type 0
  Restarted =
      (after.counters caller
        ≡ some (record { value = 1; expires_at = some (now' + options.window_ms) }))
      × (passes (rate_limiter options now now' caller s).0 ≡ ltb 0 options.max)

  -- The counter: a request is the first that it counts, or is added, or finds it expired.
  pub starts : s.counters caller ≡ none → Restarted
  unfolding rate_limiter
  starts missing = ground arith

  pub restarts :
      (e : ℕ) (entry : CounterEntry)
      → s.counters caller ≡ some entry
      → entry.expires_at ≡ some e
      → e < now'
      → Restarted
  unfolding rate_limiter
  restarts e entry counted expires late = ground arith

  pub counts :
      (e : ℕ) (entry : CounterEntry)
      → s.counters caller ≡ some entry
      → entry.expires_at ≡ some e
      → now' ≤ e
      → (after.counters caller ≡ some (record entry { value = entry.value + 1 }))
        × (passes (rate_limiter options now now' caller s).0 ≡ ltb entry.value options.max)
  unfolding rate_limiter
  counts e entry counted expires soon = ground arith

-- A request of somebody else.
pub other_windows :
    (options : RateLimitOptions) (caller key now now' : ℕ) (s : Store)
    → key ≢ caller
    → (rate_limiter options now now' key s).1.windows caller ≡ s.windows caller
unfolding rate_limiter
other_windows options caller key now now' s other = ground arith

pub other_counters :
    (options : RateLimitOptions) (caller key now now' : ℕ) (s : Store)
    → key ≢ caller
    → (rate_limiter options now now' key s).1.counters caller ≡ s.counters caller
unfolding rate_limiter
other_counters options caller key now now' s other = ground arith
