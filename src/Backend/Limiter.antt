-- ===== src/Backend/Limiter.antt =====
-- The rate limiter, backend/src/middleware/rateLimiter.ts, with `increment` and `delete` of
-- backend/src/storage/memoryAdapter.ts. One limiter has its own namespaces; a key is the address of
-- the caller, which is only compared. The handler reads the clock once, and `increment` once more. The
-- status and the message of a refusal are fixed options and left out.
pub mod Requests
pub mod Bound
use Prim.Native.Nat.{◌/◌}
use line_proof.Base.{
  ℕ, ◌+◌, ◌-◌, Bool, true, false, Option, none, some, ◌==◌, ltb, if◌then◌else◌, unwrap_or,
}

pub record CounterEntry : Type 0 where
  pub value : ℕ
  pub expires_at : Option ℕ

-- The adapter keeps values and counters in two maps. `windows` and `values` are the namespaces
-- `ratelimit:win`, with the ends of the windows, and `ratelimit:cnt` of the first map; `counters` is
-- `ratelimit:cnt` of the second.
pub record Store : Type 0 where
  pub windows : ℕ → Option ℕ
  pub values : ℕ → Option ℕ
  pub counters : ℕ → Option CounterEntry

pub record RateLimitOptions : Type 0 where
  pub max : ℕ
  pub window_ms : ℕ

abbrev pub put {ℓ} : {A : Type ℓ} → ℕ → Option A → (ℕ → Option A) → ℕ → Option A
put k a m j = if k == j then a else m j

-- `expiresAt !== undefined && now > expiresAt`
abbrev pub is_stale : ℕ → Option ℕ → Bool
is_stale now none = false
is_stale now (some expires_at) = ltb expires_at now

abbrev pub expiry : ℕ → Option ℕ → Option ℕ
expiry now none = none
expiry now (some ttl_ms) = some (now + ttl_ms)

-- The entry that `increment` adds to.
abbrev pub current : ℕ → Option ℕ → Option CounterEntry → CounterEntry
current now ttl_ms none = record { value = 0; expires_at = expiry now ttl_ms }
current now ttl_ms (some entry) =
    if is_stale now entry.expires_at
    then record { value = 0; expires_at = expiry now ttl_ms }
    else entry

abbrev pub increment : ℕ → ℕ → ℕ → Option ℕ → Store → ℕ × Store
increment now key amount ttl_ms s =
    let entry = current now ttl_ms (s.counters key) in
    (
      entry.value + amount,
      record s {
        counters = put key (some (record entry { value = entry.value + amount })) s.counters;
      },
    )

-- `!meta || now > meta.resetAt`
abbrev pub is_over : ℕ → Option ℕ → Bool
is_over now none = true
is_over now (some reset_at) = ltb reset_at now

-- `store.delete` deletes a value, so it leaves the counter as it is.
abbrev pub open_window : RateLimitOptions → ℕ → ℕ → Store → Store
open_window options now key s = record {
  windows = put key (some (now + options.window_ms)) s.windows;
  values = put key none s.values;
  counters = s.counters;
}

-- `Math.ceil(ms / 1000)`
abbrev pub ceil_seconds : ℕ → ℕ
ceil_seconds ms = (ms + 999) / 1000

-- The three `X-RateLimit` headers; the limiter calls `next`, or answers with `Retry-After`.
pub record Headers : Type 0 where
  pub limit : ℕ
  pub remaining : ℕ
  pub reset : ℕ

pub data Response : Type 0 where
  next : Headers → Response
  too_many : Headers → ℕ → Response

abbrev pub passes : Response → Bool
passes (next headers) = true
passes (too_many headers retry_after) = false

abbrev pub respond : RateLimitOptions → ℕ → ℕ → ℕ → Response
respond options now reset_at count =
    let headers : Headers = record {
      limit = options.max;
      remaining = options.max - count;
      reset = ceil_seconds reset_at;
    } in
    if ltb options.max count then too_many headers (ceil_seconds (reset_at - now)) else next headers

-- `now` is what the handler reads, `now'` what `increment` reads.
unfoldable pub rate_limiter : RateLimitOptions → ℕ → ℕ → ℕ → Store → Response × Store
rate_limiter options now now' key s =
    let opened = if is_over now (s.windows key) then open_window options now key s else s in
    let (count, counted) = increment now' key 1 (some options.window_ms) opened in
    (respond options now (unwrap_or (opened.windows key) 0) count, counted)
