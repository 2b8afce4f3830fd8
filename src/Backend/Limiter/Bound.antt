-- ===== src/Backend/Limiter/Bound.antt =====
-- How many requests of one caller the rate limiter lets through in a window.
use line_proof.Base.{
  ℕ, ◌+◌, ◌-◌, ltb, ◌≤◌, ◌<◌, ◌≡◌, ◌≢◌, refl, sym, ◌∙◌, subst, Bool, true, false, none, some, arith,
  ◌==◌, ◌⊎◌, if◌then◌else◌, Bool-cases, inl, inr, ℕ_discrete, dec_lt,
}
use line_proof.Backend.Limiter.{
  CounterEntry, Store, RateLimitOptions, is_over, passes, rate_limiter,
}
use line_proof.Backend.Limiter.Requests.{
  after, begins, falls, starts, restarts, counts, other_windows, other_counters,
}

abbrev pub empty : Store
empty = record { windows = λ k. none; values = λ k. none; counters = λ k. none }

abbrev pub one_if : Bool → ℕ
one_if true = 1
one_if false = 0

-- What a request by `key` makes of the number `n` of requests let through in the window of `caller`:
-- a new window begins at zero.
abbrev pub tally : RateLimitOptions → ℕ → ℕ → ℕ → ℕ → ℕ → Store → ℕ
tally options caller n now now' key s =
    if key == caller
    then (if is_over now (s.windows key) then 0 else n)
      + one_if (passes (rate_limiter options now now' key s).0)
    else n

-- Requests in the order of time, by any callers: `Passed s clock n` says that they lead to `s`, that
-- the clock was last read as `clock`, and that `n` requests of `caller` were let through in its
-- current window.
pub data Passed (options : RateLimitOptions) (caller : ℕ) : Store → ℕ → ℕ → Type 0 where
  none_yet : Passed options caller empty 0 0
  serves :
      {s : Store} {clock n : ℕ} (now now' key : ℕ)
      → Passed options caller s clock n
      → clock ≤ now
      → now ≤ now'
      → Passed options caller
          (rate_limiter options now now' key s).1
          now'
          (tally options caller n now now' key s)

-- The counter outlives the window that ends at `r`; or it was in use before that window began; or the
-- window is over.
abbrev IsOpen : RateLimitOptions → ℕ → ℕ → ℕ → ℕ → ℕ → Type 0
IsOpen options r e value clock n =
    ((r ≤ e) × (n ≤ value + (options.max - 1)) × (n ≤ options.max + (options.max - 1)))
    ⊎ ((n + 1 ≤ value) × (n ≤ options.max - 1) × (r ≤ clock + options.window_ms))
    ⊎ ((r < clock) × (n ≤ options.max + options.max))

-- `caller` has made no request; or has a window and a counter.
abbrev IsBounded : RateLimitOptions → ℕ → Store → ℕ → ℕ → Type 0
IsBounded options caller s clock n =
    ((s.windows caller ≡ none) × (s.counters caller ≡ none) × (n ≡ 0))
    ⊎ ((r : ℕ) × (entry : CounterEntry) × (e : ℕ) × (s.windows caller ≡ some r)
        × (s.counters caller ≡ some entry)
        × (entry.expires_at ≡ some e)
        × (1 ≤ entry.value)
        × IsOpen options r e entry.value clock n)

tally_own :
    (options : RateLimitOptions) (caller n now now' : ℕ) (s : Store)
    → tally options caller n now now' caller s
      ≡ (if is_over now (s.windows caller) then 0 else n)
        + one_if (passes (rate_limiter options now now' caller s).0)
tally_own options caller n now now' s = ground arith

-- A request passes if the counter stood below `max`.
verdict :
    (b : Bool) (value max : ℕ)
    → b ≡ ltb value max
    → (one_if b ≡ 0) ⊎ ((one_if b ≡ 1) × (value < max))
verdict b value max e = ground arith

-- The first request, or one that finds the counter expired.
first_counted :
    (options : RateLimitOptions) (r e clock n m : ℕ)
    → (n ≡ m) ⊎ ((n ≡ m + 1) × (0 < options.max))
    → m ≤ options.max - 1
    → r ≤ e
    → IsOpen options r e 1 clock n
first_counted options r e clock n m passed few outlives =
    inl (outlives, ground (arith, passed), ground (arith, passed))

-- A request within the window, on a clock that has come to `now` and `now'`: one that finds the
-- counter expired, and one that is added.
module _ (options : RateLimitOptions) (r e clock now now' n m : ℕ) (h : clock ≤ now)
    (k : now ≤ now') (within : now ≤ r) where
  restarted-IsOpen :
      (value : ℕ)
      → (m ≡ n) ⊎ ((m ≡ n + 1) × (0 < options.max))
      → e < now'
      → IsOpen options r e value clock n
      → IsOpen options r (now' + options.window_ms) 1 now' m
  restarted-IsOpen value passed late (inl (outlives, few, fewer)) =
      inr (inr (omega (arith, late, outlives), ground (arith, passed, fewer)))
  restarted-IsOpen value passed late (inr (inl (before, few, far))) =
      inl (omega (arith, far, h, k), ground (arith, passed, few), ground (arith, passed, few))
  restarted-IsOpen value passed late (inr (inr (over, most))) =
      absurd (omega (arith, over, h, within))

  counted-IsOpen :
      (value : ℕ)
      → (m ≡ n) ⊎ ((m ≡ n + 1) × (value < options.max))
      → IsOpen options r e value clock n
      → IsOpen options r e (value + 1) now' m
  counted-IsOpen value passed (inl (outlives, few, fewer)) =
      inl (outlives, ground (arith, passed, few), ground (arith, passed, few, fewer))
  counted-IsOpen value passed (inr (inl (before, few, far))) = inr (
      inl (
        ground (arith, passed, before),
        ground (arith, passed, before, few),
        omega (arith, far, h, k),
      ))
  counted-IsOpen value passed (inr (inr (over, most))) = absurd (omega (arith, over, h, within))

own-IsBounded :
    (options : RateLimitOptions) (caller clock n now now' : ℕ) (s : Store)
    → clock ≤ now
    → now ≤ now'
    → IsBounded options caller s clock n
    → IsBounded options caller
        (after options caller now now' s)
        now'
        (tally options caller n now now' caller s)
own-IsBounded options caller clock n now now' s h k (inl (unopened, missing, zero_in)) =
    let t = tally_own options caller n now now' s in
    let over : is_over now (s.windows caller) ≡ true = ground arith in
    let (counted, ok) = starts options caller now now' s missing in
    let w = verdict _ 0 options.max ok in
    inr (
      now + options.window_ms,
      _,
      now' + options.window_ms,
      begins options caller now now' s over,
      counted,
      refl,
      omega arith,
      first_counted options _ _ now' _ 0 (ground (arith, t, over, w)) (omega arith)
          (omega (arith, k)),
    )
own-IsBounded options caller clock n now now' s h k
      (inr (r, entry, e, at, counted, expires, used, bound)) =
    let t = tally_own options caller n now now' s in
    elim (Bool-cases (is_over now (s.windows caller))) [
      | inl over ↦ elim (dec_lt e now') [
        | yes late ↦
            let (counted', ok) = restarts options caller now now' s e entry counted expires late in
            let w = verdict _ 0 options.max ok in
            inr (
              now + options.window_ms,
              _,
              now' + options.window_ms,
              begins options caller now now' s over,
              counted',
              refl,
              omega arith,
              first_counted options _ _ now' _ 0 (ground (arith, t, over, w)) (omega arith)
                  (omega (arith, k)),
            )
        | no soon ↦
            let (counted', ok) =
              counts options caller now now' s e entry counted expires (omega (arith, soon)) in
            let w = verdict _ entry.value options.max ok in
            inr (
              now + options.window_ms,
              _,
              e,
              begins options caller now now' s over,
              counted',
              expires,
              omega arith,
              inr (
                  inl (
                    ground (arith, t, over, w, used),
                    ground (arith, t, over, w, used),
                    omega (arith, k),
                  )),
            )
      ]
      | inr on ↦
          let within : now ≤ r = ground arith in
          elim (dec_lt e now') [
            | yes late ↦
                let (counted', ok) =
                  restarts options caller now now' s e entry counted expires late in
                let w = verdict _ 0 options.max ok in
                inr (
                  r,
                  _,
                  now' + options.window_ms,
                  falls options caller now now' s r at within,
                  counted',
                  refl,
                  omega arith,
                  restarted-IsOpen options r e clock now now' n _ h k within entry.value
                      (ground (arith, t, on, w)) late bound,
                )
            | no soon ↦
                let (counted', ok) =
                  counts options caller now now' s e entry counted expires (omega (arith, soon)) in
                let w = verdict _ entry.value options.max ok in
                inr (
                  r,
                  _,
                  e,
                  falls options caller now now' s r at within,
                  counted',
                  expires,
                  omega arith,
                  counted-IsOpen options r e clock now now' n _ h k within entry.value
                      (ground (arith, t, on, w)) bound,
                )
          ]
    ]

IsOpen-later :
    (options : RateLimitOptions) (r e value clock clock' n : ℕ)
    → clock ≤ clock'
    → IsOpen options r e value clock n
    → IsOpen options r e value clock' n
IsOpen-later options r e value clock clock' n h (inl first) = inl first
IsOpen-later options r e value clock clock' n h (inr (inl (used, few, far))) =
    inr (inl (used, few, omega (arith, far, h)))
IsOpen-later options r e value clock clock' n h (inr (inr (over, most))) =
    inr (inr (omega (arith, over, h), most))

other-IsBounded :
    (options : RateLimitOptions) (caller key clock n now now' : ℕ) (s : Store)
    → clock ≤ now
    → now ≤ now'
    → key ≢ caller
    → IsBounded options caller s clock n
    → IsBounded options caller
        (rate_limiter options now now' key s).1
        now'
        (tally options caller n now now' key s)
other-IsBounded options caller key clock n now now' s h k other b =
    let w = other_windows options caller key now now' s other in
    let c = other_counters options caller key now now' s other in
    let same : tally options caller n now now' key s ≡ n = ground arith in
    elim b [
      | inl (unopened, missing, zero_in) ↦ inl (w ∙ unopened, c ∙ missing, same ∙ zero_in)
      | inr (r, entry, e, at, counted, expires, used, bound) ↦ inr (
        r,
        entry,
        e,
        w ∙ at,
        c ∙ counted,
        expires,
        used,
        subst (IsOpen options r e entry.value now') (sym same)
            (IsOpen-later options r e entry.value clock now' n (omega (arith, h, k)) bound),
      )
    ]

Passed-IsBounded :
    (options : RateLimitOptions) (caller clock n : ℕ) (s : Store)
    → Passed options caller s clock n
    → IsBounded options caller s clock n
Passed-IsBounded options caller _ _ _ none_yet = inl (refl, refl, refl)
Passed-IsBounded options caller _ _ _ (serves {s} {clock} {n} now now' key p h k) =
    let b = Passed-IsBounded options caller clock n s p in
    elim (ℕ_discrete key caller) [
      | yes same ↦
          subst
            (λ i.
              IsBounded options caller (rate_limiter options now now' i s).1 now'
                (tally options caller n now now' i s))
            (sym same) (own-IsBounded options caller clock n now now' s h k b)
      | no other ↦ other-IsBounded options caller key clock n now now' s h k other b
    ]

-- For requests of any callers in the order of time, two readings of the clock for each: of one
-- caller's requests fewer than `2 * max` have been let through in its current window, up to its end
-- `r`, if `max` is not 0, and none if it is; and when the clock has gone past its end, at most one
-- more.
pub Passed-bound :
    (options : RateLimitOptions) (caller clock n r : ℕ) (s : Store)
    → Passed options caller s clock n
    → s.windows caller ≡ some r
    → (n ≤ options.max + (options.max - 1)) ⊎ ((r < clock) × (n ≤ options.max + options.max))
Passed-bound options caller clock n r s p at = elim (Passed-IsBounded options caller clock n s p) [
  | inl (unopened, missing, zero_in) ↦ absurd (cc)
  | inr (r', entry, e, at', counted, expires, used, bound) ↦
      let same : r' ≡ r = ground arith in
      elim bound [
        | inl (outlives, few, fewer) ↦ inl fewer
        | inr (inl (before, few, far)) ↦ inl (omega (arith, few))
        | inr (inr (over, most)) ↦ inr (omega (arith, over, same), most)
      ]
]
