-- ===== src/Backend/Webhooks/Retries.antt =====
-- A delivery ends after at most four attempts.
use native.Mathlib.Omega.{pow_step}
use line_proof.Base.{
  ℕ, zero, suc, ◌+◌, ◌-◌, ◌*◌, ◌^◌, ◌≤◌, ◌<◌, ◌≡◌, refl, sym, ap, ◌∙◌, Bool, true, false, Option,
  some, arith, Bool-cases, inl, inr, ℕ_discrete, dec_lt, ◌⊎◌,
}
use line_proof.Backend.Webhooks.{Delivery, is_success, send_with_retry}

-- How the delivery of an event goes from a given attempt on.
record Ends (base : ℕ) (fetch : ℕ → Option ℕ) (attempt : ℕ) (d : Delivery) : Type 0 where
  some_made : 1 ≤ d.attempts
  few_made : attempt + d.attempts ≤ 5
  last : d.sent ≡ is_success (fetch (attempt + d.attempts - 1))
  before : (i : ℕ) → attempt ≤ i → i < attempt + d.attempts - 1 → is_success (fetch i) ≡ false
  all_made : d.sent ≡ false → attempt + d.attempts ≡ 5
  waits : d.waited + base * 2 ^ (attempt - 1) ≡ base * 2 ^ (attempt + d.attempts - 2)

-- The last attempt of a series, whether it succeeds or is the fourth.
stops :
    (base : ℕ) (fetch : ℕ → Option ℕ) (attempt : ℕ) (sent : Bool)
    → attempt ≤ 4
    → sent ≡ is_success (fetch attempt)
    → (sent ≡ false → attempt ≡ 4)
    → Ends base fetch attempt (record { sent = sent; attempts = 1; waited = 0 })
stops base fetch attempt sent low is_sent full =
    let here : attempt + 1 - 1 ≡ attempt = omega arith in
    let back : attempt + 1 - 2 ≡ attempt - 1 = omega arith in
    record {
      some_made = omega arith;
      few_made = omega (arith, low);
      last = is_sent ∙ ap (λ i. is_success (fetch i)) (sym here);
      before = λ i from upto. absurd (omega (arith, from, upto));
      all_made = λ failed. omega (arith, full failed);
      waits = ap (λ n. 0 + base * 2 ^ n) (sym back) ∙ omega arith;
    }

double : (base k : ℕ) → 1 ≤ k → base * 2 ^ (k + 1 - 1) ≡ base * 2 ^ (k - 1) + base * 2 ^ (k - 1)
double base zero low = absurd (omega arith)
double base (suc b) low =
    let up : suc b + 1 - 1 ≡ suc b = omega arith in
    let down : suc b - 1 ≡ b = omega arith in
    rw (up, down) (ap (λ n. base * n) (pow_step 2 b) ∙ omega arith)

goes_on :
    (base : ℕ) (fetch : ℕ → Option ℕ) (attempt : ℕ) (rest : Delivery)
    → 1 ≤ attempt
    → is_success (fetch attempt) ≡ false
    → Ends base fetch (attempt + 1) rest
    → Ends base fetch attempt (record {
      sent = rest.sent;
      attempts = rest.attempts + 1;
      waited = base * 2 ^ (attempt - 1) + rest.waited;
    })
goes_on base fetch attempt rest low failed e =
    let at : attempt + (rest.attempts + 1) ≡ attempt + 1 + rest.attempts = omega arith in
    let up = double base attempt low in
    record {
      some_made = omega arith;
      few_made = omega (arith, e.few_made);
      last = e.last ∙ ap (λ n. is_success (fetch (n - 1))) (sym at);
      before = λ i from upto. elim (ℕ_discrete attempt i) [
        | yes here ↦ ap (λ n. is_success (fetch n)) (sym here) ∙ failed
        | no later ↦ e.before i (omega (arith, from, later)) (omega (arith, upto))
      ];
      all_made = λ none_sent. omega (arith, e.all_made none_sent);
      waits = omega (arith, up, e.waits) ∙ ap (λ n. base * 2 ^ (n - 2)) (sym at);
    }

send_with_retry-Ends :
    (fuel base : ℕ) (fetch : ℕ → Option ℕ) (attempt : ℕ)
    → 1 ≤ attempt
    → attempt ≤ 4
    → 5 ≤ attempt + fuel
    → (d : Delivery) × (send_with_retry fuel base fetch attempt ≡ some d)
      × Ends base fetch attempt d
unfolding send_with_retry
send_with_retry-Ends zero base fetch attempt low high enough = absurd (omega arith)
send_with_retry-Ends (suc fuel) base fetch attempt low high enough =
    elim (Bool-cases (is_success (fetch attempt))) [
      | inl good ↦ (
        record { sent = true; attempts = 1; waited = 0 },
        rw good refl,
        stops base fetch attempt true high (sym good) (λ e. absurd (cc)),
      )
      | inr bad ↦ elim (dec_lt attempt 4) [
        | no last ↦ (
          record { sent = false; attempts = 1; waited = 0 },
          ground arith,
          stops base fetch attempt false high (sym bad) (λ e. omega (arith, last, high)),
        )
        | yes more ↦
            let (rest, ran, ends) =
              send_with_retry-Ends fuel base fetch (attempt + 1) (omega arith) (omega arith)
                (omega arith) in
            (
              record {
                sent = rest.sent;
                attempts = rest.attempts + 1;
                waited = base * 2 ^ (attempt - 1) + rest.waited;
              },
              ground arith,
              goes_on base fetch attempt rest low bad ends,
            )
      ]
    ]

-- With fuel for four attempts a delivery ends, whatever the receiver answers, after one to four
-- attempts: it was sent exactly if the last of them was answered with a success, all before it were
-- not, and if it was not sent there were four; the delays between the attempts double each time, and
-- add up to the base delay times two to the power of the attempts less one, less the base delay.
pub send_with_retry-settles :
    (fuel base : ℕ) (fetch : ℕ → Option ℕ)
    → 4 ≤ fuel
    → (d : Delivery) × (send_with_retry fuel base fetch 1 ≡ some d)
      × (1 ≤ d.attempts)
      × (d.attempts ≤ 4)
      × (d.sent ≡ is_success (fetch d.attempts))
      × ((i : ℕ) → 1 ≤ i → i < d.attempts → is_success (fetch i) ≡ false)
      × ((d.sent ≡ true) ⊎ (d.attempts ≡ 4))
      × (d.waited + base ≡ base * 2 ^ (d.attempts - 1))
send_with_retry-settles fuel base fetch enough =
    let (d, ran, e) =
      send_with_retry-Ends fuel base fetch 1 (omega arith) (omega arith) (omega (arith, enough)) in
    let here : 1 + d.attempts - 1 ≡ d.attempts = omega arith in
    let back : 1 + d.attempts - 2 ≡ d.attempts - 1 = omega arith in
    (
      d,
      ran,
      e.some_made,
      omega (arith, e.few_made),
      e.last ∙ ap (λ n. is_success (fetch n)) here,
      (λ i low high. e.before i low (omega (arith, high))),
      elim (Bool-cases d.sent) [
        | inl sent ↦ inl sent
        | inr failed ↦ inr (omega (arith, e.all_made failed))
      ],
      ap (λ n. d.waited + n) (omega arith) ∙ e.waits ∙ ap (λ n. base * 2 ^ n) back,
    )
