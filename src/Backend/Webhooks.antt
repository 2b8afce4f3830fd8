-- ===== src/Backend/Webhooks.antt =====
-- The delivery of a webhook, backend/src/services/webhookDispatcher.ts. What `fetch` gives at each
-- attempt is an argument: the HTTP status, or `none` if it rejects.
pub mod Retries
use line_proof.Base.{
  ℕ, zero, suc, ◌+◌, ◌-◌, ◌*◌, ◌^◌, ◌&&◌, ◌||◌, Bool, true, false, Option, none, some, List, [],
  ◌∷◌, ◌==◌, ltb, leb, if◌then◌else◌,
}

-- The `events` of a webhook, and the type of an event; 0 stands for `*`.
pub record WebhookConfig : Type 0 where
  pub id : ℕ
  pub url : ℕ
  pub events : List ℕ

-- How a delivery went: whether it was sent, the attempts made, and the milliseconds waited between
-- them. A delivery that is not sent throws.
pub record Delivery : Type 0 where
  pub sent : Bool
  pub attempts : ℕ
  pub waited : ℕ

-- `res.status >= 200 && res.status < 300`
abbrev pub is_success : Option ℕ → Bool
is_success none = false
is_success (some status) = leb 200 status && ltb status 300

abbrev pub retried : ℕ → Option Delivery → Option Delivery
retried delay none = none
retried delay (some rest) =
    some (record { sent = rest.sent; attempts = rest.attempts + 1; waited = delay + rest.waited })

-- On fuel for the calls of itself; `none` if it is used up.
unfoldable pub send_with_retry : ℕ → ℕ → (ℕ → Option ℕ) → ℕ → Option Delivery
send_with_retry zero backoff_base_delay fetch attempt = none
send_with_retry (suc fuel) backoff_base_delay fetch attempt =
    let rest = send_with_retry fuel backoff_base_delay fetch (attempt + 1) in
    if is_success (fetch attempt)
    then some (record { sent = true; attempts = 1; waited = 0 })
    else if leb 4 attempt
    then some (record { sent = false; attempts = 1; waited = 0 })
    else retried (backoff_base_delay * 2 ^ (attempt - 1)) rest

abbrev includes : ℕ → List ℕ → Bool
includes event [] = false
includes event (x ∷ xs) = x == event || includes event xs

-- The webhooks that an event is sent to.
unfoldable pub matching : ℕ → List WebhookConfig → List WebhookConfig
matching event [] = []
matching event (wh ∷ whs) =
    let rest = matching event whs in
    if includes event wh.events || includes 0 wh.events then wh ∷ rest else rest
