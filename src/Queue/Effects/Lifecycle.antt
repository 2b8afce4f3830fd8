-- ===== src/Queue/Effects/Lifecycle.antt =====
-- What a returned call of `open_enrollment`, `close_enrollment` or `close` has checked and done.
use line_proof.Base.{ℕ, ◌≡◌, some, true, false, [], ◌∷◌, ◌++◌, arith}
use line_proof.Soroban.Schema.{Observed}
use line_proof.Soroban.Program.{Env}
use line_proof.Soroban.Exec.{ok, exec}
use line_proof.Queue.Types.{
  QueueConfig, QueueStatus, Kind, position_event, schema, config_key, assign, is_closed,
}
use line_proof.Queue.Lifecycle.{open_enrollment, close_enrollment, close}

-- The state after the status was stored and the event published.
abbrev pub moved : Observed schema → QueueConfig → QueueStatus → Kind → ℕ → ℕ → Observed schema
moved s c status kind admin now = record {
  slots = assign config_key (some (record c { status = status })) s.slots;
  log = s.log ++ position_event kind 0 admin now ∷ [];
}

-- The signer is the stored admin.
abbrev pub IsAdmin : Env → Observed schema → ℕ → QueueConfig → Type 0
IsAdmin env s admin c =
    (s.slots config_key ≡ some c) × (c.admin ≡ admin) × (env.has_auth admin ≡ true)

pub open_enrollment-ok :
    (env : Env) (admin : ℕ) (s s' : Observed schema)
    → exec (open_enrollment env admin) s ≡ ok tt s'
    → (c : QueueConfig) × IsAdmin env s admin c
      × (c.status ≡ QueueStatus.draft)
      × (s' ≡ moved s c QueueStatus.enrollment_open Kind.enrollment_opened admin env.timestamp)
unfolding open_enrollment
open_enrollment-ok env admin s s' h = ground arith

pub close_enrollment-ok :
    (env : Env) (admin : ℕ) (s s' : Observed schema)
    → exec (close_enrollment env admin) s ≡ ok tt s'
    → (c : QueueConfig) × IsAdmin env s admin c
      × (c.status ≡ QueueStatus.enrollment_open)
      × (s' ≡ moved s c QueueStatus.enrollment_closed Kind.enrollment_closed admin env.timestamp)
unfolding close_enrollment
close_enrollment-ok env admin s s' h = ground arith

pub close-ok :
    (env : Env) (admin : ℕ) (s s' : Observed schema)
    → exec (close env admin) s ≡ ok tt s'
    → (c : QueueConfig) × IsAdmin env s admin c
      × (is_closed c.status ≡ false)
      × (s' ≡ moved s c QueueStatus.closed Kind.queue_closed admin env.timestamp)
unfolding close
close-ok env admin s s' h = ground arith
