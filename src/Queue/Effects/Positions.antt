-- ===== src/Queue/Effects/Positions.antt =====
-- What a returned call that enrolls, cancels or expires a position has checked and done.
use line_proof.Base.{
  ℕ, ◌+◌, ◌-◌, ◌^◌, ◌<◌, ◌≡◌, none, some, true, ◌⊎◌, ◌∙◌, ap, [], ◌∷◌, ◌++◌, arith,
}
use line_proof.Soroban.Schema.{Observed}
use line_proof.Soroban.Program.{Env}
use line_proof.Soroban.Exec.{ok, exec, exec-bind_ok}
use line_proof.Queue.Types.{
  QueueConfig, QueueStatus, Position, PositionStatus, Kind, position_event, schema, config_key,
  next_id_key, active_key, pos_key, assign,
}
use line_proof.Queue.Positions.{
  enroll_position, cancel_position, expire_one, require_expiry, expire_position,
}
use line_proof.Queue.Effects.Lifecycle.{IsAdmin}
use line_proof.Queue.Invariant.{position, next_id, active_count}

-- A new position.
abbrev pub fresh : Env → ℕ → ℕ → Position
fresh env identity id = record {
  position_id = id;
  enrolled_at = env.timestamp;
  identity = identity;
  status = PositionStatus.pending;
  advanced_at = none;
  priority_weight = none;
}

abbrev pub joined : Env → ℕ → Observed schema → Observed schema
joined env identity s = record {
  slots = assign active_key (some (active_count s + 1)) (
      assign next_id_key (some (next_id s + 1))
        (assign (pos_key (next_id s)) (some (fresh env identity (next_id s))) s.slots));
  log = s.log ++ position_event Kind.enrolled (next_id s) identity env.timestamp ∷ [];
}

pub enroll_position-ok :
    (env : Env) (identity id : ℕ) (s s' : Observed schema)
    → exec (enroll_position env identity) s ≡ ok id s'
    → (c : QueueConfig) × (s.slots config_key ≡ some c)
      × (env.has_auth identity ≡ true)
      × (c.status ≡ QueueStatus.enrollment_open)
      × (active_count s < c.max_positions)
      × (next_id s + 1 < 2 ^ 32)
      × (id ≡ next_id s)
      × (s' ≡ joined env identity s)
unfolding enroll_position
enroll_position-ok env identity id s s' h = ground arith

abbrev pub marked : Observed schema → ℕ → Position → PositionStatus → Observed schema
marked s id p status = record s {
  slots = assign (pos_key id) (some (record p { status = status })) s.slots;
}

abbrev pub left : Env → ℕ → ℕ → Position → Observed schema → Observed schema
left env identity id p s = record {
  slots =
      assign active_key (some (active_count s - 1)) (marked s id p PositionStatus.cancelled).slots;
  log = s.log ++ position_event Kind.cancelled id identity env.timestamp ∷ [];
}

pub cancel_position-ok :
    (env : Env) (identity id : ℕ) (s s' : Observed schema)
    → exec (cancel_position env identity id) s ≡ ok tt s'
    → (p : Position) × (position s id ≡ some p)
      × (env.has_auth identity ≡ true)
      × (p.identity ≡ identity)
      × (p.status ≡ PositionStatus.pending)
      × (s' ≡ left env identity id p s)
unfolding cancel_position
cancel_position-ok env identity id s s' h = ground arith

abbrev pub lapsed : Env → ℕ → ℕ → Position → Observed schema → Observed schema
lapsed env admin id p s = record (marked s id p PositionStatus.expired) {
  log = s.log ++ position_event Kind.expired id admin env.timestamp ∷ [];
}

pub expire_one-ok :
    (env : Env) (admin id : ℕ) (s s' : Observed schema)
    → exec (expire_one env admin id) s ≡ ok tt s'
    → (p : Position) × (position s id ≡ some p)
      × (p.status ≡ PositionStatus.pending)
      × (s' ≡ lapsed env admin id p s)
expire_one-ok env admin id s s' h = ground arith

-- The queue is in a state in which positions may be expired.
abbrev pub IsExpiring : QueueConfig → Type 0
IsExpiring c = (c.status ≡ QueueStatus.advancement_active) ⊎ (c.status ≡ QueueStatus.closed)

pub require_expiry-ok :
    (env : Env) (admin : ℕ) (s s' : Observed schema)
    → exec (require_expiry env admin) s ≡ ok tt s'
    → (c : QueueConfig) × IsAdmin env s admin c × IsExpiring c × (s' ≡ s)
require_expiry-ok env admin s s' h = ground arith

pub expire_position-ok :
    (env : Env) (admin id : ℕ) (s s' : Observed schema)
    → exec (expire_position env admin id) s ≡ ok tt s'
    → (c : QueueConfig) × (p : Position) × IsAdmin env s admin c
      × IsExpiring c
      × (position s id ≡ some p)
      × (p.status ≡ PositionStatus.pending)
      × (s' ≡ lapsed env admin id p s)
unfolding expire_position
expire_position-ok env admin id s s' h =
    let (_, u, guarded, rest) =
      exec-bind_ok (require_expiry env admin) (λ _. expire_one env admin id) s h in
    let (c, is_admin, expiring, same) = require_expiry-ok env admin s u guarded in
    let (p, at, wait, after) = expire_one-ok env admin id u s' rest in
    (c, p, is_admin, expiring, cc, wait, after ∙ ap (lapsed env admin id p) same)
