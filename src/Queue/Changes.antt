-- ===== src/Queue/Changes.antt =====
-- The queue contract as a transition system: what a call may do to the storage, and by whose right.
use line_proof.Base.{
  ℕ, ◌+◌, ◌^◌, true, ◌≡◌, ◌<◌, none, some, subst, false, List, [], ◌∷◌, ◌++◌, unwrap_or,
}
use line_proof.Soroban.Schema.{Observed}
use line_proof.Soroban.Program.{Env, returns}
use line_proof.Soroban.Exec.{ok, exec, exec-bind_ok}
use line_proof.Queue.Types.{
  QueueConfig, QueueStatus, draft, enrollment_open, enrollment_closed, closed, Position,
  PositionStatus, Kind, position_event, ownership_transferred, config_key, version_key, pending_key,
  schema, assign, current_version, is_closed,
}
use line_proof.Queue.Positions.{
  enroll_position, expire_one, expire_each, require_expiry, expire_positions_batch,
}
use line_proof.Queue.Advance.{advance}
use line_proof.Queue.Calls.{
  Call, set_ups, initialize_call, propose_admin_call, accept_admin_call, open_enrollment_call,
  close_enrollment_call, enroll_position_call, cancel_position_call, advance_call,
  expire_position_call, expire_positions_batch_call, close_call, upgrade_call, migrate_call, invoke,
}
use line_proof.Queue.Effects.Lifecycle.{
  IsAdmin, moved, open_enrollment-ok, close_enrollment-ok, close-ok,
}
use line_proof.Queue.Effects.Admin.{
  begun, propose_admin-ok, accept_admin-ok, upgrade-ok, migrate-ok,
}
use line_proof.Queue.Effects.Positions.{
  joined, left, lapsed, IsExpiring, enroll_position-ok, cancel_position-ok, expire_one-ok,
  require_expiry-ok, expire_position-ok,
}
use line_proof.Queue.Effects.Advance.{MayAdvance, served, advance-ok}
use line_proof.Queue.Invariant.{IsValid, position, next_id, active_count}

-- The moves of the status that an operator makes, with the event that each publishes.
pub data Moves : QueueStatus → QueueStatus → Kind → Type 0 where
  opens : Moves draft enrollment_open Kind.enrollment_opened
  ends : Moves enrollment_open enrollment_closed Kind.enrollment_closed
  shuts : {a : QueueStatus} → is_closed a ≡ false → Moves a closed Kind.queue_closed

-- The positions `ids`, each pending when its turn comes, expire one after the other.
abbrev pub Lapses : Env → ℕ → List ℕ → Observed schema → Observed schema → Type 0
Lapses env admin [] s s' = s' ≡ s
Lapses env admin (id ∷ ids) s s' =
    (p : Position) × (position s id ≡ some p)
    × (p.status ≡ PositionStatus.pending)
    × Lapses env admin ids (lapsed env admin id p s) s'

-- The contract is set up anew, by anybody who signs as the admin of the new configuration.
abbrev pub Restart : Env → Observed schema → Observed schema → Type 0
Restart env s s' =
    (admin : ℕ) × (config : QueueConfig) × (env.has_auth admin ≡ true)
    × (config.admin ≡ admin)
    × (s' ≡ begun admin config s)

pub data Change (env : Env) (s s' : Observed schema) : Type 0 where
  propose :
      (admin proposed : ℕ) (c : QueueConfig)
      → IsAdmin env s admin c
      → s' ≡ record s { slots = assign pending_key (some proposed) s.slots }
      → Change env s s'
  accept :
      (proposed : ℕ) (c : QueueConfig)
      → s.slots config_key ≡ some c
      → s.slots pending_key ≡ some proposed
      → env.has_auth proposed ≡ true
      → s' ≡ record {
        slots =
            assign pending_key none
              (assign config_key (some (record c { admin = proposed })) s.slots);
        log = s.log ++ ownership_transferred c.admin proposed ∷ [];
      }
      → Change env s s'
  move :
      (admin : ℕ) (c : QueueConfig) (status : QueueStatus) (kind : Kind)
      → IsAdmin env s admin c
      → Moves c.status status kind
      → s' ≡ moved s c status kind admin env.timestamp
      → Change env s s'
  join :
      (identity : ℕ) (c : QueueConfig)
      → s.slots config_key ≡ some c
      → env.has_auth identity ≡ true
      → c.status ≡ enrollment_open
      → active_count s < c.max_positions
      → next_id s + 1 < 2 ^ 32
      → s' ≡ joined env identity s
      → Change env s s'
  leave :
      (identity id : ℕ) (p : Position)
      → position s id ≡ some p
      → env.has_auth identity ≡ true
      → p.identity ≡ identity
      → p.status ≡ PositionStatus.pending
      → s' ≡ left env identity id p s
      → Change env s s'
  serve :
      (admin batch_size : ℕ) (c : QueueConfig)
      → MayAdvance env admin batch_size c s
      → s' ≡ served env admin batch_size c s
      → Change env s s'
  lapse :
      (admin : ℕ) (ids : List ℕ) (c : QueueConfig)
      → IsAdmin env s admin c
      → IsExpiring c
      → Lapses env admin ids s s'
      → Change env s s'
  note :
      (admin : ℕ) (c : QueueConfig)
      → IsAdmin env s admin c
      → s' ≡ record s { log = s.log ++ position_event Kind.upgraded 0 admin env.timestamp ∷ [] }
      → Change env s s'
  renumber :
      (admin from to : ℕ) (c : QueueConfig)
      → IsAdmin env s admin c
      → unwrap_or (s.slots version_key) current_version ≡ from
      → from < to
      → s' ≡ record {
        slots = assign version_key (some to) s.slots;
        log = s.log ++ position_event Kind.migrated from admin to ∷ [];
      }
      → Change env s s'

expire_each-Lapses :
    (env : Env) (admin : ℕ) (ids : List ℕ) (s s' : Observed schema)
    → exec (expire_each env admin ids) s ≡ ok tt s'
    → Lapses env admin ids s s'
expire_each-Lapses env admin [] s s' h = cc
expire_each-Lapses env admin (id ∷ ids) s s' h =
    let (_, u, first, rest) =
      exec-bind_ok (expire_one env admin id) (λ _. expire_each env admin ids) s h in
    let (p, at, wait, after) = expire_one-ok env admin id s u first in
    (
      p,
      at,
      wait,
      expire_each-Lapses env admin ids _ s'
          (subst (λ t. exec (expire_each env admin ids) t ≡ ok tt s') after rest),
    )

-- From well-formed storage, each call but `initialize` that returns makes one change of the abstract transition
-- system: it proposes or accepts an admin, moves the status, lets a position join or leave, serves a
-- batch, lets positions lapse, notes an upgrade or raises the version; each by whom and when `Change`
-- permits it, with the storage and events that it states.
pub invoke-Change :
    (env : Env) (call : Call) (s s' : Observed schema)
    → IsValid s
    → set_ups call ≡ 0
    → exec (invoke env call) s ≡ ok tt s'
    → Change env s s'
unfolding invoke expire_positions_batch
invoke-Change env (initialize_call admin config) s s' v once h = absurd (cc)
invoke-Change env (propose_admin_call current proposed) s s' v once h =
    let (c, is_admin, after) = propose_admin-ok env current proposed s s' h in
    propose current proposed c is_admin after
invoke-Change env (accept_admin_call proposed) s s' v once h =
    let (c, at, waiting, signed, after) = accept_admin-ok env proposed s s' h in
    accept proposed c at waiting signed after
invoke-Change env (open_enrollment_call admin) s s' v once h =
    let (c, is_admin, was, after) = open_enrollment-ok env admin s s' h in
    move admin c enrollment_open Kind.enrollment_opened is_admin (rw was opens) after
invoke-Change env (close_enrollment_call admin) s s' v once h =
    let (c, is_admin, was, after) = close_enrollment-ok env admin s s' h in
    move admin c enrollment_closed Kind.enrollment_closed is_admin (rw was ends) after
invoke-Change env (enroll_position_call identity) s s' v once h =
    let (id, u, ran, last) = exec-bind_ok (enroll_position env identity) (λ _. returns tt) s h in
    let (c, at, signed, opened, room, fits, _, after) =
      enroll_position-ok env identity id s u ran in
    join identity c at signed opened room fits (cc)
invoke-Change env (cancel_position_call identity id) s s' v once h =
    let (p, at, signed, own, wait, after) = cancel_position-ok env identity id s s' h in
    leave identity id p at signed own wait after
invoke-Change env (advance_call admin batch_size) s s' v once h =
    let (ids, u, ran, last) = exec-bind_ok (advance env admin batch_size) (λ _. returns tt) s h in
    let (c, may, _, after) = advance-ok env admin batch_size s u ids v ran in
    serve admin batch_size c may (cc)
invoke-Change env (expire_position_call admin id) s s' v once h =
    let (c, p, is_admin, expiring, at, wait, after) = expire_position-ok env admin id s s' h in
    lapse admin (id ∷ []) c is_admin expiring (p, at, wait, after)
invoke-Change env (expire_positions_batch_call admin ids) s s' v once h =
    let (_, u, guarded, rest) =
      exec-bind_ok (require_expiry env admin) (λ _. expire_each env admin ids) s h in
    let (c, is_admin, expiring, same) = require_expiry-ok env admin s u guarded in
    lapse admin ids c is_admin expiring (
      expire_each-Lapses env admin ids s s'
        (subst (λ t. exec (expire_each env admin ids) t ≡ ok tt s') same rest))
invoke-Change env (close_call admin) s s' v once h =
    let (c, is_admin, was, after) = close-ok env admin s s' h in
    move admin c closed Kind.queue_closed is_admin (shuts was) after
invoke-Change env (upgrade_call admin hash) s s' v once h =
    let (c, is_admin, after) = upgrade-ok env admin hash s s' h in note admin c is_admin after
invoke-Change env (migrate_call admin from to) s s' v once h =
    let (c, is_admin, was, up, after) = migrate-ok env admin from to s s' h in
    renumber admin from to c is_admin was up after
