-- ===== src/Queue/Runs.antt =====
-- The calls that need no more than their guards to return.
use line_proof.Base.{
  ℕ, ◌<◌, ◌≡◌, sym, ap, ◌∙◌, none, some, true, false, List, [], ◌∷◌, ◌++◌, arith, unwrap_or,
}
use line_proof.Soroban.Schema.{Observed}
use line_proof.Soroban.Program.{Env}
use line_proof.Soroban.Exec.{ok, exec, exec-bind, and_then}
use line_proof.Queue.Types.{
  QueueConfig, draft, enrollment_open, enrollment_closed, closed, Position, PositionStatus, Kind,
  position_event, ownership_transferred, config_key, version_key, pending_key, schema, assign,
  current_version, is_closed,
}
use line_proof.Queue.Admin.{initialize, propose_admin, accept_admin, upgrade, migrate}
use line_proof.Queue.Lifecycle.{open_enrollment, close_enrollment, close}
use line_proof.Queue.Positions.{expire_one, expire_each, require_expiry, expire_positions_batch}
use line_proof.Queue.Effects.Admin.{begun}
use line_proof.Queue.Effects.Lifecycle.{IsAdmin, moved}
use line_proof.Queue.Effects.Positions.{lapsed, IsExpiring}
use line_proof.Queue.Invariant.{position}
use line_proof.Queue.Changes.{Lapses}

module _ (env : Env) (s : Observed schema) where
  pub propose_admin-runs :
      (admin proposed : ℕ) (c : QueueConfig)
      → IsAdmin env s admin c
      → exec (propose_admin env admin proposed) s
        ≡ ok tt (record s { slots = assign pending_key (some proposed) s.slots })
  unfolding propose_admin
  propose_admin-runs admin proposed c right = ground arith

  pub accept_admin-runs :
      (proposed : ℕ) (c : QueueConfig)
      → s.slots config_key ≡ some c
      → s.slots pending_key ≡ some proposed
      → env.has_auth proposed ≡ true
      → exec (accept_admin env proposed) s
        ≡ ok tt (record s {
          slots =
              assign pending_key none
                (assign config_key (some (record c { admin = proposed })) s.slots);
          log = s.log ++ ownership_transferred c.admin proposed ∷ [];
        })
  unfolding accept_admin
  accept_admin-runs proposed c at waiting signed = ground arith

  pub upgrade-runs :
      (admin hash : ℕ) (c : QueueConfig)
      → IsAdmin env s admin c
      → exec (upgrade env admin hash) s
        ≡ ok tt
            (record s { log = s.log ++ position_event Kind.upgraded 0 admin env.timestamp ∷ [] })
  unfolding upgrade
  upgrade-runs admin hash c right = ground arith

  pub migrate-runs :
      (admin from to : ℕ) (c : QueueConfig)
      → IsAdmin env s admin c
      → unwrap_or (s.slots version_key) current_version ≡ from
      → from < to
      → exec (migrate env admin from to) s
        ≡ ok tt (record s {
          slots = assign version_key (some to) s.slots;
          log = s.log ++ position_event Kind.migrated from admin to ∷ [];
        })
  unfolding migrate
  migrate-runs admin from to c right was up = ground arith

  pub open_enrollment-runs :
      (admin : ℕ) (c : QueueConfig)
      → IsAdmin env s admin c
      → c.status ≡ draft
      → exec (open_enrollment env admin) s
        ≡ ok tt (moved s c enrollment_open Kind.enrollment_opened admin env.timestamp)
  unfolding open_enrollment
  open_enrollment-runs admin c right was = ground arith

  pub close_enrollment-runs :
      (admin : ℕ) (c : QueueConfig)
      → IsAdmin env s admin c
      → c.status ≡ enrollment_open
      → exec (close_enrollment env admin) s
        ≡ ok tt (moved s c enrollment_closed Kind.enrollment_closed admin env.timestamp)
  unfolding close_enrollment
  close_enrollment-runs admin c right was = ground arith

  pub close-runs :
      (admin : ℕ) (c : QueueConfig)
      → IsAdmin env s admin c
      → is_closed c.status ≡ false
      → exec (close env admin) s ≡ ok tt (moved s c closed Kind.queue_closed admin env.timestamp)
  unfolding close
  close-runs admin c right was = ground arith

  pub expire_one-runs :
      (admin id : ℕ) (p : Position)
      → position s id ≡ some p
      → p.status ≡ PositionStatus.pending
      → exec (expire_one env admin id) s ≡ ok tt (lapsed env admin id p s)
  expire_one-runs admin id p at wait = ground arith

  pub require_expiry-runs :
      (admin : ℕ) (c : QueueConfig)
      → IsAdmin env s admin c
      → IsExpiring c
      → exec (require_expiry env admin) s ≡ ok tt s
  require_expiry-runs admin c right expiring = ground arith

expire_each-runs :
    (env : Env) (admin : ℕ) (ids : List ℕ) (s s' : Observed schema)
    → Lapses env admin ids s s'
    → exec (expire_each env admin ids) s ≡ ok tt s'
expire_each-runs env admin [] s s' same = ap (ok tt) (sym same)
expire_each-runs env admin (id ∷ ids) s s' (p, at, wait, rest) =
    exec-bind (expire_one env admin id) (λ _. expire_each env admin ids) s
    ∙ ap (λ r. and_then r (λ _ t. exec (expire_each env admin ids) t))
        (expire_one-runs env s admin id p at wait)
    ∙ expire_each-runs env admin ids (lapsed env admin id p s) s' rest

pub expire_positions_batch-runs :
    (env : Env) (admin : ℕ) (ids : List ℕ) (c : QueueConfig) (s s' : Observed schema)
    → IsAdmin env s admin c
    → IsExpiring c
    → Lapses env admin ids s s'
    → exec (expire_positions_batch env admin ids) s ≡ ok tt s'
unfolding expire_positions_batch
expire_positions_batch-runs env admin ids c s s' right expiring lapses =
    exec-bind (require_expiry env admin) (λ _. expire_each env admin ids) s
    ∙ ap (λ r. and_then r (λ _ t. exec (expire_each env admin ids) t))
        (require_expiry-runs env s admin c right expiring)
    ∙ expire_each-runs env admin ids s s' lapses

pub initialize-runs :
    (env : Env) (admin : ℕ) (config : QueueConfig) (s : Observed schema)
    → env.has_auth admin ≡ true
    → config.admin ≡ admin
    → exec (initialize env admin config) s ≡ ok tt (begun admin config s)
unfolding initialize
initialize-runs env admin config s signed own = ground arith
