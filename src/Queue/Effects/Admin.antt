-- ===== src/Queue/Effects/Admin.antt =====
-- What a returned call of an administrative entry point has checked and done.
use line_proof.Base.{ℕ, ◌<◌, ◌≡◌, none, some, true, [], ◌∷◌, ◌++◌, arith, unwrap_or}
use line_proof.Soroban.Schema.{Observed}
use line_proof.Soroban.Program.{Env}
use line_proof.Soroban.Exec.{ok, exec}
use line_proof.Queue.Types.{
  QueueConfig, Kind, position_event, ownership_transferred, schema, config_key, next_id_key,
  active_key, idx_key, version_key, pending_key, assign, current_version,
}
use line_proof.Queue.Admin.{initialize, propose_admin, accept_admin, upgrade, migrate}
use line_proof.Queue.Effects.Lifecycle.{IsAdmin}

-- The storage that `initialize` leaves.
abbrev pub begun : ℕ → QueueConfig → Observed schema → Observed schema
begun admin config s = record {
  slots = assign version_key (some current_version) (
      assign idx_key (some 0) (
        assign active_key (some 0)
          (assign next_id_key (some 1) (assign config_key (some config) s.slots))));
  log = s.log ++ position_event Kind.initialized 0 admin 0 ∷ [];
}

-- There is no guard against a second call.
pub initialize-ok :
    (env : Env) (admin : ℕ) (config : QueueConfig) (s s' : Observed schema)
    → exec (initialize env admin config) s ≡ ok tt s'
    → (env.has_auth admin ≡ true) × (config.admin ≡ admin) × (s' ≡ begun admin config s)
unfolding initialize
initialize-ok env admin config s s' h = ground arith

pub propose_admin-ok :
    (env : Env) (admin proposed : ℕ) (s s' : Observed schema)
    → exec (propose_admin env admin proposed) s ≡ ok tt s'
    → (c : QueueConfig) × IsAdmin env s admin c
      × (s' ≡ record s { slots = assign pending_key (some proposed) s.slots })
unfolding propose_admin
propose_admin-ok env admin proposed s s' h = ground arith

pub accept_admin-ok :
    (env : Env) (proposed : ℕ) (s s' : Observed schema)
    → exec (accept_admin env proposed) s ≡ ok tt s'
    → (c : QueueConfig) × (s.slots config_key ≡ some c)
      × (s.slots pending_key ≡ some proposed)
      × (env.has_auth proposed ≡ true)
      × (s' ≡ record {
        slots =
            assign pending_key none
              (assign config_key (some (record c { admin = proposed })) s.slots);
        log = s.log ++ ownership_transferred c.admin proposed ∷ [];
      })
unfolding accept_admin
accept_admin-ok env proposed s s' h = ground arith

pub upgrade-ok :
    (env : Env) (admin hash : ℕ) (s s' : Observed schema)
    → exec (upgrade env admin hash) s ≡ ok tt s'
    → (c : QueueConfig) × IsAdmin env s admin c
      × (s' ≡ record s { log = s.log ++ position_event Kind.upgraded 0 admin env.timestamp ∷ [] })
unfolding upgrade
upgrade-ok env admin hash s s' h = ground arith

pub migrate-ok :
    (env : Env) (admin from to : ℕ) (s s' : Observed schema)
    → exec (migrate env admin from to) s ≡ ok tt s'
    → (c : QueueConfig) × IsAdmin env s admin c
      × (unwrap_or (s.slots version_key) current_version ≡ from)
      × (from < to)
      × (s' ≡ record {
        slots = assign version_key (some to) s.slots;
        log = s.log ++ position_event Kind.migrated from admin to ∷ [];
      })
unfolding migrate
migrate-ok env admin from to s s' h = ground arith
