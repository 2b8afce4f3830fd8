-- ===== src/Identity/Effects.antt =====
-- What a returned call on the identity contract has checked and done.
use line_proof.Base.{
  ℕ, ◌<◌, ◌≡◌, Bool, none, some, true, false, [], ◌∷◌, ◌++◌, arith, unwrap_or, ◌==◌, if◌then◌else◌,
  length, contains, without, ◌⊎◌,
}
use line_proof.Soroban.Schema.{Observed}
use line_proof.Soroban.Program.{Env}
use line_proof.Soroban.Exec.{ok, exec}
use line_proof.Identity.Types.{
  BindingStatus, IdentityRecord, Kind, identity_event, admin_key, transfer_allow_key, record_key,
  attempt_key, schema, assign, is_revoked, max_queues_per_identity,
}
use line_proof.Identity.Contract.{
  no_record, bind, unbind, set_transfer_allowed, record_transfer_attempt, initialize, revoke,
}

-- The record that the contract reads for an identity.
abbrev pub record_of : Observed schema → ℕ → IdentityRecord
record_of s identity = unwrap_or (s.slots (record_key identity)) (no_record identity)

abbrev pub bound_record : Env → ℕ → IdentityRecord → IdentityRecord
bound_record env queue_id entry = record entry {
  queues = entry.queues ++ queue_id ∷ [];
  bound_at = if entry.bound_at == 0 then env.timestamp else entry.bound_at;
  status = BindingStatus.bound;
}

-- The storage with one record and one event more.
abbrev pub recorded : Env → Kind → ℕ → ℕ → IdentityRecord → Observed schema → Observed schema
recorded env kind queue_id identity entry s = record {
  slots = assign (record_key identity) (some entry) s.slots;
  log = s.log ++ identity_event kind queue_id identity env.timestamp ∷ [];
}

pub bind-ok :
    (env : Env) (identity queue_id : ℕ) (s s' : Observed schema)
    → exec (bind env identity queue_id) s ≡ ok tt s'
    → (env.has_auth identity ≡ true)
      × (is_revoked (record_of s identity).status ≡ false)
      × (contains queue_id (record_of s identity).queues ≡ false)
      × (length (record_of s identity).queues < max_queues_per_identity)
      × (s'
          ≡ recorded env Kind.bound queue_id identity
              (bound_record env queue_id (record_of s identity))
              s)
unfolding bind
bind-ok env identity queue_id s s' h = ground arith

abbrev pub unbound_record : ℕ → IdentityRecord → IdentityRecord
unbound_record queue_id entry = record entry { queues = without queue_id entry.queues }

pub unbind-ok :
    (env : Env) (identity queue_id : ℕ) (s s' : Observed schema)
    → exec (unbind env identity queue_id) s ≡ ok tt s'
    → (env.has_auth identity ≡ true)
      × (((contains queue_id (record_of s identity).queues ≡ false) × (s' ≡ s))
          ⊎ ((contains queue_id (record_of s identity).queues ≡ true)
              × (s'
                  ≡ recorded env Kind.unbound queue_id identity
                      (unbound_record queue_id (record_of s identity))
                      s)))
unfolding unbind
unbind-ok env identity queue_id s s' h = ground arith

-- `admin` has signed and is the stored admin.
abbrev pub IsAdmin : Env → Observed schema → ℕ → Type 0
IsAdmin env s admin = (env.has_auth admin ≡ true) × (s.slots admin_key ≡ some admin)

pub revoke-ok :
    (env : Env) (admin identity : ℕ) (s s' : Observed schema)
    → exec (revoke env admin identity) s ≡ ok tt s'
    → IsAdmin env s admin
      × (s'
          ≡ recorded env Kind.revoked
              (env.symbol "")
              identity
              (record (record_of s identity) { status = BindingStatus.revoked })
              s)
unfolding revoke
revoke-ok env admin identity s s' h = ground arith

pub set_transfer_allowed-ok :
    (env : Env) (admin : ℕ) (allowed : Bool) (s s' : Observed schema)
    → exec (set_transfer_allowed env admin allowed) s ≡ ok tt s'
    → IsAdmin env s admin
      × (s' ≡ record s { slots = assign transfer_allow_key (some allowed) s.slots })
unfolding set_transfer_allowed
set_transfer_allowed-ok env admin allowed s s' h = ground arith

pub initialize-ok :
    (env : Env) (admin : ℕ) (s s' : Observed schema)
    → exec (initialize env admin) s ≡ ok tt s'
    → (env.has_auth admin ≡ true)
      × (s.slots admin_key ≡ none)
      × (s' ≡ record s { slots = assign admin_key (some admin) s.slots })
unfolding initialize
initialize-ok env admin s s' h = ground arith

pub record_transfer_attempt-ok :
    (env : Env) (from to queue_id : ℕ) (s s' : Observed schema)
    → exec (record_transfer_attempt env from to queue_id) s ≡ ok tt s'
    → s' ≡ record {
      slots =
          assign
            (attempt_key from to queue_id)
            (some (record { from = from; to = to; timestamp = env.timestamp; reverted = true }))
            s.slots;
      log = s.log ++ identity_event Kind.transfer_reverted queue_id from env.timestamp ∷ [];
    }
unfolding record_transfer_attempt
record_transfer_attempt-ok env from to queue_id s s' h = ground arith
