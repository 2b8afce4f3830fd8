-- ===== src/Queue/Faults.antt =====
-- How a call of the queue contract fails.
use line_proof.Base.{ℕ, ◌+◌, ◌^◌, ◌≡◌, some, List, [], ◌∷◌, ◌⊎◌, inl, inr, arith, String}
use line_proof.Soroban.Schema.{Observed}
use line_proof.Soroban.Program.{Env, Fault, panicked, unauthorized, overflowed, returns}
use line_proof.Soroban.Exec.{fault, exec, exec-bind_fault}
use line_proof.Queue.Types.{QueueConfig, schema, config_key}
use line_proof.Queue.Admin.{initialize, propose_admin, accept_admin, upgrade, migrate}
use line_proof.Queue.Lifecycle.{open_enrollment, close_enrollment, close}
use line_proof.Queue.Positions.{
  enroll_position, cancel_position, expire_one, expire_each, require_expiry, expire_position,
  expire_positions_batch,
}
use line_proof.Queue.Advance.{advance_fifo, advance}
use line_proof.Queue.Calls.{
  Call, initialize_call, propose_admin_call, accept_admin_call, open_enrollment_call,
  close_enrollment_call, enroll_position_call, cancel_position_call, advance_call,
  expire_position_call, expire_positions_batch_call, close_call, upgrade_call, migrate_call, invoke,
}
use line_proof.Queue.Effects.Advance.{advance_fifo-runs}
use line_proof.Queue.Invariant.{IsValid, next_id, active_count-room}

-- A `panic!` of the contract's own, or a signature that is not there.
abbrev pub IsRefusal : Fault → Type 0
IsRefusal e = ((message : String) × (e ≡ panicked message)) ⊎ (e ≡ unauthorized)

initialize-IsRefusal :
    (env : Env) (admin : ℕ) (config : QueueConfig) (s : Observed schema) (e : Fault)
    → exec (initialize env admin config) s ≡ fault e
    → IsRefusal e
unfolding initialize
initialize-IsRefusal env admin config s e h = ground arith

propose_admin-IsRefusal :
    (env : Env) (current proposed : ℕ) (s : Observed schema) (e : Fault)
    → exec (propose_admin env current proposed) s ≡ fault e
    → IsRefusal e
unfolding propose_admin
propose_admin-IsRefusal env current proposed s e h = ground arith

accept_admin-IsRefusal :
    (env : Env) (proposed : ℕ) (s : Observed schema) (e : Fault)
    → exec (accept_admin env proposed) s ≡ fault e
    → IsRefusal e
unfolding accept_admin
accept_admin-IsRefusal env proposed s e h = ground arith

open_enrollment-IsRefusal :
    (env : Env) (admin : ℕ) (s : Observed schema) (e : Fault)
    → exec (open_enrollment env admin) s ≡ fault e
    → IsRefusal e
unfolding open_enrollment
open_enrollment-IsRefusal env admin s e h = ground arith

close_enrollment-IsRefusal :
    (env : Env) (admin : ℕ) (s : Observed schema) (e : Fault)
    → exec (close_enrollment env admin) s ≡ fault e
    → IsRefusal e
unfolding close_enrollment
close_enrollment-IsRefusal env admin s e h = ground arith

close-IsRefusal :
    (env : Env) (admin : ℕ) (s : Observed schema) (e : Fault)
    → exec (close env admin) s ≡ fault e
    → IsRefusal e
unfolding close
close-IsRefusal env admin s e h = ground arith

upgrade-IsRefusal :
    (env : Env) (admin hash : ℕ) (s : Observed schema) (e : Fault)
    → exec (upgrade env admin hash) s ≡ fault e
    → IsRefusal e
unfolding upgrade
upgrade-IsRefusal env admin hash s e h = ground arith

migrate-IsRefusal :
    (env : Env) (admin from to : ℕ) (s : Observed schema) (e : Fault)
    → exec (migrate env admin from to) s ≡ fault e
    → IsRefusal e
unfolding migrate
migrate-IsRefusal env admin from to s e h = ground arith

cancel_position-IsRefusal :
    (env : Env) (identity id : ℕ) (s : Observed schema) (e : Fault)
    → exec (cancel_position env identity id) s ≡ fault e
    → IsRefusal e
unfolding cancel_position
cancel_position-IsRefusal env identity id s e h = ground arith

require_expiry-IsRefusal :
    (env : Env) (admin : ℕ) (s : Observed schema) (e : Fault)
    → exec (require_expiry env admin) s ≡ fault e
    → IsRefusal e
require_expiry-IsRefusal env admin s e h = ground arith

expire_one-IsRefusal :
    (env : Env) (admin id : ℕ) (s : Observed schema) (e : Fault)
    → exec (expire_one env admin id) s ≡ fault e
    → IsRefusal e
expire_one-IsRefusal env admin id s e h = ground arith

expire_each-IsRefusal :
    (env : Env) (admin : ℕ) (ids : List ℕ) (s : Observed schema) (e : Fault)
    → exec (expire_each env admin ids) s ≡ fault e
    → IsRefusal e
expire_each-IsRefusal env admin [] s e h = absurd (cc)
expire_each-IsRefusal env admin (id ∷ ids) s e h =
    elim (exec-bind_fault (expire_one env admin id) (λ _. expire_each env admin ids) s h) [
      | inl first ↦ expire_one-IsRefusal env admin id s e first
      | inr (_, u, _, rest) ↦ expire_each-IsRefusal env admin ids u e rest
    ]

expire_position-IsRefusal :
    (env : Env) (admin id : ℕ) (s : Observed schema) (e : Fault)
    → exec (expire_position env admin id) s ≡ fault e
    → IsRefusal e
unfolding expire_position
expire_position-IsRefusal env admin id s e h =
    elim (exec-bind_fault (require_expiry env admin) (λ _. expire_one env admin id) s h) [
      | inl first ↦ require_expiry-IsRefusal env admin s e first
      | inr (_, u, _, rest) ↦ expire_one-IsRefusal env admin id u e rest
    ]

expire_positions_batch-IsRefusal :
    (env : Env) (admin : ℕ) (ids : List ℕ) (s : Observed schema) (e : Fault)
    → exec (expire_positions_batch env admin ids) s ≡ fault e
    → IsRefusal e
unfolding expire_positions_batch
expire_positions_batch-IsRefusal env admin ids s e h =
    elim (exec-bind_fault (require_expiry env admin) (λ _. expire_each env admin ids) s h) [
      | inl first ↦ require_expiry-IsRefusal env admin s e first
      | inr (_, u, _, rest) ↦ expire_each-IsRefusal env admin ids u e rest
    ]

advance_refused :
    (env : Env) (admin batch_size : ℕ) (s : Observed schema) (e : Fault)
    → exec (advance env admin batch_size) s ≡ fault e
    → IsRefusal e
      ⊎ ((c : QueueConfig) × (s.slots config_key ≡ some c)
          × (exec (advance_fifo env admin batch_size c) s ≡ fault e))
unfolding advance
advance_refused env admin batch_size s e h = ground arith

advance-IsRefusal :
    (env : Env) (admin batch_size : ℕ) (s : Observed schema) (e : Fault)
    → IsValid s
    → exec (advance env admin batch_size) s ≡ fault e
    → IsRefusal e
advance-IsRefusal env admin batch_size s e v h = elim (advance_refused env admin batch_size s e h) [
  | inl refused ↦ refused
  | inr (c, at, failed) ↦ absurd (cc (advance_fifo-runs env admin batch_size c s v at, failed))
]

-- Whether the ids of a u32 are used up.
abbrev pub IsExhausted : Observed schema → Type 0
IsExhausted s = next_id s + 1 ≡ 2 ^ 32

enroll_position-faults :
    (env : Env) (identity : ℕ) (s : Observed schema) (e : Fault)
    → IsValid s
    → exec (enroll_position env identity) s ≡ fault e
    → IsRefusal e ⊎ ((e ≡ overflowed) × IsExhausted s)
unfolding enroll_position
enroll_position-faults env identity s e v h = ground (arith, active_count-room s v, v.word)

-- From well-formed storage, a call that does not return has failed by a panic of the contract's own
-- or for want of a signature; or it would enroll the position with the last id of a u32, which
-- overflows. No entry is missing whose TTL is extended, and no `unwrap` fails.
pub invoke-refused :
    (env : Env) (call : Call) (s : Observed schema) (e : Fault)
    → IsValid s
    → exec (invoke env call) s ≡ fault e
    → IsRefusal e ⊎ ((e ≡ overflowed) × IsExhausted s)
unfolding invoke
invoke-refused env (initialize_call admin config) s e v h =
    inl (initialize-IsRefusal env admin config s e h)
invoke-refused env (propose_admin_call current proposed) s e v h =
    inl (propose_admin-IsRefusal env current proposed s e h)
invoke-refused env (accept_admin_call proposed) s e v h =
    inl (accept_admin-IsRefusal env proposed s e h)
invoke-refused env (open_enrollment_call admin) s e v h =
    inl (open_enrollment-IsRefusal env admin s e h)
invoke-refused env (close_enrollment_call admin) s e v h =
    inl (close_enrollment-IsRefusal env admin s e h)
invoke-refused env (enroll_position_call identity) s e v h =
    elim (exec-bind_fault (enroll_position env identity) (λ _. returns tt) s h) [
      | inl first ↦ enroll_position-faults env identity s e v first
      | inr (_, u, _, rest) ↦ absurd (cc)
    ]
invoke-refused env (cancel_position_call identity id) s e v h =
    inl (cancel_position-IsRefusal env identity id s e h)
invoke-refused env (advance_call admin batch_size) s e v h =
    elim (exec-bind_fault (advance env admin batch_size) (λ _. returns tt) s h) [
      | inl first ↦ inl (advance-IsRefusal env admin batch_size s e v first)
      | inr (_, u, _, rest) ↦ absurd (cc)
    ]
invoke-refused env (expire_position_call admin id) s e v h =
    inl (expire_position-IsRefusal env admin id s e h)
invoke-refused env (expire_positions_batch_call admin ids) s e v h =
    inl (expire_positions_batch-IsRefusal env admin ids s e h)
invoke-refused env (close_call admin) s e v h = inl (close-IsRefusal env admin s e h)
invoke-refused env (upgrade_call admin hash) s e v h = inl (upgrade-IsRefusal env admin hash s e h)
invoke-refused env (migrate_call admin from to) s e v h =
    inl (migrate-IsRefusal env admin from to s e h)
