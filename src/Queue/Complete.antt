-- ===== src/Queue/Complete.antt =====
-- Each change of the abstract transition system, and each repeated set-up, is made by a call.
use line_proof.Base.{ℕ, ◌≡◌, ◌↔◌, refl, sym, ap, subst, ◌∙◌, ◌⊎◌, inl, inr}
use line_proof.Soroban.Schema.{Observed}
use line_proof.Soroban.Program.{Env, Program, returns, ◌>>=◌}
use line_proof.Soroban.Exec.{ok, exec, exec-bind, and_then}
use line_proof.Queue.Types.{QueueConfig, QueueStatus, Kind, schema}
use line_proof.Queue.Admin.{initialize}
use line_proof.Queue.Positions.{enroll_position}
use line_proof.Queue.Advance.{advance}
use line_proof.Queue.Calls.{
  Call, set_ups_cases, initialize_call, propose_admin_call, accept_admin_call, open_enrollment_call,
  close_enrollment_call, enroll_position_call, cancel_position_call, advance_call,
  expire_positions_batch_call, close_call, upgrade_call, migrate_call, invoke,
}
use line_proof.Queue.Effects.Lifecycle.{IsAdmin, moved}
use line_proof.Queue.Effects.Advance.{due, advance-runs}
use line_proof.Queue.Invariant.{IsValid, next_id, active_count-room}
use line_proof.Queue.Changes.{
  Moves, opens, ends, shuts, Restart, Change, propose, accept, move, join, leave, serve, lapse,
  note, renumber, invoke-Change,
}
use line_proof.Queue.Exact.{enroll_position-runs, cancel_position-runs}
use line_proof.Queue.Effects.Admin.{initialize-ok}
use line_proof.Queue.Runs.{
  initialize-runs, propose_admin-runs, accept_admin-runs, upgrade-runs, migrate-runs,
  open_enrollment-runs, close_enrollment-runs, close-runs, expire_positions_batch-runs,
}

Moves-run :
    (env : Env) (admin : ℕ) (c : QueueConfig) {a b : QueueStatus} {kind : Kind}
    (s : Observed schema)
    → IsAdmin env s admin c
    → c.status ≡ a
    → Moves a b kind
    → (call : Call) × (exec (invoke env call) s ≡ ok tt (moved s c b kind admin env.timestamp))
unfolding invoke
Moves-run env admin c s right was opens =
    (open_enrollment_call admin, open_enrollment-runs env s admin c right was)
Moves-run env admin c s right was ends =
    (close_enrollment_call admin, close_enrollment-runs env s admin c right was)
Moves-run env admin c s right was (shuts f) =
    (close_call admin, close-runs env s admin c right (rw was f))

-- A call whose result is dropped.
pub dropped :
    {A : Type 0} (p : Program schema A) (a : A) (s s' : Observed schema)
    → exec p s ≡ ok a s'
    → exec (p >>= λ _. returns tt) s ≡ ok tt s'
dropped p a s s' h = exec-bind p (λ _. returns tt) s ∙ ap (λ r. and_then r (λ _ t. ok tt t)) h

Change-runs :
    (env : Env) (s s' : Observed schema)
    → IsValid s
    → Change env s s'
    → (call : Call) × (exec (invoke env call) s ≡ ok tt s')
unfolding invoke
Change-runs env s s' v (propose admin proposed c right after) = (
  propose_admin_call admin proposed,
  propose_admin-runs env s admin proposed c right ∙ ap (ok tt) (sym after),
)
Change-runs env s s' v (accept proposed c at waiting signed after) = (
  accept_admin_call proposed,
  accept_admin-runs env s proposed c at waiting signed ∙ ap (ok tt) (sym after),
)
Change-runs env s s' v (move admin c status kind right moves after) =
    let (call, ran) = Moves-run env admin c s right refl moves in
    (call, ran ∙ ap (ok tt) (sym after))
Change-runs env s s' v (join identity c at signed opened room fits after) = (
  enroll_position_call identity,
  dropped (enroll_position env identity) (next_id s) s s' (
      enroll_position-runs env identity (next_id s) s s'
        (c, at, signed, opened, room, fits, active_count-room s v, refl, after)),
)
Change-runs env s s' v (leave identity id p at signed own wait after) = (
  cancel_position_call identity id,
  cancel_position-runs env identity id s s' (p, at, signed, own, wait, after),
)
Change-runs env s s' v (serve admin batch_size c may after) = (
  advance_call admin batch_size,
  dropped (advance env admin batch_size) (due s batch_size) s s'
      (advance-runs env admin batch_size c s v may ∙ ap (ok (due s batch_size)) (sym after)),
)
Change-runs env s s' v (lapse admin ids c right expiring lapses) = (
  expire_positions_batch_call admin ids,
  expire_positions_batch-runs env admin ids c s s' right expiring lapses,
)
Change-runs env s s' v (note admin c right after) =
    (upgrade_call admin 0, upgrade-runs env s admin 0 c right ∙ ap (ok tt) (sym after))
Change-runs env s s' v (renumber admin from to c right was up after) = (
  migrate_call admin from to,
  migrate-runs env s admin from to c right was up ∙ ap (ok tt) (sym after),
)

Restart-runs :
    (env : Env) (s s' : Observed schema)
    → Restart env s s'
    → (call : Call) × (exec (invoke env call) s ≡ ok tt s')
unfolding invoke
Restart-runs env s s' (admin, config, signed, own, after) = (
  initialize_call admin config,
  initialize-runs env admin config s signed own ∙ ap (ok tt) (sym after),
)

invoke_made :
    (env : Env) (call : Call) (s s' : Observed schema)
    → IsValid s
    → exec (invoke env call) s ≡ ok tt s'
    → Change env s s' ⊎ Restart env s s'
unfolding invoke
invoke_made env call s s' v h = elim (set_ups_cases call) [
  | inl once ↦ inl (invoke-Change env call s s' v once h)
  | inr (admin, config, is_set_up) ↦
      let ran : exec (initialize env admin config) s ≡ ok tt s' =
        subst (λ x. exec (invoke env x) s ≡ ok tt s') is_set_up h in
      let (signed, own, after) = initialize-ok env admin config s s' ran in
      inr (admin, config, signed, own, after)
]

-- From well-formed storage the contract and the abstract transition system can do the same: a storage
-- is what some call leaves when it returns exactly if it is one change away, or what is left when the
-- contract is set up again by one who signs as the new admin.
pub Change-exact :
    (env : Env) (s s' : Observed schema)
    → IsValid s
    → (Change env s s' ⊎ Restart env s s') ↔ ((call : Call) × (exec (invoke env call) s ≡ ok tt s'))
Change-exact env s s' v = (
  λ made. elim made [
    | inl change ↦ Change-runs env s s' v change
    | inr restart ↦ Restart-runs env s s' restart
  ],
  λ (call, ran). invoke_made env call s s' v ran,
)
