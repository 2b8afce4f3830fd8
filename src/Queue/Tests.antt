-- ===== src/Queue/Tests.antt =====
-- A history of a queue of three places, and what the theorems say of it.
mod Later
use line_proof.Base.{
  ◌+◌, ◌^◌, ◌++◌, ap, ◌∙◌, ◌≡◌, ◌↔◌, ◌≤◌, ◌<◌, refl, none, some, true, false, [], ◌∷◌, arith, inl,
  ◌⊎◌,
}
use line_proof.Soroban.Schema.{Observed}
use line_proof.Soroban.Program.{Env, returns}
use line_proof.Soroban.Exec.{ok, exec, blank, exec-bind, and_then}
use line_proof.Soroban.Host.{Host, run, observe}
use line_proof.Queue.Types.{
  QueueConfig, QueueStatus, AdvancementRule, Position, PositionStatus, Kind, schema, assign,
  assign_self, assign_ne, config_key, pending_key, is_pending,
}
use line_proof.Queue.Admin.{initialize, propose_admin}
use line_proof.Queue.Lifecycle.{open_enrollment, close_enrollment}
use line_proof.Queue.Positions.{enroll_position, cancel_position}
use line_proof.Queue.Advance.{advance}
use line_proof.Queue.Calls.{
  initialize_call, open_enrollment_call, close_enrollment_call, enroll_position_call, advance_call,
  propose_admin_call, invoke, Reach, set_up, later,
}
use line_proof.Queue.Invariant.{IsValid, position, active_count, next_id, cursor, total, occupied}
use line_proof.Queue.Effects.Admin.{begun}
use line_proof.Queue.Effects.Lifecycle.{moved}
use line_proof.Queue.Effects.Positions.{joined, left, fresh}
use line_proof.Queue.Effects.Advance.{advance-runs, served, due}
use line_proof.Queue.Sweep.{pending_ids}
use line_proof.Queue.Histories.{Reach-IsValid}
use line_proof.Queue.Changes.{Change, invoke-Change}
use line_proof.Queue.Settled.{Keeps, invoke-Keeps}
use line_proof.Queue.Fairness.{no_overtaking, capacity_kept}
use line_proof.Queue.Audit.{replay, Reach-IsAudited}
use line_proof.Queue.Authority.{ConfigChange, invoke-config, invoke-pending}
use line_proof.Queue.Exact.{enroll_position-exact, cancel_position-exact}
use line_proof.Queue.OnHost.{HostReach, host_set_up, HostReach-Reach}

abbrev env : Env
env = record {
  timestamp = 50;
  current_contract_address = 1;
  has_auth = λ who. true;
  symbol = λ text. 0;
  sha256_xdr = λ identity queue_id enrolled_at. identity;
  deploy = λ hash salt. none;
}

abbrev config : QueueStatus → QueueConfig
config status = record {
  slug = 5;
  name = 6;
  admin = 7;
  max_positions = 3;
  enrollment_opens = 0;
  enrollment_closes = 100;
  status = status;
  version = 1;
  advancement_rule = AdvancementRule.fifo;
}

abbrev started : Observed schema
started = begun 7 (config QueueStatus.draft) blank

abbrev opened : Observed schema
opened =
    moved started (config QueueStatus.draft) QueueStatus.enrollment_open Kind.enrollment_opened 7 50

abbrev one_in : Observed schema
one_in = joined env 21 opened

abbrev two_in : Observed schema
two_in = joined env 22 one_in

abbrev shut : Observed schema
shut =
    moved two_in (config QueueStatus.enrollment_open) QueueStatus.enrollment_closed
      Kind.enrollment_closed 7 50

abbrev both_served : Observed schema
both_served = served env 7 2 (config QueueStatus.enrollment_closed) shut

started_Reach : Reach 0 started
unfolding initialize
started_Reach = set_up env 7 (config QueueStatus.draft) refl

opened_Step : exec (invoke env (open_enrollment_call 7)) started ≡ ok tt opened
unfolding invoke open_enrollment
opened_Step = refl

one_in_Step : exec (invoke env (enroll_position_call 21)) opened ≡ ok tt one_in
unfolding invoke enroll_position
one_in_Step = refl

two_in_Step : exec (invoke env (enroll_position_call 22)) one_in ≡ ok tt two_in
unfolding invoke enroll_position
two_in_Step = refl

shut_Step : exec (invoke env (close_enrollment_call 7)) two_in ≡ ok tt shut
unfolding invoke close_enrollment
shut_Step = refl

opened_Reach : Reach 0 opened
opened_Reach = later env (open_enrollment_call 7) started_Reach opened_Step

two_in_Reach : Reach 0 two_in
two_in_Reach =
    later env (enroll_position_call 22)
      (later env (enroll_position_call 21) opened_Reach one_in_Step) two_in_Step

shut_Reach : Reach 0 shut
shut_Reach = later env (close_enrollment_call 7) two_in_Reach shut_Step

both_served_Step : exec (invoke env (advance_call 7 2)) shut ≡ ok tt both_served
unfolding invoke
both_served_Step =
    exec-bind (advance env 7 2) (λ ids. returns tt) shut
    ∙ ap (λ r. and_then r (λ ids t. ok tt t))
        (advance-runs env 7 2 (config QueueStatus.enrollment_closed) shut (Reach-IsValid shut_Reach)
          ((λ e. absurd (omega (arith, e))), (refl, refl, refl), inl refl, refl))

both_served_Reach : Reach 0 both_served
both_served_Reach = later env (advance_call 7 2) shut_Reach both_served_Step

Reach-IsValid_example : IsValid both_served
Reach-IsValid_example = Reach-IsValid both_served_Reach

advance-runs_example : exec (advance env 7 2) shut ≡ ok (due shut 2) both_served
advance-runs_example =
    advance-runs env 7 2 (config QueueStatus.enrollment_closed) shut (Reach-IsValid shut_Reach)
      ((λ e. absurd (omega (arith, e))), (refl, refl, refl), inl refl, refl)

invoke-Keeps_example : Keeps shut both_served
invoke-Keeps_example =
    invoke-Keeps env (advance_call 7 2) shut both_served (Reach-IsValid shut_Reach) refl
      both_served_Step

abbrev second_served : Position
second_served = record (fresh env 22 2) { status = PositionStatus.advanced; advanced_at = some 50 }

no_overtaking_example :
    (p : Position) × (position both_served 1 ≡ some p) × (is_pending p.status ≡ false)
unfolding pending_ids
no_overtaking_example =
    no_overtaking both_served 0 2 second_served both_served_Reach (omega arith) refl refl

Reach-IsAudited_example : replay both_served.log 2 ≡ position both_served 2
Reach-IsAudited_example = Reach-IsAudited both_served both_served_Reach 2

invoke-config_example :
    ConfigChange env two_in
      (config QueueStatus.enrollment_open)
      (config QueueStatus.enrollment_closed)
    ⊎ ((close_enrollment_call 7 ≡ initialize_call 7 (config QueueStatus.enrollment_closed))
        × (env.has_auth 7 ≡ true))
invoke-config_example =
    invoke-config env (close_enrollment_call 7) two_in shut (config QueueStatus.enrollment_open)
      (config QueueStatus.enrollment_closed) (Reach-IsValid two_in_Reach) refl refl shut_Step

-- Admin 7 proposes 8.
abbrev proposed : Observed schema
proposed = record opened { slots = assign pending_key (some 8) opened.slots }

proposed_Step : exec (invoke env (propose_admin_call 7 8)) opened ≡ ok tt proposed
unfolding invoke propose_admin
proposed_Step = refl

enroll_position-exact_example : (exec (enroll_position env 22) one_in ≡ ok 2 two_in) ↔ (
    (c : QueueConfig) × (one_in.slots config_key ≡ some c)
    × (env.has_auth 22 ≡ true)
    × (c.status ≡ QueueStatus.enrollment_open)
    × (active_count one_in < c.max_positions)
    × (next_id one_in + 1 < 2 ^ 32)
    × (active_count one_in + 1 < 2 ^ 32)
    × (2 ≡ next_id one_in)
    × (two_in ≡ joined env 22 one_in))
enroll_position-exact_example = enroll_position-exact env 22 2 one_in two_in

abbrev one_out : Observed schema
one_out = left env 22 2 (fresh env 22 2) two_in

cancel_position-exact_example : (exec (cancel_position env 22 2) two_in ≡ ok tt one_out) ↔ (
    (p : Position) × (position two_in 2 ≡ some p)
    × (env.has_auth 22 ≡ true)
    × (p.identity ≡ 22)
    × (p.status ≡ PositionStatus.pending)
    × (one_out ≡ left env 22 2 p two_in))
cancel_position-exact_example = cancel_position-exact env 22 2 two_in one_out

-- The host whose store is what can be observed of it.
abbrev plain_host : Host schema
plain_host = record {
  Store = Observed schema;
  get = λ k s. s.slots k;
  events = λ s. s.log;
  put = λ k v s. record s { slots = assign k (some v) s.slots };
  remove = λ k s. record s { slots = assign k none s.slots };
  extend_ttl = λ k a b s. s;
  extend_instance_ttl = λ a b s. s;
  publish = λ e s. record s { log = s.log ++ e ∷ [] };
  get-put_self = λ k v s. assign_self k (some v) s.slots;
  get-put_ne = λ k j v s n. assign_ne k j (some v) s.slots n;
  get-remove_self = λ k s. assign_self k none s.slots;
  get-remove_ne = λ k j s n. assign_ne k j none s.slots n;
  get-extend_ttl = λ k j a b s. refl;
  get-extend_instance_ttl = λ j a b s. refl;
  get-publish = λ j e s. refl;
  events-put = λ k v s. refl;
  events-remove = λ k s. refl;
  events-extend_ttl = λ k a b s. refl;
  events-extend_instance_ttl = λ a b s. refl;
  events-publish = λ e s. refl;
}

started_HostReach : HostReach plain_host 0 started
unfolding initialize run
started_HostReach = host_set_up env 7 (config QueueStatus.draft) blank started (λ k. refl) refl refl

started_observed : Reach 0 (observe plain_host started)
started_observed = HostReach-Reach plain_host 0 started started_HostReach
