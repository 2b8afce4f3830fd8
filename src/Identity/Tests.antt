-- ===== src/Identity/Tests.antt =====
-- An identity that binds a queue and is revoked, and what the theorems say of it.
use line_proof.Base.{◌≡◌, ◌↔◌, ◌<◌, refl, none, some, true, false, length, contains}
use line_proof.Soroban.Schema.{Observed}
use line_proof.Soroban.Program.{Env}
use line_proof.Soroban.Exec.{ok, exec, blank}
use line_proof.Identity.Types.{
  BindingStatus, Kind, schema, assign, admin_key, is_revoked, max_queues_per_identity,
}
use line_proof.Identity.Contract.{bind, unbind, initialize, revoke}
use line_proof.Identity.Effects.{record_of, bound_record, unbound_record, recorded}
use line_proof.Identity.Calls.{
  bind_call, unbind_call, initialize_call, revoke_call, invoke, Reach, fresh, later,
}
use line_proof.Identity.Bindings.{Moves, invoke-Moves, IsSound, Reach-IsSound}
use line_proof.Identity.Transfers.{bind-exact}

abbrev env : Env
env = record {
  timestamp = 50;
  current_contract_address = 1;
  has_auth = λ who. true;
  symbol = λ text. 0;
  sha256_xdr = λ identity queue_id enrolled_at. identity;
  deploy = λ hash salt. none;
}

abbrev started : Observed schema
started = record blank { slots = assign admin_key (some 7) (blank {S = schema}).slots }

abbrev bound_once : Observed schema
bound_once = recorded env Kind.bound 3 21 (bound_record env 3 (record_of started 21)) started

abbrev unbound_again : Observed schema
unbound_again =
    recorded env Kind.unbound 3 21 (unbound_record 3 (record_of bound_once 21)) bound_once

abbrev cut_off : Observed schema
cut_off =
    recorded env Kind.revoked 0 21
      (record (record_of bound_once 21) { status = BindingStatus.revoked }) bound_once

abbrev cut_off_unbound : Observed schema
cut_off_unbound = recorded env Kind.unbound 3 21 (unbound_record 3 (record_of cut_off 21)) cut_off

started_Step : exec (invoke env (initialize_call 7)) blank ≡ ok tt started
unfolding invoke initialize
started_Step = refl

bound_once_Step : exec (bind env 21 3) started ≡ ok tt bound_once
unfolding bind
bound_once_Step = refl

bound_once_call : exec (invoke env (bind_call 21 3)) started ≡ ok tt bound_once
unfolding invoke
bound_once_call = bound_once_Step

unbound_again_Step : exec (unbind env 21 3) bound_once ≡ ok tt unbound_again
unfolding unbind
unbound_again_Step = refl

cut_off_Step : exec (invoke env (revoke_call 7 21)) bound_once ≡ ok tt cut_off
unfolding invoke revoke
cut_off_Step = refl

cut_off_unbound_Step : exec (invoke env (unbind_call 21 3)) cut_off ≡ ok tt cut_off_unbound
unfolding invoke unbind
cut_off_unbound_Step = refl

bound_once_Reach : Reach bound_once
bound_once_Reach =
    later env (bind_call 21 3) (later env (initialize_call 7) fresh started_Step) bound_once_call

invoke-Moves_example : Moves env bound_once 21 (record_of bound_once 21) (record_of cut_off 21)
invoke-Moves_example = invoke-Moves env (revoke_call 7 21) bound_once cut_off cut_off_Step 21

Reach-IsSound_example : IsSound (record_of bound_once 21)
Reach-IsSound_example = Reach-IsSound bound_once bound_once_Reach 21

bind-exact_example : (exec (bind env 21 3) started ≡ ok tt bound_once) ↔ (
    (env.has_auth 21 ≡ true)
    × (is_revoked (record_of started 21).status ≡ false)
    × (contains 3 (record_of started 21).queues ≡ false)
    × (length (record_of started 21).queues < max_queues_per_identity)
    × (bound_once
        ≡ recorded env Kind.bound 3 21 (bound_record env 3 (record_of started 21)) started))
bind-exact_example = bind-exact env 21 3 started bound_once
