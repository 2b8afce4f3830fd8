-- ===== src/Escrow/Tests.antt =====
-- A deposit and its release, and what the theorems say of them.
use line_proof.Base.{◌↔◌, ◌<◌, ◌+◌, ◌*◌, ◌^◌, ◌≡◌, refl, none, some, true, if◌then◌else◌}
use line_proof.Int.{pos, ◌+ℤ◌, ◌-ℤ◌}
use line_proof.Soroban.Schema.{Observed}
use line_proof.Soroban.Program.{Env, panicked, unauthorized}
use line_proof.Soroban.Exec.{ok, fault, exec, blank}
use line_proof.Escrow.Types.{
  EscrowStatus, EscrowRecord, EscrowConfig, Kind, schema, assign, config_key,
}
use line_proof.Escrow.Contract.{deposit, release, expire, set_config, held_record, in_i128}
use line_proof.Escrow.Steps.{Admits, total_held, entry_of, deposited, settled}
use line_proof.Escrow.Calls.{
  deposit_call, release_call, set_config_call, invoke, Reach, fresh, later,
}
use line_proof.Escrow.Backing.{IsBacked}
use line_proof.Escrow.Solvent.{Reach-IsBacked}
use line_proof.Escrow.Audit.{IsReplayed, Reach-IsReplayed}
use line_proof.Escrow.Deposit.{deposit-exact}
use line_proof.Escrow.Payout.{release-exact, expire-exact}
use line_proof.Escrow.Records.{Continues, invoke-Remains}

abbrev env : Env
env = record {
  timestamp = 50;
  current_contract_address = 1;
  has_auth = λ who. true;
  symbol = λ text. 0;
  sha256_xdr = λ identity queue_id enrolled_at. identity;
  deploy = λ hash salt. none;
}

abbrev config : EscrowConfig
config = record {
  queue_id = 3;
  min_deposit = pos 1;
  max_deposit = pos 100;
  hold_period_days = 1;
  admin = 7;
}

abbrev configured : Observed schema
configured = record blank { slots = assign (config_key 3) (some config) (blank {S = schema}).slots }

abbrev ten : EscrowRecord
ten = held_record env 21 3 (pos 10) 9 86_450

abbrev paid_in : Observed schema
paid_in = deposited env 21 3 (pos 10) ten configured

abbrev paid_out : Observed schema
paid_out = settled env 21 3 ten EscrowStatus.released Kind.released paid_in

configured_Step : exec (invoke env (set_config_call 7 config)) blank ≡ ok tt configured
unfolding invoke set_config
configured_Step = refl

paid_in_Step : exec (invoke env (deposit_call 21 3 (pos 10) 9)) configured ≡ ok tt paid_in
unfolding invoke deposit in_i128 ◌+ℤ◌
paid_in_Step = refl

paid_out_Step : exec (invoke env (release_call 7 21 3)) paid_in ≡ ok tt paid_out
unfolding invoke release in_i128 ◌+ℤ◌ ◌-ℤ◌
paid_out_Step = refl

paid_in_Reach : Reach paid_in
paid_in_Reach =
    later env (deposit_call 21 3 (pos 10) 9)
      (later env (set_config_call 7 config) fresh configured_Step) paid_in_Step

Reach-IsBacked_example : IsBacked paid_in 3
Reach-IsBacked_example = Reach-IsBacked paid_in paid_in_Reach 3

release-exact_example :
    exec (release env 7 21 3) paid_in ≡ (if true then ok tt paid_out else fault unauthorized)
release-exact_example =
    release-exact env 7 21 3 ten paid_in (Reach-IsBacked paid_in paid_in_Reach 3) refl refl

expire-exact_example : exec (expire env 21 3) paid_in ≡ (
    if true
    then fault (panicked "not expired")
    else ok tt (settled env 21 3 ten EscrowStatus.expired Kind.expired paid_in))
expire-exact_example =
    expire-exact env 21 3 ten paid_in (Reach-IsBacked paid_in paid_in_Reach 3) refl refl

invoke-Remains_example :
    (next : EscrowRecord) × (entry_of paid_out 3 21 ≡ some next) × Continues env ten next
invoke-Remains_example =
    invoke-Remains env (release_call 7 21 3) paid_in paid_out 3 21 ten refl paid_out_Step

deposit-exact_example : (exec (deposit env 21 3 (pos 10) 9) configured ≡ ok tt paid_in) ↔ (
    (c : EscrowConfig) × Admits env 21 3 (pos 10) c configured
    × (env.timestamp + c.hold_period_days * 86400 < 2 ^ 64)
    × (in_i128 (total_held configured 3 +ℤ pos 10) ≡ true)
    × (paid_in
        ≡ deposited env 21 3
            (pos 10)
            (held_record env 21 3 (pos 10) 9 (env.timestamp + c.hold_period_days * 86400))
            configured))
deposit-exact_example = deposit-exact env 21 3 (pos 10) 9 configured paid_in

Reach-IsReplayed_example : IsReplayed paid_out
Reach-IsReplayed_example =
    Reach-IsReplayed paid_out (later env (release_call 7 21 3) paid_in_Reach paid_out_Step)
