-- ===== src/Factory/Tests.antt =====
-- A factory that registers, upgrades and deploys queues, and what the theorems say of it.
use line_proof.Base.{◌↔◌, ◌<◌, ◌≡◌, ◌≤◌, refl, none, some, true, false, [], ◌∷◌, ◌++◌}
use line_proof.Soroban.Schema.{Observed}
use line_proof.Soroban.Program.{Env}
use line_proof.Soroban.Exec.{ok, exec, blank}
use line_proof.Factory.Types.{
  QueueMetadata, FactoryConfig, Kind, factory_event, schema, assign, config_key, slug_index_key,
}
use line_proof.Factory.Contract.{
  initialize, deploy_queue, upgrade_queue, register_queue, destroy_queue, deactivate_queue,
}
use line_proof.Factory.Effects.{
  registry, slugs, listed, replaced, new_metadata, IsApproved, IsAdmin,
}
use line_proof.Factory.Calls.{
  register_queue_call, deactivate_queue_call, invoke, Reach, set_up, later,
}
use line_proof.Factory.Registry.{IsIndexed, Reach-IsIndexed}
use line_proof.Factory.RoundTrip.{IsRestored, register-destroy}
use line_proof.Factory.Exact.{deploy_queue-exact, upgrade_queue-exact}
use line_proof.Factory.Governance.{Becomes, invoke-Becomes}

abbrev env : Env
env = record {
  timestamp = 50;
  current_contract_address = 1;
  has_auth = λ who. true;
  symbol = λ text. 0;
  sha256_xdr = λ identity queue_id enrolled_at. identity;
  deploy = λ hash salt. some 90;
}

abbrev started : Observed schema
started = record {
  slots = assign slug_index_key (some []) (
      assign config_key (some (record { admin = 7; min_version = 1; max_version = 1 }))
        (blank {S = schema}).slots);
  log = factory_event Kind.init 0 1 0 ∷ [];
}

abbrev entry : QueueMetadata
entry = new_metadata env 5 0 7 80 1

abbrev imported : Observed schema
imported = listed started 5 entry (slugs started ++ 5 ∷ []) Kind.registered 80 1

abbrev deployed : Observed schema
deployed =
    listed started 6 (new_metadata env 6 4 21 90 1) (slugs started ++ 6 ∷ []) Kind.deployed 90 1

abbrev deactivated : Observed schema
deactivated = replaced imported 5 (record entry { active = false }) Kind.deactivated 80 1

started_Reach : Reach started
unfolding initialize
started_Reach = set_up env 7 refl

imported_Step : exec (invoke env (register_queue_call 7 5 80 1)) started ≡ ok tt imported
unfolding invoke register_queue
imported_Step = refl

deactivated_Step : exec (invoke env (deactivate_queue_call 7 5)) imported ≡ ok tt deactivated
unfolding invoke deactivate_queue
deactivated_Step = refl

Reach-IsIndexed_example : IsIndexed imported
Reach-IsIndexed_example =
    Reach-IsIndexed imported (later env (register_queue_call 7 5 80 1) started_Reach imported_Step)

invoke-Becomes_example : Becomes env imported entry (registry deactivated 5)
invoke-Becomes_example =
    invoke-Becomes env (deactivate_queue_call 7 5) imported deactivated 5 entry refl
      deactivated_Step

deploy_queue-exact_example : (exec (deploy_queue env 21 6 4 1 33) started ≡ ok 90 deployed) ↔ (
    (c : FactoryConfig) × (started.slots config_key ≡ some c)
    × (env.has_auth 21 ≡ true)
    × (c.min_version ≤ 1)
    × (1 ≤ c.max_version)
    × IsApproved started 1 33
    × (registry started 6 ≡ none)
    × (env.deploy 33 33 ≡ some 90)
    × (deployed
        ≡ listed started 6
            (new_metadata env 6 4 21 90 1)
            (slugs started ++ 6 ∷ [])
            Kind.deployed
            90
            1))
deploy_queue-exact_example = deploy_queue-exact env 21 6 4 1 33 90 started deployed

-- The admin allows versions up to 3.
abbrev widened : Observed schema
widened = record imported {
  slots =
      assign config_key (some (record { admin = 7; min_version = 1; max_version = 3 }))
        imported.slots;
}

abbrev upgraded : Observed schema
upgraded = replaced widened 5 (record entry { version = 2 }) Kind.upgraded 80 2

upgrade_queue-exact_example : (exec (upgrade_queue env 7 5 2 33) widened ≡ ok tt upgraded) ↔ (
    (c : FactoryConfig) × (m : QueueMetadata) × IsAdmin env widened 7 c
    × (registry widened 5 ≡ some m)
    × (c.min_version ≤ 2)
    × (2 ≤ c.max_version)
    × (m.version < 2)
    × IsApproved widened 2 33
    × (upgraded ≡ replaced widened 5 (record m { version = 2 }) Kind.upgraded m.contract_id 2))
upgrade_queue-exact_example = upgrade_queue-exact env 7 5 2 33 widened upgraded

imported_register : exec (register_queue env 7 5 80 1) started ≡ ok tt imported
unfolding register_queue
imported_register = refl

register-destroy_example :
    (u : Observed schema) × (exec (destroy_queue env 7 5) imported ≡ ok tt u) × IsRestored started u
register-destroy_example =
    register-destroy env env 7 5 80 1 started imported (Reach-IsIndexed started started_Reach)
      imported_register refl
