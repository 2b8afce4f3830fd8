-- ===== src/Factory/Exact.antt =====
-- The exact conditions under which queues are deployed and upgraded.
use line_proof.Base.{ℕ, ◌≡◌, ◌≤◌, ◌<◌, ◌↔◌, none, some, true, [], ◌∷◌, ◌++◌, arith}
use line_proof.Soroban.Schema.{Observed}
use line_proof.Soroban.Program.{Env}
use line_proof.Soroban.Exec.{ok, exec}
use line_proof.Factory.Types.{QueueMetadata, FactoryConfig, Kind, config_key, schema}
use line_proof.Factory.Contract.{deploy_queue, upgrade_queue}
use line_proof.Factory.Effects.{
  registry, slugs, listed, replaced, new_metadata, IsAdmin, IsApproved, deploy_queue-ok,
  upgrade_queue-ok,
}

deploy_queue-runs :
    (env : Env) (deployer slug name version wasm_hash id : ℕ) (s s' : Observed schema)
    → (c : FactoryConfig) × (s.slots config_key ≡ some c)
      × (env.has_auth deployer ≡ true)
      × (c.min_version ≤ version)
      × (version ≤ c.max_version)
      × IsApproved s version wasm_hash
      × (registry s slug ≡ none)
      × (env.deploy wasm_hash wasm_hash ≡ some id)
      × (s'
          ≡ listed s slug
              (new_metadata env slug name deployer id version)
              (slugs s ++ slug ∷ [])
              Kind.deployed
              id
              version)
    → exec (deploy_queue env deployer slug name version wasm_hash) s ≡ ok id s'
unfolding deploy_queue
deploy_queue-runs env deployer slug name version wasm_hash id s s'
      (c, at, signed, low, high, approved, new, made, after) =
    ground arith

-- `deploy_queue` returns exactly if the deployer has signed, the version is within the configured
-- bounds, the hash is the approved one or approvals are off and the version has none, the slug is
-- free, and the host deploys; then the metadata is stored, the slug is the last of the index, and one
-- event is published.
pub deploy_queue-exact :
    (env : Env) (deployer slug name version wasm_hash id : ℕ) (s s' : Observed schema)
    → (exec (deploy_queue env deployer slug name version wasm_hash) s ≡ ok id s') ↔ (
        (c : FactoryConfig) × (s.slots config_key ≡ some c)
        × (env.has_auth deployer ≡ true)
        × (c.min_version ≤ version)
        × (version ≤ c.max_version)
        × IsApproved s version wasm_hash
        × (registry s slug ≡ none)
        × (env.deploy wasm_hash wasm_hash ≡ some id)
        × (s'
            ≡ listed s slug
                (new_metadata env slug name deployer id version)
                (slugs s ++ slug ∷ [])
                Kind.deployed
                id
                version))
deploy_queue-exact env deployer slug name version wasm_hash id s s' = (
  deploy_queue-ok env deployer slug name version wasm_hash id s s',
  deploy_queue-runs env deployer slug name version wasm_hash id s s',
)

upgrade_queue-runs :
    (env : Env) (admin slug new_version new_wasm_hash : ℕ) (s s' : Observed schema)
    → (c : FactoryConfig) × (m : QueueMetadata) × IsAdmin env s admin c
      × (registry s slug ≡ some m)
      × (c.min_version ≤ new_version)
      × (new_version ≤ c.max_version)
      × (m.version < new_version)
      × IsApproved s new_version new_wasm_hash
      × (s'
          ≡ replaced s slug
              (record m { version = new_version })
              Kind.upgraded
              m.contract_id
              new_version)
    → exec (upgrade_queue env admin slug new_version new_wasm_hash) s ≡ ok tt s'
unfolding upgrade_queue
upgrade_queue-runs env admin slug new_version new_wasm_hash s s'
      (c, m, right, at, low, high, up, approved, after) =
    ground arith

-- `upgrade_queue` returns exactly if the configured admin has signed, the queue is registered, the
-- new version is within the configured bounds and above the queue's, and the hash is the approved
-- one or approvals are off and the version has none; then only the queue's version has changed, and
-- one event is published.
pub upgrade_queue-exact :
    (env : Env) (admin slug new_version new_wasm_hash : ℕ) (s s' : Observed schema)
    → (exec (upgrade_queue env admin slug new_version new_wasm_hash) s ≡ ok tt s') ↔ (
        (c : FactoryConfig) × (m : QueueMetadata) × IsAdmin env s admin c
        × (registry s slug ≡ some m)
        × (c.min_version ≤ new_version)
        × (new_version ≤ c.max_version)
        × (m.version < new_version)
        × IsApproved s new_version new_wasm_hash
        × (s'
            ≡ replaced s slug
                (record m { version = new_version })
                Kind.upgraded
                m.contract_id
                new_version))
upgrade_queue-exact env admin slug new_version new_wasm_hash s s' = (
  upgrade_queue-ok env admin slug new_version new_wasm_hash s s',
  upgrade_queue-runs env admin slug new_version new_wasm_hash s s',
)
