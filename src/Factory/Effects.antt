-- ===== src/Factory/Effects.antt =====
-- What a returned call on the factory has checked and done.
use line_proof.Base.{
  ℕ, ◌<◌, ◌≤◌, ◌≡◌, Option, none, some, true, false, List, [], ◌∷◌, ◌++◌, arith, unwrap_or, without,
  ◌⊎◌,
}
use line_proof.Soroban.Schema.{Observed}
use line_proof.Soroban.Program.{Env}
use line_proof.Soroban.Exec.{ok, exec}
use line_proof.Factory.Types.{
  QueueMetadata, FactoryConfig, Kind, factory_event, config_key, slug_index_key, approvals_key,
  registry_key, approved_key, schema, assign,
}
use line_proof.Factory.Contract.{
  deploy_queue, register_queue, register_approved_hash, deactivate_queue, reactivate_queue,
  destroy_queue, set_config, upgrade_queue,
}

abbrev pub registry : Observed schema → ℕ → Option QueueMetadata
registry s slug = s.slots (registry_key slug)

abbrev pub slugs : Observed schema → List ℕ
slugs s = unwrap_or (s.slots slug_index_key) []

-- `admin` has signed and is the configured admin.
abbrev pub IsAdmin : Env → Observed schema → ℕ → FactoryConfig → Type 0
IsAdmin env s admin c =
    (env.has_auth admin ≡ true) × (s.slots config_key ≡ some c) × (c.admin ≡ admin)

-- Where approvals are on, the version has this hash approved; where they are off, it has no other.
abbrev pub IsApproved : Observed schema → ℕ → ℕ → Type 0
IsApproved s version wasm_hash =
    (s.slots (approved_key version) ≡ some wasm_hash)
    ⊎ ((s.slots (approved_key version) ≡ none) × (unwrap_or (s.slots approvals_key) false ≡ false))

-- The storage with one metadata record, one index and one event more.
abbrev pub listed : Observed schema → ℕ → QueueMetadata → List ℕ → Kind → ℕ → ℕ → Observed schema
listed s slug metadata index kind contract_id version = record {
  slots = assign slug_index_key (some index) (assign (registry_key slug) (some metadata) s.slots);
  log = s.log ++ factory_event kind slug contract_id version ∷ [];
}

abbrev pub replaced : Observed schema → ℕ → QueueMetadata → Kind → ℕ → ℕ → Observed schema
replaced s slug metadata kind contract_id version = record {
  slots = assign (registry_key slug) (some metadata) s.slots;
  log = s.log ++ factory_event kind slug contract_id version ∷ [];
}

abbrev pub new_metadata : Env → ℕ → ℕ → ℕ → ℕ → ℕ → QueueMetadata
new_metadata env slug name owner contract_id version = record {
  slug = slug;
  name = name;
  owner = owner;
  contract_id = contract_id;
  version = version;
  deployed_at = env.timestamp;
  active = true;
}

-- If `deploy_queue` returns, the deployer has signed, the version is within the configured bounds, the
-- hash is the approved one or approvals are off and the version has none, the slug was free, and the
-- host has deployed; then the metadata is stored, the slug is the last of the index, and one event
-- is published.
pub deploy_queue-ok :
    (env : Env) (deployer slug name version wasm_hash id : ℕ) (s s' : Observed schema)
    → exec (deploy_queue env deployer slug name version wasm_hash) s ≡ ok id s'
    → (c : FactoryConfig) × (s.slots config_key ≡ some c)
      × (env.has_auth deployer ≡ true)
      × (c.min_version ≤ version)
      × (version ≤ c.max_version)
      × IsApproved s version wasm_hash
      × (registry s slug ≡ none)
      × (env.deploy wasm_hash wasm_hash ≡ some id)
      × (s'
          ≡ listed s slug
              (new_metadata env slug name deployer id version)
              (slugs s ++ slug ∷ [])
              Kind.deployed
              id
              version)
unfolding deploy_queue
deploy_queue-ok env deployer slug name version wasm_hash id s s' h = ground arith

pub register_queue-ok :
    (env : Env) (admin slug contract_id version : ℕ) (s s' : Observed schema)
    → exec (register_queue env admin slug contract_id version) s ≡ ok tt s'
    → (c : FactoryConfig) × IsAdmin env s admin c
      × (registry s slug ≡ none)
      × (s'
          ≡ listed s slug
              (new_metadata env slug (env.symbol "imported") admin contract_id version)
              (slugs s ++ slug ∷ [])
              Kind.registered
              contract_id
              version)
unfolding register_queue
register_queue-ok env admin slug contract_id version s s' h = ground arith

pub register_approved_hash-ok :
    (env : Env) (admin version wasm_hash : ℕ) (s s' : Observed schema)
    → exec (register_approved_hash env admin version wasm_hash) s ≡ ok tt s'
    → (c : FactoryConfig) × IsAdmin env s admin c
      × (s' ≡ record s {
        slots =
            assign approvals_key
              (some true)
              (assign (approved_key version) (some wasm_hash) s.slots);
      })
unfolding register_approved_hash
register_approved_hash-ok env admin version wasm_hash s s' h = ground arith

pub deactivate_queue-ok :
    (env : Env) (admin slug : ℕ) (s s' : Observed schema)
    → exec (deactivate_queue env admin slug) s ≡ ok tt s'
    → (c : FactoryConfig) × (m : QueueMetadata) × IsAdmin env s admin c
      × (registry s slug ≡ some m)
      × (s'
          ≡ replaced s slug (record m { active = false }) Kind.deactivated m.contract_id m.version)
unfolding deactivate_queue
deactivate_queue-ok env admin slug s s' h = ground arith

pub reactivate_queue-ok :
    (env : Env) (admin slug : ℕ) (s s' : Observed schema)
    → exec (reactivate_queue env admin slug) s ≡ ok tt s'
    → (c : FactoryConfig) × (m : QueueMetadata) × IsAdmin env s admin c
      × (registry s slug ≡ some m)
      × (s' ≡ replaced s slug (record m { active = true }) Kind.reactivated m.contract_id m.version)
unfolding reactivate_queue
reactivate_queue-ok env admin slug s s' h = ground arith

pub destroy_queue-ok :
    (env : Env) (admin slug : ℕ) (s s' : Observed schema)
    → exec (destroy_queue env admin slug) s ≡ ok tt s'
    → (c : FactoryConfig) × (m : QueueMetadata) × IsAdmin env s admin c
      × (registry s slug ≡ some m)
      × (s' ≡ record {
        slots =
            assign slug_index_key
              (some (without slug (slugs s)))
              (assign (registry_key slug) none s.slots);
        log = s.log ++ factory_event Kind.destroyed slug m.contract_id m.version ∷ [];
      })
unfolding destroy_queue
destroy_queue-ok env admin slug s s' h = ground arith

pub set_config-ok :
    (env : Env) (admin min_version max_version : ℕ) (s s' : Observed schema)
    → exec (set_config env admin min_version max_version) s ≡ ok tt s'
    → (c : FactoryConfig) × IsAdmin env s admin c
      × (s' ≡ record s {
        slots =
            assign config_key
              (some (record c { min_version = min_version; max_version = max_version }))
              s.slots;
      })
unfolding set_config
set_config-ok env admin min_version max_version s s' h = ground arith

pub upgrade_queue-ok :
    (env : Env) (admin slug new_version new_wasm_hash : ℕ) (s s' : Observed schema)
    → exec (upgrade_queue env admin slug new_version new_wasm_hash) s ≡ ok tt s'
    → (c : FactoryConfig) × (m : QueueMetadata) × IsAdmin env s admin c
      × (registry s slug ≡ some m)
      × (c.min_version ≤ new_version)
      × (new_version ≤ c.max_version)
      × (m.version < new_version)
      × IsApproved s new_version new_wasm_hash
      × (s'
          ≡ replaced s slug
              (record m { version = new_version })
              Kind.upgraded
              m.contract_id
              new_version)
unfolding upgrade_queue
upgrade_queue-ok env admin slug new_version new_wasm_hash s s' h = ground arith
