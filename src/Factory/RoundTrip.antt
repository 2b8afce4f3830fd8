-- ===== src/Factory/RoundTrip.antt =====
-- Registering a queue and destroying it again.
use line_proof.Base.{
  ℕ, ◌≡◌, ap, ◌∙◌, none, some, true, false, [], ◌∷◌, ◌++◌, arith, is_some, contains, without,
  without-append,
}
use line_proof.Soroban.Schema.{Observed}
use line_proof.Soroban.Program.{Env}
use line_proof.Soroban.Exec.{ok, exec}
use line_proof.Factory.Types.{
  QueueMetadata, FactoryConfig, Kind, factory_event, config_key, slug_index_key, registry_key,
  schema, assign,
}
use line_proof.Factory.Contract.{register_queue, destroy_queue}
use line_proof.Factory.Effects.{registry, slugs, listed, new_metadata, IsAdmin, register_queue-ok}
use line_proof.Factory.Registry.{IsIndexed}

-- The storage after the queue was taken out of the registry and the index.
abbrev pub removed : Observed schema → ℕ → QueueMetadata → Observed schema
removed s slug m = record {
  slots =
      assign slug_index_key (some (without slug (slugs s)))
        (assign (registry_key slug) none s.slots);
  log = s.log ++ factory_event Kind.destroyed slug m.contract_id m.version ∷ [];
}

destroy_queue-runs :
    (env : Env) (admin slug : ℕ) (c : FactoryConfig) (m : QueueMetadata) (s : Observed schema)
    → IsAdmin env s admin c
    → registry s slug ≡ some m
    → exec (destroy_queue env admin slug) s ≡ ok tt (removed s slug m)
unfolding destroy_queue
destroy_queue-runs env admin slug c m s right at = ground arith

-- The registry, the index and the configuration are the same.
abbrev pub IsRestored : Observed schema → Observed schema → Type 0
IsRestored s u =
    ((slug : ℕ) → registry u slug ≡ registry s slug)
    × (slugs u ≡ slugs s)
    × (u.slots config_key ≡ s.slots config_key)

removed-IsRestored :
    (s : Observed schema) (slug contract_id version : ℕ) (m : QueueMetadata)
    → contains slug (slugs s) ≡ false
    → registry s slug ≡ none
    → IsRestored s (
        removed (listed s slug m (slugs s ++ slug ∷ []) Kind.registered contract_id version) slug m)
removed-IsRestored s slug contract_id version m new free =
    ((λ i. ground arith), without-append slug (slugs s) new, ground arith)

-- From a slug index that lists exactly the registered slugs, each once: after `register_queue` has
-- returned, `destroy_queue` of the same slug returns, if the configured admin signs it, and leaves
-- the registry, the slug index with its order, and the configuration as they were before.
pub register-destroy :
    (env env' : Env) (admin slug contract_id version : ℕ) (s t : Observed schema)
    → IsIndexed s
    → exec (register_queue env admin slug contract_id version) s ≡ ok tt t
    → env'.has_auth admin ≡ true
    → (u : Observed schema) × (exec (destroy_queue env' admin slug) t ≡ ok tt u) × IsRestored s u
register-destroy env env' admin slug contract_id version s t v h signed =
    let (c, (_, at, own), free, after) =
      register_queue-ok env admin slug contract_id version s t h in
    let m = new_metadata env slug (env.symbol "imported") admin contract_id version in
    let l = listed s slug m (slugs s ++ slug ∷ []) Kind.registered contract_id version in
    (
      removed l slug m,
      ap (exec (destroy_queue env' admin slug)) after
          ∙ destroy_queue-runs env' admin slug c m l (signed, at, own) (ground arith),
      removed-IsRestored s slug contract_id version m (v.complete slug ∙ ap is_some free) free,
    )
