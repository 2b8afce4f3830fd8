-- ===== src/Factory/Governance.antt =====
-- Who may change a registered queue, and how.
use line_proof.Base.{
  ℕ, ◌≤◌, ◌≡◌, ◌⊎◌, inl, inr, refl, sym, subst, ◌∙◌, Option, none, some, true, false, [], ◌∷◌, ◌++◌,
  arith, ℕ_discrete,
}
use line_proof.Soroban.Schema.{Observed}
use line_proof.Soroban.Program.{Env, returns}
use line_proof.Soroban.Exec.{ok, exec, exec-bind_ok}
use line_proof.Factory.Types.{QueueMetadata, FactoryConfig, Kind, schema}
use line_proof.Factory.Contract.{deploy_queue}
use line_proof.Factory.Effects.{
  registry, slugs, listed, replaced, new_metadata, IsAdmin, deploy_queue-ok, register_queue-ok,
  register_approved_hash-ok, deactivate_queue-ok, reactivate_queue-ok, destroy_queue-ok,
  set_config-ok, upgrade_queue-ok,
}
use line_proof.Factory.Calls.{
  Call, deploy_queue_call, register_queue_call, register_approved_hash_call, deactivate_queue_call,
  reactivate_queue_call, destroy_queue_call, set_config_call, upgrade_queue_call, invoke,
}

-- The same queue at the same version or a later one.
abbrev pub Succeeds : QueueMetadata → QueueMetadata → Type 0
Succeeds m n =
    (n.slug ≡ m.slug)
    × (n.name ≡ m.name)
    × (n.owner ≡ m.owner)
    × (n.contract_id ≡ m.contract_id)
    × (n.deployed_at ≡ m.deployed_at)
    × (m.version ≤ n.version)

-- What has become of a registered queue: it is as it was, or the admin removed or changed it.
abbrev pub Becomes : Env → Observed schema → QueueMetadata → Option QueueMetadata → Type 0
Becomes env s m now =
    (now ≡ some m)
    ⊎ ((admin : ℕ) × (c : FactoryConfig) × IsAdmin env s admin c
        × ((now ≡ none) ⊎ ((n : QueueMetadata) × (now ≡ some n) × Succeeds m n)))

listed-Becomes :
    (env : Env) (s : Observed schema) (slug : ℕ) (n : QueueMetadata) (kind : Kind)
    (contract_id version i : ℕ) (m : QueueMetadata)
    → registry s slug ≡ none
    → registry s i ≡ some m
    → Becomes env s m (registry (listed s slug n (slugs s ++ slug ∷ []) kind contract_id version) i)
listed-Becomes env s slug n kind contract_id version i m new found = inl (ground arith)

replaced-Becomes :
    (env : Env) (s : Observed schema) (admin : ℕ) (c : FactoryConfig) (slug : ℕ)
    (m n : QueueMetadata) (kind : Kind) (contract_id version i : ℕ) (o : QueueMetadata)
    → IsAdmin env s admin c
    → registry s slug ≡ some m
    → Succeeds m n
    → registry s i ≡ some o
    → Becomes env s o (registry (replaced s slug n kind contract_id version) i)
replaced-Becomes env s admin c slug m n kind contract_id version i o right at next found =
    elim (ℕ_discrete slug i) [
      | no other ↦ inl (ground arith)
      | yes same ↦
          let is_o : m ≡ o = cc in
          inr (admin, c, right, inr (n, ground arith, subst (λ x. Succeeds x n) is_o next))
    ]

-- After any call that returns, a registered queue is registered as before, or else the configured
-- admin has signed, and the queue has been removed, or has kept its slug, name, owner, contract and
-- deployment time with a version no lower.
pub invoke-Becomes :
    (env : Env) (call : Call) (s s' : Observed schema) (i : ℕ) (m : QueueMetadata)
    → registry s i ≡ some m
    → exec (invoke env call) s ≡ ok tt s'
    → Becomes env s m (registry s' i)
unfolding invoke
invoke-Becomes env (deploy_queue_call deployer slug name version hash) s s' i m found h =
    let (id, t, deployed, done) =
      exec-bind_ok (deploy_queue env deployer slug name version hash) (λ _. returns tt) s h in
    let (c, at, signed, low, high, approved, new, made, after) =
      deploy_queue-ok env deployer slug name version hash id s t deployed in
    let last : t ≡ s' = cc in
    subst (λ u. Becomes env s m (registry u i)) (sym after ∙ last)
      (listed-Becomes env s slug (new_metadata env slug name deployer id version) Kind.deployed id
        version i m new found)
invoke-Becomes env (register_queue_call admin slug contract_id version) s s' i m found h =
    let (c, right, new, after) = register_queue-ok env admin slug contract_id version s s' h in
    subst (λ u. Becomes env s m (registry u i)) (sym after)
      (listed-Becomes env s slug
        (new_metadata env slug (env.symbol "imported") admin contract_id version) Kind.registered
        contract_id version i m new found)
invoke-Becomes env (register_approved_hash_call admin version hash) s s' i m found h =
    let (c, right, after) = register_approved_hash-ok env admin version hash s s' h in
    subst (λ u. Becomes env s m (registry u i)) (sym after) (inl found)
invoke-Becomes env (deactivate_queue_call admin slug) s s' i m found h =
    let (c, n, right, at, after) = deactivate_queue-ok env admin slug s s' h in
    subst (λ u. Becomes env s m (registry u i)) (sym after)
      (replaced-Becomes env s admin c slug n (record n { active = false }) Kind.deactivated
        n.contract_id n.version i m right at (refl, refl, refl, refl, refl, omega arith) found)
invoke-Becomes env (reactivate_queue_call admin slug) s s' i m found h =
    let (c, n, right, at, after) = reactivate_queue-ok env admin slug s s' h in
    subst (λ u. Becomes env s m (registry u i)) (sym after)
      (replaced-Becomes env s admin c slug n (record n { active = true }) Kind.reactivated
        n.contract_id n.version i m right at (refl, refl, refl, refl, refl, omega arith) found)
invoke-Becomes env (destroy_queue_call admin slug) s s' i m found h =
    let (c, n, right, at, after) = destroy_queue-ok env admin slug s s' h in
    subst (λ u. Becomes env s m (registry u i)) (sym after)
      (elim (ℕ_discrete slug i) [
        | no other ↦ inl (ground arith)
        | yes same ↦ inr (admin, c, right, inl (ground arith))
      ])
invoke-Becomes env (set_config_call admin min_version max_version) s s' i m found h =
    let (c, right, after) = set_config-ok env admin min_version max_version s s' h in
    subst (λ u. Becomes env s m (registry u i)) (sym after) (inl found)
invoke-Becomes env (upgrade_queue_call admin slug version hash) s s' i m found h =
    let (c, n, right, at, low, high, up, approved, after) =
      upgrade_queue-ok env admin slug version hash s s' h in
    subst (λ u. Becomes env s m (registry u i)) (sym after)
      (replaced-Becomes env s admin c slug n (record n { version = version }) Kind.upgraded
        n.contract_id version i m right at (refl, refl, refl, refl, refl, omega arith) found)
