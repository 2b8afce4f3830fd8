-- ===== src/Factory/Registry.antt =====
-- The slug index and the registered queues.
use line_proof.Base.{
  ℕ, ◌≡◌, refl, sym, ap, subst, ◌∙◌, none, some, true, false, [], ◌∷◌, ◌++◌, arith, is_some,
  contains, IsDistinct, contains-append, contains-without, append-IsDistinct, without-IsDistinct,
}
use line_proof.Soroban.Schema.{Observed}
use line_proof.Soroban.Program.{Env, returns}
use line_proof.Soroban.Exec.{ok, exec, blank, exec-bind_ok}
use line_proof.Factory.Types.{QueueMetadata, Kind, schema}
use line_proof.Factory.Contract.{initialize, deploy_queue}
use line_proof.Factory.Effects.{
  registry, slugs, listed, replaced, new_metadata, deploy_queue-ok, register_queue-ok,
  register_approved_hash-ok, deactivate_queue-ok, reactivate_queue-ok, destroy_queue-ok,
  set_config-ok, upgrade_queue-ok,
}
use line_proof.Factory.Calls.{
  Call, deploy_queue_call, register_queue_call, register_approved_hash_call, deactivate_queue_call,
  reactivate_queue_call, destroy_queue_call, set_config_call, upgrade_queue_call, invoke, Reach,
  set_up, later,
}

pub record IsIndexed (s : Observed schema) : Type 0 where
  pub distinct : IsDistinct (slugs s)
  pub complete : (i : ℕ) → contains i (slugs s) ≡ is_some (registry s i)
  pub named : (i : ℕ) (m : QueueMetadata) → registry s i ≡ some m → m.slug ≡ i

listed-IsIndexed :
    (s : Observed schema) (slug : ℕ) (m : QueueMetadata) (kind : Kind) (contract_id version : ℕ)
    → IsIndexed s
    → registry s slug ≡ none
    → m.slug ≡ slug
    → IsIndexed (listed s slug m (slugs s ++ slug ∷ []) kind contract_id version)
listed-IsIndexed s slug m kind contract_id version v new named = record {
  distinct = append-IsDistinct slug (slugs s) v.distinct (v.complete slug ∙ ap is_some new);
  complete = λ i. ground (arith, contains-append i slug (slugs s), v.complete i);
  named = λ i n h. ground (arith, v.named i n);
}

replaced-IsIndexed :
    (s : Observed schema) (slug : ℕ) (m n : QueueMetadata) (kind : Kind) (contract_id version : ℕ)
    → IsIndexed s
    → registry s slug ≡ some m
    → n.slug ≡ m.slug
    → IsIndexed (replaced s slug n kind contract_id version)
replaced-IsIndexed s slug m n kind contract_id version v at same = record {
  distinct = v.distinct;
  complete = λ i. ground (arith, v.complete i);
  named = λ i o h. ground (arith, v.named i o, v.named slug m at);
}

-- From a slug index that lists exactly the registered slugs, each once, every call that returns
-- leads to such an index, and every metadata record is stored under its own slug.
pub invoke-IsIndexed :
    (env : Env) (call : Call) (s s' : Observed schema)
    → IsIndexed s
    → exec (invoke env call) s ≡ ok tt s'
    → IsIndexed s'
unfolding invoke
invoke-IsIndexed env (deploy_queue_call deployer slug name version hash) s s' v h =
    let (id, t, deployed, done) =
      exec-bind_ok (deploy_queue env deployer slug name version hash) (λ _. returns tt) s h in
    let (c, at, signed, low, high, approved, new, made, after) =
      deploy_queue-ok env deployer slug name version hash id s t deployed in
    subst IsIndexed (sym after ∙ (cc)) (
      listed-IsIndexed s slug (new_metadata env slug name deployer id version) Kind.deployed id
        version v new refl)
invoke-IsIndexed env (register_queue_call admin slug contract_id version) s s' v h =
    let (c, right, new, after) = register_queue-ok env admin slug contract_id version s s' h in
    subst IsIndexed (sym after) (
      listed-IsIndexed s slug
        (new_metadata env slug (env.symbol "imported") admin contract_id version) Kind.registered
        contract_id version v new refl)
invoke-IsIndexed env (register_approved_hash_call admin version hash) s s' v h =
    let (c, right, after) = register_approved_hash-ok env admin version hash s s' h in
    subst IsIndexed (sym after)
      (record { distinct = v.distinct; complete = v.complete; named = v.named })
invoke-IsIndexed env (deactivate_queue_call admin slug) s s' v h =
    let (c, m, right, at, after) = deactivate_queue-ok env admin slug s s' h in
    subst IsIndexed (sym after) (
      replaced-IsIndexed s slug m (record m { active = false }) Kind.deactivated m.contract_id
        m.version v at refl)
invoke-IsIndexed env (reactivate_queue_call admin slug) s s' v h =
    let (c, m, right, at, after) = reactivate_queue-ok env admin slug s s' h in
    subst IsIndexed (sym after) (
      replaced-IsIndexed s slug m (record m { active = true }) Kind.reactivated m.contract_id
        m.version v at refl)
invoke-IsIndexed env (destroy_queue_call admin slug) s s' v h =
    let (c, m, right, at, after) = destroy_queue-ok env admin slug s s' h in
    subst IsIndexed (sym after) (record {
      distinct = without-IsDistinct slug (slugs s) v.distinct;
      complete = λ i. ground (arith, contains-without i slug (slugs s), v.complete i);
      named = λ i n k. ground (arith, v.named i n);
    })
invoke-IsIndexed env (set_config_call admin min_version max_version) s s' v h =
    let (c, right, after) = set_config-ok env admin min_version max_version s s' h in
    subst IsIndexed (sym after)
      (record { distinct = v.distinct; complete = v.complete; named = v.named })
invoke-IsIndexed env (upgrade_queue_call admin slug version hash) s s' v h =
    let (c, m, right, at, low, high, up, approved, after) =
      upgrade_queue-ok env admin slug version hash s s' h in
    subst IsIndexed (sym after) (
      replaced-IsIndexed s slug m (record m { version = version }) Kind.upgraded m.contract_id
        version v at refl)

initialize-slugs :
    (env : Env) (admin : ℕ) (s : Observed schema)
    → exec (initialize env admin) blank ≡ ok tt s
    → slugs s ≡ []
unfolding initialize
initialize-slugs env admin s h = ground arith

initialize-registry :
    (env : Env) (admin : ℕ) (s : Observed schema)
    → exec (initialize env admin) blank ≡ ok tt s
    → (i : ℕ) → registry s i ≡ none
unfolding initialize
initialize-registry env admin s h i = ground arith

initialize-IsIndexed :
    (env : Env) (admin : ℕ) (s : Observed schema)
    → exec (initialize env admin) blank ≡ ok tt s
    → IsIndexed s
initialize-IsIndexed env admin s h = record {
  distinct = subst IsDistinct {x = []} (sym (initialize-slugs env admin s h)) tt;
  complete = λ i. rw (initialize-slugs env admin s h, initialize-registry env admin s h i) refl;
  named = λ i m k. absurd (ground (arith, initialize-registry env admin s h i));
}

-- In every reachable state the slug index lists exactly the registered slugs, each once, and every
-- metadata record is stored under its own slug.
pub Reach-IsIndexed : (s : Observed schema) → Reach s → IsIndexed s
Reach-IsIndexed _ (set_up env admin {s} h) = initialize-IsIndexed env admin s h
Reach-IsIndexed _ (later env call {s} {s'} r h) =
    invoke-IsIndexed env call s s' (Reach-IsIndexed s r) h
