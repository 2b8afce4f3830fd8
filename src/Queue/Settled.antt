-- ===== src/Queue/Settled.antt =====
-- What never changes about a position, and how its status may move.
use line_proof.Base.{
  List, [], ◌∷◌, ℕ_discrete, ltb, leb, ◌&&◌, Bool-cases, if◌then◌else◌, ◌==◌, ℕ, ◌≡◌, ◌⊎◌, inl, inr,
  refl, sym, subst, some, ◌∙◌, ◌+◌, arith,
}
use line_proof.Soroban.Schema.{Observed}
use line_proof.Soroban.Program.{Env}
use line_proof.Soroban.Exec.{ok, exec}
use line_proof.Queue.Types.{
  QueueConfig, Position, is_pending, pending, advanced, expired, cancelled, schema,
}
use line_proof.Queue.Calls.{Call, invoke, set_ups}
use line_proof.Queue.Effects.Positions.{joined, lapsed}
use line_proof.Queue.Effects.Advance.{served, reach}
use line_proof.Queue.Invariant.{IsValid, position, next_id-free, cursor}
use line_proof.Queue.Changes.{
  Lapses, Change, propose, accept, move, join, leave, serve, lapse, note, renumber, invoke-Change,
}

-- `q` is the same holder's entry as `p`; if `p` was settled, nothing of it has changed.
abbrev pub Continues : Position → Position → Type 0
Continues p q =
    (q.position_id ≡ p.position_id)
    × (q.identity ≡ p.identity)
    × (q.enrolled_at ≡ p.enrolled_at)
    × ((q ≡ p) ⊎ (p.status ≡ pending))

-- Every position of `s` is still there in `s'`.
pub record Keeps (s s' : Observed schema) : Type 0 where
  pub at :
      (i : ℕ) (p : Position)
      → position s i ≡ some p
      → (q : Position) × (position s' i ≡ some q) × Continues p q

pub Keeps-same : (s s' : Observed schema) → ((i : ℕ) → position s' i ≡ position s i) → Keeps s s'
Keeps-same s s' e = record { at = λ i p h. (p, e i ∙ h, (refl, refl, refl, inl refl)) }

pub Keeps-trans : (s t u : Observed schema) → Keeps s t → Keeps t u → Keeps s u
Keeps-trans s t u k l = record {
  at = λ i p h.
      let (q, at, c) = k.at i p h in
      let (r, at', d) = l.at i q at in
      (r, at', (d.0 ∙ c.0, d.1 ∙ c.1, d.2 ∙ c.2, ground (arith, c.3, d.3)));
}

joined-Keeps :
    (env : Env) (identity : ℕ) (s : Observed schema) → IsValid s → Keeps s (joined env identity s)
joined-Keeps env identity s v = record {
  at = λ i p h. (p, ground (arith, next_id-free s v), (refl, refl, refl, inl refl));
}

-- Storing at `id` what continues its position keeps all positions.
stored-Keeps :
    (id : ℕ) (p p' : Position) (s s' : Observed schema)
    → position s id ≡ some p
    → Continues p p'
    → ((i : ℕ) → position s' i ≡ (if id == i then some p' else position s i))
    → Keeps s s'
stored-Keeps id p p' s s' at c e = record {
  at = λ i q h. elim (ℕ_discrete id i) [
    | yes same ↦
        let is_p : p ≡ q = cc in (p', ground (arith, e i), subst (λ r. Continues r p') is_p c)
    | no other ↦ (q, ground (arith, e i), (refl, refl, refl, inl refl))
  ];
}

served-Keeps :
    (env : Env) (admin batch_size : ℕ) (c : QueueConfig) (s : Observed schema)
    → Keeps s (served env admin batch_size c s)
served-Keeps env admin batch_size c s = record {
  at = λ i p h.
      elim (Bool-cases
        (ltb (cursor s) i && leb i (cursor s + reach s batch_size) && is_pending p.status)) [
          | inl b ↦ (
            record p { status = advanced; advanced_at = some env.timestamp },
            ground arith,
            (refl, refl, refl, ground arith),
          )
          | inr b ↦ (p, ground arith, (refl, refl, refl, inl refl))
        ];
}

Lapses-Keeps :
    (env : Env) (admin : ℕ) (ids : List ℕ) (s s' : Observed schema)
    → Lapses env admin ids s s'
    → Keeps s s'
Lapses-Keeps env admin [] s s' same = subst (Keeps s) (sym same) (Keeps-same s s (λ i. refl))
Lapses-Keeps env admin (id ∷ ids) s s' (p, at, wait, rest) =
    Keeps-trans s (lapsed env admin id p s) s'
      (stored-Keeps id p (record p { status = expired }) s _ at (refl, refl, refl, inr wait)
        (λ i. refl))
      (Lapses-Keeps env admin ids (lapsed env admin id p s) s' rest)

Change-Keeps : (env : Env) (s s' : Observed schema) → IsValid s → Change env s s' → Keeps s s'
Change-Keeps env s s' v (propose admin proposed c right after) =
    subst (Keeps s) (sym after) (Keeps-same s _ (λ i. refl))
Change-Keeps env s s' v (accept proposed c at waiting signed after) =
    subst (Keeps s) (sym after) (Keeps-same s _ (λ i. refl))
Change-Keeps env s s' v (move admin c status kind right moves after) =
    subst (Keeps s) (sym after) (Keeps-same s _ (λ i. refl))
Change-Keeps env s s' v (join identity c at signed opened room fits after) =
    subst (Keeps s) (sym after) (joined-Keeps env identity s v)
Change-Keeps env s s' v (leave identity id p at signed own wait after) =
    subst (Keeps s) (sym after) (
      stored-Keeps id p (record p { status = cancelled }) s _ at (refl, refl, refl, inr wait)
        (λ i. refl))
Change-Keeps env s s' v (serve admin batch_size c may after) =
    subst (Keeps s) (sym after) (served-Keeps env admin batch_size c s)
Change-Keeps env s s' v (lapse admin ids c right expiring lapses) =
    Lapses-Keeps env admin ids s s' lapses
Change-Keeps env s s' v (note admin c right after) =
    subst (Keeps s) (sym after) (Keeps-same s _ (λ i. refl))
Change-Keeps env s s' v (renumber admin from to c right was up after) =
    subst (Keeps s) (sym after) (Keeps-same s _ (λ i. refl))

-- From well-formed storage, after any call but `initialize` that returns, each position is still stored under its id
-- with the same holder and the same time of entry; and one that was advanced, expired or cancelled
-- is stored unchanged.
pub invoke-Keeps :
    (env : Env) (call : Call) (s s' : Observed schema)
    → IsValid s
    → set_ups call ≡ 0
    → exec (invoke env call) s ≡ ok tt s'
    → Keeps s s'
invoke-Keeps env call s s' v once h = Change-Keeps env s s' v (invoke-Change env call s s' v once h)
