-- ===== src/Queue/Batch.antt =====
-- The batch expiry against the single one.
use line_proof.Base.{ℕ, ◌≡◌, refl, sym, ap, ◌∙◌, subst, List, [], ◌∷◌, ◌⊎◌, inl, inr}
use line_proof.Soroban.Schema.{Observed}
use line_proof.Soroban.Program.{Env, Fault, Program, ◌>>◌, returns}
use line_proof.Soroban.Exec.{Outcome, ok, fault, exec, exec-bind, and_then}
use line_proof.Queue.Types.{schema}
use line_proof.Queue.Positions.{
  expire_one, expire_each, require_expiry, expire_position, expire_positions_batch,
}
use line_proof.Queue.Effects.Positions.{expire_one-ok, require_expiry-ok, lapsed}
use line_proof.Queue.Runs.{require_expiry-runs}

-- The single entry point, position by position.
abbrev pub expire_in_turn : Env → ℕ → List ℕ → Program schema (Unit {0})
expire_in_turn env admin [] = returns tt
expire_in_turn env admin (id ∷ ids) = expire_position env admin id >> expire_in_turn env admin ids

outcome-cases :
    (r : Outcome (Observed schema) (Unit {0}))
    → ((u : Observed schema) × (r ≡ ok tt u)) ⊎ ((e : Fault) × (r ≡ fault e))
outcome-cases (ok a u) = inl (u, refl)
outcome-cases (fault e) = inr (e, refl)

module _ (env : Env) (admin : ℕ) where
  -- The guards pass.
  abbrev IsGuarded : Observed schema → Type 0
  IsGuarded s = exec (require_expiry env admin) s ≡ ok tt s

  expire_one-IsGuarded :
      (id : ℕ) (s u : Observed schema)
      → IsGuarded s
      → exec (expire_one env admin id) s ≡ ok tt u
      → IsGuarded u
  expire_one-IsGuarded id s u g h =
      let (c, right, expiring, _) = require_expiry-ok env admin s s g in
      let (p, at, wait, after) = expire_one-ok env admin id s u h in
      subst IsGuarded (sym after)
        (require_expiry-runs env (lapsed env admin id p s) admin c right expiring)

  expire_position-guarded :
      (id : ℕ) (s : Observed schema)
      → IsGuarded s
      → exec (expire_position env admin id) s ≡ exec (expire_one env admin id) s
  unfolding expire_position
  expire_position-guarded id s g =
      exec-bind (require_expiry env admin) (λ _. expire_one env admin id) s
      ∙ ap (λ r. and_then r (λ _ t. exec (expire_one env admin id) t)) g

  -- The rest of the two programs, once the first position was expired.
  abbrev rest_each :
      List ℕ → Outcome (Observed schema) (Unit {0}) → Outcome (Observed schema) (Unit {0})
  rest_each ids r = and_then r (λ _ t. exec (expire_each env admin ids) t)

  abbrev rest_in_turn :
      List ℕ → Outcome (Observed schema) (Unit {0}) → Outcome (Observed schema) (Unit {0})
  rest_in_turn ids r = and_then r (λ _ t. exec (expire_in_turn env admin ids) t)

  expire_each-in_turn :
      (ids : List ℕ) (s : Observed schema)
      → IsGuarded s
      → exec (expire_each env admin ids) s ≡ exec (expire_in_turn env admin ids) s
  expire_each-in_turn [] s g = refl
  expire_each-in_turn (id ∷ ids) s g =
      let rests : rest_each ids (exec (expire_one env admin id) s)
          ≡ rest_in_turn ids (exec (expire_one env admin id) s) =
        elim (outcome-cases (exec (expire_one env admin id) s)) [
          | inl (u, ran) ↦
              ap (rest_each ids) ran
              ∙ expire_each-in_turn ids u (expire_one-IsGuarded id s u g ran)
              ∙ ap (rest_in_turn ids) (sym ran)
          | inr (e, failed) ↦ ap (rest_each ids) failed ∙ ap (rest_in_turn ids) (sym failed)
        ] in
      exec-bind (expire_one env admin id) (λ _. expire_each env admin ids) s
      ∙ rests
      ∙ ap (rest_in_turn ids) (sym (expire_position-guarded id s g))
      ∙ sym (exec-bind (expire_position env admin id) (λ _. expire_in_turn env admin ids) s)

  guard-cases :
      (s : Observed schema)
      → IsGuarded s ⊎ ((e : Fault) × (exec (require_expiry env admin) s ≡ fault e))
  guard-cases s = elim (outcome-cases (exec (require_expiry env admin) s)) [
    | inl (u, ran) ↦
        let (_, _, _, same) = require_expiry-ok env admin s u ran in inl (ran ∙ ap (ok tt) same)
    | inr refused ↦ inr refused
  ]

  -- For one position or more, `expire_positions_batch` does what calls of `expire_position` do one
  -- after the other in one transaction: the same result and storage, or the same fault.
  pub batch-in_turn :
      (id : ℕ) (ids : List ℕ) (s : Observed schema)
      → exec (expire_positions_batch env admin (id ∷ ids)) s
        ≡ exec (expire_in_turn env admin (id ∷ ids)) s
  unfolding expire_positions_batch expire_position
  batch-in_turn id ids s =
      let guarded = λ (r : Outcome (Observed schema) (Unit {0})).
        and_then r (λ _ t. exec (expire_each env admin (id ∷ ids)) t) in
      let first = λ (r : Outcome (Observed schema) (Unit {0})).
        and_then r (λ _ t. exec (expire_one env admin id) t) in
      exec-bind (require_expiry env admin) (λ _. expire_each env admin (id ∷ ids)) s
      ∙ elim (guard-cases s) [
        | inl g ↦ ap guarded g ∙ expire_each-in_turn (id ∷ ids) s g
        | inr (e, refused) ↦
            ap guarded refused
            ∙ ap (rest_in_turn ids) (
                sym (
                  exec-bind (require_expiry env admin) (λ _. expire_one env admin id) s
                  ∙ ap first refused))
            ∙ sym (exec-bind (expire_position env admin id) (λ _. expire_in_turn env admin ids) s)
      ]
