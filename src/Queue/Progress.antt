-- ===== src/Queue/Progress.antt =====
-- How far the cursor gets: what every call keeps of it, and what a series of calls adds to it.
use line_proof.Base.{
  ℕ, ◌+◌, ◌≤◌, ◌≡◌, refl, sym, subst, some, false, List, [], ◌∷◌, arith, min, dec_lt, zero, suc,
}
use line_proof.Soroban.Schema.{Observed}
use line_proof.Soroban.Program.{Env, returns}
use line_proof.Soroban.Exec.{ok, exec, exec-bind_ok}
use line_proof.Queue.Types.{Position, schema, is_pending}
use line_proof.Queue.Advance.{advance}
use line_proof.Queue.Calls.{Call, advance_call, invoke, set_ups}
use line_proof.Queue.Effects.Positions.{lapsed}
use line_proof.Queue.Effects.Advance.{advance-ok, served}
use line_proof.Queue.Invariant.{IsValid, position, cursor, total}
use line_proof.Queue.Changes.{
  Lapses, Change, propose, accept, move, join, leave, serve, lapse, note, renumber, invoke-Change,
}
use line_proof.Queue.Histories.{invoke-IsValid}
use line_proof.Queue.Settled.{Keeps, Keeps-same, Keeps-trans, invoke-Keeps}

-- The cursor never goes back, and no position disappears.
abbrev pub Forward : Observed schema → Observed schema → Type 0
Forward s s' = (cursor s ≤ cursor s') × (total s ≤ total s')

Lapses-Forward :
    (env : Env) (admin : ℕ) (ids : List ℕ) (s s' : Observed schema)
    → Lapses env admin ids s s'
    → Forward s s'
Lapses-Forward env admin [] s s' same = subst (Forward s) (sym same) (omega arith, omega arith)
Lapses-Forward env admin (id ∷ ids) s s' (p, at, wait, rest) =
    Lapses-Forward env admin ids (lapsed env admin id p s) s' rest

Change-Forward : (env : Env) (s s' : Observed schema) → Change env s s' → Forward s s'
Change-Forward env s s' (propose admin proposed c right after) =
    subst (Forward s) (sym after) (omega arith, omega arith)
Change-Forward env s s' (accept proposed c at waiting signed after) =
    subst (Forward s) (sym after) (omega arith, omega arith)
Change-Forward env s s' (move admin c status kind right moves after) =
    subst (Forward s) (sym after) (omega arith, omega arith)
Change-Forward env s s' (join identity c at signed opened room fits after) =
    subst (Forward s) (sym after) (omega arith, omega arith)
Change-Forward env s s' (leave identity id p at signed own wait after) =
    subst (Forward s) (sym after) (omega arith, omega arith)
Change-Forward env s s' (serve admin batch_size c may after) =
    subst (Forward s) (sym after) (omega arith, omega arith)
Change-Forward env s s' (lapse admin ids c right expiring lapses) =
    Lapses-Forward env admin ids s s' lapses
Change-Forward env s s' (note admin c right after) =
    subst (Forward s) (sym after) (omega arith, omega arith)
Change-Forward env s s' (renumber admin from to c right was up after) =
    subst (Forward s) (sym after) (omega arith, omega arith)

-- The positions that a call asks to be looked at.
abbrev pub asked : Call → ℕ
asked (advance_call admin batch_size) = batch_size
asked _ = 0

pub invoke-Forward :
    (env : Env) (call : Call) (s s' : Observed schema)
    → IsValid s
    → set_ups call ≡ 0
    → exec (invoke env call) s ≡ ok tt s'
    → Forward s s'
invoke-Forward env call s s' v once h =
    Change-Forward env s s' (invoke-Change env call s s' v once h)

-- A returned call but `initialize` moves the cursor over all positions it asks for, or to the last.
invoke-reaches :
    (env : Env) (call : Call) (s s' : Observed schema)
    → IsValid s
    → set_ups call ≡ 0
    → exec (invoke env call) s ≡ ok tt s'
    → min (cursor s + asked call) (total s) ≤ cursor s'
unfolding invoke
invoke-reaches env (advance_call admin batch_size) s s' v once h =
    let (ids, u, ran, last) = exec-bind_ok (advance env admin batch_size) (λ _. returns tt) s h in
    let (c, may, _, after) = advance-ok env admin batch_size s u ids v ran in
    let same : s' ≡ served env admin batch_size c s = cc in
    subst (λ t. min (cursor s + batch_size) (total s) ≤ cursor t) (sym same)
      (omega (arith, v.behind))
invoke-reaches env call s s' v once h = omega (arith, (invoke-Forward env call s s' v once h).0)

-- The calls return one after the other, each on the storage that the one before has left.
abbrev pub Runs : List (Env × Call) → Observed schema → Observed schema → Type 0
Runs [] s s' = s' ≡ s
Runs ((env, call) ∷ calls) s s' =
    (u : Observed schema) × (exec (invoke env call) s ≡ ok tt u) × Runs calls u s'

abbrev pub all_asked : List (Env × Call) → ℕ
all_asked [] = 0
all_asked ((env, call) ∷ calls) = asked call + all_asked calls

-- How often the calls set the contract up.
abbrev pub all_set_ups : List (Env × Call) → ℕ
all_set_ups [] = 0
all_set_ups ((env, call) ∷ calls) = set_ups call + all_set_ups calls

-- What is left of the storage's promises after the calls.
record Along (calls : List (Env × Call)) (s s' : Observed schema) : Type 0 where
  valid : IsValid s'
  keeps : Keeps s s'
  reaches : min (cursor s + all_asked calls) (total s) ≤ cursor s'

Runs-Along :
    (calls : List (Env × Call)) (s s' : Observed schema)
    → IsValid s
    → all_set_ups calls ≡ 0
    → Runs calls s s'
    → Along calls s s'
Runs-Along [] s s' v once same =
    subst (Along [] s) (sym same)
      (record { valid = v; keeps = Keeps-same s s (λ i. refl); reaches = omega arith })
Runs-Along ((env, call) ∷ calls) s s' v once (u, ran, rest) =
    let first : set_ups call ≡ 0 = omega (arith, once) in
    let after =
      Runs-Along calls u s' (invoke-IsValid env call s u v first ran) (omega (arith, once)) rest in
    record {
      valid = after.valid;
      keeps = Keeps-trans s u s' (invoke-Keeps env call s u v first ran) after.keeps;
      reaches = omega (
        arith,
        after.reaches,
        invoke-reaches env call s u v first ran,
        (invoke-Forward env call s u v first ran).1,
      );
    }

-- A stored position has an id between 1 and the total.
pub stored-within :
    (s : Observed schema) (i : ℕ) (p : Position)
    → IsValid s
    → position s i ≡ some p
    → (1 ≤ i) × (i ≤ total s)
stored-within s zero p v at = absurd (cc (v.no_zero))
stored-within s (suc i) p v at = elim (dec_lt i (total s)) [
  | yes low ↦ (omega arith, omega arith)
  | no high ↦ absurd (cc (v.unfilled i (omega arith)))
]

-- Whatever is called in between, except `initialize`: once the batches of the returned calls of `advance` add up to
-- the distance of a position from the cursor, that position is stored, for the same holder, and is
-- no longer pending.
pub Runs-settles :
    (calls : List (Env × Call)) (s s' : Observed schema) (i : ℕ) (p : Position)
    → IsValid s
    → all_set_ups calls ≡ 0
    → Runs calls s s'
    → position s i ≡ some p
    → i ≤ cursor s + all_asked calls
    → (q : Position) × (position s' i ≡ some q)
      × (q.identity ≡ p.identity)
      × (is_pending q.status ≡ false)
Runs-settles calls s s' zero p v once runs at low = absurd (cc (v.no_zero))
Runs-settles calls s s' (suc i) p v once runs at low =
    let along = Runs-Along calls s s' v once runs in
    let (q, there, same) = along.keeps.at (suc i) p at in
    let (_, high) = stored-within s (suc i) p v at in
    (q, there, same.1, along.valid.passed i q (omega (arith, along.reaches)) there)
