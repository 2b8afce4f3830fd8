-- ===== src/Queue/Histories.antt =====
-- The well-formedness of storage along a history of a queue contract.
use line_proof.Base.{ℕ, arith, ◌≡◌, refl, sym, subst, none, some, List, [], ◌∷◌}
use line_proof.Soroban.Schema.{Observed}
use line_proof.Soroban.Program.{Env}
use line_proof.Soroban.Exec.{ok, exec, blank}
use line_proof.Queue.Types.{QueueConfig, QueueStatus, Kind, schema, config_key}
use line_proof.Queue.Calls.{Call, invoke, set_ups, Reach, set_up, later}
use line_proof.Queue.Changes.{
  Moves, opens, ends, shuts, Lapses, Change, propose, accept, move, join, leave, serve, lapse, note,
  renumber, invoke-Change,
}
use line_proof.Queue.Effects.Lifecycle.{moved}
use line_proof.Queue.Effects.Admin.{initialize-ok}
use line_proof.Queue.Effects.Positions.{lapsed}
use line_proof.Queue.Invariant.{IsValid}
use line_proof.Queue.Keeps.{
  log-IsValid, config-IsValid, version-IsValid, pending-IsValid, begun-IsValid, joined-IsValid,
  left-IsValid, lapsed-IsValid, served-IsValid,
}

moved-IsValid :
    (env : Env) (admin : ℕ) (c : QueueConfig) {a b : QueueStatus} {kind : Kind}
    (s : Observed schema)
    → IsValid s
    → s.slots config_key ≡ some c
    → c.status ≡ a
    → Moves a b kind
    → IsValid (moved s c b kind admin env.timestamp)
moved-IsValid env admin c s v at was opens =
    config-IsValid s c _ _ v at refl (λ e. (v.unopened c at (rw was)).0) (λ e. cc)
moved-IsValid env admin c s v at was ends = config-IsValid s c _ _ v at refl (λ e. cc) (λ e. cc)
moved-IsValid env admin c s v at was (shuts f) =
    config-IsValid s c _ _ v at refl (λ e. cc) (λ e. cc)

Lapses-IsValid :
    (env : Env) (admin : ℕ) (ids : List ℕ) (s s' : Observed schema)
    → IsValid s
    → Lapses env admin ids s s'
    → IsValid s'
Lapses-IsValid env admin [] s s' v same = subst IsValid (sym same) v
Lapses-IsValid env admin (id ∷ ids) s s' v (p, at, wait, rest) =
    Lapses-IsValid env admin ids (lapsed env admin id p s) s'
      (lapsed-IsValid env admin id p s v at wait) rest

Change-IsValid : (env : Env) (s s' : Observed schema) → IsValid s → Change env s s' → IsValid s'
Change-IsValid env s s' v (propose admin proposed c right after) =
    subst IsValid (sym after) (pending-IsValid s (some proposed) s.log v)
Change-IsValid env s s' v (accept proposed c at waiting signed after) = subst IsValid (sym after) (
    pending-IsValid _ none _
      (config-IsValid s c _ s.log v at refl (v.unserved c at) (v.unopened c at)))
Change-IsValid env s s' v (move admin c status kind right moves after) =
    subst IsValid (sym after) (moved-IsValid env admin c s v right.0 refl moves)
Change-IsValid env s s' v (join identity c at signed opened room fits after) =
    subst IsValid (sym after) (joined-IsValid env identity s c v at opened room fits)
Change-IsValid env s s' v (leave identity id p at signed own wait after) =
    subst IsValid (sym after) (left-IsValid env identity id p s v at wait)
Change-IsValid env s s' v (serve admin batch_size c may after) =
    subst IsValid (sym after) (served-IsValid env admin batch_size c s v may)
Change-IsValid env s s' v (lapse admin ids c right expiring lapses) =
    Lapses-IsValid env admin ids s s' v lapses
Change-IsValid env s s' v (note admin c right after) = subst IsValid (sym after) (log-IsValid s _ v)
Change-IsValid env s s' v (renumber admin from to c right was up after) =
    subst IsValid (sym after) (version-IsValid s to _ v)

-- From well-formed storage, every call but `initialize` that returns leaves well-formed storage.
pub invoke-IsValid :
    (env : Env) (call : Call) (s s' : Observed schema)
    → IsValid s
    → set_ups call ≡ 0
    → exec (invoke env call) s ≡ ok tt s'
    → IsValid s'
invoke-IsValid env call s s' v once h =
    Change-IsValid env s s' v (invoke-Change env call s s' v once h)

pub history-IsValid : {n : ℕ} {s : Observed schema} → Reach n s → n ≡ 0 → IsValid s
history-IsValid {s} (set_up env admin config h) once =
    let (_, _, after) = initialize-ok env admin config blank s h in
    subst IsValid (sym after) (begun-IsValid admin config)
history-IsValid (later {n} env call r h) once =
    invoke-IsValid env call _ _ (history-IsValid r (omega (arith, once))) (omega (arith, once)) h

-- In every history in which the contract is not set up a second time, the storage is well formed:
-- the ids in use are 1 up to the next id, each position stored under its own; the active count is
-- the number of positions not cancelled and within the capacity; the cursor is within the ids,
-- nobody at or before it is pending, and nobody after it is advanced; in draft there are no
-- positions, and before the close of enrollment the cursor is 0.
pub Reach-IsValid : {s : Observed schema} → Reach 0 s → IsValid s
Reach-IsValid r = history-IsValid r refl
