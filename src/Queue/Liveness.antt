-- ===== src/Queue/Liveness.antt =====
-- The admin can serve everybody: a series of calls of `advance` returns, and serves the positions
-- that it is long enough for.
use line_proof.Base.{
  ℕ, zero, suc, ◌+◌, ◌≤◌, ◌<◌, ◌≡◌, ◌≢◌, refl, ◌∙◌, some, true, List, [], ◌∷◌, ◌⊎◌, inl, inr, arith,
  min, ltb, leb, ◌&&◌, Bool-cases, is_empty, not,
}
use line_proof.Soroban.Schema.{Observed}
use line_proof.Soroban.Program.{Env}
use line_proof.Soroban.Exec.{ok, exec}
use line_proof.Queue.Types.{
  QueueConfig, QueueStatus, AdvancementRule, Position, PositionStatus, schema, config_key,
  is_pending, is_enrollment_closed,
}
use line_proof.Queue.Advance.{advance}
use line_proof.Queue.Effects.Advance.{MayAdvance, advance-runs, served, reach, due, activated}
use line_proof.Queue.Invariant.{IsValid, position, cursor, total}
use line_proof.Queue.Keeps.{served-IsValid}
use line_proof.Queue.Progress.{stored-within}

-- The queue serves in the order of entry, and `admin` may advance it.
abbrev pub IsServing : ℕ → QueueConfig → Observed schema → Type 0
IsServing admin c s =
    (s.slots config_key ≡ some c)
    × (c.admin ≡ admin)
    × ((c.status ≡ QueueStatus.enrollment_closed) ⊎ (c.status ≡ QueueStatus.advancement_active))
    × (c.advancement_rule ≡ AdvancementRule.fifo)

-- One batch after the other, each in an invocation that the admin signs.
abbrev pub AllSigned : ℕ → List (Env × ℕ) → Type 0
AllSigned admin [] = Unit
AllSigned admin ((env, batch_size) ∷ batches) =
    (env.has_auth admin ≡ true) × (batch_size ≢ 0) × AllSigned admin batches

abbrev pub Serves : ℕ → List (Env × ℕ) → Observed schema → Observed schema → Type 0
Serves admin [] s s' = s' ≡ s
Serves admin ((env, batch_size) ∷ batches) s s' =
    (u : Observed schema) × (exec (advance env admin batch_size) s ≡ ok (due s batch_size) u)
    × Serves admin batches u s'

abbrev pub sizes : List (Env × ℕ) → ℕ
sizes [] = 0
sizes ((env, batch_size) ∷ batches) = batch_size + sizes batches

-- `p` is where it was, or it was pending and is advanced now.
abbrev Advances : Observed schema → ℕ → Position → Type 0
Advances s' i p =
    (position s' i ≡ some p)
    ⊎ ((q : Position) × (position s' i ≡ some q)
        × (q.identity ≡ p.identity)
        × (q.status ≡ PositionStatus.advanced))

-- What a series of batches leaves of a position.
record Served (batches : List (Env × ℕ)) (s s' : Observed schema) : Type 0 where
  valid : IsValid s'
  reached : cursor s' ≡ min (cursor s + sizes batches) (total s)
  advances : (i : ℕ) (p : Position) → position s i ≡ some p → Advances s' i p

served-Advances :
    (env : Env) (admin batch_size : ℕ) (c : QueueConfig) (s : Observed schema) (i : ℕ)
    (p : Position)
    → position s i ≡ some p
    → Advances (served env admin batch_size c s) i p
served-Advances env admin batch_size c s i p at =
    elim (Bool-cases
      (ltb (cursor s) i && leb i (cursor s + reach s batch_size) && is_pending p.status)) [
        | inl b ↦ inr (
          record p { status = PositionStatus.advanced; advanced_at = some env.timestamp },
          ground arith,
          refl,
          refl,
        )
        | inr b ↦ inl (ground arith)
      ]

served-IsServing :
    (env : Env) (admin batch_size : ℕ) (c : QueueConfig) (s : Observed schema)
    → IsServing admin c s
    → IsServing admin (activated c (due s batch_size)) (served env admin batch_size c s)
served-IsServing env admin batch_size c s (at, is_admin, status, rule) =
    elim (Bool-cases (not (is_empty (due s batch_size)) && is_enrollment_closed c.status)) [
      | inl e ↦ rw e (refl, is_admin, inr refl, rule)
      | inr e ↦ rw e (refl, is_admin, status, rule)
    ]

after_advanced :
    (s s' : Observed schema) (i : ℕ) (p q : Position)
    → q.identity ≡ p.identity
    → q.status ≡ PositionStatus.advanced
    → Advances s' i q
    → Advances s' i p
after_advanced s s' i p q own done (inl same) = inr (q, same, own, done)
after_advanced s s' i p q own done (inr (r, at, own', done')) = inr (r, at, own' ∙ own, done')

-- From well-formed storage of a queue that serves in the order of entry, every series of batches
-- that are not zero and that the admin signs returns, call after call; it leaves the cursor that far
-- ahead or at the last position, and of each position what it was, or the same holder's advanced one.
serves :
    (admin : ℕ) (batches : List (Env × ℕ)) (c : QueueConfig) (s : Observed schema)
    → IsValid s
    → IsServing admin c s
    → AllSigned admin batches
    → (s' : Observed schema) × Serves admin batches s s' × Served batches s s'
serves admin [] c s v on signed =
    (s, refl, record { valid = v; reached = omega (arith, v.behind); advances = λ i p at. inl at })
serves admin ((env, batch_size) ∷ batches) c s v on (signed, some_size, all) =
    let may : MayAdvance env admin batch_size c s = (some_size, (on.0, on.1, signed), on.2, on.3) in
    let u : Observed schema = served env admin batch_size c s in
    let (s', rest, after) =
      serves admin batches (activated c (due s batch_size)) u
        (served-IsValid env admin batch_size c s v may)
        (served-IsServing env admin batch_size c s on) all in
    (
      s',
      (u, advance-runs env admin batch_size c s v may, rest),
      record {
        valid = after.valid;
        reached = omega (arith, after.reached, v.behind);
        advances = λ i p at. elim (served-Advances env admin batch_size c s i p at) [
          | inl same ↦ after.advances i p same
          | inr (q, there, own, done) ↦
              after_advanced u s' i p q own done (after.advances i q there)
        ];
      },
    )

-- From well-formed storage of a queue that serves in the order of entry, and for any series of
-- batches that are not zero and that the admin signs: all calls of `advance` return, one after the
-- other, and a pending position that is no farther from the cursor than the batches add up to is
-- advanced at the end, for the same holder.
pub Serves-advances :
    (admin : ℕ) (batches : List (Env × ℕ)) (c : QueueConfig) (s : Observed schema) (i : ℕ)
    (p : Position)
    → IsValid s
    → IsServing admin c s
    → AllSigned admin batches
    → position s i ≡ some p
    → p.status ≡ PositionStatus.pending
    → i ≤ cursor s + sizes batches
    → (s' : Observed schema) × (q : Position) × Serves admin batches s s'
      × (position s' i ≡ some q)
      × (q.identity ≡ p.identity)
      × (q.status ≡ PositionStatus.advanced)
Serves-advances admin batches c s zero p v on signed at wait near = absurd (cc (v.no_zero))
Serves-advances admin batches c s (suc i) p v on signed at wait near =
    let (s', runs, after) = serves admin batches c s v on signed in
    let (_, high) = stored-within s (suc i) p v at in
    elim (after.advances (suc i) p at) [
      | inl same ↦
          let low : i < cursor s' = omega (arith, after.reached) in
          absurd (cc (after.valid.passed i p low same, wait))
      | inr (q, there, own, done) ↦ (s', q, runs, there, own, done)
    ]
