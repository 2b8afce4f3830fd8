-- ===== src/Queue/Authority.antt =====
-- Who may change what of a queue's configuration, and how its status moves.
use line_proof.Base.{
  ◌⊎◌, Bool-cases, not, ◌&&◌, is_empty, ℕ, ◌≡◌, ◌≢◌, ◌⊎◌, inl, inr, ap, subst, some, true, false,
  List, [], ◌∷◌, arith,
}
use line_proof.Soroban.Schema.{Observed}
use line_proof.Soroban.Program.{Env}
use line_proof.Soroban.Exec.{ok, exec}
use line_proof.Queue.Types.{
  QueueConfig, QueueStatus, draft, enrollment_open, enrollment_closed, advancement_active, closed,
  Kind, schema, config_key, pending_key, is_closed, is_enrollment_closed,
}
use line_proof.Queue.Calls.{Call, initialize_call, invoke, set_ups, set_ups_cases}
use line_proof.Queue.Changes.{
  Moves, opens, ends, shuts, Lapses, Change, propose, accept, move, join, leave, serve, lapse, note,
  renumber, invoke-Change,
}
use line_proof.Queue.Effects.Positions.{lapsed}
use line_proof.Queue.Effects.Advance.{activated, due}
use line_proof.Queue.Admin.{initialize}
use line_proof.Queue.Effects.Admin.{initialize-ok}
use line_proof.Queue.Invariant.{IsValid}

-- The lifecycle of docs/queue-lifecycle.md.
pub data Follows : QueueStatus → QueueStatus → Type 0 where
  opens_enrollment : Follows draft enrollment_open
  ends_enrollment : Follows enrollment_open enrollment_closed
  activates : Follows enrollment_closed advancement_active
  closes : {a : QueueStatus} → is_closed a ≡ false → Follows a closed

-- What a call may do to the configuration.
pub data ConfigChange (env : Env) (s : Observed schema) (c c' : QueueConfig) : Type 0 where
  kept : c' ≡ c → ConfigChange env s c c'
  handed_over :
      (heir : ℕ)
      → s.slots pending_key ≡ some heir
      → env.has_auth heir ≡ true
      → c' ≡ record c { admin = heir }
      → ConfigChange env s c c'
  moved_on :
      (status : QueueStatus)
      → env.has_auth c.admin ≡ true
      → Follows c.status status
      → c' ≡ record c { status = status }
      → ConfigChange env s c c'

Moves-Follows : {a b : QueueStatus} {kind : Kind} → Moves a b kind → Follows a b
Moves-Follows opens = opens_enrollment
Moves-Follows ends = ends_enrollment
Moves-Follows (shuts f) = closes f

Lapses-config :
    (env : Env) (admin : ℕ) (ids : List ℕ) (s s' : Observed schema)
    → Lapses env admin ids s s'
    → s'.slots config_key ≡ s.slots config_key
Lapses-config env admin [] s s' same = ap (λ (t : Observed schema). t.slots config_key) same
Lapses-config env admin (id ∷ ids) s s' (p, at, wait, rest) =
    Lapses-config env admin ids (lapsed env admin id p s) s' rest

activated-change :
    (env : Env) (s : Observed schema) (c : QueueConfig) (ids : List ℕ)
    → env.has_auth c.admin ≡ true
    → ConfigChange env s c (activated c ids)
activated-change env s c ids signed =
    elim (Bool-cases (not (is_empty ids) && is_enrollment_closed c.status)) [
      | inl e ↦
          moved_on advancement_active signed
            (let was : c.status ≡ enrollment_closed = ground arith in rw was activates) (rw e)
      | inr e ↦ kept (rw e)
    ]

-- The configuration after a change, where `s'` is known to hold it.
Change-config :
    (env : Env) (s s' : Observed schema) (c c' : QueueConfig)
    → s.slots config_key ≡ some c
    → s'.slots config_key ≡ some c'
    → Change env s s'
    → ConfigChange env s c c'
Change-config env s s' c c' at at' (propose admin proposed d right after) = kept (ground arith)
Change-config env s s' c c' at at' (accept proposed d there waiting signed after) =
    handed_over proposed waiting signed (ground arith)
Change-config env s s' c c' at at' (move admin d status kind right moves after) =
    let same : d ≡ c = cc in
    moved_on status (ground arith) (rw (← same) (Moves-Follows moves)) (ground arith)
Change-config env s s' c c' at at' (join identity d there signed opened room fits after) =
    kept (ground arith)
Change-config env s s' c c' at at' (leave identity id p there signed own wait after) =
    kept (ground arith)
Change-config env s s' c c' at at' (serve admin batch_size d may after) =
    let same : d ≡ c = cc (may.1.0) in
    let stored : activated c (due s batch_size) ≡ c' = ground (arith, same) in
    subst (ConfigChange env s c) stored
      (activated-change env s c (due s batch_size) (ground (arith, may.1, same)))
Change-config env s s' c c' at at' (lapse admin ids d right expiring lapses) =
    kept (ground (arith, Lapses-config env admin ids s s' lapses))
Change-config env s s' c c' at at' (note admin d right after) = kept (ground arith)
Change-config env s s' c c' at at' (renumber admin from to d right was up after) =
    kept (ground arith)

-- What a call that is not `initialize` does to the configuration.
pub life-config :
    (env : Env) (call : Call) (s s' : Observed schema) (c c' : QueueConfig)
    → IsValid s
    → set_ups call ≡ 0
    → s.slots config_key ≡ some c
    → s'.slots config_key ≡ some c'
    → exec (invoke env call) s ≡ ok tt s'
    → ConfigChange env s c c'
life-config env call s s' c c' v once at at' h =
    Change-config env s s' c c' at at' (invoke-Change env call s s' v once h)

-- `initialize` replaces the whole configuration, by whoever signs as the admin of the new one.
replaced :
    (env : Env) (admin : ℕ) (config c' : QueueConfig) (s s' : Observed schema)
    → s'.slots config_key ≡ some c'
    → exec (initialize env admin config) s ≡ ok tt s'
    → (initialize_call admin config ≡ initialize_call c'.admin c') × (env.has_auth c'.admin ≡ true)
replaced env admin config c' s s' at' h =
    let (signed, own, after) = initialize-ok env admin config s s' h in
    let stored : config ≡ c' = ground arith in (ground arith, ground arith)

-- From well-formed storage, a call that returns leaves the configuration as it was; or makes the
-- proposed heir, who has signed, the admin, and changes no other field; or, signed by the stored
-- admin, moves the status one step along the lifecycle, and changes no other field; or it is
-- `initialize` with the new configuration, signed by the admin that this one names.
pub invoke-config :
    (env : Env) (call : Call) (s s' : Observed schema) (c c' : QueueConfig)
    → IsValid s
    → s.slots config_key ≡ some c
    → s'.slots config_key ≡ some c'
    → exec (invoke env call) s ≡ ok tt s'
    → ConfigChange env s c c'
      ⊎ ((call ≡ initialize_call c'.admin c') × (env.has_auth c'.admin ≡ true))
unfolding invoke
invoke-config env call s s' c c' v at at' h = elim (set_ups_cases call) [
  | inl once ↦ inl (life-config env call s s' c c' v once at at' h)
  | inr (admin, config, is_set_up) ↦ inr (
      rw is_set_up (
        replaced env admin config c' s s' at'
          (subst (λ x. exec (invoke env x) s ≡ ok tt s') is_set_up h)))
]

Lapses-pending :
    (env : Env) (admin : ℕ) (ids : List ℕ) (s s' : Observed schema)
    → Lapses env admin ids s s'
    → s'.slots pending_key ≡ s.slots pending_key
Lapses-pending env admin [] s s' same = ap (λ (t : Observed schema). t.slots pending_key) same
Lapses-pending env admin (id ∷ ids) s s' (p, at, wait, rest) =
    Lapses-pending env admin ids (lapsed env admin id p s) s' rest

-- From well-formed storage, if a call but `initialize` that returns leaves an heir who was not the
-- heir before, then the admin stored before has signed it.
pub invoke-pending :
    (env : Env) (call : Call) (s s' : Observed schema) (heir : ℕ)
    → IsValid s
    → set_ups call ≡ 0
    → exec (invoke env call) s ≡ ok tt s'
    → s'.slots pending_key ≡ some heir
    → s.slots pending_key ≢ some heir
    → (c : QueueConfig) × (s.slots config_key ≡ some c) × (env.has_auth c.admin ≡ true)
invoke-pending env call s s' heir v once h now before =
    proposer (invoke-Change env call s s' v once h)
  where
    proposer :
        Change env s s'
        → (c : QueueConfig) × (s.slots config_key ≡ some c) × (env.has_auth c.admin ≡ true)
    proposer (propose admin proposed d right after) = (d, right.0, ground arith)
    proposer (accept proposed d there waiting signed after) = absurd (ground arith)
    proposer (move admin d status kind right moves after) = absurd (ground arith)
    proposer (join identity d there signed opened room fits after) = absurd (ground arith)
    proposer (leave identity id p there signed own wait after) = absurd (ground arith)
    proposer (serve admin batch_size d may after) = absurd (ground arith)
    proposer (lapse admin ids d right expiring lapses) =
        absurd (ground (arith, Lapses-pending env admin ids s s' lapses))
    proposer (note admin d right after) = absurd (ground arith)
    proposer (renumber admin old new d right was up after) = absurd (ground arith)
