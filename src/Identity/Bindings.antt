-- ===== src/Identity/Bindings.antt =====
-- What every call keeps of the identities' bindings.
use line_proof.Base.{
  ℕ, ◌≤◌, ◌<◌, ◌≡◌, inl, inr, refl, sym, subst, true, false, [], ◌∷◌, arith, length, length-append,
  contains, IsDistinct, contains-without, append-IsDistinct, without-IsDistinct, length-without,
  ℕ_discrete,
}
use line_proof.Soroban.Schema.{Observed}
use line_proof.Soroban.Program.{Env}
use line_proof.Soroban.Exec.{ok, exec}
use line_proof.Identity.Types.{
  BindingStatus, IdentityRecord, Kind, schema, is_revoked, max_queues_per_identity,
}
use line_proof.Identity.Effects.{
  record_of, bound_record, unbound_record, recorded, IsAdmin, bind-ok, unbind-ok, revoke-ok,
  set_transfer_allowed-ok, initialize-ok, record_transfer_attempt-ok,
}
use line_proof.Identity.Calls.{
  Call, bind_call, unbind_call, set_transfer_allowed_call, record_transfer_attempt_call,
  initialize_call, revoke_call, invoke, Reach, fresh, later,
}

-- A record lists each queue once, and at most the permitted number.
pub record IsSound (entry : IdentityRecord) : Type 0 where
  pub distinct : IsDistinct entry.queues
  pub bounded : length entry.queues ≤ max_queues_per_identity

-- What has become of an identity's record: it is as it was; or the identity has signed and has
-- bound or unbound one queue; or the admin has revoked it.
pub data Moves (env : Env) (s : Observed schema) (i : ℕ) (entry : IdentityRecord)
    : IdentityRecord → Type 0 where
  stays : Moves env s i entry entry
  binds :
      (queue_id : ℕ)
      → env.has_auth i ≡ true
      → is_revoked entry.status ≡ false
      → contains queue_id entry.queues ≡ false
      → length entry.queues < max_queues_per_identity
      → Moves env s i entry (bound_record env queue_id entry)
  unbinds :
      (queue_id : ℕ)
      → env.has_auth i ≡ true
      → contains queue_id entry.queues ≡ true
      → Moves env s i entry (unbound_record queue_id entry)
  revokes :
      (admin : ℕ)
      → IsAdmin env s admin
      → Moves env s i entry (record entry { status = BindingStatus.revoked })

recorded-Moves :
    (env : Env) (kind : Kind) (queue_id identity : ℕ) (entry : IdentityRecord) (s : Observed schema)
    (i : ℕ)
    → Moves env s identity (record_of s identity) entry
    → Moves env s i (record_of s i) (record_of (recorded env kind queue_id identity entry s) i)
recorded-Moves env kind queue_id identity entry s i moves = elim (ℕ_discrete identity i) [
  | yes same ↦
      subst
        (λ j.
          Moves env s j (record_of s j) (record_of (recorded env kind queue_id identity entry s) j))
        same (subst (Moves env s identity (record_of s identity)) {x = entry} (ground arith) moves)
  | no other ↦ subst (Moves env s i (record_of s i)) {x = record_of s i} (ground arith) stays
]

-- After any call that returns, the record of every identity is as it was, or it has changed by one
-- of three moves: a queue bound by the identity itself, which is not revoked, has the queue not
-- bound yet and is below its limit; a bound queue unbound by the identity itself; a revocation by
-- the stored admin.
pub invoke-Moves :
    (env : Env) (call : Call) (s s' : Observed schema)
    → exec (invoke env call) s ≡ ok tt s'
    → (i : ℕ) → Moves env s i (record_of s i) (record_of s' i)
unfolding invoke
invoke-Moves env (bind_call identity queue_id) s s' h i =
    let (signed, live, new, room, after) = bind-ok env identity queue_id s s' h in
    subst (λ t. Moves env s i (record_of s i) (record_of t i)) (sym after)
      (recorded-Moves env Kind.bound queue_id identity _ s i (binds queue_id signed live new room))
invoke-Moves env (unbind_call identity queue_id) s s' h i =
    let (signed, cases) = unbind-ok env identity queue_id s s' h in
    elim cases [
      | inl (absent, same) ↦
          subst (λ t. Moves env s i (record_of s i) (record_of t i)) (sym same) stays
      | inr (present, after) ↦
          subst (λ t. Moves env s i (record_of s i) (record_of t i)) (sym after)
            (recorded-Moves env Kind.unbound queue_id identity _ s i
              (unbinds queue_id signed present))
    ]
invoke-Moves env (set_transfer_allowed_call admin allowed) s s' h i =
    let (right, after) = set_transfer_allowed-ok env admin allowed s s' h in
    subst (λ t. Moves env s i (record_of s i) (record_of t i)) (sym after) stays
invoke-Moves env (record_transfer_attempt_call from to queue_id) s s' h i =
    subst (λ t. Moves env s i (record_of s i) (record_of t i))
      (sym (record_transfer_attempt-ok env from to queue_id s s' h)) stays
invoke-Moves env (initialize_call admin) s s' h i =
    let (signed, new, after) = initialize-ok env admin s s' h in
    subst (λ t. Moves env s i (record_of s i) (record_of t i)) (sym after) stays
invoke-Moves env (revoke_call admin identity) s s' h i =
    let (right, after) = revoke-ok env admin identity s s' h in
    subst (λ t. Moves env s i (record_of s i) (record_of t i)) (sym after)
      (recorded-Moves env Kind.revoked (env.symbol "") identity _ s i (revokes admin right))

Moves-IsSound :
    (env : Env) (s : Observed schema) (i : ℕ) (entry next : IdentityRecord)
    → Moves env s i entry next
    → IsSound entry
    → IsSound next
Moves-IsSound env s i entry _ stays v = v
Moves-IsSound env s i entry _ (binds queue_id signed live new room) v = record {
  distinct = append-IsDistinct queue_id entry.queues v.distinct new;
  bounded = omega (arith, room, length-append entry.queues (queue_id ∷ []));
}
Moves-IsSound env s i entry _ (unbinds queue_id signed present) v = record {
  distinct = without-IsDistinct queue_id entry.queues v.distinct;
  bounded = omega (arith, v.bounded, length-without queue_id entry.queues);
}
Moves-IsSound env s i entry _ (revokes admin right) v = record {
  distinct = v.distinct;
  bounded = v.bounded;
}

-- In every reachable state every identity's record lists each queue once and at most 100 queues.
pub Reach-IsSound : (s : Observed schema) → Reach s → (i : ℕ) → IsSound (record_of s i)
Reach-IsSound _ fresh i = record { distinct = tt; bounded = omega arith }
Reach-IsSound _ (later env call {s} {s'} r h) i =
    Moves-IsSound env s i (record_of s i) (record_of s' i) (invoke-Moves env call s s' h i)
      (Reach-IsSound s r i)

Moves-revoked :
    (env : Env) (s : Observed schema) (i : ℕ) (entry next : IdentityRecord)
    → is_revoked entry.status ≡ true
    → Moves env s i entry next
    → (is_revoked next.status ≡ true)
      × ((q : ℕ) → contains q next.queues ≡ true → contains q entry.queues ≡ true)
Moves-revoked env s i entry _ off stays = (off, λ q h. h)
Moves-revoked env s i entry _ off (binds queue_id signed live new room) = absurd (cc)
Moves-revoked env s i entry _ off (unbinds queue_id signed present) =
    (off, λ q h. ground (arith, contains-without q queue_id entry.queues))
Moves-revoked env s i entry _ off (revokes admin right) = (refl, λ q h. h)

-- Revocation is final: after any call that returns, a revoked identity is still revoked, and is
-- bound to no queue that it was not bound to before.
invoke-revoked :
    (env : Env) (call : Call) (s s' : Observed schema) (i : ℕ)
    → is_revoked (record_of s i).status ≡ true
    → exec (invoke env call) s ≡ ok tt s'
    → (is_revoked (record_of s' i).status ≡ true)
      × ((q : ℕ)
          → contains q (record_of s' i).queues ≡ true
          → contains q (record_of s i).queues ≡ true)
invoke-revoked env call s s' i off h =
    Moves-revoked env s i (record_of s i) (record_of s' i) off (invoke-Moves env call s s' h i)
