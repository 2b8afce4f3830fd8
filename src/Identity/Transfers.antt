-- ===== src/Identity/Transfers.antt =====
-- What the queries of the identity contract answer.
use line_proof.Base.{
  ℕ, ◌<◌, ◌≡◌, ◌↔◌, inl, inr, ap, ◌∙◌, true, false, not, ◌&&◌, ◌||◌, [], ◌∷◌, ◌++◌, ◌==◌, arith,
  length, contains, without, contains-append, contains-without, if◌then◌else◌, unwrap_or,
}
use line_proof.Soroban.Schema.{Observed}
use line_proof.Soroban.Program.{Env}
use line_proof.Soroban.Exec.{ok, exec}
use line_proof.Identity.Types.{
  Kind, schema, is_revoked, transfer_allow_key, max_queues_per_identity,
}
use line_proof.Identity.Contract.{bind, unbind, is_bound, can_transfer}
use line_proof.Identity.Effects.{record_of, bound_record, recorded, bind-ok, unbind-ok}

is_bound-exact :
    (i q : ℕ) (s : Observed schema)
    → exec (is_bound i q) s ≡ ok (contains q (record_of s i).queues) s
unfolding is_bound
is_bound-exact i q s = ground arith

-- After a returned `bind`, `is_bound` answers for the identity exactly as before but for the queue
-- bound, for which it answers true.
pub bind-is_bound :
    (env : Env) (i q r : ℕ) (s s' : Observed schema)
    → exec (bind env i q) s ≡ ok tt s'
    → exec (is_bound i r) s' ≡ ok (q == r || contains r (record_of s i).queues) s'
bind-is_bound env i q r s s' h =
    let (signed, live, new, room, after) = bind-ok env i q s s' h in
    let queues : (record_of s' i).queues ≡ (record_of s i).queues ++ q ∷ [] = ground arith in
    is_bound-exact i r s'
    ∙ ap (λ b. ok b s') (ap (contains r) queues ∙ contains-append r q (record_of s i).queues)

-- After a returned `unbind`, `is_bound` answers for the identity exactly as before but for the queue
-- unbound, for which it answers false.
pub unbind-is_bound :
    (env : Env) (i q r : ℕ) (s s' : Observed schema)
    → exec (unbind env i q) s ≡ ok tt s'
    → exec (is_bound i r) s' ≡ ok (if q == r then false else contains r (record_of s i).queues) s'
unbind-is_bound env i q r s s' h =
    let (signed, cases) = unbind-ok env i q s s' h in
    is_bound-exact i r s'
    ∙ ap (λ b. ok b s')
        (elim cases [
          | inl (absent, same) ↦ ground arith
          | inr (present, after) ↦
              let queues : (record_of s' i).queues ≡ without q (record_of s i).queues =
                ground arith in
              ap (contains r) queues ∙ contains-without r q (record_of s i).queues
        ])

-- `can_transfer` changes nothing, and answers true exactly if the two identities are the same, or
-- the source is not revoked, is bound to the queue, and the admin has allowed transfers.
pub can_transfer-exact :
    (from to q : ℕ) (s : Observed schema)
    → exec (can_transfer from to q) s
      ≡ ok
          (from == to
            || (not (is_revoked (record_of s from).status)
                && contains q (record_of s from).queues
                && unwrap_or (s.slots transfer_allow_key) false))
          s
unfolding can_transfer
can_transfer-exact from to q s = ground arith

bind-runs :
    (env : Env) (i q : ℕ) (s s' : Observed schema)
    → (env.has_auth i ≡ true)
      × (is_revoked (record_of s i).status ≡ false)
      × (contains q (record_of s i).queues ≡ false)
      × (length (record_of s i).queues < max_queues_per_identity)
      × (s' ≡ recorded env Kind.bound q i (bound_record env q (record_of s i)) s)
    → exec (bind env i q) s ≡ ok tt s'
unfolding bind
bind-runs env i q s s' (signed, live, new, room, after) = ground arith

-- `bind` returns exactly if the identity has signed, is not revoked, does not have the queue and is
-- below its limit; then it appends the queue, marks the record bound, keeps an earlier binding time
-- and publishes one event.
pub bind-exact :
    (env : Env) (i q : ℕ) (s s' : Observed schema)
    → (exec (bind env i q) s ≡ ok tt s') ↔ (
        (env.has_auth i ≡ true)
        × (is_revoked (record_of s i).status ≡ false)
        × (contains q (record_of s i).queues ≡ false)
        × (length (record_of s i).queues < max_queues_per_identity)
        × (s' ≡ recorded env Kind.bound q i (bound_record env q (record_of s i)) s))
bind-exact env i q s s' = (bind-ok env i q s s', bind-runs env i q s s')
