-- ===== src/Enrollment/Promoted.antt =====
-- The roster under the promotion of the first entries of the waitlist.
use line_proof.Base.{
  ℕ, zero, suc, ◌+◌, ◌≡◌, refl, sym, ap, ◌∙◌, subst, none, some, List, [], ◌∷◌, ◌++◌, arith, length,
  min, suffix-IsDistinct, ℕ_discrete, IsDistinct,
}
use line_proof.Soroban.Schema.{Observed}
use line_proof.Soroban.Program.{Env, ◌>>=◌, ◌>>◌, set, extend_ttl, require_auth}
use line_proof.Soroban.Exec.{ok, exec, exec-bind_ok}
use line_proof.Enrollment.Types.{waitlist_key, schema, assign, ttl_threshold, ttl_extend_to}
use line_proof.Enrollment.Storage.{get_waitlist}
use line_proof.Enrollment.Contract.{new_record, promote, promote_each, promote_from_waitlist}
use line_proof.Enrollment.Effects.{waitlist_of, enrolled}
use line_proof.Enrollment.Entries.{signed-ok}
use line_proof.Enrollment.Waitlist.{promote-ok, finish-ok}
use line_proof.Enrollment.Roster.{IsTallied, same-IsTallied, wider-IsTallied, again-IsTallied}

-- The identities `heads` promoted one after the other.
abbrev promoted_all : Env → ℕ → List ℕ → Observed schema → Observed schema
promoted_all env queue_id [] s = s
promoted_all env queue_id (identity ∷ heads) s =
    promoted_all env queue_id heads
      (enrolled queue_id identity (new_record env identity queue_id 0 none) s)

promote_each-promotes :
    (rounds : ℕ) (env : Env) (queue_id : ℕ) (waitlist left : List ℕ) (s s' : Observed schema)
    → exec (promote_each rounds env queue_id waitlist) s ≡ ok left s'
    → (heads : List ℕ) × (waitlist ≡ heads ++ left)
      × (length heads ≡ rounds)
      × (s' ≡ promoted_all env queue_id heads s)
promote_each-promotes zero env queue_id waitlist left s s' h = ([], cc, refl, cc)
promote_each-promotes (suc rounds) env queue_id [] left s s' h = absurd (cc)
promote_each-promotes (suc rounds) env queue_id (identity ∷ waitlist) left s s' h =
    let (_, t, one, h1) =
      exec-bind_ok (promote env queue_id identity) (λ _. promote_each rounds env queue_id waitlist)
        s h in
    let et = promote-ok env queue_id identity s t one in
    let (heads, cut, n, after) = promote_each-promotes rounds env queue_id waitlist left t s' h1 in
    (
      identity ∷ heads,
      ap (λ l. identity ∷ l) cut,
      ap suc n,
      after ∙ ap (promoted_all env queue_id heads) et,
    )

promoted_all-IsTallied :
    (env : Env) (queue_id n : ℕ) (heads : List ℕ) (s : Observed schema)
    → IsTallied n s
    → IsTallied (n + length heads) (promoted_all env queue_id heads s)
promoted_all-IsTallied env queue_id n [] s t = wider-IsTallied n (n + 0) s (omega arith) t
promoted_all-IsTallied env queue_id n (identity ∷ heads) s t =
    wider-IsTallied (n + 1 + length heads) (n + length (identity ∷ heads)) _ (omega arith) (
      promoted_all-IsTallied env queue_id (n + 1) heads _ (
        again-IsTallied n queue_id identity s _ t (λ q. refl) (λ q i. ground arith)
          (λ q. ground arith)))

waiting_on :
    (env : Env) (queue_id : ℕ) (heads : List ℕ) (s : Observed schema) (q : ℕ)
    → waitlist_of (promoted_all env queue_id heads s) q ≡ waitlist_of s q
waiting_on env queue_id [] s q = refl
waiting_on env queue_id (identity ∷ heads) s q = waiting_on env queue_id heads _ q

-- The waitlist of one queue cut to its last entries.
cut-IsTallied :
    (n queue_id : ℕ) (heads left : List ℕ) (s : Observed schema)
    → waitlist_of s queue_id ≡ heads ++ left
    → IsTallied n s
    → IsTallied n (record s { slots = assign (waitlist_key queue_id) (some left) s.slots })
cut-IsTallied n queue_id heads left s cut t =
    same-IsTallied n s _ t (λ q i. refl) (λ q. refl)
      (λ q. elim (ℕ_discrete queue_id q) [
        | yes same ↦
            subst IsDistinct {x = left} (ground arith)
              (suffix-IsDistinct heads left (subst IsDistinct cut (t.lined queue_id)))
        | no other ↦ subst IsDistinct {x = waitlist_of s q} (ground arith) (t.lined q)
      ])

pub promote_from_waitlist-IsTallied :
    (env : Env) (admin queue_id count n : ℕ) (s s' : Observed schema)
    → exec (promote_from_waitlist env admin queue_id count) s ≡ ok tt s'
    → IsTallied n s
    → IsTallied (n + count) s'
unfolding promote_from_waitlist
promote_from_waitlist-IsTallied env admin queue_id count n s s' h tallied =
    let finish = λ (left : List ℕ).
      set {S = schema} (waitlist_key queue_id) left
      >> extend_ttl (waitlist_key queue_id) ttl_threshold ttl_extend_to in
    let rounds = λ (w : List ℕ). promote_each (min count (length w)) env queue_id w in
    let (_, t, signed, h1) =
      exec-bind_ok (require_auth env admin)
        (λ _. get_waitlist queue_id >>= λ w. rounds w >>= finish) s h in
    let (_, same) = signed-ok env admin s t signed in
    let w = waitlist_of s queue_id in
    let h2 : exec (rounds w >>= finish) s ≡ ok tt s' =
      subst (λ u. exec (rounds (waitlist_of u queue_id) >>= finish) u ≡ ok tt s') same h1 in
    let (left, u, each, h3) = exec-bind_ok (rounds w) finish s h2 in
    let (heads, cut, many, eu) =
      promote_each-promotes (min count (length w)) env queue_id w left s u each in
    let after = finish-ok queue_id left u s' h3 in
    let tallied_u =
      subst (IsTallied (n + length heads)) (sym eu)
        (promoted_all-IsTallied env queue_id n heads s tallied) in
    wider-IsTallied (n + length heads) (n + count) s' (omega (arith, many)) (
      subst (IsTallied (n + length heads)) (sym after) (
        cut-IsTallied (n + length heads) queue_id heads left u
          (ap (λ x. waitlist_of x queue_id) eu ∙ waiting_on env queue_id heads s queue_id ∙ cut)
          tallied_u))
