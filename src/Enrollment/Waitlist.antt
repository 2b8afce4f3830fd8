-- ===== src/Enrollment/Waitlist.antt =====
-- The promotion of the first entries of the waitlist.
use line_proof.Base.{
  ℕ, zero, suc, ◌+◌, ◌≡◌, ◌≢◌, refl, none, some, true, false, ◌∙◌, ap, subst, List, [], ◌∷◌, ◌++◌,
  arith, min, length, contains, ℕ_discrete, Bool-cases, inl, inr,
}
use line_proof.Soroban.Schema.{Observed}
use line_proof.Soroban.Program.{Env, ◌>>=◌, ◌>>◌, require_auth, set, extend_ttl}
use line_proof.Soroban.Exec.{ok, exec, exec-bind_ok}
use line_proof.Enrollment.Types.{
  EnrollmentRecord, Kind, waitlist_key, schema, assign, ttl_threshold, ttl_extend_to,
}
use line_proof.Enrollment.Storage.{emit, get_waitlist, store_record, increment_count}
use line_proof.Enrollment.Contract.{new_record, promote, promote_each, promote_from_waitlist}
use line_proof.Enrollment.Effects.{
  entry_of, count_of, waitlist_of, enrolled, reported, counted, store_record-ok, increment_count-ok,
}
use line_proof.Enrollment.Entries.{signed-ok}

reported-ok :
    (queue_id identity : ℕ) (entry : EnrollmentRecord) (s s' : Observed schema)
    → exec (emit Kind.enrolled queue_id identity entry.enrolled_at entry.proof_hash) s ≡ ok tt s'
    → s' ≡ reported entry queue_id identity s
reported-ok queue_id identity entry s s' h = cc

pub promote-ok :
    (env : Env) (queue_id identity : ℕ) (s s' : Observed schema)
    → exec (promote env queue_id identity) s ≡ ok tt s'
    → s' ≡ enrolled queue_id identity (new_record env identity queue_id 0 none) s
promote-ok env queue_id identity s s' h =
    let entry = new_record env identity queue_id 0 none in
    let report = emit Kind.enrolled queue_id identity entry.enrolled_at entry.proof_hash in
    let (_, t, put, h1) =
      exec-bind_ok (store_record identity queue_id entry) (λ _. increment_count queue_id >> report)
        s h in
    let (_, u, up, h2) = exec-bind_ok (increment_count queue_id) (λ _. report) t h1 in
    let et = store_record-ok identity queue_id entry s t put in
    let (fits, eu) = increment_count-ok queue_id t u up in
    reported-ok queue_id identity entry u s' h2
    ∙ ap (reported entry queue_id identity) (eu ∙ ap (counted queue_id) et)

-- The identities of `first` have been promoted: each has a fresh record, and counts once.
pub record Promotes (env : Env) (queue_id : ℕ) (first : List ℕ) (s s' : Observed schema)
    : Type 0 where
  pub counted : count_of s' queue_id ≡ count_of s queue_id + length first
  pub fresh :
      (i : ℕ)
      → contains i first ≡ true
      → entry_of s' queue_id i ≡ some (new_record env i queue_id 0 none)
  pub others : (i : ℕ) → contains i first ≡ false → entry_of s' queue_id i ≡ entry_of s queue_id i
  pub waiting : waitlist_of s' queue_id ≡ waitlist_of s queue_id

count_up :
    (queue_id identity : ℕ) (entry : EnrollmentRecord) (s : Observed schema) (first : List ℕ)
    → count_of (enrolled queue_id identity entry s) queue_id + length first
      ≡ count_of s queue_id + length (identity ∷ first)
count_up queue_id identity entry s first = ground arith

put :
    (queue_id identity i : ℕ) (entry : EnrollmentRecord) (s : Observed schema)
    → identity ≡ i
    → entry_of (enrolled queue_id identity entry s) queue_id i ≡ some entry
put queue_id identity i entry s same = ground arith

unput :
    (queue_id identity i : ℕ) (entry : EnrollmentRecord) (s : Observed schema)
    → identity ≢ i
    → entry_of (enrolled queue_id identity entry s) queue_id i ≡ entry_of s queue_id i
unput queue_id identity i entry s other = ground arith

promoted-Promotes :
    (env : Env) (queue_id identity : ℕ) (first : List ℕ) (s s' : Observed schema)
    → Promotes env queue_id first
        (enrolled queue_id identity (new_record env identity queue_id 0 none) s)
        s'
    → Promotes env queue_id (identity ∷ first) s s'
promoted-Promotes env queue_id identity first s s' p = record {
  counted =
      p.counted ∙ count_up queue_id identity (new_record env identity queue_id 0 none) s first;
  fresh = λ i h. elim (ℕ_discrete identity i) [
    | yes same ↦ elim (Bool-cases (contains i first)) [
      | inl again ↦ p.fresh i again
      | inr once ↦
          p.others i once
          ∙ put queue_id identity i _ s same
          ∙ ap (λ j. some (new_record env j queue_id 0 none)) same
    ]
    | no other ↦ p.fresh i (ground arith)
  ];
  others = λ i h.
      p.others i (ground arith) ∙ unput queue_id identity i _ s (λ same. absurd (ground arith));
  waiting = p.waiting;
}

promote_each-ok :
    (rounds : ℕ) (env : Env) (queue_id : ℕ) (waitlist left : List ℕ) (s s' : Observed schema)
    → exec (promote_each rounds env queue_id waitlist) s ≡ ok left s'
    → (first : List ℕ) × (waitlist ≡ first ++ left)
      × (length first ≡ rounds)
      × Promotes env queue_id first s s'
promote_each-ok zero env queue_id waitlist left s s' h = (
  [],
  (cc),
  refl,
  record {
    counted = ground arith;
    fresh = λ i k. absurd (cc);
    others = λ i k. ground arith;
    waiting = ground arith;
  },
)
promote_each-ok (suc rounds) env queue_id [] left s s' h = absurd (cc)
promote_each-ok (suc rounds) env queue_id (identity ∷ waitlist) left s s' h =
    let (_, t, one, h1) =
      exec-bind_ok (promote env queue_id identity) (λ _. promote_each rounds env queue_id waitlist)
        s h in
    let et = promote-ok env queue_id identity s t one in
    let (first, cut, n, p) = promote_each-ok rounds env queue_id waitlist left t s' h1 in
    (
      identity ∷ first,
      ap (λ l. identity ∷ l) cut,
      ap suc n,
      promoted-Promotes env queue_id identity first s s'
          (subst (λ u. Promotes env queue_id first u s') et p),
    )

pub finish-ok :
    (queue_id : ℕ) (left : List ℕ) (s s' : Observed schema)
    → exec
        (set {S = schema} (waitlist_key queue_id) left
          >> extend_ttl (waitlist_key queue_id) ttl_threshold ttl_extend_to)
        s
      ≡ ok tt s'
    → s' ≡ record s { slots = assign (waitlist_key queue_id) (some left) s.slots }
finish-ok queue_id left s s' h = ground arith

left_after :
    (queue_id : ℕ) (left : List ℕ) (s s' : Observed schema)
    → s' ≡ record s { slots = assign (waitlist_key queue_id) (some left) s.slots }
    → left ≡ waitlist_of s' queue_id
left_after queue_id left s s' after = ground arith

-- If `promote_from_waitlist` returns, the named admin has signed, and the first entries of the
-- waitlist, as many as asked for or all, have left it in order; each has a fresh record with no
-- expiry, the count has grown by their number, and every other record of the queue is as before.
pub promote_from_waitlist-ok :
    (env : Env) (admin queue_id count : ℕ) (s s' : Observed schema)
    → exec (promote_from_waitlist env admin queue_id count) s ≡ ok tt s'
    → (env.has_auth admin ≡ true)
      × ((first : List ℕ) × (waitlist_of s queue_id ≡ first ++ waitlist_of s' queue_id)
          × (length first ≡ min count (length (waitlist_of s queue_id)))
          × (count_of s' queue_id ≡ count_of s queue_id + length first)
          × ((i : ℕ)
              → contains i first ≡ true
              → entry_of s' queue_id i ≡ some (new_record env i queue_id 0 none))
          × ((i : ℕ) → contains i first ≡ false → entry_of s' queue_id i ≡ entry_of s queue_id i))
unfolding promote_from_waitlist
promote_from_waitlist-ok env admin queue_id count s s' h =
    let finish = λ (left : List ℕ).
      set {S = schema} (waitlist_key queue_id) left
      >> extend_ttl (waitlist_key queue_id) ttl_threshold ttl_extend_to in
    let rounds = λ (w : List ℕ). promote_each (min count (length w)) env queue_id w in
    let (_, t, signed, h1) =
      exec-bind_ok (require_auth env admin)
        (λ _. get_waitlist queue_id >>= λ w. rounds w >>= finish) s h in
    let (yes_signed, same) = signed-ok env admin s t signed in
    let w = waitlist_of s queue_id in
    let h2 : exec (rounds w >>= finish) s ≡ ok tt s' =
      subst (λ u. exec (rounds (waitlist_of u queue_id) >>= finish) u ≡ ok tt s') same h1 in
    let (left, u, each, h3) = exec-bind_ok (rounds w) finish s h2 in
    let (first, cut, n, p) = promote_each-ok (min count (length w)) env queue_id w left s u each in
    let after = finish-ok queue_id left u s' h3 in
    (
      yes_signed,
      (
        first,
        cut ∙ ap (λ l. first ++ l) (left_after queue_id left u s' after),
        n,
        ap (λ x. count_of x queue_id) after ∙ p.counted,
        (λ i k. ap (λ x. entry_of x queue_id i) after ∙ p.fresh i k),
        (λ i k. ap (λ x. entry_of x queue_id i) after ∙ p.others i k),
      ),
    )
