-- ===== src/Enrollment/Promotion.antt =====
-- When `promote_from_waitlist` returns.
use line_proof.Base.{
  ℕ, zero, suc, ◌+◌, ◌^◌, ◌<◌, ◌≤◌, ◌≡◌, ◌∙◌, ap, refl, some, none, true, List, [], ◌∷◌, arith, min,
  length,
}
use line_proof.Soroban.Schema.{Observed}
use line_proof.Soroban.Program.{Env, ◌>>◌, set, extend_ttl}
use line_proof.Soroban.Exec.{ok, exec, exec-bind, and_then}
use line_proof.Enrollment.Types.{waitlist_key, schema, assign, ttl_threshold, ttl_extend_to}
use line_proof.Enrollment.Contract.{new_record, promote, promote_each, promote_from_waitlist}
use line_proof.Enrollment.Effects.{count_of, waitlist_of, enrolled}

promote-runs :
    (env : Env) (queue_id identity : ℕ) (s : Observed schema)
    → count_of s queue_id + 1 < 2 ^ 32
    → exec (promote env queue_id identity) s
      ≡ ok tt (enrolled queue_id identity (new_record env identity queue_id 0 none) s)
promote-runs env queue_id identity s fits = ground arith

count_up :
    (env : Env) (queue_id identity : ℕ) (s : Observed schema)
    → count_of (enrolled queue_id identity (new_record env identity queue_id 0 none) s) queue_id
      ≡ count_of s queue_id + 1
count_up env queue_id identity s = ground arith

promote_each-runs :
    (rounds : ℕ) (env : Env) (queue_id : ℕ) (waitlist : List ℕ) (s : Observed schema)
    → rounds ≤ length waitlist
    → count_of s queue_id + rounds < 2 ^ 32
    → (left : List ℕ) × (s' : Observed schema) × (exec (promote_each rounds env queue_id waitlist) s
        ≡ ok left s')
promote_each-runs zero env queue_id waitlist s enough fits = (waitlist, s, refl)
promote_each-runs (suc rounds) env queue_id [] s enough fits = absurd (omega arith)
promote_each-runs (suc rounds) env queue_id (identity ∷ waitlist) s enough fits =
    let t = enrolled queue_id identity (new_record env identity queue_id 0 none) s in
    let (left, s', runs) =
      promote_each-runs rounds env queue_id waitlist t (omega arith)
        (omega (arith, count_up env queue_id identity s)) in
    (
      left,
      s',
      exec-bind (promote env queue_id identity) (λ _. promote_each rounds env queue_id waitlist) s
          ∙ ap (λ r. and_then r (λ _ u. exec (promote_each rounds env queue_id waitlist) u))
              (promote-runs env queue_id identity s (omega arith))
          ∙ runs,
    )

finish-runs :
    (queue_id : ℕ) (left : List ℕ) (s : Observed schema)
    → exec
        (set {S = schema} (waitlist_key queue_id) left
          >> extend_ttl (waitlist_key queue_id) ttl_threshold ttl_extend_to)
        s
      ≡ ok tt (record s { slots = assign (waitlist_key queue_id) (some left) s.slots })
finish-runs queue_id left s = ground arith

-- If the named admin has signed and the count has room for those promoted, then
-- `promote_from_waitlist` returns, whatever the waitlist.
pub promote_from_waitlist-runs :
    (env : Env) (admin queue_id count : ℕ) (s : Observed schema)
    → env.has_auth admin ≡ true
    → count_of s queue_id + min count (length (waitlist_of s queue_id)) < 2 ^ 32
    → (s' : Observed schema) × (exec (promote_from_waitlist env admin queue_id count) s ≡ ok tt s')
unfolding promote_from_waitlist
promote_from_waitlist-runs env admin queue_id count s signed fits =
    let w = waitlist_of s queue_id in
    let rounds = promote_each (min count (length w)) env queue_id w in
    let finish = λ (left : List ℕ).
      set {S = schema} (waitlist_key queue_id) left
      >> extend_ttl (waitlist_key queue_id) ttl_threshold ttl_extend_to in
    let (left, t, runs) =
      promote_each-runs (min count (length w)) env queue_id w s (omega arith) fits in
    (
      record t { slots = assign (waitlist_key queue_id) (some left) t.slots },
      rw signed (
          exec-bind rounds finish s
          ∙ ap (λ r. and_then r (λ l u. exec (finish l) u)) runs
          ∙ finish-runs queue_id left t),
    )
