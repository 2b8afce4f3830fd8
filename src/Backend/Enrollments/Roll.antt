-- ===== src/Backend/Enrollments/Roll.antt =====
-- What the enrollment service answers about a queue, in every history.
use line_proof.Base.{
  ℕ, ◌≤◌, ◌≡◌, refl, sym, subst, ap, ap₂, ◌∙◌, true, false, List, [], ◌∷◌, ◌++◌, arith, length,
  contains, IsDistinct, Bool-cases, inl, inr, Option-cases,
}
use mathlib.Core.List.{Memᴰ}
use mathlib.Core.List.Memᴰ
use line_proof.Backend.Enrollments.{
  EnrollmentRecord, Store, records, enrolled, is_live, is_taken, enroll_identity, cancel_enrollment,
  live, gather, get_enrollments_by_queue, empty, Reach, fresh, enrolls, cancels,
}
use line_proof.Backend.Enrollments.Sync.{
  IsOwned, IsInSync, live_none, live_some, taken_in, taken_in-IsInSync,
}
use line_proof.Backend.Enrollments.Leaving.{left, left-IsInSync}

-- What was emitted does not matter.
emitted-IsInSync :
    (s t : Store)
    → t.by_identity ≡ s.by_identity
    → t.queue_index ≡ s.queue_index
    → IsInSync s
    → IsInSync t
emitted-IsInSync s t e f v = record {
  listed = λ q i. rw (e, f) (v.listed q i);
  distinct = λ q. rw f (v.distinct q);
  owned = λ i. rw e (v.owned i);
}

enroll_identity-IsInSync :
    (now q i : ℕ) (s : Store) → IsInSync s → IsInSync (enroll_identity now q i s).1
unfolding enroll_identity
enroll_identity-IsInSync now q i s v = elim (Bool-cases (is_taken q (records s i))) [
  | inl on ↦ rw on v
  | inr off ↦
      rw off (emitted-IsInSync (taken_in now q i s) _ refl refl (taken_in-IsInSync now q i s v off))
]

cancel_enrollment-IsInSync :
    (q i : ℕ) (s : Store) → IsInSync s → IsInSync (cancel_enrollment q i s).1
unfolding cancel_enrollment
cancel_enrollment-IsInSync q i s v = elim (Option-cases (s.by_identity i)) [
  | inl missing ↦ rw missing v
  | inr (existing, at) ↦ elim (Bool-cases (is_taken q existing)) [
    | inl on ↦
        rw (at, on)
          (emitted-IsInSync (left q i existing s) _ refl refl
            (left-IsInSync q i existing s v at on))
    | inr off ↦ rw (at, off) v
  ]
]

empty-IsInSync : IsInSync empty
empty-IsInSync = record { listed = λ q i. refl; distinct = λ q. tt; owned = λ i. tt }

Reach-IsInSync : {s : Store} → Reach s → IsInSync s
Reach-IsInSync fresh = empty-IsInSync
Reach-IsInSync (enrolls now q i r) = enroll_identity-IsInSync now q i _ (Reach-IsInSync r)
Reach-IsInSync (cancels q i r) = cancel_enrollment-IsInSync q i _ (Reach-IsInSync r)

abbrev pub identities : List EnrollmentRecord → List ℕ
identities [] = []
identities (r ∷ rs) = r.identity ∷ identities rs

identities-append :
    (rs ts : List EnrollmentRecord) → identities (rs ++ ts) ≡ identities rs ++ identities ts
identities-append [] ts = refl
identities-append (r ∷ rs) ts = ap (λ l. r.identity ∷ l) (identities-append rs ts)

live-IsOwned : (q i : ℕ) (rs : List EnrollmentRecord) → IsOwned i rs → IsOwned i (live q rs)
live-IsOwned q i [] o = tt
live-IsOwned q i (r ∷ rs) o = elim (Bool-cases (is_live q r)) [
  | inl on ↦ rw on (o.0, live-IsOwned q i rs o.1)
  | inr off ↦ rw off (live-IsOwned q i rs o.1)
]

identities-one :
    (i : ℕ) (rs : List EnrollmentRecord) → length rs ≡ 1 → IsOwned i rs → identities rs ≡ i ∷ []
identities-one i [] n o = absurd (omega (arith, n))
identities-one i (r ∷ []) n o = ap (λ j. j ∷ []) o.0
identities-one i (r ∷ t ∷ rs) n o = absurd (omega (arith, n))

gather-identities :
    (q : ℕ) (s : Store) (ids : List ℕ)
    → IsInSync s
    → ((i : ℕ) → contains i ids ≡ true → contains i (enrolled s q) ≡ true)
    → identities (gather q s ids) ≡ ids
gather-identities q s [] v within = refl
gather-identities q s (i ∷ ids) v within =
    let on : contains i (enrolled s q) ≡ true = within i (ground arith) in
    let one : identities (live q (records s i)) ≡ i ∷ [] =
      identities-one i (live q (records s i)) (v.listed q i ∙ rw on refl)
        (live-IsOwned q i (records s i) (v.owned i)) in
    identities-append (live q (records s i)) (gather q s ids)
    ∙ ap₂ (λ a b. a ++ b) one (gather-identities q s ids v (λ j h. within j (ground arith)))

contains-is_taken :
    (q i : ℕ) (s : Store) → IsInSync s → contains i (enrolled s q) ≡ is_taken q (records s i)
contains-is_taken q i s v = elim (Bool-cases (is_taken q (records s i))) [
  | inl on ↦ let (n, e) = live_some q (records s i) on in ground (arith, v.listed q i)
  | inr off ↦ ground (arith, v.listed q i, live_none q (records s i) off)
]

-- A record for the queue, not cancelled, and one of those stored for its identity.
abbrev pub IsCurrent : ℕ → Store → EnrollmentRecord → Type 0
IsCurrent q s r = (r.queue_id ≡ q) × (r.cancelled ≡ false) × Memᴰ r (records s r.identity)

mem_live :
    (q : ℕ) (rs : List EnrollmentRecord) (r : EnrollmentRecord)
    → Memᴰ r (live q rs)
    → (is_live q r ≡ true) × Memᴰ r rs
mem_live q [] r m = absurd (Memᴰ.not-nil m)
mem_live q (t ∷ rs) r m = elim (Bool-cases (is_live q t)) [
  | inl on ↦
      let at : Memᴰ r (t ∷ live q rs) = subst (Memᴰ r) (ground arith) m in
      elim (Memᴰ.cases_cons at) [
        | inl same ↦ (subst (λ x. is_live q x ≡ true) (sym same) on, Memᴰ.head same)
        | inr below ↦ let (live_r, in_rs) = mem_live q rs r below in (live_r, Memᴰ.tail in_rs)
      ]
  | inr off ↦
      let below : Memᴰ r (live q rs) = subst (Memᴰ r) (ground arith) m in
      let (live_r, in_rs) = mem_live q rs r below in (live_r, Memᴰ.tail in_rs)
]

mem_owned :
    (i : ℕ) (rs : List EnrollmentRecord) (r : EnrollmentRecord)
    → IsOwned i rs
    → Memᴰ r rs
    → r.identity ≡ i
mem_owned i [] r o m = absurd (Memᴰ.not-nil m)
mem_owned i (t ∷ rs) r o m = elim (Memᴰ.cases_cons m) [
  | inl same ↦ ap (λ x. x.identity) same ∙ o.0
  | inr below ↦ mem_owned i rs r o.1 below
]

gather-IsCurrent :
    (q : ℕ) (s : Store) (ids : List ℕ) (r : EnrollmentRecord)
    → IsInSync s
    → Memᴰ r (gather q s ids)
    → IsCurrent q s r
gather-IsCurrent q s [] r v m = absurd (Memᴰ.not-nil m)
gather-IsCurrent q s (i ∷ ids) r v m = elim (Memᴰ.append_cases (live q (records s i)) m) [
  | inl here ↦
      let (on, stored) = mem_live q (records s i) r here in
      let own = mem_owned i (records s i) r (v.owned i) stored in
      (ground arith, ground arith, subst (λ j. Memᴰ r (records s j)) (sym own) stored)
  | inr there ↦ gather-IsCurrent q s ids r v there
]

-- After any enrollments and cancellations on an empty store: the records that the service returns
-- for a queue are of the identities of its index, one for each, in the order of the index, which has
-- no repetition; each record is for the queue, not cancelled, and stored for its identity; an
-- identity is in the index exactly if it has a record for the queue that is not cancelled, and it
-- has at most one.
pub Reach-roll :
    (s : Store) (q : ℕ)
    → Reach s
    → (identities (get_enrollments_by_queue q s) ≡ enrolled s q)
      × ((r : EnrollmentRecord) → Memᴰ r (get_enrollments_by_queue q s) → IsCurrent q s r)
      × IsDistinct (enrolled s q)
      × ((i : ℕ) → contains i (enrolled s q) ≡ is_taken q (records s i))
      × ((i : ℕ) → length (live q (records s i)) ≤ 1)
unfolding get_enrollments_by_queue
Reach-roll s q r =
    let v = Reach-IsInSync r in
    (
      gather-identities q s (enrolled s q) v (λ i h. h),
      (λ t m. gather-IsCurrent q s (enrolled s q) t v m),
      v.distinct q,
      (λ i. contains-is_taken q i s v),
      (λ i. ground (arith, v.listed q i)),
    )
