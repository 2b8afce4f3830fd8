-- ===== src/Backend/Enrollments/Leaving.antt =====
-- Cancelling keeps the index and the records in step.
use line_proof.Base.{
  ℕ, ◌+◌, ◌≡◌, refl, subst, ◌&&◌, true, false, some, List, [], arith, ◌==◌, if◌then◌else◌, length,
  contains, without, IsDistinct, contains-without, without-IsDistinct, ℕ_discrete, Bool-cases, inl,
  inr, Option-cases,
}
use line_proof.Backend.Enrollments.{
  EnrollmentRecord, Store, put, records, enrolled, is_taken, cancel_first, unlist, live,
}
use line_proof.Backend.Enrollments.Sync.{
  IsOwned, IsInSync, live-cancel_first, cancel_first-IsOwned, unwrap_or-put,
}

-- The store after a cancellation that found a record.
abbrev pub left : ℕ → ℕ → List EnrollmentRecord → Store → Store
left q i existing s = record s {
  by_identity = put i (cancel_first q existing) s.by_identity;
  queue_index = unlist q i (s.queue_index q) s.queue_index;
}

module _ (q i : ℕ) (existing : List EnrollmentRecord) (s : Store) (v : IsInSync s)
    (at : s.by_identity i ≡ some existing) (on : is_taken q existing ≡ true) where
  same_records : records s i ≡ existing
  same_records = rw at refl

  records-left :
      (j : ℕ)
      → records (left q i existing s) j ≡ (if i == j then cancel_first q existing else records s j)
  records-left j = unwrap_or-put i j _ [] s.by_identity

  enrolled-left :
      (p : ℕ)
      → enrolled (left q i existing s) p
        ≡ (if q == p then without i (enrolled s q) else enrolled s p)
  enrolled-left p = elim (Option-cases (s.queue_index q)) [
    | inl missing ↦ elim (ℕ_discrete q p) [
      | yes same ↦ ground (arith, missing, same)
      | no other ↦ ground (arith, missing)
    ]
    | inr (ids, there) ↦ rw there (unwrap_or-put q p (without i ids) [] s.queue_index)
  ]

  live-left :
      (p j : ℕ)
      → length (live p (records (left q i existing s) j)) + (if i == j && q == p then 1 else 0)
        ≡ length (live p (records s j))
  live-left p j = ground (arith, records-left j, same_records, live-cancel_first q p existing on)

  contains-left :
      (p j : ℕ)
      → contains j (enrolled (left q i existing s) p)
        ≡ (if i == j && q == p then false else contains j (enrolled s p))
  contains-left p j = ground (arith, enrolled-left p, contains-without j i (enrolled s q))

  pub left-IsInSync : IsInSync (left q i existing s)
  left-IsInSync = record {
    listed = λ p j. ground (arith, live-left p j, contains-left p j, v.listed p j);
    distinct = λ p. elim (Bool-cases (q == p)) [
      | inl e ↦
          subst IsDistinct {x = without i (enrolled s q)} (ground (arith, enrolled-left p))
            (without-IsDistinct i (enrolled s q) (v.distinct q))
      | inr e ↦ subst IsDistinct {x = enrolled s p} (ground (arith, enrolled-left p)) (v.distinct p)
    ];
    owned = λ j. elim (ℕ_discrete i j) [
      | yes same ↦
          subst (IsOwned j) {x = cancel_first q existing} (ground (arith, records-left j)) (
            cancel_first-IsOwned q j existing
              (subst (IsOwned j) {x = records s j} (ground (arith, same_records)) (v.owned j)))
      | no other ↦ subst (IsOwned j) {x = records s j} (ground (arith, records-left j)) (v.owned j)
    ];
  }
