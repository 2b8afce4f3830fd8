-- ===== src/Backend/Enrollments/Sync.antt =====
-- The index of a queue and the records of its identities agree.
use line_proof.Base.{
  ℕ, suc, ◌+◌, ◌≡◌, refl, subst, ◌&&◌, ◌||◌, true, false, Option, List, [], ◌∷◌, ◌++◌, arith, ◌==◌,
  if◌then◌else◌, length, contains, IsDistinct, contains-append, append-IsDistinct, ℕ_discrete,
  Bool-cases, inl, inr, unwrap_or,
}
use line_proof.Backend.Enrollments.{
  EnrollmentRecord, Store, put, records, enrolled, is_live, is_taken, add, new_record, cancel_first,
  live,
}

live-append :
    (q : ℕ) (rs : List EnrollmentRecord) (r : EnrollmentRecord)
    → length (live q (rs ++ r ∷ [])) ≡ length (live q rs) + (if is_live q r then 1 else 0)
live-append q [] r = ground arith
live-append q (x ∷ xs) r = ground (arith, live-append q xs r)

pub live_none :
    (q : ℕ) (rs : List EnrollmentRecord) → is_taken q rs ≡ false → length (live q rs) ≡ 0
live_none q [] h = refl
live_none q (r ∷ rs) h = ground (arith, live_none q rs (ground arith))

pub live_some :
    (q : ℕ) (rs : List EnrollmentRecord)
    → is_taken q rs ≡ true
    → (n : ℕ) × (length (live q rs) ≡ suc n)
live_some q [] h = absurd (cc)
live_some q (r ∷ rs) h = elim (Bool-cases (is_live q r)) [
  | inl on ↦ (length (live q rs), ground arith)
  | inr off ↦ let (n, e) = live_some q rs (ground arith) in (n, ground arith)
]

pub live-cancel_first :
    (q p : ℕ) (rs : List EnrollmentRecord)
    → is_taken q rs ≡ true
    → length (live p (cancel_first q rs)) + (if q == p then 1 else 0) ≡ length (live p rs)
live-cancel_first q p [] h = absurd (cc)
live-cancel_first q p (r ∷ rs) h = elim (Bool-cases (is_live q r)) [
  | inl on ↦ ground arith
  | inr off ↦ ground (arith, live-cancel_first q p rs (ground arith))
]

-- The records of an identity bear its name.
abbrev pub IsOwned : ℕ → List EnrollmentRecord → Type 0
IsOwned i [] = Unit
IsOwned i (r ∷ rs) = (r.identity ≡ i) × IsOwned i rs

append-IsOwned :
    (i : ℕ) (rs : List EnrollmentRecord) (r : EnrollmentRecord)
    → r.identity ≡ i
    → IsOwned i rs
    → IsOwned i (rs ++ r ∷ [])
append-IsOwned i [] r own o = (own, tt)
append-IsOwned i (x ∷ xs) r own o = (o.0, append-IsOwned i xs r own o.1)

pub cancel_first-IsOwned :
    (q i : ℕ) (rs : List EnrollmentRecord) → IsOwned i rs → IsOwned i (cancel_first q rs)
cancel_first-IsOwned q i [] o = tt
cancel_first-IsOwned q i (r ∷ rs) o = elim (Bool-cases (is_live q r)) [
  | inl on ↦ rw on (o.0, o.1)
  | inr off ↦ rw off (o.0, cancel_first-IsOwned q i rs o.1)
]

pub record IsInSync (s : Store) : Type 0 where
  pub listed :
      (q i : ℕ) → length (live q (records s i)) ≡ (if contains i (enrolled s q) then 1 else 0)
  pub distinct : (q : ℕ) → IsDistinct (enrolled s q)
  pub owned : (i : ℕ) → IsOwned i (records s i)

pub unwrap_or-put {ℓ} :
    {A : Type ℓ} (k j : ℕ) (a d : A) (m : ℕ → Option A)
    → unwrap_or (put k a m j) d ≡ (if k == j then a else unwrap_or (m j) d)
unwrap_or-put k j a d m = elim (Bool-cases (k == j)) [ inl e ↦ rw e refl | inr e ↦ rw e refl ]

contains-add : (a i : ℕ) (ids : List ℕ) → contains a (add i ids) ≡ (i == a || contains a ids)
contains-add a i ids = elim (Bool-cases (contains i ids)) [
  | inl e ↦ elim (ℕ_discrete i a) [ yes same ↦ ground arith | no other ↦ ground arith ]
  | inr e ↦ rw e (contains-append a i ids)
]

add-IsDistinct : (i : ℕ) (ids : List ℕ) → IsDistinct ids → IsDistinct (add i ids)
add-IsDistinct i ids d = elim (Bool-cases (contains i ids)) [
  | inl e ↦ rw e d
  | inr e ↦ rw e (append-IsDistinct i ids d e)
]

-- The store after an enrollment that has no conflict.
abbrev pub taken_in : ℕ → ℕ → ℕ → Store → Store
taken_in now q i s = record s {
  by_identity = put i (records s i ++ new_record now q i false ∷ []) s.by_identity;
  queue_index = put q (add i (enrolled s q)) s.queue_index;
}

module _ (now q i : ℕ) (s : Store) (v : IsInSync s) (free : is_taken q (records s i) ≡ false) where
  unlisted : contains i (enrolled s q) ≡ false
  unlisted = ground (arith, v.listed q i, live_none q (records s i) free)

  records-taken_in :
      (j : ℕ)
      → records (taken_in now q i s) j
        ≡ (if i == j then records s i ++ new_record now q i false ∷ [] else records s j)
  records-taken_in j = unwrap_or-put i j _ [] s.by_identity

  enrolled-taken_in :
      (p : ℕ)
      → enrolled (taken_in now q i s) p ≡ (if q == p then add i (enrolled s q) else enrolled s p)
  enrolled-taken_in p = unwrap_or-put q p _ [] s.queue_index

  live-taken_in :
      (p j : ℕ)
      → length (live p (records (taken_in now q i s) j))
        ≡ length (live p (records s j)) + (if i == j && q == p then 1 else 0)
  live-taken_in p j =
      ground (arith, records-taken_in j, live-append p (records s i) (new_record now q i false))

  contains-taken_in :
      (p j : ℕ)
      → contains j (enrolled (taken_in now q i s) p)
        ≡ (contains j (enrolled s p) || (i == j && q == p))
  contains-taken_in p j = ground (arith, enrolled-taken_in p, contains-add j i (enrolled s q))

  pub taken_in-IsInSync : IsInSync (taken_in now q i s)
  taken_in-IsInSync = record {
    listed = λ p j. elim (ℕ_discrete i j) [
      | yes same ↦ ground (arith, live-taken_in p j, contains-taken_in p j, v.listed p j, unlisted)
      | no other ↦ ground (arith, live-taken_in p j, contains-taken_in p j, v.listed p j)
    ];
    distinct = λ p. elim (Bool-cases (q == p)) [
      | inl e ↦
          subst IsDistinct {x = add i (enrolled s q)} (ground (arith, enrolled-taken_in p))
            (add-IsDistinct i (enrolled s q) (v.distinct q))
      | inr e ↦
          subst IsDistinct {x = enrolled s p} (ground (arith, enrolled-taken_in p)) (v.distinct p)
    ];
    owned = λ j. elim (ℕ_discrete i j) [
      | yes same ↦
          subst (IsOwned j) {x = records s i ++ new_record now q i false ∷ []}
            (ground (arith, records-taken_in j))
            (append-IsOwned j (records s i) (new_record now q i false) same
              (subst (λ k. IsOwned k (records s i)) same (v.owned i)))
      | no other ↦
          subst (IsOwned j) {x = records s j} (ground (arith, records-taken_in j)) (v.owned j)
    ];
  }
