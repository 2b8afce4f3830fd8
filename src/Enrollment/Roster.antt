-- ===== src/Enrollment/Roster.antt =====
-- The enrollment contract's storage against the roster of those who are enrolled.
use line_proof.Base.{
  ℕ, ◌+◌, ◌-◌, ◌≤◌, ◌≡◌, refl, sym, ◌∙◌, subst, true, false, List, [], ◌∷◌, arith, ◌==◌,
  if◌then◌else◌, length, contains, without, IsDistinct, contains-without, without-IsDistinct,
  length-without_one, Bool-cases, inl, inr,
}
use line_proof.Soroban.Schema.{Observed}
use line_proof.Soroban.Exec.{blank}
use line_proof.Enrollment.Types.{schema}
use line_proof.Enrollment.Storage.{is_live}
use line_proof.Enrollment.Effects.{entry_of, count_of, waitlist_of}

-- `n` promotions were asked for so far, over all queues.
pub record IsTallied (n : ℕ) (s : Observed schema) : Type 0 where
  pub roster : ℕ → List ℕ
  pub distinct : (q : ℕ) → IsDistinct (roster q)
  pub members : (q i : ℕ) → contains i (roster q) ≡ is_live (entry_of s q i)
  pub covered : (q : ℕ) → length (roster q) ≤ count_of s q
  pub tight : (q : ℕ) → count_of s q ≤ length (roster q) + n
  pub lined : (q : ℕ) → IsDistinct (waitlist_of s q)

pub blank-IsTallied : IsTallied 0 blank
blank-IsTallied = record {
  roster = λ q. [];
  distinct = λ q. tt;
  members = λ q i. refl;
  covered = λ q. omega arith;
  tight = λ q. omega arith;
  lined = λ q. tt;
}

-- The same people are enrolled, and the counts are the same.
pub same-IsTallied :
    (n : ℕ) (s s' : Observed schema)
    → IsTallied n s
    → ((q i : ℕ) → is_live (entry_of s' q i) ≡ is_live (entry_of s q i))
    → ((q : ℕ) → count_of s' q ≡ count_of s q)
    → ((q : ℕ) → IsDistinct (waitlist_of s' q))
    → IsTallied n s'
same-IsTallied n s s' t live counts lined = record {
  roster = t.roster;
  distinct = t.distinct;
  members = λ q i. t.members q i ∙ sym (live q i);
  covered = λ q. omega (arith, t.covered q, counts q);
  tight = λ q. omega (arith, t.tight q, counts q);
  lined = lined;
}

-- More promotions asked for.
pub wider-IsTallied : (n m : ℕ) (s : Observed schema) → n ≤ m → IsTallied n s → IsTallied m s
wider-IsTallied n m s more t = record {
  roster = t.roster;
  distinct = t.distinct;
  members = t.members;
  covered = t.covered;
  tight = λ q. omega (arith, t.tight q, more);
  lined = t.lined;
}

-- The roster of one queue replaced.
abbrev changed : ℕ → List ℕ → (ℕ → List ℕ) → ℕ → List ℕ
changed q l f r = if q == r then l else f r

module _ (n queue_id identity : ℕ) (s s' : Observed schema) (t : IsTallied n s)
    (lined : (q : ℕ) → waitlist_of s' q ≡ waitlist_of s q) where
  changed-IsDistinct :
      (l : List ℕ) → IsDistinct l → (q : ℕ) → IsDistinct (changed queue_id l t.roster q)
  changed-IsDistinct l d q = elim (Bool-cases (queue_id == q)) [
    | inl e ↦ rw e d
    | inr e ↦ rw e (t.distinct q)
  ]

  -- Somebody who was not enrolled enters, and is counted.
  pub entered-IsTallied :
      is_live (entry_of s queue_id identity) ≡ false
      → ((q i : ℕ)
          → is_live (entry_of s' q i) ≡ (
              if queue_id == q
              then (if identity == i then true else is_live (entry_of s q i))
              else is_live (entry_of s q i)))
      → ((q : ℕ) → count_of s' q ≡ (if queue_id == q then count_of s q + 1 else count_of s q))
      → IsTallied n s'
  entered-IsTallied out live counts = record {
    roster = changed queue_id (identity ∷ t.roster queue_id) t.roster;
    distinct =
        changed-IsDistinct (identity ∷ t.roster queue_id)
          (t.members queue_id identity ∙ out, t.distinct queue_id);
    members = λ q i. ground (arith, t.members q i, live q i);
    covered = λ q. ground (arith, t.covered q, counts q);
    tight = λ q. ground (arith, t.tight q, counts q);
    lined = λ q. subst IsDistinct (sym (lined q)) (t.lined q);
  }

  -- Somebody who may be enrolled already is counted.
  pub again-IsTallied :
      ((q i : ℕ)
        → is_live (entry_of s' q i) ≡ (
            if queue_id == q
            then (if identity == i then true else is_live (entry_of s q i))
            else is_live (entry_of s q i)))
      → ((q : ℕ) → count_of s' q ≡ (if queue_id == q then count_of s q + 1 else count_of s q))
      → IsTallied (n + 1) s'
  again-IsTallied live counts = elim (Bool-cases (is_live (entry_of s queue_id identity))) [
    | inl on ↦ record {
      roster = t.roster;
      distinct = t.distinct;
      members = λ q i. ground (arith, t.members q i, live q i, on);
      covered = λ q. ground (arith, t.covered q, counts q);
      tight = λ q. ground (arith, t.tight q, counts q);
      lined = λ q. subst IsDistinct (sym (lined q)) (t.lined q);
    }
    | inr out ↦ wider-IsTallied n (n + 1) s' (omega arith) (entered-IsTallied out live counts)
  ]

  -- Somebody who was enrolled leaves, and is counted no more.
  pub gone-IsTallied :
      is_live (entry_of s queue_id identity) ≡ true
      → ((q i : ℕ)
          → is_live (entry_of s' q i) ≡ (
              if queue_id == q
              then (if identity == i then false else is_live (entry_of s q i))
              else is_live (entry_of s q i)))
      → ((q : ℕ) → count_of s' q ≡ (if queue_id == q then count_of s q - 1 else count_of s q))
      → IsTallied n s'
  gone-IsTallied on live counts =
      let less =
        length-without_one identity (t.roster queue_id) (t.distinct queue_id)
          (t.members queue_id identity ∙ on) in
      record {
        roster = changed queue_id (without identity (t.roster queue_id)) t.roster;
        distinct =
            changed-IsDistinct (without identity (t.roster queue_id))
              (without-IsDistinct identity (t.roster queue_id) (t.distinct queue_id));
        members = λ q i.
            ground
              (arith, t.members q i, live q i, contains-without i identity (t.roster queue_id));
        covered = λ q. ground (arith, t.covered q, counts q, less);
        tight = λ q. ground (arith, t.tight q, counts q, less);
        lined = λ q. subst IsDistinct (sym (lined q)) (t.lined q);
      }
