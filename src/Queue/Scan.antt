-- ===== src/Queue/Scan.antt =====
-- The loop of `advance` is the sweep: it ends after `batch_size` rounds or at the last position.
use line_proof.Base.{
  ℕ, zero, suc, ◌+◌, ◌-◌, ◌^◌, ◌≤◌, ◌<◌, ◌≡◌, ◌≢◌, refl, sym, ap, ◌∙◌, fun_ext, ◌⊎◌, inl, inr,
  Option, none, some, false, List, [], ◌∷◌, ◌++◌, append_assoc, append-nil, arith, min, dec_lt,
  Option-cases,
}
use line_proof.Soroban.Schema.{Observed}
use line_proof.Soroban.Program.{Env, Program, ◌>>=◌}
use line_proof.Soroban.Exec.{Outcome, ok, exec}
use line_proof.Queue.Types.{
  Position, PositionStatus, Kind, position_event, pos_key, schema, assign, is_pending, is_cancelled,
}
use line_proof.Queue.Advance.{round, scan}
use line_proof.Queue.Invariant.{position}
use line_proof.Queue.Sweep.{
  swept, pending_ids, skips, pending_ids-congr, skips-congr, swept_next-pending, swept_next-other,
  swept_none,
}

-- The storage after the position behind the cursor was advanced.
abbrev bumped_at : Observed schema → ℕ → ℕ → Position → Observed schema
bumped_at s idx now p = record s {
  slots =
      assign (pos_key (idx + 1))
        (some (record p { status = PositionStatus.advanced; advanced_at = some now })) s.slots;
}

module _ {B : Type 0} (f : Option (ℕ × List ℕ) → Program schema B) (env : Env) (admin total idx : ℕ)
    (done : List ℕ) (s : Observed schema) where
  round_stop : total ≤ idx → exec (round env admin total idx done >>= f) s ≡ exec (f none) s
  round_stop h = ground arith

  module _ (p : Position) (at : position s (idx + 1) ≡ some p) (more : idx < total)
      (fits : idx + 1 < 2 ^ 32) where
    round-pending :
        p.status ≡ PositionStatus.pending
        → exec (round env admin total idx done >>= f) s
          ≡ exec (f (some (idx + 1, done ++ (idx + 1) ∷ []))) (record s {
            slots =
                assign
                  (pos_key (idx + 1))
                  (some (record p {
                    status = PositionStatus.advanced;
                    advanced_at = some env.timestamp;
                  }))
                  s.slots;
          })
    round-pending w = ground arith

    round-cancelled :
        p.status ≡ PositionStatus.cancelled
        → exec (round env admin total idx done >>= f) s
          ≡ exec (f (some (idx + 1, done))) (record s {
            log = s.log ++ position_event Kind.skipped (idx + 1) admin env.timestamp ∷ [];
          })
    round-cancelled w = ground arith

    round-settled :
        is_pending p.status ≡ false
        → is_cancelled p.status ≡ false
        → exec (round env admin total idx done >>= f) s ≡ exec (f (some (idx + 1, done))) s
    round-settled w c = ground arith

-- The outcome of sweeping `k` positions from cursor `idx`.
abbrev pub ended :
    Env → ℕ → ℕ → List ℕ → ℕ → Observed schema → Outcome (Observed schema) (ℕ × List ℕ)
ended env admin idx done k s =
    ok (idx + k, done ++ pending_ids (position s) idx k)
      (record {
        slots = swept env.timestamp idx k s.slots;
        log = s.log ++ skips env admin (position s) idx k;
      })

ok_eq :
    (a a' : ℕ) (b b' : List ℕ) (s s' : Observed schema)
    → a ≡ a'
    → b ≡ b'
    → ((k : _) → s.slots k ≡ s'.slots k)
    → s.log ≡ s'.log
    → ◌≡◌ {A = Outcome (Observed schema) (ℕ × List ℕ)} (ok (a, b) s) (ok (a', b') s')
ok_eq a a' b b' s s' p q r l = λ i. ok (p i, q i) (record { slots = fun_ext r i; log = l i })

module _ (env : Env) (admin idx : ℕ) (done : List ℕ) (s : Observed schema) where
  ended_none :
      ◌≡◌ {A = Outcome (Observed schema) (ℕ × List ℕ)}
        (ok (idx, done) s)
        (ended env admin idx done 0 s)
  unfolding pending_ids skips
  ended_none =
      ok_eq idx (idx + 0) done (done ++ []) s _ (omega arith) (sym (append-nil done))
        (swept_none env.timestamp idx s.slots) (sym (append-nil s.log))

  module _ (k : ℕ) (p : Position) (at : position s (idx + 1) ≡ some p) where
    ended-pending :
        p.status ≡ PositionStatus.pending
        → ended env admin (idx + 1) (done ++ (idx + 1) ∷ []) k (record s {
          slots =
              assign
                (pos_key (idx + 1))
                (some
                  (record p { status = PositionStatus.advanced; advanced_at = some env.timestamp }))
                s.slots;
        })
          ≡ ended env admin idx done (suc k) s
    unfolding pending_ids skips
    ended-pending w =
        ok_eq _ _ _ _ _ _ (omega arith)
          (ground (
            arith,
            append_assoc done ((idx + 1) ∷ []) (pending_ids (position s) (idx + 1) k),
            pending_ids-congr (position s) (position (bumped_at s idx env.timestamp p)) (idx + 1) k
                (λ i h. ground arith),
          ))
          (swept_next-pending env.timestamp idx k s.slots p at w)
          (ground (
            arith,
            skips-congr env admin (position s) (position (bumped_at s idx env.timestamp p))
                (idx + 1) k (λ i h. ground arith),
          ))

    ended-cancelled :
        p.status ≡ PositionStatus.cancelled
        → ended env admin (idx + 1) done k (record s {
          log = s.log ++ position_event Kind.skipped (idx + 1) admin env.timestamp ∷ [];
        })
          ≡ ended env admin idx done (suc k) s
    unfolding pending_ids skips
    ended-cancelled w =
        ok_eq _ _ _ _ _ _ (omega arith) (ground arith)
          (swept_next-other env.timestamp idx k s.slots p at (ground arith))
          (ground (
            arith,
            append_assoc s.log (position_event Kind.skipped (idx + 1) admin env.timestamp ∷ [])
                (skips env admin (position s) (idx + 1) k),
          ))

    ended-settled :
        is_pending p.status ≡ false
        → is_cancelled p.status ≡ false
        → ended env admin (idx + 1) done k s ≡ ended env admin idx done (suc k) s
    unfolding pending_ids skips
    ended-settled w c =
        ok_eq _ _ _ _ _ _ (omega arith) (ground arith)
          (swept_next-other env.timestamp idx k s.slots p at w) (ground arith)

ended_count :
    (env : Env) (admin idx : ℕ) (done : List ℕ) (s : Observed schema) {j k : ℕ}
    → j ≡ k
    → ended env admin idx done j s ≡ ended env admin idx done k s
ended_count env admin idx done s e = ap (λ k. ended env admin idx done k s) e

-- A status is pending, cancelled or settled.
status_cases :
    (status : PositionStatus)
    → (status ≡ PositionStatus.pending)
      ⊎ (status ≡ PositionStatus.cancelled)
      ⊎ ((is_pending status ≡ false) × (is_cancelled status ≡ false))
status_cases PositionStatus.pending = inl refl
status_cases PositionStatus.cancelled = inr (inl refl)
status_cases _ = inr (inr (refl, refl))

-- Over positions that all exist, the loop sweeps as many as it has rounds, or all that are left.
pub scan-sweeps :
    (n : ℕ) (env : Env) (admin total idx : ℕ) (done : List ℕ) (s : Observed schema)
    → total + 1 < 2 ^ 32
    → ((i : ℕ) → idx ≤ i → i < total → position s (i + 1) ≢ none)
    → exec (scan n env admin total idx done) s ≡ ended env admin idx done (min n (total - idx)) s
scan-sweeps zero env admin total idx done s fits full =
    ended_none env admin idx done s ∙ ended_count env admin idx done s (omega arith)
scan-sweeps (suc n) env admin total idx done s fits full = elim (dec_lt idx total) [
  | no stop ↦
      round_stop _ env admin total idx done s (omega arith)
      ∙ ended_none env admin idx done s
      ∙ ended_count env admin idx done s (omega arith)
  | yes more ↦ elim (Option-cases (position s (idx + 1))) [
    | inl missing ↦ absurd (full idx (omega arith) more missing)
    | inr (p, at) ↦ elim (status_cases p.status) [
      | inl w ↦
          round-pending _ env admin total idx done s p at more (omega arith) w
          ∙ scan-sweeps n env admin total (idx + 1) (done ++ (idx + 1) ∷ [])
              (bumped_at s idx env.timestamp p) fits (λ i low high. ground (arith, full i))
          ∙ ended-pending env admin idx done s (min n (total - (idx + 1))) p at w
          ∙ ended_count env admin idx done s (omega arith)
      | inr (inl c) ↦
          round-cancelled _ env admin total idx done s p at more (omega arith) c
          ∙ scan-sweeps n env admin total (idx + 1) done
              (record s {
                log = s.log ++ position_event Kind.skipped (idx + 1) admin env.timestamp ∷ [];
              })
              fits (λ i low high. full i (omega arith) high)
          ∙ ended-cancelled env admin idx done s (min n (total - (idx + 1))) p at c
          ∙ ended_count env admin idx done s (omega arith)
      | inr (inr (w, c)) ↦
          round-settled _ env admin total idx done s p at more (omega arith) w c
          ∙ scan-sweeps n env admin total (idx + 1) done s fits
              (λ i low high. full i (omega arith) high)
          ∙ ended-settled env admin idx done s (min n (total - (idx + 1))) p at w c
          ∙ ended_count env admin idx done s (omega arith)
    ]
  ]
]
