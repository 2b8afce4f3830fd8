-- ===== src/Enrollment/Counts.antt =====
-- The people enrolled as a finite set, which forgets in which order they came, and the stored count.
use line_proof.Base.{
  ℕ, ◌+◌, ◌≤◌, ◌≡◌, sym, ◌∙◌, IsDistinct, FiniteSet, set_of, is_member, size, FiniteSet-ext,
}
use line_proof.Soroban.Schema.{Observed}
use line_proof.Enrollment.Types.{schema}
use line_proof.Enrollment.Storage.{is_live}
use line_proof.Enrollment.Effects.{entry_of, count_of, waitlist_of}
use line_proof.Enrollment.Calls.{Reach}
use line_proof.Enrollment.Tally.{Reach-IsTallied}

-- In every history, for each queue there is exactly one finite set of the identities with a record
-- that is not cancelled; the stored count is at least its size, and exceeds it by no more than the
-- promotions that were asked for; and nobody stands on the waitlist of a queue twice.
pub Reach-counts :
    (n : ℕ) (s : Observed schema) (q : ℕ)
    → Reach n s
    → (x : FiniteSet) × ((i : ℕ) → is_member i x ≡ is_live (entry_of s q i))
      × ((y : FiniteSet) → ((i : ℕ) → is_member i y ≡ is_live (entry_of s q i)) → y ≡ x)
      × (size x ≤ count_of s q)
      × (count_of s q ≤ size x + n)
      × IsDistinct (waitlist_of s q)
Reach-counts n s q r =
    let t = Reach-IsTallied r in
    let x : FiniteSet = set_of (t.roster q) (t.distinct q) in
    (
      x,
      (λ i. t.members q i),
      (λ y members. FiniteSet-ext y x (λ i. members i ∙ sym (t.members q i))),
      t.covered q,
      t.tight q,
      t.lined q,
    )
