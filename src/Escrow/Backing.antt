-- ===== src/Escrow/Backing.antt =====
-- What it means that the running total of a queue is backed, and sums over its records.
use line_proof.Base.{
  ℕ, ◌≡◌, ◌≢◌, refl, sym, ap, ap₂, subst, ◌∙◌, Option, none, some, true, false, List, [], ◌∷◌,
  arith, is_some, contains, IsDistinct, inl, inr, Option-cases, if◌then◌else◌, ℕ_discrete,
}
use line_proof.Int.{ℤ, pos, ◌+ℤ◌, ◌-ℤ◌, leb_ℤ, int_laws, +ℤ_parts}
use line_proof.Soroban.Schema.{Observed}
use line_proof.Escrow.Types.{EscrowRecord, is_active, schema, max_i128}
use line_proof.Escrow.Steps.{entry_of, total_held}

-- What a record holds: its amount while it is active.
abbrev pub worth : Option EscrowRecord → ℤ
worth none = pos 0
worth (some entry) = if is_active entry.status then entry.amount else pos 0

-- The sum of what the records of these identities hold.
unfoldable pub held : (ℕ → Option EscrowRecord) → List ℕ → ℤ
held m [] = pos 0
held m (identity ∷ ids) = held m ids +ℤ worth (m identity)

-- `depositors` are the identities with a record, each once; the total is what they hold.
pub record IsBacked (s : Observed schema) (queue_id : ℕ) : Type 0 where
  pub depositors : List ℕ
  pub distinct : IsDistinct depositors
  pub listed : (i : ℕ) → contains i depositors ≡ is_some (entry_of s queue_id i)
  pub total : total_held s queue_id ≡ held (entry_of s queue_id) depositors
  pub positive :
      (i : ℕ) (entry : EscrowRecord)
      → entry_of s queue_id i ≡ some entry
      → leb_ℤ entry.amount (pos 0) ≡ false
  pub word : leb_ℤ (total_held s queue_id) max_i128 ≡ true

-- Only the records of the identities listed count.
pub held-congr :
    (m m' : ℕ → Option EscrowRecord) (ids : List ℕ)
    → ((i : ℕ) → contains i ids ≡ true → m' i ≡ m i)
    → held m' ids ≡ held m ids
unfolding held
held-congr m m' [] e = refl
held-congr m m' (x ∷ xs) e =
    let here : m' x ≡ m x = e x (ground arith) in
    let there = held-congr m m' xs (λ i h. e i (ground arith)) in λ i. there i +ℤ worth (here i)

cancel_back : (a w : ℤ) → a +ℤ pos 0 ≡ (a +ℤ w) -ℤ w
cancel_back a w = grind int_laws

sub_swap : (a w v : ℤ) → (a -ℤ v) +ℤ w ≡ (a +ℤ w) -ℤ v
sub_swap a w v = grind int_laws

add-sub : (a' a w' w v : ℤ) → a' ≡ a → w' ≡ pos 0 → w ≡ v → a' +ℤ w' ≡ (a +ℤ w) -ℤ v
add-sub a' a w' w v e z f = ap₂ (λ x y. x +ℤ y) e z ∙ cancel_back a w ∙ ap (λ x. (a +ℤ w) -ℤ x) f

sub-add : (a' a w' w v : ℤ) → a' ≡ a -ℤ v → w' ≡ w → a' +ℤ w' ≡ (a +ℤ w) -ℤ v
sub-add a' a w' w v e f = ap₂ (λ x y. x +ℤ y) e f ∙ sub_swap a w v

-- Settling a record takes off what it held.
pub held-settle :
    (m m' : ℕ → Option EscrowRecord) (j : ℕ) (ids : List ℕ)
    → IsDistinct ids
    → contains j ids ≡ true
    → worth (m' j) ≡ pos 0
    → ((i : ℕ) → i ≢ j → m' i ≡ m i)
    → held m' ids ≡ held m ids -ℤ worth (m j)
unfolding held
held-settle m m' j [] d h w e = absurd (cc)
held-settle m m' j (x ∷ xs) d h w e = elim (ℕ_discrete x j) [
  | yes here ↦
      let rest : held m' xs ≡ held m xs =
        held-congr m m' xs (λ i b. e i (λ same. ground (arith, d.0))) in
      let zeroed : worth (m' x) ≡ pos 0 = subst (λ i. worth (m' i) ≡ pos 0) (sym here) w in
      let same : worth (m x) ≡ worth (m j) = ap (λ i. worth (m i)) here in
      add-sub (held m' xs) (held m xs) (worth (m' x)) (worth (m x)) (worth (m j)) rest zeroed same
  | no other ↦
      let rest = held-settle m m' j xs d.1 (ground arith) w e in
      let same : worth (m' x) ≡ worth (m x) = ap worth (e x other) in
      sub-add (held m' xs) (held m xs) (worth (m' x)) (worth (m x)) (worth (m j)) rest same
]

-- A new record adds what it holds.
pub held-deposit :
    (m m' : ℕ → Option EscrowRecord) (j : ℕ) (ids : List ℕ) (a : ℤ)
    → contains j ids ≡ false
    → worth (m' j) ≡ a
    → ((i : ℕ) → i ≢ j → m' i ≡ m i)
    → held m' (j ∷ ids) ≡ held m ids +ℤ a
unfolding held
held-deposit m m' j ids a new w e =
    ap₂ (λ x y. x +ℤ y) (held-congr m m' ids (λ i b. e i (λ same. absurd (cc)))) w

amount-nonneg :
    (e : EscrowRecord) → leb_ℤ e.amount (pos 0) ≡ false → leb_ℤ (pos 0) (worth (some e)) ≡ true
amount-nonneg e h = ground arith

add-nonneg :
    (a b : ℤ) → leb_ℤ (pos 0) a ≡ true → leb_ℤ (pos 0) b ≡ true → leb_ℤ (pos 0) (a +ℤ b) ≡ true
add-nonneg a b h k = ground (arith, +ℤ_parts a b)

add-covers-right : (a b : ℤ) → leb_ℤ (pos 0) a ≡ true → leb_ℤ b (a +ℤ b) ≡ true
add-covers-right a b h = ground (arith, +ℤ_parts a b)

add-covers : (c a b : ℤ) → leb_ℤ c a ≡ true → leb_ℤ (pos 0) b ≡ true → leb_ℤ c (a +ℤ b) ≡ true
add-covers c a b h k = ground (arith, +ℤ_parts a b)

worth-nonneg :
    (m : ℕ → Option EscrowRecord) (i : ℕ)
    → ((e : EscrowRecord) → m i ≡ some e → leb_ℤ e.amount (pos 0) ≡ false)
    → leb_ℤ (pos 0) (worth (m i)) ≡ true
worth-nonneg m i h = elim (Option-cases (m i)) [
  | inl missing ↦ rw missing refl
  | inr (e, at) ↦ rw at (amount-nonneg e (h e at))
]

held-nonneg :
    (m : ℕ → Option EscrowRecord) (ids : List ℕ)
    → ((i : ℕ) (e : EscrowRecord) → m i ≡ some e → leb_ℤ e.amount (pos 0) ≡ false)
    → leb_ℤ (pos 0) (held m ids) ≡ true
unfolding held
held-nonneg m [] h = refl
held-nonneg m (x ∷ xs) h =
    add-nonneg (held m xs) (worth (m x)) (held-nonneg m xs h) (worth-nonneg m x (h x))

-- A record listed holds no more than all together.
pub held-covers :
    (m : ℕ → Option EscrowRecord) (j : ℕ) (ids : List ℕ)
    → ((i : ℕ) (e : EscrowRecord) → m i ≡ some e → leb_ℤ e.amount (pos 0) ≡ false)
    → contains j ids ≡ true
    → leb_ℤ (worth (m j)) (held m ids) ≡ true
unfolding held
held-covers m j [] h c = absurd (cc)
held-covers m j (x ∷ xs) h c = elim (ℕ_discrete x j) [
  | yes here ↦
      subst (λ i. leb_ℤ (worth (m i)) (held m xs +ℤ worth (m x)) ≡ true) here
        (add-covers-right (held m xs) (worth (m x)) (held-nonneg m xs h))
  | no other ↦
      add-covers (worth (m j)) (held m xs) (worth (m x)) (held-covers m j xs h (ground arith))
        (worth-nonneg m x (h x))
]
