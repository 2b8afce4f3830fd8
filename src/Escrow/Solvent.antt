-- ===== src/Escrow/Solvent.antt =====
-- The totals of the escrow contract and its active deposits, call by call.
use line_proof.Base.{
  ℕ, ◌+◌, ◌*◌, ◌≡◌, refl, sym, ap, ap₂, subst, ◌∙◌, none, some, true, false, [], ◌∷◌, arith,
  is_some, ℕ_discrete,
}
use line_proof.Int.{ℤ, pos, ◌+ℤ◌, ◌-ℤ◌, leb_ℤ, -ℤ_parts}
use line_proof.Soroban.Schema.{Observed}
use line_proof.Soroban.Program.{Env}
use line_proof.Soroban.Exec.{ok, exec, blank}
use line_proof.Escrow.Types.{EscrowStatus, EscrowRecord, Kind, is_active, schema, max_i128}
use line_proof.Escrow.Contract.{held_record, in_i128}
use line_proof.Escrow.Effects.{deposit-ok, release-ok, refund-ok, expire-ok, set_config-ok}
use line_proof.Escrow.Steps.{entry_of, total_held, deposited, settled}
use line_proof.Escrow.Calls.{
  Call, deposit_call, release_call, refund_call, expire_call, set_config_call, invoke, Reach, fresh,
  later,
}
use line_proof.Escrow.Backing.{held, held-congr, held-settle, held-deposit, IsBacked}

-- A queue whose records and total are untouched stays backed.
same-IsBacked :
    (s s' : Observed schema) (q : ℕ)
    → ((i : ℕ) → entry_of s' q i ≡ entry_of s q i)
    → total_held s' q ≡ total_held s q
    → IsBacked s q
    → IsBacked s' q
same-IsBacked s s' q e t b = record {
  depositors = b.depositors;
  distinct = b.distinct;
  listed = λ i. b.listed i ∙ ap is_some (sym (e i));
  total = t ∙ b.total ∙ sym (held-congr (entry_of s q) (entry_of s' q) b.depositors (λ i h. e i));
  positive = λ i entry h. b.positive i entry (sym (e i) ∙ h);
  word = subst (λ x. leb_ℤ x max_i128 ≡ true) (sym t) b.word;
}

sub-word :
    (a b : ℤ) → leb_ℤ a max_i128 ≡ true → leb_ℤ b (pos 0) ≡ false → leb_ℤ (a -ℤ b) max_i128 ≡ true
sub-word a b h k = ground (arith, -ℤ_parts a b)

in_i128-word : (a : ℤ) → in_i128 a ≡ true → leb_ℤ a max_i128 ≡ true
unfolding in_i128
in_i128-word a h = ground arith

settled_total :
    (env : Env) (identity queue_id : ℕ) (entry : EscrowRecord) (status : EscrowStatus) (kind : Kind)
    (s : Observed schema)
    → total_held (settled env identity queue_id entry status kind s) queue_id
      ≡ total_held s queue_id -ℤ entry.amount
settled_total env identity queue_id entry status kind s = ground arith

deposited_total :
    (env : Env) (caller queue_id : ℕ) (amount : ℤ) (entry : EscrowRecord) (s : Observed schema)
    → total_held (deposited env caller queue_id amount entry s) queue_id
      ≡ total_held s queue_id +ℤ amount
deposited_total env caller queue_id amount entry s = ground arith

settled-IsBacked :
    (env : Env) (identity queue_id : ℕ) (entry : EscrowRecord) (status : EscrowStatus) (kind : Kind)
    (s : Observed schema)
    → entry_of s queue_id identity ≡ some entry
    → entry.status ≡ EscrowStatus.active
    → is_active status ≡ false
    → ((q : ℕ) → IsBacked s q)
    → (q : ℕ) → IsBacked (settled env identity queue_id entry status kind s) q
settled-IsBacked env identity queue_id entry status kind s at on off b q =
    let s' = settled env identity queue_id entry status kind s in
    elim (ℕ_discrete queue_id q) [
      | no other ↦ same-IsBacked s s' q (λ i. ground arith) (ground arith) (b q)
      | yes same ↦ subst (IsBacked s') same (record {
        depositors = (b queue_id).depositors;
        distinct = (b queue_id).distinct;
        listed = λ i. ground (arith, (b queue_id).listed i);
        total =
            settled_total env identity queue_id entry status kind s
            ∙ ap₂ (λ x y. x -ℤ y) (b queue_id).total (ground (arith, at, on))
            ∙ sym (
                held-settle (entry_of s queue_id) (entry_of s' queue_id) identity
                  (b queue_id).depositors (b queue_id).distinct
                  ((b queue_id).listed identity ∙ ap is_some at) (ground (arith, off))
                  (λ i n. ground arith));
        positive = λ i found h. elim (ℕ_discrete identity i) [
          | yes here ↦ ground (arith, (b queue_id).positive identity entry at)
          | no there ↦ (b queue_id).positive i found (ground arith)
        ];
        word =
            subst (λ x. leb_ℤ x max_i128 ≡ true)
              (sym (settled_total env identity queue_id entry status kind s))
              (sub-word (total_held s queue_id) entry.amount (b queue_id).word
                ((b queue_id).positive identity entry at));
      })
    ]

deposited-IsBacked :
    (env : Env) (caller queue_id : ℕ) (amount : ℤ) (entry : EscrowRecord) (s : Observed schema)
    → entry_of s queue_id caller ≡ none
    → entry.status ≡ EscrowStatus.active
    → entry.amount ≡ amount
    → leb_ℤ amount (pos 0) ≡ false
    → in_i128 (total_held s queue_id +ℤ amount) ≡ true
    → ((q : ℕ) → IsBacked s q)
    → (q : ℕ) → IsBacked (deposited env caller queue_id amount entry s) q
deposited-IsBacked env caller queue_id amount entry s new on has up fits b q =
    let s' = deposited env caller queue_id amount entry s in
    elim (ℕ_discrete queue_id q) [
      | no other ↦ same-IsBacked s s' q (λ i. ground arith) (ground arith) (b q)
      | yes same ↦ subst (IsBacked s') same (record {
        depositors = caller ∷ (b queue_id).depositors;
        distinct = (((b queue_id).listed caller ∙ ap is_some new), (b queue_id).distinct);
        listed = λ i. ground (arith, (b queue_id).listed i);
        total =
            deposited_total env caller queue_id amount entry s
            ∙ ap (λ x. x +ℤ amount) (b queue_id).total
            ∙ sym (
                held-deposit (entry_of s queue_id) (entry_of s' queue_id) caller
                  (b queue_id).depositors amount ((b queue_id).listed caller ∙ ap is_some new)
                  (ground arith) (λ i n. ground arith));
        positive = λ i found h. elim (ℕ_discrete caller i) [
          | yes here ↦ ground arith
          | no there ↦ (b queue_id).positive i found (ground arith)
        ];
        word =
            subst (λ x. leb_ℤ x max_i128 ≡ true)
              (sym (deposited_total env caller queue_id amount entry s))
              (in_i128-word (total_held s queue_id +ℤ amount) fits);
      })
    ]

-- From storage in which every queue's total is the sum of its active deposits, each of a positive
-- amount, and fits an i128, every call that returns leads to such storage.
pub invoke-IsBacked :
    (env : Env) (call : Call) (s s' : Observed schema)
    → ((q : ℕ) → IsBacked s q)
    → exec (invoke env call) s ≡ ok tt s'
    → (q : ℕ) → IsBacked s' q
unfolding invoke
invoke-IsBacked env (deposit_call caller queue_id amount asset) s s' b h q =
    let (c, admits, soon, fits, after) = deposit-ok env caller queue_id amount asset s s' h in
    subst (λ t. IsBacked t q) (sym after)
      (deposited-IsBacked env caller queue_id amount
        (held_record env caller queue_id amount asset (env.timestamp + c.hold_period_days * 86400))
        s admits.first refl refl admits.positive fits b q)
invoke-IsBacked env (release_call admin identity queue_id) s s' b h q =
    let (entry, at, signed, on, after) = release-ok env admin identity queue_id s s' h in
    subst (λ t. IsBacked t q) (sym after)
      (settled-IsBacked env identity queue_id entry EscrowStatus.released Kind.released s at on refl
        b q)
invoke-IsBacked env (refund_call admin identity queue_id) s s' b h q =
    let (entry, at, signed, on, after) = refund-ok env admin identity queue_id s s' h in
    subst (λ t. IsBacked t q) (sym after)
      (settled-IsBacked env identity queue_id entry EscrowStatus.refunded Kind.refunded s at on refl
        b q)
invoke-IsBacked env (expire_call identity queue_id) s s' b h q =
    let (entry, at, late, on, after) = expire-ok env identity queue_id s s' h in
    subst (λ t. IsBacked t q) (sym after)
      (settled-IsBacked env identity queue_id entry EscrowStatus.expired Kind.expired s at on refl b
        q)
invoke-IsBacked env (set_config_call admin config) s s' b h q =
    let (signed, ordered, period, after) = set_config-ok env admin config s s' h in
    subst (λ t. IsBacked t q) (sym after) (same-IsBacked s _ q (λ i. refl) refl (b q))

blank-IsBacked : (q : ℕ) → IsBacked blank q
unfolding held
blank-IsBacked q = record {
  depositors = [];
  distinct = tt;
  listed = λ i. refl;
  total = refl;
  positive = λ i entry h. absurd (cc);
  word = refl;
}

-- In every reachable state each queue's total is the sum of the amounts of its active records, taken
-- over the identities with a record, each once; every recorded amount is positive, and the total is
-- at most the largest i128.
pub Reach-IsBacked : (s : Observed schema) → Reach s → (q : ℕ) → IsBacked s q
Reach-IsBacked _ fresh q = blank-IsBacked q
Reach-IsBacked _ (later env call {s} {s'} r h) q =
    invoke-IsBacked env call s s' (Reach-IsBacked s r) h q
