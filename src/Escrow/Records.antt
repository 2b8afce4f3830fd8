-- ===== src/Escrow/Records.antt =====
-- What calls do to an escrow record once it is there.
use line_proof.Base.{
  ℕ, ◌+◌, ◌*◌, ◌≡◌, ◌⊎◌, inl, inr, refl, sym, subst, none, some, false, arith, ℕ_discrete,
}
use line_proof.Int.{ℤ}
use line_proof.Soroban.Schema.{Observed}
use line_proof.Soroban.Program.{Env}
use line_proof.Soroban.Exec.{ok, exec}
use line_proof.Escrow.Types.{EscrowStatus, EscrowRecord, Kind, is_active, schema}
use line_proof.Escrow.Contract.{held_record}
use line_proof.Escrow.Effects.{deposit-ok, release-ok, refund-ok, expire-ok, set_config-ok}
use line_proof.Escrow.Steps.{entry_of, deposited, settled, closed}
use line_proof.Escrow.Calls.{
  Call, deposit_call, release_call, refund_call, expire_call, set_config_call, invoke,
}

-- The record is unchanged, or it was active and has been closed now.
abbrev pub Continues : Env → EscrowRecord → EscrowRecord → Type 0
Continues env entry next =
    (next ≡ entry)
    ⊎ ((entry.status ≡ EscrowStatus.active)
        × ((status : EscrowStatus) × (is_active status ≡ false) × (next ≡ closed env entry status)))

abbrev Remains : Env → Observed schema → ℕ → ℕ → EscrowRecord → Type 0
Remains env s q i entry =
    (next : EscrowRecord) × (entry_of s q i ≡ some next) × Continues env entry next

settled-Remains :
    (env : Env) (identity queue_id : ℕ) (entry : EscrowRecord) (status : EscrowStatus) (kind : Kind)
    (s : Observed schema) (q i : ℕ) (e : EscrowRecord)
    → entry_of s queue_id identity ≡ some entry
    → entry.status ≡ EscrowStatus.active
    → is_active status ≡ false
    → entry_of s q i ≡ some e
    → Remains env (settled env identity queue_id entry status kind s) q i e
settled-Remains env identity queue_id entry status kind s q i e at on off found =
    elim (ℕ_discrete queue_id q) [
      | no other ↦ (e, ground arith, inl refl)
      | yes same ↦ elim (ℕ_discrete identity i) [
        | no there ↦ (e, ground arith, inl refl)
        | yes here ↦
            let is_e : entry ≡ e = cc in
            (
              closed env entry status,
              ground arith,
              subst (λ x. Continues env x (closed env entry status)) is_e
                  (inr (on, (status, off, refl))),
            )
      ]
    ]

deposited-Remains :
    (env : Env) (caller queue_id : ℕ) (amount : ℤ) (entry : EscrowRecord) (s : Observed schema)
    (q i : ℕ) (e : EscrowRecord)
    → entry_of s queue_id caller ≡ none
    → entry_of s q i ≡ some e
    → Remains env (deposited env caller queue_id amount entry s) q i e
deposited-Remains env caller queue_id amount entry s q i e new found =
    elim (ℕ_discrete queue_id q) [
      | no other ↦ (e, ground arith, inl refl)
      | yes same ↦ elim (ℕ_discrete caller i) [
        | no there ↦ (e, ground arith, inl refl)
        | yes here ↦ absurd (cc)
      ]
    ]

-- After any call that returns, a record that was stored is stored still: unchanged, or, if it was
-- active, closed with a status that is not active, the time of the call, and all else as before.
pub invoke-Remains :
    (env : Env) (call : Call) (s s' : Observed schema) (q i : ℕ) (entry : EscrowRecord)
    → entry_of s q i ≡ some entry
    → exec (invoke env call) s ≡ ok tt s'
    → (next : EscrowRecord) × (entry_of s' q i ≡ some next) × Continues env entry next
unfolding invoke
invoke-Remains env (deposit_call caller queue_id amount asset) s s' q i e found h =
    let (c, admits, soon, fits, after) = deposit-ok env caller queue_id amount asset s s' h in
    subst (λ t. Remains env t q i e) (sym after)
      (deposited-Remains env caller queue_id amount
        (held_record env caller queue_id amount asset (env.timestamp + c.hold_period_days * 86400))
        s q i e admits.first found)
invoke-Remains env (release_call admin identity queue_id) s s' q i e found h =
    let (entry, at, signed, on, after) = release-ok env admin identity queue_id s s' h in
    subst (λ t. Remains env t q i e) (sym after)
      (settled-Remains env identity queue_id entry EscrowStatus.released Kind.released s q i e at on
        refl found)
invoke-Remains env (refund_call admin identity queue_id) s s' q i e found h =
    let (entry, at, signed, on, after) = refund-ok env admin identity queue_id s s' h in
    subst (λ t. Remains env t q i e) (sym after)
      (settled-Remains env identity queue_id entry EscrowStatus.refunded Kind.refunded s q i e at on
        refl found)
invoke-Remains env (expire_call identity queue_id) s s' q i e found h =
    let (entry, at, late, on, after) = expire-ok env identity queue_id s s' h in
    subst (λ t. Remains env t q i e) (sym after)
      (settled-Remains env identity queue_id entry EscrowStatus.expired Kind.expired s q i e at on
        refl found)
invoke-Remains env (set_config_call admin config) s s' q i e found h =
    let (signed, ordered, period, after) = set_config-ok env admin config s s' h in
    subst (λ t. Remains env t q i e) (sym after) (e, found, inl refl)
