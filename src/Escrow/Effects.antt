-- ===== src/Escrow/Effects.antt =====
-- What a returned call on the escrow contract has checked and done.
use line_proof.Base.{
  ◌^◌, ℕ, ◌+◌, ◌*◌, ◌<◌, ◌≤◌, ◌≡◌, some, true, false, ◌∙◌, ap, ap₂, sym, subst, arith, ltb,
}
use line_proof.Int.{ℤ, ◌+ℤ◌, ltb_ℤ}
use line_proof.Soroban.Schema.{Observed}
use line_proof.Soroban.Program.{Env, ◌>>=◌, ◌>>◌, panic_if}
use line_proof.Soroban.Exec.{ok, exec, exec-bind_ok}
use line_proof.Escrow.Types.{
  EscrowStatus, EscrowRecord, EscrowConfig, Kind, config_key, schema, assign,
}
use line_proof.Escrow.Contract.{
  deposit, settle, release, refund, expire, set_config, load_record, store_record, in_i128,
  admission, expiry, held_record, increment_total, emit,
}
use line_proof.Escrow.Steps.{
  entry_of, total_held, deposited, settled, store_record-ok, retotalled, increment_total-ok,
  rerecorded, told, report-ok, settle-ok, load_record-ok, signed-ok, due-ok, load_and_settle,
  load_and_settle-ok, Admits,
}

pub release-ok :
    (env : Env) (admin identity queue_id : ℕ) (s s' : Observed schema)
    → exec (release env admin identity queue_id) s ≡ ok tt s'
    → (entry : EscrowRecord) × (entry_of s queue_id identity ≡ some entry)
      × (env.has_auth admin ≡ true)
      × (entry.status ≡ EscrowStatus.active)
      × (s' ≡ settled env identity queue_id entry EscrowStatus.released Kind.released s)
unfolding release
release-ok env admin identity queue_id s s' h =
    let (signed, h1) =
      signed-ok env admin
        (load_and_settle env identity queue_id EscrowStatus.released Kind.released) s s' h in
    let (entry, at, on, after) =
      load_and_settle-ok env identity queue_id EscrowStatus.released Kind.released s s' h1 in
    (entry, at, signed, on, after)

pub refund-ok :
    (env : Env) (admin identity queue_id : ℕ) (s s' : Observed schema)
    → exec (refund env admin identity queue_id) s ≡ ok tt s'
    → (entry : EscrowRecord) × (entry_of s queue_id identity ≡ some entry)
      × (env.has_auth admin ≡ true)
      × (entry.status ≡ EscrowStatus.active)
      × (s' ≡ settled env identity queue_id entry EscrowStatus.refunded Kind.refunded s)
unfolding refund
refund-ok env admin identity queue_id s s' h =
    let (signed, h1) =
      signed-ok env admin
        (load_and_settle env identity queue_id EscrowStatus.refunded Kind.refunded) s s' h in
    let (entry, at, on, after) =
      load_and_settle-ok env identity queue_id EscrowStatus.refunded Kind.refunded s s' h1 in
    (entry, at, signed, on, after)

pub expire-ok :
    (env : Env) (identity queue_id : ℕ) (s s' : Observed schema)
    → exec (expire env identity queue_id) s ≡ ok tt s'
    → (entry : EscrowRecord) × (entry_of s queue_id identity ≡ some entry)
      × (entry.expires_at ≤ env.timestamp)
      × (entry.status ≡ EscrowStatus.active)
      × (s' ≡ settled env identity queue_id entry EscrowStatus.expired Kind.expired s)
unfolding expire
expire-ok env identity queue_id s s' h =
    let due =
      λ (e : EscrowRecord). panic_if {S = schema} (ltb env.timestamp e.expires_at) "not expired" in
    let finish =
      λ (e : EscrowRecord). settle env identity queue_id e EscrowStatus.expired Kind.expired in
    let (entry, t, loaded, h1) =
      exec-bind_ok (load_record identity queue_id) (λ e. due e >> finish e) s h in
    let (at, same) = load_record-ok identity queue_id entry s t loaded in
    let (_, u, guarded, h2) = exec-bind_ok (due entry) (λ _. finish entry) t h1 in
    let (late, same') = due-ok env entry t u guarded in
    let (on, after) =
      settle-ok env identity queue_id entry EscrowStatus.expired Kind.expired u s' h2 in
    (
      entry,
      at,
      late,
      on,
      after
          ∙ ap (settled env identity queue_id entry EscrowStatus.expired Kind.expired)
              (same' ∙ same),
    )

admission-ok :
    (env : Env) (caller queue_id : ℕ) (amount : ℤ) (c : EscrowConfig) (s s' : Observed schema)
    → exec (admission env caller queue_id amount) s ≡ ok c s'
    → Admits env caller queue_id amount c s × (s' ≡ s)
admission-ok env caller queue_id amount c s s' h = ground arith

expiry-ok :
    (env : Env) (c : EscrowConfig) (at : ℕ) (s s' : Observed schema)
    → exec (expiry env c) s ≡ ok at s'
    → (at ≡ env.timestamp + c.hold_period_days * 86400)
      × (env.timestamp + c.hold_period_days * 86400 < 2 ^ 64)
      × (s' ≡ s)
expiry-ok env c at s s' h = ground arith

pub deposit-ok :
    (env : Env) (caller queue_id : ℕ) (amount : ℤ) (asset : ℕ) (s s' : Observed schema)
    → exec (deposit env caller queue_id amount asset) s ≡ ok tt s'
    → (c : EscrowConfig) × Admits env caller queue_id amount c s
      × (env.timestamp + c.hold_period_days * 86400 < 2 ^ 64)
      × (in_i128 (total_held s queue_id +ℤ amount) ≡ true)
      × (s'
          ≡ deposited env caller queue_id amount
              (held_record env caller queue_id amount asset
                (env.timestamp + c.hold_period_days * 86400))
              s)
unfolding deposit
deposit-ok env caller queue_id amount asset s s' h =
    let count = increment_total queue_id amount in
    let report = emit Kind.deposited queue_id caller amount in
    let stored =
      λ (at : ℕ). store_record caller queue_id (held_record env caller queue_id amount asset at) in
    let (c, t, admitted, h1) =
      exec-bind_ok (admission env caller queue_id amount)
        (λ c. expiry env c >>= λ at. stored at >> count >> report) s h in
    let (admits, et) = admission-ok env caller queue_id amount c s t admitted in
    let (at, u, timed, h2) =
      exec-bind_ok (expiry env c) (λ at. stored at >> count >> report) t h1 in
    let (due, soon, eu) = expiry-ok env c at t u timed in
    let (_, v, put, h3) = exec-bind_ok (stored at) (λ _. count >> report) u h2 in
    let (_, w, counted, h4) = exec-bind_ok count (λ _. report) v h3 in
    let ev =
      store_record-ok caller queue_id (held_record env caller queue_id amount asset at) u v put in
    let (fits, ew) = increment_total-ok queue_id amount v w counted in
    let ex =
      ev
      ∙ ap₂ (λ n x. rerecorded queue_id caller (held_record env caller queue_id amount asset n) x)
          due (eu ∙ et) in
    let same_total : total_held v queue_id ≡ total_held s queue_id =
      ap (λ x. total_held x queue_id) ex in
    (
      c,
      admits,
      soon,
      subst (λ x. in_i128 (x +ℤ amount) ≡ true) same_total fits,
      sym (report-ok Kind.deposited queue_id caller amount w s' h4)
          ∙ ap (told Kind.deposited queue_id caller amount)
              (ew ∙ ap (λ x. retotalled x queue_id (total_held x queue_id +ℤ amount)) ex),
    )

pub set_config-ok :
    (env : Env) (admin : ℕ) (config : EscrowConfig) (s s' : Observed schema)
    → exec (set_config env admin config) s ≡ ok tt s'
    → (env.has_auth admin ≡ true)
      × (ltb_ℤ config.max_deposit config.min_deposit ≡ false)
      × (0 < config.hold_period_days)
      × (s' ≡ record s { slots = assign (config_key config.queue_id) (some config) s.slots })
unfolding set_config
set_config-ok env admin config s s' h = ground arith
