-- ===== src/Escrow/Steps.antt =====
-- The states that the escrow contract leads to, and what its private helpers have done when they
-- return.
use line_proof.Base.{
  ℕ, ◌≤◌, ◌≡◌, Option, none, some, true, false, ◌∙◌, ap, sym, subst, [], ◌∷◌, ◌++◌, arith, ltb, not,
  unwrap_or,
}
use line_proof.Int.{ℤ, pos, ◌+ℤ◌, ◌-ℤ◌, ltb_ℤ, leb_ℤ}
use line_proof.Soroban.Schema.{Observed}
use line_proof.Soroban.Program.{Env, Program, require_auth, ◌>>=◌, ◌>>◌, panic_if}
use line_proof.Soroban.Exec.{ok, exec, exec-bind_ok}
use line_proof.Escrow.Types.{
  EscrowStatus, EscrowRecord, EscrowConfig, Kind, escrow_event, record_key, config_key, total_key,
  schema, assign, is_active,
}
use line_proof.Escrow.Contract.{
  settle, load_record, store_record, in_i128, decrement_total, increment_total, emit,
}

abbrev pub entry_of : Observed schema → ℕ → ℕ → Option EscrowRecord
entry_of s queue_id identity = s.slots (record_key queue_id identity)

abbrev pub total_held : Observed schema → ℕ → ℤ
total_held s queue_id = unwrap_or (s.slots (total_key queue_id)) (pos 0)

-- What `deposit` has checked.
pub record Admits (env : Env) (caller queue_id : ℕ) (amount : ℤ) (c : EscrowConfig)
    (s : Observed schema) : Type 0 where
  pub configured : s.slots (config_key queue_id) ≡ some c
  pub signed : env.has_auth caller ≡ true
  pub positive : leb_ℤ amount (pos 0) ≡ false
  pub first : entry_of s queue_id caller ≡ none
  pub large : ltb_ℤ amount c.min_deposit ≡ false
  pub small : ltb_ℤ c.max_deposit amount ≡ false

abbrev pub deposited : Env → ℕ → ℕ → ℤ → EscrowRecord → Observed schema → Observed schema
deposited env caller queue_id amount entry s = record {
  slots =
      assign (total_key queue_id) (some (total_held s queue_id +ℤ amount))
        (assign (record_key queue_id caller) (some entry) s.slots);
  log = s.log ++ escrow_event Kind.deposited queue_id caller amount ∷ [];
}

-- A record as it is stored when it is settled.
abbrev pub closed : Env → EscrowRecord → EscrowStatus → EscrowRecord
closed env entry status = record entry { status = status; released_at = some env.timestamp }

abbrev pub settled :
    Env → ℕ → ℕ → EscrowRecord → EscrowStatus → Kind → Observed schema → Observed schema
settled env identity queue_id entry status kind s = record {
  slots =
      assign (total_key queue_id) (some (total_held s queue_id -ℤ entry.amount))
        (assign (record_key queue_id identity) (some (closed env entry status)) s.slots);
  log = s.log ++ escrow_event kind queue_id identity entry.amount ∷ [];
}

pub store_record-ok :
    (identity queue_id : ℕ) (entry : EscrowRecord) (s s' : Observed schema)
    → exec (store_record identity queue_id entry) s ≡ ok tt s'
    → s' ≡ record s { slots = assign (record_key queue_id identity) (some entry) s.slots }
store_record-ok identity queue_id entry s s' h = ground arith

abbrev pub retotalled : Observed schema → ℕ → ℤ → Observed schema
retotalled s queue_id total = record s { slots = assign (total_key queue_id) (some total) s.slots }

pub decrement_total-ok :
    (queue_id : ℕ) (amount : ℤ) (s s' : Observed schema)
    → exec (decrement_total queue_id amount) s ≡ ok tt s'
    → s' ≡ retotalled s queue_id (total_held s queue_id -ℤ amount)
decrement_total-ok queue_id amount s s' h = ground arith

pub increment_total-ok :
    (queue_id : ℕ) (amount : ℤ) (s s' : Observed schema)
    → exec (increment_total queue_id amount) s ≡ ok tt s'
    → (in_i128 (total_held s queue_id +ℤ amount) ≡ true)
      × (s' ≡ retotalled s queue_id (total_held s queue_id +ℤ amount))
increment_total-ok queue_id amount s s' h = ground arith

abbrev pub rerecorded : ℕ → ℕ → EscrowRecord → Observed schema → Observed schema
rerecorded queue_id identity entry s = record s {
  slots = assign (record_key queue_id identity) (some entry) s.slots;
}

abbrev pub told : Kind → ℕ → ℕ → ℤ → Observed schema → Observed schema
told kind queue_id identity amount s = record s {
  log = s.log ++ escrow_event kind queue_id identity amount ∷ [];
}

pub report-ok :
    (kind : Kind) (queue_id identity : ℕ) (amount : ℤ) (s s' : Observed schema)
    → exec (emit kind queue_id identity amount) s ≡ ok tt s'
    → told kind queue_id identity amount s ≡ s'
report-ok kind queue_id identity amount s s' h = cc

pub active_guard-ok :
    (status : EscrowStatus) (s s' : Observed schema)
    → exec (panic_if (not (is_active status)) "escrow not active") s ≡ ok tt s'
    → (status ≡ EscrowStatus.active) × (s' ≡ s)
active_guard-ok status s s' h = ground arith

pub settle-ok :
    (env : Env) (identity queue_id : ℕ) (entry : EscrowRecord) (status : EscrowStatus) (kind : Kind)
    (s s' : Observed schema)
    → exec (settle env identity queue_id entry status kind) s ≡ ok tt s'
    → (entry.status ≡ EscrowStatus.active)
      × (s' ≡ settled env identity queue_id entry status kind s)
settle-ok env identity queue_id entry status kind s s' h =
    let recount = decrement_total queue_id entry.amount in
    let report = emit kind queue_id identity entry.amount in
    let stored = store_record identity queue_id (closed env entry status) in
    let (_, t, guarded, h1) =
      exec-bind_ok (panic_if (not (is_active entry.status)) "escrow not active")
        (λ _. stored >> recount >> report) s h in
    let (_, u, at, h2) = exec-bind_ok stored (λ _. recount >> report) t h1 in
    let (_, v, counted, h3) = exec-bind_ok recount (λ _. report) u h2 in
    let (is_on, same) = active_guard-ok entry.status s t guarded in
    let eu = store_record-ok identity queue_id (closed env entry status) t u at in
    let ev = decrement_total-ok queue_id entry.amount u v counted in
    (
      is_on,
      sym (report-ok kind queue_id identity entry.amount v s' h3)
          ∙ ap (told kind queue_id identity entry.amount) (
              ev
              ∙ ap (λ w. retotalled w queue_id (total_held w queue_id -ℤ entry.amount))
                  (eu ∙ ap (rerecorded queue_id identity (closed env entry status)) same)),
    )

pub load_record-ok :
    (identity queue_id : ℕ) (entry : EscrowRecord) (s s' : Observed schema)
    → exec (load_record identity queue_id) s ≡ ok entry s'
    → (entry_of s queue_id identity ≡ some entry) × (s' ≡ s)
load_record-ok identity queue_id entry s s' h = ground arith

pub auth-ok :
    (env : Env) (who : ℕ) (s s' : Observed schema)
    → exec (require_auth {S = schema} env who) s ≡ ok tt s'
    → (env.has_auth who ≡ true) × (s' ≡ s)
auth-ok env who s s' h = ground arith

pub signed-ok :
    (env : Env) (who : ℕ) (p : Program schema (Unit {0})) (s s' : Observed schema)
    → exec (require_auth env who >> p) s ≡ ok tt s'
    → (env.has_auth who ≡ true) × (exec p s ≡ ok tt s')
signed-ok env who p s s' h =
    let (_, t, signed, rest) = exec-bind_ok (require_auth env who) (λ _. p) s h in
    let (yes_signed, same) = auth-ok env who s t signed in
    (yes_signed, subst (λ u. exec p u ≡ ok tt s') same rest)

pub due-ok :
    (env : Env) (entry : EscrowRecord) (s s' : Observed schema)
    → exec (panic_if {S = schema} (ltb env.timestamp entry.expires_at) "not expired") s ≡ ok tt s'
    → (entry.expires_at ≤ env.timestamp) × (s' ≡ s)
due-ok env entry s s' h = ground arith

abbrev pub load_and_settle : Env → ℕ → ℕ → EscrowStatus → Kind → Program schema (Unit {0})
load_and_settle env identity queue_id status kind = do
  entry ← load_record identity queue_id
  settle env identity queue_id entry status kind

pub load_and_settle-ok :
    (env : Env) (identity queue_id : ℕ) (status : EscrowStatus) (kind : Kind)
    (s s' : Observed schema)
    → exec (load_and_settle env identity queue_id status kind) s ≡ ok tt s'
    → (entry : EscrowRecord) × (entry_of s queue_id identity ≡ some entry)
      × (entry.status ≡ EscrowStatus.active)
      × (s' ≡ settled env identity queue_id entry status kind s)
load_and_settle-ok env identity queue_id status kind s s' h =
    let finish = λ (e : EscrowRecord). settle env identity queue_id e status kind in
    let (entry, t, loaded, h1) = exec-bind_ok (load_record identity queue_id) finish s h in
    let (at, same) = load_record-ok identity queue_id entry s t loaded in
    let (on, after) = settle-ok env identity queue_id entry status kind t s' h1 in
    (entry, at, on, after ∙ ap (settled env identity queue_id entry status kind) same)
