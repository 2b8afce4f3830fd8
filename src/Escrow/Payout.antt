-- ===== src/Escrow/Payout.antt =====
-- The settlement of an active record.
use line_proof.Base.{
  String, ℕ, ◌≡◌, refl, sym, ap, subst, ◌∙◌, some, Bool, true, false, ltb, arith, is_some,
  if◌then◌else◌,
}
use line_proof.Int.{ℤ, pos, ◌-ℤ◌, leb_ℤ, -ℤ_parts}
use line_proof.Soroban.Schema.{Observed}
use line_proof.Soroban.Program.{
  Env, Program, ◌>>=◌, ◌>>◌, returns, faults, panic_if, require_auth, panicked, unauthorized,
}
use line_proof.Soroban.Exec.{ok, fault, exec, exec-bind, and_then}
use line_proof.Escrow.Types.{EscrowStatus, EscrowRecord, Kind, schema, max_i128}
use line_proof.Escrow.Contract.{release, expire, load_record, settle, in_i128}
use line_proof.Escrow.Steps.{entry_of, total_held, settled}
use line_proof.Escrow.Backing.{worth, held-covers, IsBacked}

-- An active deposit is covered by the total of its queue.
covered :
    (s : Observed schema) (q i : ℕ) (entry : EscrowRecord)
    → IsBacked s q
    → entry_of s q i ≡ some entry
    → entry.status ≡ EscrowStatus.active
    → leb_ℤ entry.amount (total_held s q) ≡ true
covered s q i entry b at on =
    let w : worth (entry_of s q i) ≡ entry.amount = ground (arith, at, on) in
    subst (λ x. leb_ℤ x (total_held s q) ≡ true) w
      (subst (λ x. leb_ℤ (worth (entry_of s q i)) x ≡ true) (sym b.total)
        (held-covers (entry_of s q) i b.depositors b.positive (b.listed i ∙ ap is_some at)))

-- What is left of a total that covers an amount is an i128.
sub-in_i128 :
    (a b : ℤ)
    → leb_ℤ a max_i128 ≡ true
    → leb_ℤ b (pos 0) ≡ false
    → leb_ℤ b a ≡ true
    → in_i128 (a -ℤ b) ≡ true
unfolding in_i128
sub-in_i128 a b h k l = ground (arith, -ℤ_parts a b)

settle-runs :
    (env : Env) (i q : ℕ) (entry : EscrowRecord) (status : EscrowStatus) (kind : Kind)
    (s : Observed schema)
    → entry.status ≡ EscrowStatus.active
    → in_i128 (total_held s q -ℤ entry.amount) ≡ true
    → exec (settle env i q entry status kind) s ≡ ok tt (settled env i q entry status kind s)
settle-runs env i q entry status kind s on fits = ground arith

load_record-runs :
    (i q : ℕ) (entry : EscrowRecord) (s : Observed schema)
    → entry_of s q i ≡ some entry
    → exec (load_record i q) s ≡ ok entry s
load_record-runs i q entry s at = ground arith

by_sign :
    (b : Bool) (p : Program schema (Unit {0})) (s : Observed schema)
    → exec ((if b then returns tt else faults unauthorized) >> p) s
      ≡ (if b then exec p s else fault unauthorized)
by_sign true p s = refl
by_sign false p s = refl

awaits :
    (b : Bool) (message : String) (p : Program schema (Unit {0})) (s : Observed schema)
    → exec (panic_if b message >> p) s ≡ (if b then fault (panicked message) else exec p s)
awaits true message p s = refl
awaits false message p s = refl

signs :
    (env : Env) (who : ℕ) (p : Program schema (Unit {0})) (s : Observed schema)
    → exec (require_auth env who >> p) s
      ≡ (if env.has_auth who then exec p s else fault unauthorized)
signs env who p s = by_sign (env.has_auth who) p s

settles :
    (env : Env) (i q : ℕ) (entry : EscrowRecord) (status : EscrowStatus) (kind : Kind)
    (s : Observed schema)
    → IsBacked s q
    → entry_of s q i ≡ some entry
    → entry.status ≡ EscrowStatus.active
    → exec (settle env i q entry status kind) s ≡ ok tt (settled env i q entry status kind s)
settles env i q entry status kind s b at on = settle-runs env i q entry status kind s on (
    sub-in_i128 (total_held s q) entry.amount b.word (b.positive i entry at)
      (covered s q i entry b at on))

load-settles :
    (env : Env) (i q : ℕ) (entry : EscrowRecord) (status : EscrowStatus) (kind : Kind)
    (s : Observed schema)
    → IsBacked s q
    → entry_of s q i ≡ some entry
    → entry.status ≡ EscrowStatus.active
    → exec (load_record i q >>= λ e. settle env i q e status kind) s
      ≡ ok tt (settled env i q entry status kind s)
load-settles env i q entry status kind s b at on =
    let finish = λ (e : EscrowRecord). settle env i q e status kind in
    exec-bind (load_record i q) finish s
    ∙ ap (λ r. and_then r (λ e t. exec (finish e) t)) (load_record-runs i q entry s at)
    ∙ settles env i q entry status kind s b at on

-- Where the queue's total is the sum of its active deposits, releasing an active record succeeds if
-- the caller named has signed, with the record closed, the total lowered by its amount and one
-- event published; it is refused otherwise.
pub release-exact :
    (env : Env) (admin i q : ℕ) (entry : EscrowRecord) (s : Observed schema)
    → IsBacked s q
    → entry_of s q i ≡ some entry
    → entry.status ≡ EscrowStatus.active
    → exec (release env admin i q) s ≡ (
        if env.has_auth admin
        then ok tt (settled env i q entry EscrowStatus.released Kind.released s)
        else fault unauthorized)
unfolding release
release-exact env admin i q entry s b at on =
    let paid = load-settles env i q entry EscrowStatus.released Kind.released s b at on in
    signs env admin (load_record i q >>= λ e. settle env i q e EscrowStatus.released Kind.released)
      s
    ∙ ap (λ r. if env.has_auth admin then r else fault unauthorized) paid

-- Where the queue's total is the sum of its active deposits, anyone can expire an active record from
-- its expiry time on, with the record closed, the total lowered by its amount and one event
-- published; before that time the call is refused.
pub expire-exact :
    (env : Env) (i q : ℕ) (entry : EscrowRecord) (s : Observed schema)
    → IsBacked s q
    → entry_of s q i ≡ some entry
    → entry.status ≡ EscrowStatus.active
    → exec (expire env i q) s ≡ (
        if ltb env.timestamp entry.expires_at
        then fault (panicked "not expired")
        else ok tt (settled env i q entry EscrowStatus.expired Kind.expired s))
unfolding expire
expire-exact env i q entry s b at on =
    let finish = λ (e : EscrowRecord). settle env i q e EscrowStatus.expired Kind.expired in
    let due =
      λ (e : EscrowRecord). panic_if {S = schema} (ltb env.timestamp e.expires_at) "not expired" in
    exec-bind (load_record i q) (λ e. due e >> finish e) s
    ∙ ap (λ r. and_then r (λ e t. exec (due e >> finish e) t)) (load_record-runs i q entry s at)
    ∙ awaits (ltb env.timestamp entry.expires_at) "not expired" (finish entry) s
    ∙ ap (λ r. if ltb env.timestamp entry.expires_at then fault (panicked "not expired") else r)
        (settles env i q entry EscrowStatus.expired Kind.expired s b at on)
