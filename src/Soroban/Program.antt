-- ===== src/Soroban/Program.antt =====
-- The calls that a contract makes of the SDK, as programs over a schema.
use line_proof.Base.{
  is_some, ℕ, ◌^◌, Bool, true, false, Option, none, some, String, if◌then◌else◌, ltb,
}
use line_proof.Soroban.Schema.{Schema}

-- Why a call is rolled back: a `panic!`, a signature that is not there, an arithmetic overflow
-- (the release profile has `overflow-checks`), an `unwrap` of `None`, a TTL extension of an entry
-- that does not exist, a deployment that the host refuses.
pub data Fault : Type 0 where
  panicked : String → Fault
  unauthorized overflowed unwrapped_none missing_entry not_deployed : Fault

pub data Program (S : Schema) (A : Type 0) : Type 0 where
  returns : A → Program S A
  faults : Fault → Program S A
  read : (k : S.Key) → (Option (S.Value k) → Program S A) → Program S A
  write : (k : S.Key) → S.Value k → Program S A → Program S A
  delete : S.Key → Program S A → Program S A
  extend : S.Key → ℕ → ℕ → Program S A → Program S A
  extend_instance : ℕ → ℕ → Program S A → Program S A
  emits : S.Event → Program S A → Program S A

-- What the host fixes for one invocation: the ledger's time, the contract's own address, the
-- addresses whose authorization the invocation carries, and the SDK functions that compute values.
pub record Env : Type 0 where
  pub timestamp : ℕ
  pub current_contract_address : ℕ
  pub has_auth : ℕ → Bool
  pub symbol : String → ℕ
  -- sha256 of the XDR of (identity, queue_id, enrolled_at)
  pub sha256_xdr : ℕ → ℕ → ℕ → ℕ
  -- `deployer().with_current_contract(salt).deploy(wasm_hash)`; `none` if the host refuses
  pub deploy : ℕ → ℕ → Option ℕ

module _ {S : Schema} where
  infixl 5 ◌>>=◌ ◌>>◌
  abbrev pub ◌>>=◌ : {A B : Type 0} → Program S A → (A → Program S B) → Program S B
  returns a >>= f = f a
  faults e >>= f = faults e
  read k g >>= f = read k (λ v. g v >>= f)
  write k v p >>= f = write k v (p >>= f)
  delete k p >>= f = delete k (p >>= f)
  extend k a b p >>= f = extend k a b (p >>= f)
  extend_instance a b p >>= f = extend_instance a b (p >>= f)
  emits e p >>= f = emits e (p >>= f)

  abbrev pub ◌>>◌ : {A B : Type 0} → Program S A → Program S B → Program S B
  m >> k = m >>= λ _. k

  abbrev pub panic : {A : Type 0} → String → Program S A
  panic message = faults (panicked message)

  abbrev pub panic_if : Bool → String → Program S (Unit {0})
  panic_if true message = panic message
  panic_if false message = returns tt

  -- `env.storage().persistent().get(&k)`
  abbrev pub get : (k : S.Key) → Program S (Option (S.Value k))
  get k = read k returns

  -- `env.storage().persistent().has(&k)`
  abbrev pub has : S.Key → Program S Bool
  has k = read k (λ v. returns (is_some v))

  -- `get` with `unwrap_or_else(|| panic!(message))`
  abbrev pub expect : {A : Type 0} → Option A → String → Program S A
  expect none message = panic message
  expect (some a) message = returns a

  abbrev pub unwrap : {A : Type 0} → Option A → Program S A
  unwrap none = faults unwrapped_none
  unwrap (some a) = returns a

  abbrev pub set : (k : S.Key) → S.Value k → Program S (Unit {0})
  set k v = write k v (returns tt)

  abbrev pub remove : S.Key → Program S (Unit {0})
  remove k = delete k (returns tt)

  abbrev pub extend_ttl : S.Key → ℕ → ℕ → Program S (Unit {0})
  extend_ttl k threshold extend_to = extend k threshold extend_to (returns tt)

  abbrev pub extend_instance_ttl : ℕ → ℕ → Program S (Unit {0})
  extend_instance_ttl threshold extend_to = extend_instance threshold extend_to (returns tt)

  abbrev pub publish : S.Event → Program S (Unit {0})
  publish e = emits e (returns tt)

  -- `address.require_auth()`
  abbrev pub require_auth : Env → ℕ → Program S (Unit {0})
  require_auth env address = if env.has_auth address then returns tt else faults unauthorized

  -- Checked `+` and `*` of an unsigned word of `w` bits.
  abbrev pub checked : ℕ → ℕ → Program S ℕ
  checked w n = if ltb n (2 ^ w) then returns n else faults overflowed
