-- ===== src/Queue/Keeps.antt =====
-- The well-formedness of storage under each change that an entry point makes.
use line_proof.Base.{
  Option, ℕ, zero, suc, ◌+◌, ◌-◌, ◌^◌, ◌<◌, ◌≡◌, refl, sym, ◌∙◌, some, true, List, arith,
}
use line_proof.Soroban.Schema.{Observed}
use line_proof.Soroban.Program.{Env}
use line_proof.Soroban.Exec.{blank}
use line_proof.Queue.Types.{
  QueueConfig, QueueStatus, Position, PositionStatus, Event, schema, config_key, version_key,
  pending_key, assign, is_draft, is_enrollment_open,
}
use line_proof.Queue.Invariant.{
  IsValid, position, total, cursor, active_count, next_id, occupied, occupied-congr, occupied-free,
  occupied-join,
}
use line_proof.Queue.Effects.Admin.{begun}
use line_proof.Queue.Sweep.{swept-from}
use line_proof.Queue.Effects.Advance.{MayAdvance, served, reach}
use line_proof.Queue.Effects.Positions.{joined, left, lapsed}

-- The same contents under another log.
pub log-IsValid :
    (s : Observed schema) (l : List Event) → IsValid s → IsValid (record s { log = l })
log-IsValid s l v = record {
  started = v.started;
  word = v.word;
  filled = v.filled;
  unfilled = v.unfilled;
  no_zero = v.no_zero;
  numbered = v.numbered;
  counted = v.counted;
  capped = v.capped;
  behind = v.behind;
  passed = v.passed;
  served = v.served;
  unserved = v.unserved;
  unopened = v.unopened;
}

-- A configuration of the same capacity whose status fits the cursor and the positions.
pub config-IsValid :
    (s : Observed schema) (c c' : QueueConfig) (l : List Event)
    → IsValid s
    → s.slots config_key ≡ some c
    → c'.max_positions ≡ c.max_positions
    → (is_enrollment_open c'.status ≡ true → cursor s ≡ 0)
    → (is_draft c'.status ≡ true → (cursor s ≡ 0) × (total s ≡ 0))
    → IsValid (record { slots = assign config_key (some c') s.slots; log = l })
config-IsValid s c c' l v at same opened drafted = record {
  started = v.started;
  word = v.word;
  filled = v.filled;
  unfilled = v.unfilled;
  no_zero = v.no_zero;
  numbered = v.numbered;
  counted = v.counted;
  capped = λ d e. ground (arith, v.capped c at);
  behind = v.behind;
  passed = v.passed;
  served = v.served;
  unserved = λ d e. ground arith;
  unopened = λ d e. ground arith;
}

pub version-IsValid :
    (s : Observed schema) (version : ℕ) (l : List Event)
    → IsValid s
    → IsValid (record { slots = assign version_key (some version) s.slots; log = l })
version-IsValid s version l v = record {
  started = v.started;
  word = v.word;
  filled = v.filled;
  unfilled = v.unfilled;
  no_zero = v.no_zero;
  numbered = v.numbered;
  counted = v.counted;
  capped = v.capped;
  behind = v.behind;
  passed = v.passed;
  served = v.served;
  unserved = v.unserved;
  unopened = v.unopened;
}

pub pending-IsValid :
    (s : Observed schema) (o : Option ℕ) (l : List Event)
    → IsValid s
    → IsValid (record { slots = assign pending_key o s.slots; log = l })
pending-IsValid s o l v = record {
  started = v.started;
  word = v.word;
  filled = v.filled;
  unfilled = v.unfilled;
  no_zero = v.no_zero;
  numbered = v.numbered;
  counted = v.counted;
  capped = v.capped;
  behind = v.behind;
  passed = v.passed;
  served = v.served;
  unserved = v.unserved;
  unopened = v.unopened;
}

pub begun-IsValid : (admin : ℕ) (config : QueueConfig) → IsValid (begun admin config blank)
unfolding occupied
begun-IsValid admin config = record {
  started = omega arith;
  word = omega arith;
  filled = λ i h. absurd (omega arith);
  unfilled = λ i h. refl;
  no_zero = refl;
  numbered = λ i p h. cc;
  counted = refl;
  capped = λ c h. omega arith;
  behind = omega arith;
  passed = λ i p h. absurd (omega arith);
  served = λ i p h. cc;
  unserved = λ c h g. refl;
  unopened = λ c h g. (refl, omega arith);
}

pub joined-IsValid :
    (env : Env) (identity : ℕ) (s : Observed schema) (c : QueueConfig)
    → IsValid s
    → s.slots config_key ≡ some c
    → c.status ≡ QueueStatus.enrollment_open
    → active_count s < c.max_positions
    → next_id s + 1 < 2 ^ 32
    → IsValid (joined env identity s)
joined-IsValid env identity s c v at opened room fits = record {
  started = omega arith;
  word = fits;
  filled = λ i h. ground (arith, v.filled i, v.started);
  unfilled = λ i h. ground (arith, v.unfilled i, v.started);
  no_zero = ground (arith, v.no_zero, v.started);
  numbered = λ i p h. ground (arith, v.numbered i p);
  counted = omega (
    arith,
    v.counted,
    occupied-join (position s) (position (joined env identity s)) (next_id s) v.started
        (λ i b. ground arith) (ground arith),
  );
  capped = λ d e. ground (arith, v.capped c at);
  behind = omega (arith, v.behind);
  passed = λ i p h. ground (arith, v.passed i p, v.behind, v.started);
  served = λ i p h. ground (arith, v.served i p);
  unserved = v.unserved;
  unopened = λ d e g. ground arith;
}

left-counted :
    (env : Env) (identity id : ℕ) (p : Position) (s : Observed schema)
    → IsValid s
    → position s id ≡ some p
    → p.status ≡ PositionStatus.pending
    → active_count s - 1 ≡ occupied (position (left env identity id p s)) (total s)
left-counted env identity zero p s v at wait = cc (v.no_zero)
left-counted env identity (suc j) p s v at wait = omega (
  arith,
  v.counted,
  occupied-free (position s) (position (left env identity (suc j) p s)) (total s) j
      (ground (arith, v.unfilled j)) (ground arith) (ground arith) (λ i ne. ground arith),
)

pub left-IsValid :
    (env : Env) (identity id : ℕ) (p : Position) (s : Observed schema)
    → IsValid s
    → position s id ≡ some p
    → p.status ≡ PositionStatus.pending
    → IsValid (left env identity id p s)
left-IsValid env identity id p s v at wait = record {
  started = v.started;
  word = v.word;
  filled = λ i h. ground (arith, v.filled i);
  unfilled = λ i h. ground (arith, v.unfilled i);
  no_zero = ground (arith, v.no_zero);
  numbered = λ i q h. ground (arith, v.numbered i p, v.numbered i q);
  counted = left-counted env identity id p s v at wait;
  capped = λ c h. omega (arith, v.capped c h);
  behind = v.behind;
  passed = λ i q h. ground (arith, v.passed i q, v.passed i p);
  served = λ i q h. ground (arith, v.served i q);
  unserved = v.unserved;
  unopened = v.unopened;
}

pub lapsed-IsValid :
    (env : Env) (admin id : ℕ) (p : Position) (s : Observed schema)
    → IsValid s
    → position s id ≡ some p
    → p.status ≡ PositionStatus.pending
    → IsValid (lapsed env admin id p s)
lapsed-IsValid env admin id p s v at wait = record {
  started = v.started;
  word = v.word;
  filled = λ i h. ground (arith, v.filled i);
  unfilled = λ i h. ground (arith, v.unfilled i);
  no_zero = ground (arith, v.no_zero);
  numbered = λ i q h. ground (arith, v.numbered i p, v.numbered i q);
  counted = v.counted ∙ sym (occupied-congr (position s) _ (total s) (λ i h. ground arith));
  capped = v.capped;
  behind = v.behind;
  passed = λ i q h. ground (arith, v.passed i q, v.passed i p);
  served = λ i q h. ground (arith, v.served i q);
  unserved = v.unserved;
  unopened = v.unopened;
}

pub served-IsValid :
    (env : Env) (admin batch_size : ℕ) (c : QueueConfig) (s : Observed schema)
    → IsValid s
    → MayAdvance env admin batch_size c s
    → IsValid (served env admin batch_size c s)
served-IsValid env admin batch_size c s v may = record {
  started = v.started;
  word = v.word;
  filled = λ i h. ground (arith, v.filled i);
  unfilled = λ i h. ground (arith, v.unfilled i);
  no_zero = ground (arith, v.no_zero);
  numbered = λ i p h.
      let (q, at, from) = swept-from env.timestamp (cursor s) (reach s batch_size) i s.slots p h in
      ground (arith, v.numbered i q);
  counted = v.counted ∙ sym (occupied-congr (position s) _ (total s) (λ i h. ground arith));
  capped = λ d e. ground (arith, v.capped c);
  behind = omega (arith, v.behind);
  passed = λ i p h e.
      let (q, at, from) =
        swept-from env.timestamp (cursor s) (reach s batch_size) (suc i) s.slots p e in
      ground (arith, v.passed i q);
  served = λ i p h e.
      let (q, at, from) = swept-from env.timestamp (cursor s) (reach s batch_size) i s.slots p h in
      ground (arith, v.served i q);
  unserved = λ d e g. ground arith;
  unopened = λ d e g. ground arith;
}
