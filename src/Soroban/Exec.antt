-- ===== src/Soroban/Exec.antt =====
-- Running a program on observed storage. A call that faults has no state: the host rolls it back.
use line_proof.Base.{◌≡◌, ◌⊎◌, inl, inr, refl, sym, ap, ◌∙◌, Option, none, some, [], ◌∷◌, ◌++◌}
use line_proof.Soroban.Schema.{Schema, Observed}
use line_proof.Soroban.Program.{
  Fault, missing_entry, Program, returns, faults, read, write, delete, extend, extend_instance,
  emits, ◌>>=◌,
}

pub data Outcome (T : Type 0) (A : Type 0) : Type 0 where
  ok : A → T → Outcome T A
  fault : Fault → Outcome T A

-- A call on an entry that must exist.
abbrev pub if_present : {V T A : Type 0} → Option V → Outcome T A → Outcome T A
if_present none rest = fault missing_entry
if_present (some v) rest = rest

module _ {S : Schema} where
  -- `extend_ttl` of a missing entry is refused by the host; of a present one it changes no contents.
  abbrev pub exec : {A : Type 0} → Program S A → Observed S → Outcome (Observed S) A
  exec (returns a) s = ok a s
  exec (faults e) s = fault e
  exec (read k f) s = exec (f (s.slots k)) s
  exec (write k v p) s = exec p (record s { slots = S.assign k (some v) s.slots })
  exec (delete k p) s = exec p (record s { slots = S.assign k none s.slots })
  exec (extend k a b p) s = let rest = exec p s in if_present (s.slots k) rest
  exec (extend_instance a b p) s = exec p s
  exec (emits e p) s = exec p (record s { log = s.log ++ e ∷ [] })

  -- The storage before any call.
  abbrev pub blank : Observed S
  blank = record { slots = λ k. none; log = [] }

-- What follows a call that returned.
abbrev pub and_then : {T A B : Type 0} → Outcome T A → (A → T → Outcome T B) → Outcome T B
and_then (ok a s) f = f a s
and_then (fault e) f = fault e

module _ {S : Schema} {A B : Type 0} where
  if_present-and_then :
      {V : Type 0} (o : Option V) (r : Outcome (Observed S) A)
      (f : A → Observed S → Outcome (Observed S) B)
      → if_present o (and_then r f) ≡ and_then (if_present o r) f
  if_present-and_then none r f = refl
  if_present-and_then (some v) r f = refl

  -- A program runs by running its parts one after the other.
  pub exec-bind :
      (p : Program S A) (f : A → Program S B) (s : Observed S)
      → exec (p >>= f) s ≡ and_then (exec p s) (λ a t. exec (f a) t)
  exec-bind (returns a) f s = refl
  exec-bind (faults e) f s = refl
  exec-bind (read k g) f s = exec-bind (g (s.slots k)) f s
  exec-bind (write k v p) f s = exec-bind p f _
  exec-bind (delete k p) f s = exec-bind p f _
  exec-bind (extend k a b p) f s =
      ap (if_present (s.slots k)) (exec-bind p f s)
      ∙ if_present-and_then (s.slots k) (exec p s) (λ a t. exec (f a) t)
  exec-bind (extend_instance a b p) f s = exec-bind p f s
  exec-bind (emits e p) f s = exec-bind p f _

  and_then-ok :
      (r : Outcome (Observed S) A) (f : A → Observed S → Outcome (Observed S) B) {b : B}
      {t : Observed S}
      → and_then r f ≡ ok b t
      → (a : A) × (u : Observed S) × (r ≡ ok a u) × (f a u ≡ ok b t)
  and_then-ok (ok a u) f h = (a, u, refl, h)
  and_then-ok (fault e) f h = cc

  -- If a sequence returns, each part has returned.
  pub exec-bind_ok :
      (p : Program S A) (f : A → Program S B) (s : Observed S) {b : B} {t : Observed S}
      → exec (p >>= f) s ≡ ok b t
      → (a : A) × (u : Observed S) × (exec p s ≡ ok a u) × (exec (f a) u ≡ ok b t)
  exec-bind_ok p f s h = and_then-ok (exec p s) _ (sym (exec-bind p f s) ∙ h)

  and_then-fault :
      (r : Outcome (Observed S) A) (f : A → Observed S → Outcome (Observed S) B) {e : Fault}
      → and_then r f ≡ fault e
      → (r ≡ fault e) ⊎ ((a : A) × (u : Observed S) × (r ≡ ok a u) × (f a u ≡ fault e))
  and_then-fault (ok a u) f h = inr (a, u, refl, h)
  and_then-fault (fault e) f h = inl (cc)

  -- If a sequence faults, its first part has, or that has returned and the rest has.
  pub exec-bind_fault :
      (p : Program S A) (f : A → Program S B) (s : Observed S) {e : Fault}
      → exec (p >>= f) s ≡ fault e
      → (exec p s ≡ fault e)
        ⊎ ((a : A) × (u : Observed S) × (exec p s ≡ ok a u) × (exec (f a) u ≡ fault e))
  exec-bind_fault p f s h = and_then-fault (exec p s) _ (sym (exec-bind p f s) ∙ h)
