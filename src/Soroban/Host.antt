-- ===== src/Soroban/Host.antt =====
-- The host as an interface: a store with reads, writes, deletions, extensions and events, and their
-- laws; and running a program on such a host.
use line_proof.Base.{
  ℕ, ◌≡◌, ◌≢◌, refl, sym, ◌∙◌, ap, subst, fun_ext, Option, none, some, List, [], ◌∷◌, ◌++◌,
}
use line_proof.Soroban.Schema.{Schema, Observed}
use line_proof.Soroban.Program.{
  Program, returns, faults, read, write, delete, extend, extend_instance, emits,
}
use line_proof.Soroban.Exec.{Outcome, ok, fault, if_present, exec}

pub record Host (S : Schema) : Type 1 where
  pub Store : Type 0
  pub get : (k : S.Key) → Store → Option (S.Value k)
  pub events : Store → List S.Event
  pub put : (k : S.Key) → S.Value k → Store → Store
  pub remove : S.Key → Store → Store
  pub extend_ttl : S.Key → ℕ → ℕ → Store → Store
  pub extend_instance_ttl : ℕ → ℕ → Store → Store
  pub publish : S.Event → Store → Store
  pub get-put_self : (k : S.Key) (v : S.Value k) (s : Store) → get k (put k v s) ≡ some v
  pub get-put_ne : (k j : S.Key) (v : S.Value k) (s : Store) → k ≢ j → get j (put k v s) ≡ get j s
  pub get-remove_self : (k : S.Key) (s : Store) → get k (remove k s) ≡ none
  pub get-remove_ne : (k j : S.Key) (s : Store) → k ≢ j → get j (remove k s) ≡ get j s
  pub get-extend_ttl : (k j : S.Key) (a b : ℕ) (s : Store) → get j (extend_ttl k a b s) ≡ get j s
  pub get-extend_instance_ttl :
      (j : S.Key) (a b : ℕ) (s : Store) → get j (extend_instance_ttl a b s) ≡ get j s
  pub get-publish : (j : S.Key) (e : S.Event) (s : Store) → get j (publish e s) ≡ get j s
  pub events-put : (k : S.Key) (v : S.Value k) (s : Store) → events (put k v s) ≡ events s
  pub events-remove : (k : S.Key) (s : Store) → events (remove k s) ≡ events s
  pub events-extend_ttl : (k : S.Key) (a b : ℕ) (s : Store) → events (extend_ttl k a b s) ≡ events s
  pub events-extend_instance_ttl :
      (a b : ℕ) (s : Store) → events (extend_instance_ttl a b s) ≡ events s
  pub events-publish : (e : S.Event) (s : Store) → events (publish e s) ≡ events s ++ e ∷ []

module _ {S : Schema} (h : Host S) where
  -- What a contract can observe of the host's store.
  abbrev pub observe : h.Store → Observed S
  observe s = record { slots = λ k. h.get k s; log = h.events s }

  -- Running a program on the host's store.
  unfoldable pub run : {A : Type 0} → Program S A → h.Store → Outcome h.Store A
  run (returns a) s = ok a s
  run (faults e) s = fault e
  run (read k f) s = run (f (h.get k s)) s
  run (write k v p) s = run p (h.put k v s)
  run (delete k p) s = run p (h.remove k s)
  run (extend k a b p) s = let rest = run p (h.extend_ttl k a b s) in if_present (h.get k s) rest
  run (extend_instance a b p) s = run p (h.extend_instance_ttl a b s)
  run (emits e p) s = run p (h.publish e s)

  -- The outcome with its store replaced by what can be observed of it.
  abbrev pub observed : {A : Type 0} → Outcome h.Store A → Outcome (Observed S) A
  observed (ok a s) = ok a (observe s)
  observed (fault e) = fault e

  observe_eq :
      (s : h.Store) (m : Observed S)
      → ((k : S.Key) → h.get k s ≡ m.slots k)
      → h.events s ≡ m.log
      → observe s ≡ m
  observe_eq s m p q = λ i. record { slots = fun_ext p i; log = q i }

  get-put_assign :
      (k j : S.Key) (v : S.Value k) (s : h.Store)
      → h.get j (h.put k v s) ≡ S.assign k (some v) (λ i. h.get i s) j
  get-put_assign k j v s = elim (S.dec_key k j) [
    | yes e ↦
        subst (λ i. h.get i (h.put k v s) ≡ S.assign k (some v) (λ i. h.get i s) i) e
          (h.get-put_self k v s ∙ sym (S.assign_self k (some v) (λ i. h.get i s)))
    | no n ↦ h.get-put_ne k j v s n ∙ sym (S.assign_ne k j (some v) (λ i. h.get i s) n)
  ]

  get-remove_assign :
      (k j : S.Key) (s : h.Store) → h.get j (h.remove k s) ≡ S.assign k none (λ i. h.get i s) j
  get-remove_assign k j s = elim (S.dec_key k j) [
    | yes e ↦
        subst (λ i. h.get i (h.remove k s) ≡ S.assign k none (λ i. h.get i s) i) e
          (h.get-remove_self k s ∙ sym (S.assign_self k none (λ i. h.get i s)))
    | no n ↦ h.get-remove_ne k j s n ∙ sym (S.assign_ne k j none (λ i. h.get i s) n)
  ]

  observed-if_present :
      {V A : Type 0} (o : Option V) (r : Outcome h.Store A) (r' : Outcome (Observed S) A)
      → observed r ≡ r'
      → observed (if_present o r) ≡ if_present o r'
  observed-if_present none r r' e = refl
  observed-if_present (some v) r r' e = e

  -- On every host that keeps the laws, from every store, a program ends as `exec` says: with the
  -- same result or the same fault, the same contents at every key and the same events.
  pub run-exec :
      {A : Type 0} (p : Program S A) (s : h.Store) → observed (run p s) ≡ exec p (observe s)
  unfolding run
  run-exec (returns a) s = refl
  run-exec (faults e) s = refl
  run-exec (read k f) s = run-exec (f (h.get k s)) s
  run-exec (write k v p) s =
      run-exec p (h.put k v s)
      ∙ ap (exec p) (observe_eq (h.put k v s) _ (λ j. get-put_assign k j v s) (h.events-put k v s))
  run-exec (delete k p) s =
      run-exec p (h.remove k s)
      ∙ ap (exec p)
          (observe_eq (h.remove k s) _ (λ j. get-remove_assign k j s) (h.events-remove k s))
  run-exec (extend k a b p) s = observed-if_present (h.get k s) _ _ (
      run-exec p (h.extend_ttl k a b s)
      ∙ ap (exec p) (
          observe_eq (h.extend_ttl k a b s) (observe s) (λ j. h.get-extend_ttl k j a b s)
            (h.events-extend_ttl k a b s)))
  run-exec (extend_instance a b p) s =
      run-exec p (h.extend_instance_ttl a b s)
      ∙ ap (exec p) (
          observe_eq (h.extend_instance_ttl a b s) (observe s)
            (λ j. h.get-extend_instance_ttl j a b s) (h.events-extend_instance_ttl a b s))
  run-exec (emits e p) s =
      run-exec p (h.publish e s)
      ∙ ap (exec p) (observe_eq (h.publish e s) _ (λ j. h.get-publish j e s) (h.events-publish e s))
