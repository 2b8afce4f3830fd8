-- ===== src/Queue/OnHost.antt =====
-- The queue contract on any host whose storage keeps the laws of `Host`.
use line_proof.Base.{ℕ, ◌+◌, ◌≡◌, sym, ap, subst, ◌∙◌, none, [], fun_ext}
use line_proof.Soroban.Program.{Env, Program}
use line_proof.Soroban.Exec.{ok, exec, blank}
use line_proof.Soroban.Host.{Host, run, observe, observed, run-exec}
use line_proof.Queue.Types.{QueueConfig, Key, schema}
use line_proof.Queue.Admin.{initialize}
use line_proof.Queue.Calls.{Call, invoke, set_ups, Reach, set_up, later}

module _ (h : Host schema) where
  -- The histories of the contract on the host's own store.
  pub data HostReach : ℕ → h.Store → Type 0 where
    host_set_up :
        (env : Env) (admin : ℕ) (config : QueueConfig) (s s' : h.Store)
        → ((k : Key) → h.get k s ≡ none)
        → h.events s ≡ []
        → run h (initialize env admin config) s ≡ ok tt s'
        → HostReach 0 s'
    host_later :
        {n : ℕ} (env : Env) (call : Call) (s s' : h.Store)
        → HostReach n s
        → run h (invoke env call) s ≡ ok tt s'
        → HostReach (n + set_ups call) s'

  run_ok :
      (p : Program schema (Unit {0})) (s s' : h.Store)
      → run h p s ≡ ok tt s'
      → exec p (observe h s) ≡ ok tt (observe h s')
  run_ok p s s' e = sym (run-exec h p s) ∙ ap (observed h) e

  empty_blank :
      (s : h.Store) → ((k : Key) → h.get k s ≡ none) → h.events s ≡ [] → observe h s ≡ blank
  empty_blank s none_at no_events = λ i. record { slots = fun_ext none_at i; log = no_events i }

  -- On every host that keeps the laws of storage and events, a history of calls from an empty store
  -- is, as far as can be observed, a history of the model.
  pub HostReach-Reach : (n : ℕ) (s : h.Store) → HostReach n s → Reach n (observe h s)
  HostReach-Reach _ _ (host_set_up env admin config s s' none_at no_events e) =
      set_up env admin config (
        subst (λ t. exec (initialize env admin config) t ≡ ok tt (observe h s'))
          (empty_blank s none_at no_events) (run_ok (initialize env admin config) s s' e))
  HostReach-Reach _ _ (host_later {n} env call s s' r e) =
      later env call (HostReach-Reach n s r) (run_ok (invoke env call) s s' e)
