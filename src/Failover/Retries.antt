-- ===== src/Failover/Retries.antt =====
-- ExecuteWithRetry of indexer/internal/rpc/failover.go: how often it calls, and when it succeeds.
use linq_b2b.Prelude.{
  ℕ, zero, suc, ◌+◌, ◌≤◌, ◌<◌, ◌≡◌, refl, sym, ap, ◌∙◌, subst, true, Option, none, some, String,
  arith, ◌==◌, length, inl, inr, ◌⊎◌, Bool-cases, Option-cases,
}
use linq_b2b.Failover.{
  Provider, Failover, FailoverConfig, new_failover, add_provider, recover, blacklist, fail, success,
}
use linq_b2b.Failover.Errors.{analyze_error}
use linq_b2b.Failover.Selection.{
  selected, recover_expired_blacklists, earliest, perform_emergency_recovery,
  find_next_available_provider, get_best_provider,
}
use linq_b2b.Failover.Execution.{
  Call, World, CallError, count_request, count_failure, handle_unhealthy_provider,
  handle_provider_failure, handle_error, execute_core, constant_loop, constant, run_selected,
  attempt_once, execute_with_retry, requested, as_error, default_max_attempts,
}
use linq_b2b.Failover.Accounting.{get_best_provider-SameRequests}
use linq_b2b.Failover.Choice.Candidates.{length-update, length-recovered_all}
use linq_b2b.Failover.Choice.{IsWellFormed, get_best_provider-Chosen}

-- A failover that finds a provider: it has one, and it may take blacklisted ones back.
pub record IsReady (f : Failover) : Type 0 where
  pub well_formed : IsWellFormed f
  pub provided : 0 < length f.providers
  pub enabled : f.config.enable_blacklisting ≡ true

-- As many providers, and the same configuration.
abbrev SameSize : Failover → Failover → Type 0
SameSize f g = (length g.providers ≡ length f.providers) × (g.config ≡ f.config)

perform_emergency_recovery-SameSize : (f : Failover) → SameSize f (perform_emergency_recovery f).1
unfolding perform_emergency_recovery
perform_emergency_recovery-SameSize f = elim (Option-cases (earliest 0 f.providers)) [
  | inl e ↦ ground (arith, e)
  | inr ((i, t), e) ↦ ground (arith, e, length-update i recover f.providers)
]

find_next_available_provider-SameSize :
    (now : ℕ) (f : Failover) → SameSize f (find_next_available_provider now f).1
unfolding find_next_available_provider
find_next_available_provider-SameSize now f = ground (arith, perform_emergency_recovery-SameSize f)

get_best_provider-SameSize : (now : ℕ) (f : Failover) → SameSize f (get_best_provider now f).1
unfolding get_best_provider recover_expired_blacklists
get_best_provider-SameSize now f = ground (
  arith,
  length-recovered_all now f.providers,
  find_next_available_provider-SameSize now (recover_expired_blacklists now f),
)

-- What a call leaves as it was, and that it is counted.
record Called (f g : Failover) : Type 0 where
  size : length g.providers ≡ length f.providers
  config : g.config ≡ f.config
  current : g.current_index ≡ f.current_index
  total : g.metrics.total_requests ≡ suc f.metrics.total_requests

handle_error-Called :
    (now i : ℕ) (err : String) (elapsed : ℕ) (f : Failover)
    → Called f (handle_error now i err elapsed (requested i f))
unfolding handle_error handle_unhealthy_provider handle_provider_failure count_request count_failure
handle_error-Called now i err elapsed f =
    elim (Bool-cases (analyze_error err elapsed).mark_unhealthy) [
      | inl bad ↦ rw bad (record {
        size = length-update i (blacklist now (analyze_error err elapsed).cooldown) f.providers;
        config = refl;
        current = refl;
        total = refl;
      })
      | inr fair ↦ rw fair (record {
        size = length-update i (fail f.config) f.providers;
        config = refl;
        current = refl;
        total = refl;
      })
    ]

execute_core-Called : (i : ℕ) (call : Call) (f : Failover) → Called f (execute_core i call f).1
unfolding execute_core count_request
execute_core-Called i call f = elim (Option-cases call.error) [
  | inl e ↦ rw e (record {
    size = length-update i (success call.ended call.elapsed) f.providers;
    config = refl;
    current = refl;
    total = refl;
  })
  | inr (err, e) ↦ rw e (handle_error-Called call.ended i err call.elapsed f)
]

execute_core-error : (i : ℕ) (call : Call) (f : Failover) → (execute_core i call f).0 ≡ call.error
unfolding execute_core
execute_core-error i call f = ground arith

attempt_once_selected :
    (w : World) (k i : ℕ) (f g : Failover)
    → get_best_provider (w.clock k) f ≡ (selected i, g)
    → attempt_once w k f
      ≡ (as_error (execute_core i (w.call k i) g).0, (execute_core i (w.call k i) g).1)
unfolding attempt_once run_selected
attempt_once_selected w k i f g e = rw e refl

-- An attempt of a ready failover: one call, of a provider that it selects.
record OneCall (w : World) (k : ℕ) (f : Failover) : Type 0 where
  index : ℕ
  result : (attempt_once w k f).0 ≡ as_error (w.call k index).error
  ready : IsReady (attempt_once w k f).1
  total : (attempt_once w k f).1.metrics.total_requests ≡ suc f.metrics.total_requests

attempt_once-OneCall : (w : World) (k : ℕ) (f : Failover) → IsReady f → OneCall w k f
attempt_once-OneCall w k f v =
    let now = w.clock k in
    let c = get_best_provider-Chosen now f v.well_formed v.provided v.enabled in
    let g = (get_best_provider now f).1 in
    let call = w.call k c.index in
    let d = execute_core-Called c.index call g in
    let (size, config) = get_best_provider-SameSize now f in
    let requests = get_best_provider-SameRequests now f in
    let e = attempt_once_selected w k c.index f g (ap (λ s. (s, g)) c.chosen) in
    record {
      index = c.index;
      result = ap (λ p. p.0) e ∙ ap as_error (execute_core-error c.index call g);
      ready = subst IsReady (sym (ap (λ p. p.1) e)) (record {
        well_formed = ground (arith, d.size, d.current, c.well_formed);
        provided = omega (arith, d.size, size, v.provided);
        enabled = ap (λ q. q.enable_blacklisting) (d.config ∙ config) ∙ v.enabled;
      });
      total = ap (λ p. p.1.metrics.total_requests) e ∙ d.total ∙ ap suc requests.total;
    }

-- The retries, from attempt `i` on, with `left` to come after it.
abbrev retries : World → ℕ → ℕ → Failover → Option CallError × Failover
retries w left i f = constant_loop (attempt_once w) left i f

retries_stop :
    (w : World) (left i : ℕ) (f : Failover)
    → (attempt_once w i f).0 ≡ none
    → retries w (suc left) i f ≡ (none, (attempt_once w i f).1)
unfolding constant_loop
retries_stop w left i f e = rw (e, constant_loop) refl

retries_go_on :
    (w : World) (left i : ℕ) (f : Failover) {err : CallError}
    → (attempt_once w i f).0 ≡ some err
    → retries w (suc left) i f ≡ retries w left (suc i) (attempt_once w i f).1
unfolding constant_loop
retries_go_on w left i f e = rw (e, constant_loop) refl

answered :
    (w : World) (k : ℕ) (f : Failover)
    → IsReady f
    → ((j : ℕ) → (w.call k j).error ≡ none)
    → (attempt_once w k f).0 ≡ none
answered w k f v good =
    let a = attempt_once-OneCall w k f v in a.result ∙ ap as_error (good a.index)

retries_succeed :
    (w : World) (left i k : ℕ) (f : Failover)
    → IsReady f
    → i ≤ k
    → k ≤ i + left
    → ((j : ℕ) → (w.call k j).error ≡ none)
    → (retries w left i f).0 ≡ none
unfolding constant_loop
retries_succeed w zero i k f v low high good =
    answered w i f v (λ j. ap (λ m. (w.call m j).error) {x = i} {y = k} (omega arith) ∙ good j)
retries_succeed w (suc left) i k f v low high good =
    let a = attempt_once-OneCall w i f v in
    elim (Option-cases (attempt_once w i f).0) [
      | inl e ↦ ap (λ p. p.0) (retries_stop w left i f e)
      | inr (err, e) ↦ elim (Bool-cases (i == k)) [
        | inl now ↦
            ap (λ p. p.0)
              (retries_stop w left i f (
                answered w i f v (λ j.
                  ap (λ m. (w.call m j).error) {x = i} {y = k} (ground (arith, now)) ∙ good j)))
        | inr later ↦
            ap (λ p. p.0) (retries_go_on w left i f e)
            ∙ retries_succeed w left (suc i) k (attempt_once w i f).1 a.ready
                (ground (arith, later)) (omega arith) good
      ]
    ]

-- A failover with a provider, with blacklisting enabled and the current index -1 or a position of
-- the list, when whichever provider is called in one of the three attempts answers without an
-- error: the request succeeds.
pub execute_with_retry_succeeds :
    (w : World) (k : ℕ) (f : Failover)
    → IsReady f
    → 0 < k
    → k ≤ default_max_attempts
    → ((j : ℕ) → (w.call k j).error ≡ none)
    → (execute_with_retry w f).0 ≡ none
unfolding execute_with_retry constant
execute_with_retry_succeeds w k f v low high good = retries_succeed w 2 1 k f v low high good

-- How many calls `left` further attempts make.
record Calls (left : ℕ) (f : Failover) (r : Option CallError × Failover) : Type 0 where
  some_call : f.metrics.total_requests < r.1.metrics.total_requests
  few_calls : r.1.metrics.total_requests ≤ f.metrics.total_requests + suc left
  all_calls : (r.0 ≡ none) ⊎ (r.1.metrics.total_requests ≡ f.metrics.total_requests + suc left)
  ready : IsReady r.1

retries-Calls :
    (w : World) (left i : ℕ) (f : Failover) → IsReady f → Calls left f (retries w left i f)
unfolding constant_loop
retries-Calls w zero i f v =
    let a = attempt_once-OneCall w i f v in
    record {
      some_call = omega (arith, a.total);
      few_calls = omega (arith, a.total);
      all_calls = inr (omega (arith, a.total));
      ready = a.ready;
    }
retries-Calls w (suc left) i f v =
    let a = attempt_once-OneCall w i f v in
    let rest = retries-Calls w left (suc i) (attempt_once w i f).1 a.ready in
    elim (Option-cases (attempt_once w i f).0) [
      | inl e ↦ subst (Calls (suc left) f) (sym (retries_stop w left i f e)) (record {
        some_call = omega (arith, a.total);
        few_calls = omega (arith, a.total);
        all_calls = inl refl;
        ready = a.ready;
      })
      | inr (err, e) ↦ subst (Calls (suc left) f) (sym (retries_go_on w left i f e)) (record {
        some_call = omega (arith, a.total, rest.some_call);
        few_calls = omega (arith, a.total, rest.few_calls);
        all_calls = ground (arith, a.total, rest.all_calls);
        ready = rest.ready;
      })
    ]

-- A failover with a provider, with blacklisting enabled and the current index -1 or a position of
-- the list: a request makes one to three calls, gives up only after three, and leaves the failover
-- able to find a provider again.
pub execute_with_retry_calls :
    (w : World) (f : Failover)
    → IsReady f
    → let r = execute_with_retry w f in
      (f.metrics.total_requests < r.1.metrics.total_requests)
      × (r.1.metrics.total_requests ≤ f.metrics.total_requests + 3)
      × ((r.0 ≡ none) ⊎ (r.1.metrics.total_requests ≡ f.metrics.total_requests + 3))
      × IsReady r.1
unfolding execute_with_retry constant
execute_with_retry_calls w f v =
    let c = retries-Calls w 2 1 f v in (c.some_call, c.few_calls, c.all_calls, c.ready)

-- A failover that is given a provider, with blacklisting enabled: it is ready, its first provider
-- is the current one, and it stays the current one when more are added.
pub add_provider-IsReady :
    (p q : Provider) (c : FailoverConfig)
    → c.enable_blacklisting ≡ true
    → let f = add_provider p (new_failover c) in
      IsReady f × IsReady (add_provider q f) × ((add_provider q f).current_index ≡ some 0)
unfolding add_provider new_failover
add_provider-IsReady p q c on = (
  record { well_formed = omega arith; provided = omega arith; enabled = on },
  record { well_formed = omega arith; provided = omega arith; enabled = on },
  refl,
)
