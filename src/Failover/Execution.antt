-- ===== src/Failover/Execution.antt =====
-- executeCore and the methods for direct calls of indexer/internal/rpc/failover.go, and the retries.
use linq_b2b.Prelude.{
  ℕ, zero, suc, ◌-◌, Bool, false, not, ◌&&◌, ◌||◌, Option, none, some, String, str_eq, ◌==◌,
  if◌then◌else◌, get_elem?,
}
use linq_b2b.Failover.{
  Failover, Metrics, is_blacklisted, fail, blacklist, success, increment, update_provider, name_of,
}
use linq_b2b.Failover.Errors.{analyze_error}
use linq_b2b.Failover.Selection.{SelectError, Selection, selected, refused, get_best_provider}

-- How a call of a client ends: its error, how long it took, and when it was over.
pub record Call : Type 0 where
  pub error : Option String
  pub elapsed : ℕ
  pub ended : ℕ

unfoldable pub count_request : String → Metrics → Metrics
count_request name m = record m {
  total_requests = suc m.total_requests;
  provider_request_counts = increment name m.provider_request_counts;
}

unfoldable pub count_failure : String → Metrics → Metrics
count_failure reason m = record m {
  failed_requests = suc m.failed_requests;
  errors_by_type = increment reason m.errors_by_type;
}

abbrev pub count_success : Metrics → Metrics
count_success m = record m { successful_requests = suc m.successful_requests }

-- `handleUnhealthyProvider`.
unfoldable pub handle_unhealthy_provider : ℕ → ℕ → ℕ → Failover → Failover
handle_unhealthy_provider now i cooldown f = record (update_provider i (blacklist now cooldown) f) {
  metrics = record f.metrics { blacklist_events = suc f.metrics.blacklist_events };
}

unfoldable pub handle_provider_failure : ℕ → Failover → Failover
handle_provider_failure i f = update_provider i (fail f.config) f

-- The bookkeeping after a failed call.
unfoldable pub handle_error : ℕ → ℕ → String → ℕ → Failover → Failover
unfolding handle_unhealthy_provider handle_provider_failure
handle_error now i err elapsed f =
    let issue = analyze_error err elapsed in
    let f' = record f { metrics = count_failure issue.reason f.metrics } in
    if issue.mark_unhealthy
    then handle_unhealthy_provider now i issue.cooldown f'
    else handle_provider_failure i f'

abbrev pub requested : ℕ → Failover → Failover
requested i f = record f { metrics = count_request (name_of i f) f.metrics }

abbrev pub succeeded : ℕ → ℕ → ℕ → Failover → Failover
succeeded now i elapsed f = record (update_provider i (success now elapsed) f) {
  metrics = count_success f.metrics;
}

unfoldable pub execute_core : ℕ → Call → Failover → Option String × Failover
unfolding handle_error
execute_core i call f =
    let f' = requested i f in
    elim call.error [
      | some err ↦ (some err, handle_error call.ended i err call.elapsed f')
      | none ↦ (none, succeeded call.ended i call.elapsed f')
    ]

unfoldable pub analyze_and_handle_error : ℕ → ℕ → String → ℕ → Failover → Failover
unfolding handle_error
analyze_and_handle_error now i err elapsed f = handle_error now i err elapsed (requested i f)

unfoldable pub record_success : ℕ → ℕ → ℕ → Failover → Failover
record_success now i elapsed f = succeeded now i elapsed (requested i f)

unfoldable pub handle_capability_error : ℕ → ℕ → ℕ → Failover → Failover
unfolding handle_unhealthy_provider
handle_capability_error now i cooldown f =
    let f' = requested i f in
    handle_unhealthy_provider now i cooldown
      (record f' { metrics = count_failure "capability_error" f'.metrics })

-- `retry.Constant`: one try, then `left` more while it fails. The waiting is left out.
unfoldable pub constant_loop {ℓ κ} :
    {E : Type ℓ} {S : Type κ} → (ℕ → S → Option E × S) → ℕ → ℕ → S → Option E × S
constant_loop op zero i s = op i s
constant_loop op (suc left) i s =
    let (err, s') = op i s in
    let more = constant_loop op left (suc i) s' in elim err [ none ↦ (none, s') | some e ↦ more ]

unfoldable pub constant {ℓ κ} :
    {E : Type ℓ} {S : Type κ} → (ℕ → S → Option E × S) → ℕ → S → Option E × S
unfolding constant_loop
constant op attempts s = constant_loop op ((if attempts == 0 then 1 else attempts) - 1) 1 s

abbrev pub default_max_attempts : ℕ
default_max_attempts = 3

pub data CallError : Type 0 where
  no_available_provider : SelectError → CallError
  call_failed : String → CallError

-- `clock k` is when attempt k begins; `call k i` is what the call of provider i in it gives, and
-- `fallback k i` that of a second call in the same attempt.
pub record World : Type 0 where
  pub clock : ℕ → ℕ
  pub call : ℕ → ℕ → Call
  pub fallback : ℕ → ℕ → Call

abbrev pub as_error : Option String → Option CallError
as_error none = none
as_error (some e) = some (call_failed e)

unfoldable pub run_selected : World → ℕ → Selection × Failover → Option CallError × Failover
unfolding execute_core
run_selected w k (refused e, f) = (some (no_available_provider e), f)
run_selected w k (selected i, f) =
    let (err, f') = execute_core i (w.call k i) f in (as_error err, f')

unfoldable pub attempt_once : World → ℕ → Failover → Option CallError × Failover
unfolding run_selected
attempt_once w k f = run_selected w k (get_best_provider (w.clock k) f)

unfoldable pub execute_with_retry : World → Failover → Option CallError × Failover
unfolding constant attempt_once
execute_with_retry w f = constant (attempt_once w) default_max_attempts f

-- `attemptProviderSwitch` and `attemptFallback`: another provider than the one at `i`, by name.
unfoldable pub other_than : ℕ → Selection × Failover → Option ℕ × Failover
other_than i (refused e, f) = (none, f)
other_than i (selected j, f) = (if str_eq (name_of j f) (name_of i f) then none else some j, f)

unfoldable pub attempt_provider_switch : ℕ → ℕ → Failover → Option ℕ × Failover
unfolding other_than
attempt_provider_switch now i f = other_than i (get_best_provider now f)

abbrev pub blacklisted_at : ℕ → Failover → Bool
blacklisted_at i f = elim (get_elem? f.providers i) [
  | none ↦ false
  | some p ↦ is_blacklisted p.state
]

unfoldable pub or_else : ℕ → Option ℕ → ℕ
or_else i none = i
or_else i (some j) = j

-- The second call of an attempt, on another provider, if there is one.
unfoldable pub run_fallback : World → ℕ → String → Option ℕ × Failover → Option String × Failover
unfolding execute_core
run_fallback w k err (none, f) = (some err, f)
run_fallback w k err (some j, f) = execute_core j (w.fallback k j) (record f {
  metrics = record f.metrics { fallback_attempts = suc f.metrics.fallback_attempts };
})

unfoldable pub after_call :
    World → ℕ → Bool → ℕ → Option String × Failover → Option String × Failover
unfolding run_fallback attempt_provider_switch
after_call w k allow_fallback i (none, f) = (none, f)
after_call w k allow_fallback i (some err, f) =
    if not allow_fallback || blacklisted_at i f
    then (some err, f)
    else run_fallback w k err (attempt_provider_switch (w.call k i).ended i f)

unfoldable pub call_provider : World → ℕ → Bool → ℕ → Failover → Option String × (ℕ × Failover)
unfolding execute_core after_call
call_provider w k allow_fallback i f =
    let (err, f') = after_call w k allow_fallback i (execute_core i (w.call k i) f) in
    (err, (i, f'))

-- One attempt of ExecuteWithRetryProvider; its variable `provider` outlives the attempt.
unfoldable pub attempt_provider : World → Bool → ℕ → ℕ × Failover → Option String × (ℕ × Failover)
unfolding attempt_provider_switch or_else call_provider
attempt_provider w allow_fallback k (i, f) =
    let (alt, f') = attempt_provider_switch (w.clock k) i f in
    if blacklisted_at i f && allow_fallback
    then call_provider w k allow_fallback (or_else i alt) f'
    else call_provider w k allow_fallback i f

unfoldable pub execute_with_retry_provider :
    World → ℕ → Bool → Failover → Option String × (ℕ × Failover)
unfolding constant attempt_provider
execute_with_retry_provider w i allow_fallback f =
    constant (attempt_provider w allow_fallback) default_max_attempts (i, f)
