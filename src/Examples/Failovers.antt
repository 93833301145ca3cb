-- ===== src/Examples/Failovers.antt =====
-- The theorems on the failover at two providers.
use linq_b2b.Prelude.{
  ◌+◌, ◌*◌, ◌≤◌, ◌<◌, ◌≡◌, ◌≢◌, refl, true, [], ◌∷◌, none, some, arith, ltb, ◌==◌, if◌then◌else◌,
  ◌⊎◌,
}
use linq_b2b.Failover.{Provider, healthy, blacklisted, FailoverConfig, Failover, Metrics, increment}
use linq_b2b.Texts.{to_lower}
use linq_b2b.Failover.Errors.{
  has_prefix, includes, any_included, matching, analyze_error, minute, hour,
}
use linq_b2b.Failover.Selection.{selected, available_at, get_best_provider, recovered_all}
use linq_b2b.Failover.Execution.{
  Call, World, execute_core, execute_with_retry, attempt_once, count_failure, count_request,
}
use linq_b2b.Failover.Counting.{Attempted, attempt_once-Attempted}
use linq_b2b.Failover.Choice.{Chosen, get_best_provider-Chosen}
use linq_b2b.Failover.Blacklisting.{execute_core_blacklists, execute_core_avoids}
use linq_b2b.Failover.Retries.{IsReady, execute_with_retry_succeeds, execute_with_retry_calls}

abbrev node : Provider
node = record {
  name = "node";
  state = healthy;
  last_health_check = 0;
  average_response_time = 0;
  blacklisted_until = 0;
  consecutive_errors = 0;
}

abbrev archive : Provider
archive = record node { name = "archive" }

abbrev settings : FailoverConfig
settings = record { enable_blacklisting = true; error_threshold = 5 }

abbrev fresh_metrics : Metrics
fresh_metrics = record {
  total_requests = 0;
  successful_requests = 0;
  failed_requests = 0;
  provider_switches = 0;
  blacklist_events = 0;
  recovery_events = 0;
  emergency_recoveries = 0;
  fallback_attempts = 0;
  errors_by_type = [];
  provider_request_counts = [];
}

abbrev pair : Failover
pair = record {
  providers = node ∷ archive ∷ [];
  current_index = some 0;
  config = settings;
  metrics = fresh_metrics;
}

-- Both are blacklisted, the second one for a shorter time.
abbrev exhausted : Failover
exhausted = record pair {
  providers =
      record node { state = blacklisted; blacklisted_until = 200 }
      ∷ record archive { state = blacklisted; blacklisted_until = 100 }
      ∷ [];
}

abbrev limited : Call
limited = record { error = some "HTTP 429"; elapsed = 10; ended = 50 }

-- The first provider is limited, the second one answers.
abbrev net : World
net = record {
  clock = λ k. 1000 + k;
  call = λ k i. if i == 0 then limited else record { error = none; elapsed = 10; ended = 1010 };
  fallback = λ k i. limited;
}

-- From its third attempt on, every call is answered.
abbrev flaky : World
flaky = record net {
  call = λ k i. if ltb k 3 then limited else record { error = none; elapsed = 10; ended = 1010 };
}

pair-IsReady : IsReady pair
pair-IsReady = record { well_formed = omega arith; provided = omega arith; enabled = refl }

-- An error that only names a block whose number has these digits.
forbidden_block :
    analyze_error "block 17403 not found" 10
    ≡ record { reason = "forbidden"; cooldown = 24 * hour; mark_unhealthy = true }
unfolding analyze_error matching any_included includes has_prefix to_lower
forbidden_block = refl

get_best_provider-Chosen_example : Chosen 20 exhausted (get_best_provider 20 exhausted)
get_best_provider-Chosen_example =
    get_best_provider-Chosen 20 exhausted (omega arith) (omega arith) refl

execute_core_blacklists_example :
    available_at 300000000000 (execute_core 0 limited pair).1.providers 0
    ≡ (if 0 == 0 then ltb (50 + 5 * minute) 300000000000 else true)
unfolding analyze_error matching any_included includes has_prefix to_lower
execute_core_blacklists_example =
    execute_core_blacklists 0 limited pair (omega arith) refl refl 300000000000 0

execute_core_avoids_example :
    (get_best_provider 1000 (execute_core 0 limited pair).1).0 ≢ selected 0
unfolding analyze_error matching any_included includes has_prefix to_lower
execute_core_avoids_example =
    execute_core_avoids 0 1 1000 limited pair (omega arith) refl (omega arith) refl refl
      (omega arith) refl refl

execute_with_retry_succeeds_example : (execute_with_retry flaky pair).0 ≡ none
execute_with_retry_succeeds_example =
    execute_with_retry_succeeds flaky 3 pair pair-IsReady (omega arith) (omega arith) (λ j. refl)

execute_with_retry_calls_example :
    let r = execute_with_retry net pair in
    (0 < r.1.metrics.total_requests)
    × (r.1.metrics.total_requests ≤ 0 + 3)
    × ((r.0 ≡ none) ⊎ (r.1.metrics.total_requests ≡ 0 + 3))
    × IsReady r.1
execute_with_retry_calls_example = execute_with_retry_calls net pair pair-IsReady

attempt_once-Attempted_example :
    Attempted (get_best_provider 1001 pair) (net.call 1) pair (attempt_once net 1 pair).1
attempt_once-Attempted_example = attempt_once-Attempted net 1 pair

-- The limited call is counted for the first provider, under the reason of its error.
attempt_counts :
    let m = (attempt_once net 1 pair).1.metrics in
    (m.total_requests ≡ 1)
    × (m.failed_requests ≡ 1)
    × (m.provider_request_counts ≡ ("node", 1) ∷ [])
unfolding attempt_once get_best_provider recovered_all analyze_error count_failure count_request
    increment
attempt_counts = (refl, refl, refl)
