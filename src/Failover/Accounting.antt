-- ===== src/Failover/Accounting.antt =====
-- The request counters of indexer/internal/rpc/failover.go.
use linq_b2b.Prelude.{
  ℕ, zero, suc, ◌+◌, ◌≡◌, refl, sym, ap, ◌∙◌, Bool, not, ◌&&◌, ◌||◌, List, [], ◌∷◌, Option, none,
  some, String, arith, inl, inr, Bool-cases, Option-cases,
}
use linq_b2b.Failover.{Failover, increment, name_of}
use linq_b2b.Failover.Errors.{analyze_error}
use linq_b2b.Failover.Selection.{
  Selection, selected, refused, recover_expired_blacklists, perform_emergency_recovery,
  find_next_available_provider, get_best_provider,
}
use linq_b2b.Failover.Execution.{
  Call, World, count_request, count_failure, handle_unhealthy_provider, handle_provider_failure,
  handle_error, execute_core, analyze_and_handle_error, record_success, handle_capability_error,
  constant_loop, constant, run_selected, attempt_once, execute_with_retry, other_than,
  attempt_provider_switch, blacklisted_at, run_fallback, after_call, call_provider,
  attempt_provider, execute_with_retry_provider, requested, succeeded,
}

unfoldable pub sum : List (String × ℕ) → ℕ
sum [] = 0
sum ((k, n) ∷ counts) = n + sum counts

sum-increment :
    (key : String) (counts : List (String × ℕ)) → sum (increment key counts) ≡ suc (sum counts)
unfolding sum increment
sum-increment key [] = refl
sum-increment key ((k, n) ∷ counts) = ground (arith, sum-increment key counts)

-- The sums of the counters agree.
pub record IsBalanced (f : Failover) : Type 0 where
  pub ended : f.metrics.total_requests ≡ f.metrics.successful_requests + f.metrics.failed_requests
  pub by_provider : sum f.metrics.provider_request_counts ≡ f.metrics.total_requests
  pub by_type : sum f.metrics.errors_by_type ≡ f.metrics.failed_requests

-- The counters of requests are the same.
pub record SameRequests (f g : Failover) : Type 0 where
  pub total : g.metrics.total_requests ≡ f.metrics.total_requests
  pub successful : g.metrics.successful_requests ≡ f.metrics.successful_requests
  pub failed : g.metrics.failed_requests ≡ f.metrics.failed_requests
  pub types : g.metrics.errors_by_type ≡ f.metrics.errors_by_type
  pub counts : g.metrics.provider_request_counts ≡ f.metrics.provider_request_counts

SameRequests-refl : (f : Failover) → SameRequests f f
SameRequests-refl f = record {
  total = refl;
  successful = refl;
  failed = refl;
  types = refl;
  counts = refl;
}

SameRequests-IsBalanced : (f g : Failover) → SameRequests f g → IsBalanced f → IsBalanced g
SameRequests-IsBalanced f g s b = record {
  ended = ground (arith, s.total, s.successful, s.failed, b.ended);
  by_provider = ap sum s.counts ∙ b.by_provider ∙ sym s.total;
  by_type = ap sum s.types ∙ b.by_type ∙ sym s.failed;
}

perform_emergency_recovery-SameRequests :
    (f : Failover) → SameRequests f (perform_emergency_recovery f).1
unfolding perform_emergency_recovery
perform_emergency_recovery-SameRequests f = ground (arith, SameRequests-refl f)

find_next_available_provider-SameRequests :
    (now : ℕ) (f : Failover) → SameRequests f (find_next_available_provider now f).1
unfolding find_next_available_provider
find_next_available_provider-SameRequests now f =
    ground (arith, SameRequests-refl f, perform_emergency_recovery-SameRequests f)

pub get_best_provider-SameRequests :
    (now : ℕ) (f : Failover) → SameRequests f (get_best_provider now f).1
unfolding get_best_provider recover_expired_blacklists
get_best_provider-SameRequests now f =
    let f' = recover_expired_blacklists now f in
    let recovered : SameRequests f f' = record {
      total = refl;
      successful = refl;
      failed = refl;
      types = refl;
      counts = refl;
    } in
    let same = found now f' recovered in ground (arith, SameRequests-refl f, recovered, same)
  where
    found :
        (now : ℕ) (g : Failover)
        → SameRequests f g
        → SameRequests f (find_next_available_provider now g).1
    found now g s =
        let t = find_next_available_provider-SameRequests now g in
        record {
          total = t.total ∙ s.total;
          successful = t.successful ∙ s.successful;
          failed = t.failed ∙ s.failed;
          types = t.types ∙ s.types;
          counts = t.counts ∙ s.counts;
        }

handle_error-IsBalanced :
    (now i : ℕ) (err : String) (elapsed : ℕ) (f : Failover)
    → IsBalanced f
    → IsBalanced (handle_error now i err elapsed (requested i f))
unfolding handle_error handle_unhealthy_provider handle_provider_failure count_failure count_request
handle_error-IsBalanced now i err elapsed f b =
    let issue = analyze_error err elapsed in
    let types = sum-increment issue.reason f.metrics.errors_by_type in
    let counts = sum-increment (name_of i f) f.metrics.provider_request_counts in
    elim (Bool-cases issue.mark_unhealthy) [
      | inl bad ↦ rw bad (record {
        ended = omega (arith, b.ended);
        by_provider = counts ∙ ap suc b.by_provider;
        by_type = types ∙ ap suc b.by_type;
      })
      | inr fair ↦ rw fair (record {
        ended = omega (arith, b.ended);
        by_provider = counts ∙ ap suc b.by_provider;
        by_type = types ∙ ap suc b.by_type;
      })
    ]

-- A direct call that fails, reported to the failover, keeps the request counters balanced.
pub analyze_and_handle_error-IsBalanced :
    (now i : ℕ) (err : String) (elapsed : ℕ) (f : Failover)
    → IsBalanced f
    → IsBalanced (analyze_and_handle_error now i err elapsed f)
unfolding analyze_and_handle_error
analyze_and_handle_error-IsBalanced = handle_error-IsBalanced

pub handle_capability_error-IsBalanced :
    (now i cooldown : ℕ) (f : Failover)
    → IsBalanced f
    → IsBalanced (handle_capability_error now i cooldown f)
unfolding handle_capability_error handle_unhealthy_provider count_request count_failure
handle_capability_error-IsBalanced now i cooldown f b = record {
  ended = omega (arith, b.ended);
  by_provider =
      sum-increment (name_of i f) f.metrics.provider_request_counts ∙ ap suc b.by_provider;
  by_type = sum-increment "capability_error" f.metrics.errors_by_type ∙ ap suc b.by_type;
}

succeeded-IsBalanced :
    (now i elapsed : ℕ) (f : Failover)
    → IsBalanced f
    → IsBalanced (succeeded now i elapsed (requested i f))
unfolding count_request
succeeded-IsBalanced now i elapsed f b = record {
  ended = omega (arith, b.ended);
  by_provider =
      sum-increment (name_of i f) f.metrics.provider_request_counts ∙ ap suc b.by_provider;
  by_type = b.by_type;
}

pub record_success-IsBalanced :
    (now i elapsed : ℕ) (f : Failover) → IsBalanced f → IsBalanced (record_success now i elapsed f)
unfolding record_success
record_success-IsBalanced = succeeded-IsBalanced

execute_core-IsBalanced :
    (i : ℕ) (call : Call) (f : Failover) → IsBalanced f → IsBalanced (execute_core i call f).1
unfolding execute_core
execute_core-IsBalanced i call f b = elim (Option-cases call.error) [
  | inl e ↦ rw e (succeeded-IsBalanced call.ended i call.elapsed f b)
  | inr (err, e) ↦ rw e (handle_error-IsBalanced call.ended i err call.elapsed f b)
]

get_best_provider-IsBalanced :
    (now : ℕ) (f : Failover) → IsBalanced f → IsBalanced (get_best_provider now f).1
get_best_provider-IsBalanced now f =
    SameRequests-IsBalanced f (get_best_provider now f).1 (get_best_provider-SameRequests now f)

run_selected-IsBalanced :
    (w : World) (k : ℕ) (p : Selection × Failover)
    → IsBalanced p.1
    → IsBalanced (run_selected w k p).1
unfolding run_selected
run_selected-IsBalanced w k (refused e, f) b = b
run_selected-IsBalanced w k (selected i, f) b = execute_core-IsBalanced i (w.call k i) f b

-- What every attempt keeps, the retries keep.
pub constant_loop-keeps {ℓ κ μ} :
    {E : Type ℓ} {S : Type κ} (P : S → Type μ) (op : ℕ → S → Option E × S)
    → ((k : ℕ) (s : S) → P s → P (op k s).1)
    → (left i : ℕ) (s : S) → P s
    → P (constant_loop op left i s).1
unfolding constant_loop
constant_loop-keeps P op keep zero i s p = keep i s p
constant_loop-keeps P op keep (suc left) i s p = elim (Option-cases (op i s).0) [
  | inl e ↦ rw (e, constant_loop) (keep i s p)
  | inr (err, e) ↦
      rw (e, constant_loop) (constant_loop-keeps P op keep left (suc i) (op i s).1 (keep i s p))
]

attempt_once-IsBalanced :
    (w : World) (k : ℕ) (f : Failover) → IsBalanced f → IsBalanced (attempt_once w k f).1
unfolding attempt_once
attempt_once-IsBalanced w k f b =
    run_selected-IsBalanced w k (get_best_provider (w.clock k) f)
      (get_best_provider-IsBalanced (w.clock k) f b)

-- Whatever the providers answer, a request with retries keeps the sums of the counters in step.
pub execute_with_retry-IsBalanced :
    (w : World) (f : Failover) → IsBalanced f → IsBalanced (execute_with_retry w f).1
unfolding execute_with_retry constant
execute_with_retry-IsBalanced w f b =
    constant_loop-keeps IsBalanced (attempt_once w) (attempt_once-IsBalanced w) 2 1 f b

other_than-IsBalanced :
    (i : ℕ) (p : Selection × Failover) → IsBalanced p.1 → IsBalanced (other_than i p).1
unfolding other_than
other_than-IsBalanced i (refused e, f) b = b
other_than-IsBalanced i (selected j, f) b = b

run_fallback-IsBalanced :
    (w : World) (k : ℕ) (err : String) (p : Option ℕ × Failover)
    → IsBalanced p.1
    → IsBalanced (run_fallback w k err p).1
unfolding run_fallback
run_fallback-IsBalanced w k err (none, f) b = b
run_fallback-IsBalanced w k err (some j, f) b =
    execute_core-IsBalanced j (w.fallback k j) _
      (record { ended = b.ended; by_provider = b.by_provider; by_type = b.by_type })

attempt_provider_switch-IsBalanced :
    (now i : ℕ) (f : Failover) → IsBalanced f → IsBalanced (attempt_provider_switch now i f).1
unfolding attempt_provider_switch
attempt_provider_switch-IsBalanced now i f b =
    other_than-IsBalanced i (get_best_provider now f) (get_best_provider-IsBalanced now f b)

after_call-IsBalanced :
    (w : World) (k : ℕ) (allow : Bool) (i : ℕ) (p : Option String × Failover)
    → IsBalanced p.1
    → IsBalanced (after_call w k allow i p).1
unfolding after_call
after_call-IsBalanced w k allow i (none, f) b = b
after_call-IsBalanced w k allow i (some err, f) b =
    elim (Bool-cases (not allow || blacklisted_at i f)) [
      | inl stays ↦ rw stays b
      | inr moves ↦ rw moves (
          run_fallback-IsBalanced w k err _
            (attempt_provider_switch-IsBalanced (w.call k i).ended i f b))
    ]

call_provider-IsBalanced :
    (w : World) (k : ℕ) (allow : Bool) (i : ℕ) (f : Failover)
    → IsBalanced f
    → IsBalanced (call_provider w k allow i f).1.1
unfolding call_provider
call_provider-IsBalanced w k allow i f b =
    after_call-IsBalanced w k allow i (execute_core i (w.call k i) f)
      (execute_core-IsBalanced i (w.call k i) f b)

attempt_provider-IsBalanced :
    (w : World) (allow : Bool) (k : ℕ) (s : ℕ × Failover)
    → IsBalanced s.1
    → IsBalanced (attempt_provider w allow k s).1.1
unfolding attempt_provider
attempt_provider-IsBalanced w allow k (i, f) b = elim (Bool-cases (blacklisted_at i f && allow)) [
  | inl moves ↦ rw moves (
      call_provider-IsBalanced w k allow _ _ (attempt_provider_switch-IsBalanced (w.clock k) i f b))
  | inr stays ↦ rw stays (call_provider-IsBalanced w k allow i f b)
]

-- The same for a request that starts at a given provider, with a switch away from a blacklisted
-- one and a second call on another provider: the counters stay balanced.
pub execute_with_retry_provider-IsBalanced :
    (w : World) (i : ℕ) (allow : Bool) (f : Failover)
    → IsBalanced f
    → IsBalanced (execute_with_retry_provider w i allow f).1.1
unfolding execute_with_retry_provider constant
execute_with_retry_provider-IsBalanced w i allow f b =
    constant_loop-keeps (λ s. IsBalanced s.1) (attempt_provider w allow)
      (attempt_provider-IsBalanced w allow) 2 1 (i, f) b
