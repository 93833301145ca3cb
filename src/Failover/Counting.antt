-- ===== src/Failover/Counting.antt =====
-- The request counters of indexer/internal/rpc/failover.go, key by key.
use linq_b2b.Prelude.{
  ℕ, suc, ◌≡◌, refl, sym, ap, ◌∙◌, true, false, List, [], ◌∷◌, Option, none, some, String, str_eq,
  eq_iff, if◌then◌else◌, arith, inl, inr, Bool-cases, Option-cases,
}
use linq_b2b.Failover.{Failover, Metrics, increment, name_of}
use linq_b2b.Failover.Errors.{analyze_error}
use linq_b2b.Failover.Selection.{Selection, selected, refused, get_best_provider}
use linq_b2b.Failover.Execution.{
  Call, World, count_request, count_failure, handle_unhealthy_provider, handle_provider_failure,
  handle_error, execute_core, run_selected, attempt_once, requested,
}
use linq_b2b.Failover.Accounting.{SameRequests, get_best_provider-SameRequests}

-- What is counted for a key.
unfoldable pub count_of : String → List (String × ℕ) → ℕ
count_of key [] = 0
count_of key ((k, n) ∷ counts) = if str_eq k key then n else count_of key counts

apart :
    (k name key : String) → str_eq k name ≡ false → str_eq k key ≡ true → str_eq name key ≡ false
apart k name key other same = elim (Bool-cases (str_eq name key)) [
  | inl too ↦
      let e : k ≡ name = (eq_iff k key).0 same ∙ sym ((eq_iff name key).0 too) in
      absurd (ground (arith, (eq_iff k name).1 e, other))
  | inr differs ↦ differs
]

-- The counts `after` are the counts `before` with one more for `name`.
abbrev pub OneMore : String → List (String × ℕ) → List (String × ℕ) → Type 0
OneMore name before after =
    (key : String)
    → count_of key after
      ≡ (if str_eq name key then suc (count_of key before) else count_of key before)

increment-OneMore :
    (name : String) (counts : List (String × ℕ)) → OneMore name counts (increment name counts)
unfolding count_of increment
increment-OneMore name [] key = refl
increment-OneMore name ((k, n) ∷ counts) key = elim (Bool-cases (str_eq k name)) [
  | inl same ↦
      let e : str_eq k key ≡ str_eq name key = ap (λ x. str_eq x key) ((eq_iff k name).0 same) in
      rw same (ground (arith, e))
  | inr other ↦
      let more = increment-OneMore name counts key in
      rw other (ground (arith, more, apart k name key other))
]

-- How a call ended: as a success, or as a failure with the reason that its error is given.
abbrev pub Ended : Option String → ℕ → Metrics → Metrics → Type 0
Ended none elapsed before after =
    (after.successful_requests ≡ suc before.successful_requests)
    × (after.failed_requests ≡ before.failed_requests)
    × (after.errors_by_type ≡ before.errors_by_type)
Ended (some err) elapsed before after =
    (after.successful_requests ≡ before.successful_requests)
    × (after.failed_requests ≡ suc before.failed_requests)
    × OneMore (analyze_error err elapsed).reason before.errors_by_type after.errors_by_type

-- One call of the provider with that name is counted.
pub record Counted (name : String) (call : Call) (before after : Metrics) : Type 0 where
  pub total : after.total_requests ≡ suc before.total_requests
  pub provider : OneMore name before.provider_request_counts after.provider_request_counts
  pub ended : Ended call.error call.elapsed before after

handle_error-Counted :
    (i : ℕ) (call : Call) (err : String) (f : Failover)
    → Counted
        (name_of i f)
        (record call { error = some err })
        f.metrics
        (handle_error call.ended i err call.elapsed (requested i f)).metrics
unfolding handle_error handle_unhealthy_provider handle_provider_failure count_failure count_request
handle_error-Counted i call err f =
    let issue = analyze_error err call.elapsed in
    let provider = increment-OneMore (name_of i f) f.metrics.provider_request_counts in
    let types = increment-OneMore issue.reason f.metrics.errors_by_type in
    elim (Bool-cases issue.mark_unhealthy) [
      | inl bad ↦ rw bad (record { total = refl; provider = provider; ended = (refl, refl, types) })
      | inr fair ↦
          rw fair (record { total = refl; provider = provider; ended = (refl, refl, types) })
    ]

pub execute_core-Counted :
    (i : ℕ) (call : Call) (f : Failover)
    → Counted (name_of i f) call f.metrics (execute_core i call f).1.metrics
unfolding execute_core count_request
execute_core-Counted i call f = elim (Option-cases call.error) [
  | inl e ↦ rw e (record {
    total = refl;
    provider = increment-OneMore (name_of i f) f.metrics.provider_request_counts;
    ended = (refl, refl, refl);
  })
  | inr (err, e) ↦ rw e (handle_error-Counted i call err f)
]

-- What an attempt adds to the counters, by the choice of its provider and the state after the choice.
abbrev pub Attempted : Selection × Failover → (ℕ → Call) → Failover → Failover → Type 0
Attempted (refused e, chosen) call before after = SameRequests before after
Attempted (selected i, chosen) call before after =
    Counted (name_of i chosen) (call i) before.metrics after.metrics

Ended-SameRequests :
    (err : Option String) (elapsed : ℕ) (f g h : Failover)
    → SameRequests f g
    → Ended err elapsed g.metrics h.metrics
    → Ended err elapsed f.metrics h.metrics
Ended-SameRequests none elapsed f g h same (s, b, t) =
    (s ∙ ap suc same.successful, b ∙ same.failed, t ∙ same.types)
Ended-SameRequests (some err) elapsed f g h same (s, b, t) =
    (s ∙ same.successful, b ∙ ap suc same.failed, λ key. rw⁻¹ same.types (t key))

SameRequests-Counted :
    (name : String) (call : Call) (f g h : Failover)
    → SameRequests f g
    → Counted name call g.metrics h.metrics
    → Counted name call f.metrics h.metrics
SameRequests-Counted name call f g h same c = record {
  total = c.total ∙ ap suc same.total;
  provider = λ key. rw⁻¹ same.counts (c.provider key);
  ended = Ended-SameRequests call.error call.elapsed f g h same c.ended;
}

run_selected-Attempted :
    (w : World) (k : ℕ) (p : Selection × Failover) (f : Failover)
    → SameRequests f p.1
    → Attempted p (w.call k) f (run_selected w k p).1
unfolding run_selected
run_selected-Attempted w k (refused e, g) f same = same
run_selected-Attempted w k (selected i, g) f same =
    SameRequests-Counted (name_of i g) (w.call k i) f g (execute_core i (w.call k i) g).1 same
      (execute_core-Counted i (w.call k i) g)

-- An attempt that finds no provider changes no counter of requests. One that calls the chosen
-- provider counts one request in total and one under that provider's name; when the call succeeds, one
-- success; when it fails, one failure and one under the reason of its error; no other key changes.
pub attempt_once-Attempted :
    (w : World) (k : ℕ) (f : Failover)
    → Attempted (get_best_provider (w.clock k) f) (w.call k) f (attempt_once w k f).1
unfolding attempt_once
attempt_once-Attempted w k f =
    run_selected-Attempted w k (get_best_provider (w.clock k) f) f
      (get_best_provider-SameRequests (w.clock k) f)
