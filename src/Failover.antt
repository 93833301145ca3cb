-- ===== src/Failover.antt =====
-- indexer/internal/rpc/failover.go, provider.go and indexer/pkg/retry/retry.go: the choice among
-- the providers of one network. Times and durations are nanoseconds from Go's zero time; a
-- method that reads the clock several times in a row is given one time. The counters stay far below
-- 2^63. Every client has the type that AddProvider asks for. The log and its throttling are left out.
pub mod Errors
pub mod Selection
pub mod Execution
pub mod Retries
pub mod Accounting
pub mod Counting
pub mod Choice
pub mod Blacklisting
use linq_b2b.Prelude.{
  ℕ, zero, suc, ◌+◌, ◌/◌, Bool, true, false, not, ◌&&◌, ◌||◌, List, [], ◌∷◌, ◌++◌, Option, none,
  some, String, str_eq, ltb, leb, ◌==◌, if◌then◌else◌, get_elem?, set,
}

pub data State : Type 0 where
  healthy degraded unhealthy blacklisted : State

pub record Provider : Type 0 where
  pub name : String
  pub state : State
  pub last_health_check : ℕ
  pub average_response_time : ℕ
  pub blacklisted_until : ℕ
  pub consecutive_errors : ℕ

pub record FailoverConfig : Type 0 where
  pub enable_blacklisting : Bool
  pub error_threshold : ℕ

pub record Metrics : Type 0 where
  pub total_requests : ℕ
  pub successful_requests : ℕ
  pub failed_requests : ℕ
  pub provider_switches : ℕ
  pub blacklist_events : ℕ
  pub recovery_events : ℕ
  pub emergency_recoveries : ℕ
  pub fallback_attempts : ℕ
  pub errors_by_type : List (String × ℕ)
  pub provider_request_counts : List (String × ℕ)

-- `current_index` is none for -1. A `*Provider` is its position in `providers`.
pub record Failover : Type 0 where
  pub providers : List Provider
  pub current_index : Option ℕ
  pub config : FailoverConfig
  pub metrics : Metrics

abbrev pub is_blacklisted : State → Bool
is_blacklisted healthy = false
is_blacklisted degraded = false
is_blacklisted unhealthy = false
is_blacklisted blacklisted = true

abbrev pub is_available : ℕ → Provider → Bool
is_available now p = not (is_blacklisted p.state) || ltb p.blacklisted_until now

abbrev pub is_expired_blacklist : ℕ → Provider → Bool
is_expired_blacklist now p = is_blacklisted p.state && ltb p.blacklisted_until now

unfoldable pub fail : FailoverConfig → Provider → Provider
fail c p =
    let errors = suc p.consecutive_errors in
    record p {
      consecutive_errors = errors;
      state =
          if leb c.error_threshold errors
          then unhealthy
          else if leb 2 errors
          then degraded
          else p.state;
    }

unfoldable pub blacklist : ℕ → ℕ → Provider → Provider
blacklist now d p = record p { state = blacklisted; blacklisted_until = now + d }

unfoldable pub recover : Provider → Provider
recover p = record p { state = degraded; blacklisted_until = 0; consecutive_errors = 0 }

unfoldable pub success : ℕ → ℕ → Provider → Provider
success now elapsed p = record p {
  consecutive_errors = 0;
  state = healthy;
  average_response_time =
      if p.average_response_time == 0 then elapsed else (p.average_response_time + elapsed) / 2;
  last_health_check = now;
}

unfoldable pub new_failover : FailoverConfig → Failover
new_failover c = record {
  providers = [];
  current_index = none;
  config = c;
  metrics = record {
    total_requests = 0;
    successful_requests = 0;
    failed_requests = 0;
    provider_switches = 0;
    blacklist_events = 0;
    recovery_events = 0;
    emergency_recoveries = 0;
    fallback_attempts = 0;
    errors_by_type = [];
    provider_request_counts = [];
  };
}

unfoldable pub add_provider : Provider → Failover → Failover
add_provider p f = record f {
  providers = f.providers ++ p ∷ [];
  current_index = elim f.current_index [ none ↦ some 0 | some i ↦ some i ];
}

-- `counts[key]++`.
unfoldable pub increment : String → List (String × ℕ) → List (String × ℕ)
increment key [] = (key, 1) ∷ []
increment key ((k, n) ∷ counts) =
    if str_eq k key then (k, suc n) ∷ counts else (k, n) ∷ increment key counts

-- What a method does to the provider at a position.
unfoldable pub update : ℕ → (Provider → Provider) → List Provider → List Provider
update i g [] = []
update zero g (p ∷ ps) = g p ∷ ps
update (suc i) g (p ∷ ps) = p ∷ update i g ps

abbrev pub update_provider : ℕ → (Provider → Provider) → Failover → Failover
update_provider i g f = record f { providers = update i g f.providers }

abbrev pub name_of : ℕ → Failover → String
name_of i f = elim (get_elem? f.providers i) [ none ↦ "" | some p ↦ p.name ]
