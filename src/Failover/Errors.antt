-- ===== src/Failover/Errors.antt =====
-- analyzeError of indexer/internal/rpc/failover.go.
use linq_b2b.Prelude.{
  ℕ, ◌*◌, Bool, true, false, ◌&&◌, ◌||◌, List, [], ◌∷◌, Option, none, some, String, ltb, ◌==◌,
  if◌then◌else◌,
}
use linq_b2b.Texts.{codes, to_lower}

unfoldable pub has_prefix : List ℕ → List ℕ → Bool
has_prefix s [] = true
has_prefix [] (c ∷ p) = false
has_prefix (d ∷ s) (c ∷ p) = d == c && has_prefix s p

-- `strings.Contains`.
unfoldable pub includes : List ℕ → List ℕ → Bool
unfolding has_prefix
includes [] p = has_prefix [] p
includes (d ∷ s) p = has_prefix (d ∷ s) p || includes s p

pub record ProviderIssue : Type 0 where
  pub reason : String
  pub cooldown : ℕ
  pub mark_unhealthy : Bool

pub record ErrorPattern : Type 0 where
  pub patterns : List String
  pub reason : String
  pub cooldown : ℕ

abbrev pub second : ℕ
second = 1000000000

abbrev pub minute : ℕ
minute = 60000000000

abbrev pub hour : ℕ
hour = 3600000000000

-- Every pattern marks its provider as unhealthy.
abbrev pub error_patterns : List ErrorPattern
error_patterns =
    record {
      patterns = "rate limit" ∷ "429" ∷ "too many requests" ∷ [];
      reason = "rate_limit";
      cooldown = 5 * minute;
    }
    ∷ record {
      patterns = "-32001" ∷ "exceeded the quota" ∷ "quota usage" ∷ "quota limit" ∷ [];
      reason = "quota_exceeded";
      cooldown = 5 * minute;
    }
    ∷ record { patterns = "forbidden" ∷ "403" ∷ []; reason = "forbidden"; cooldown = 24 * hour }
    ∷ record { patterns = "timeout" ∷ "deadline" ∷ []; reason = "timeout"; cooldown = 3 * minute }
    ∷ record {
      patterns = "eof" ∷ "connection reset" ∷ "connection refused" ∷ "broken pipe" ∷ [];
      reason = "connection_error";
      cooldown = 2 * minute;
    }
    ∷ record {
      patterns = "-32007" ∷ "batch limit exceeded" ∷ "internal error -32005" ∷ [];
      reason = "batch_limit";
      cooldown = 1 * minute;
    }
    ∷ []

unfoldable pub any_included : List ℕ → List String → Bool
unfolding includes
any_included msg [] = false
any_included msg (p ∷ ps) = includes msg (codes p) || any_included msg ps

-- The first pattern that the message includes.
unfoldable pub matching : List ℕ → List ErrorPattern → Option ErrorPattern
unfolding any_included
matching msg [] = none
matching msg (p ∷ ps) = if any_included msg p.patterns then some p else matching msg ps

unfoldable pub analyze_error : String → ℕ → ProviderIssue
unfolding matching to_lower
analyze_error err elapsed = elim (matching (to_lower (codes err)) error_patterns) [
  | some p ↦ record { reason = p.reason; cooldown = p.cooldown; mark_unhealthy = true }
  | none ↦
      if ltb (3 * second) elapsed
      then record { reason = "slow_response"; cooldown = 2 * minute; mark_unhealthy = true }
      else record { reason = "generic_error"; cooldown = 0; mark_unhealthy = false }
]
