-- ===== src/Failover/Selection.antt =====
-- GetBestProvider, findNextAvailableProvider and the recoveries of indexer/internal/rpc/failover.go.
-- Each of them is one step; the locks that let requests interleave inside them are left out.
use linq_b2b.Prelude.{
  ℕ, zero, suc, ◌+◌, ◌%◌, Bool, false, not, List, [], ◌∷◌, Option, none, some, leb, ◌==◌,
  if◌then◌else◌, get_elem?, length,
}
use linq_b2b.Failover.{
  Provider, Failover, is_blacklisted, is_available, is_expired_blacklist, recover, update_provider,
}

pub data SelectError : Type 0 where
  no_providers_configured no_available_providers no_providers_available : SelectError

pub data Selection : Type 0 where
  selected : ℕ → Selection
  refused : SelectError → Selection

-- The providers after recovery, and how many of them were recovered.
unfoldable pub recovered_all : ℕ → List Provider → List Provider
recovered_all now [] = []
recovered_all now (p ∷ ps) =
    (if is_expired_blacklist now p then recover p else p) ∷ recovered_all now ps

unfoldable pub count_expired : ℕ → List Provider → ℕ
count_expired now [] = 0
count_expired now (p ∷ ps) =
    let n = count_expired now ps in if is_expired_blacklist now p then suc n else n

unfoldable pub recover_expired_blacklists : ℕ → Failover → Failover
recover_expired_blacklists now f = record f {
  providers = recovered_all now f.providers;
  metrics = record f.metrics {
    recovery_events = f.metrics.recovery_events + count_expired now f.providers;
  };
}

abbrev pub available_at : ℕ → List Provider → ℕ → Bool
available_at now ps i = elim (get_elem? ps i) [ none ↦ false | some p ↦ is_available now p ]

unfoldable pub available_indices : ℕ → ℕ → List Provider → List ℕ
available_indices now i [] = []
available_indices now i (p ∷ ps) =
    let rest = available_indices now (suc i) ps in if is_available now p then i ∷ rest else rest

unfoldable pub get_available_providers : ℕ → Failover → List ℕ × Failover
unfolding recover_expired_blacklists available_indices
get_available_providers now f =
    let f' = recover_expired_blacklists now f in (available_indices now 0 f'.providers, f')

-- `count` positions from `k` on, round the list.
unfoldable pub search : ℕ → List Provider → ℕ → ℕ → Option ℕ
search now ps zero k = none
search now ps (suc count) k =
    let rest = search now ps count (suc k) in
    if available_at now ps (k % length ps) then some (k % length ps) else rest

-- The blacklisted provider whose blacklisting ends first, and that end; the first of several.
unfoldable pub earlier : ℕ → Provider → Option (ℕ × ℕ) → Option (ℕ × ℕ)
earlier i p none = some (i, p.blacklisted_until)
earlier i p (some (j, t)) =
    if leb p.blacklisted_until t then some (i, p.blacklisted_until) else some (j, t)

unfoldable pub earliest : ℕ → List Provider → Option (ℕ × ℕ)
unfolding earlier
earliest i [] = none
earliest i (p ∷ ps) =
    let rest = earliest (suc i) ps in if is_blacklisted p.state then earlier i p rest else rest

unfoldable pub perform_emergency_recovery : Failover → Selection × Failover
unfolding earliest
perform_emergency_recovery f =
    if not f.config.enable_blacklisting
    then (refused no_available_providers, f)
    else elim (earliest 0 f.providers) [
      | none ↦ (refused no_providers_available, f)
      | some (i, t) ↦ (
        selected i,
        record (update_provider i recover f) {
          current_index = some 0;
          metrics = record f.metrics { emergency_recoveries = suc f.metrics.emergency_recoveries };
        },
      )
    ]

abbrev pub after : Option ℕ → ℕ
after none = 0
after (some i) = suc i

unfoldable pub find_next_available_provider : ℕ → Failover → Selection × Failover
unfolding search perform_emergency_recovery
find_next_available_provider now f =
    if length f.providers == 0
    then (refused no_providers_configured, f)
    else elim (search now f.providers (length f.providers) (after f.current_index)) [
      | some i ↦ (
        selected i,
        record f {
          current_index = some i;
          metrics = record f.metrics { provider_switches = suc f.metrics.provider_switches };
        },
      )
      | none ↦ perform_emergency_recovery f
    ]

abbrev pub current_available : ℕ → Failover → Option ℕ
current_available now f = elim f.current_index [
  | none ↦ none
  | some i ↦ if available_at now f.providers i then some i else none
]

unfoldable pub get_best_provider : ℕ → Failover → Selection × Failover
unfolding recover_expired_blacklists find_next_available_provider
get_best_provider now f =
    if length f.providers == 0
    then (refused no_providers_configured, f)
    else let f' = recover_expired_blacklists now f in
      elim (current_available now f') [
        | some i ↦ (selected i, f')
        | none ↦ find_next_available_provider now f'
      ]
