-- ===== src/Failover/Choice.antt =====
-- Which provider GetBestProvider of indexer/internal/rpc/failover.go gives.
pub mod Candidates
use mathlib.Core.Option
use native.Mathlib.Nat.{mod-eq_of_lt, mod-eq-sub-mod}
use linq_b2b.Prelude.{
  ℕ, zero, suc, ◌+◌, ◌-◌, ◌%◌, ◌≤◌, ◌<◌, ◌≡◌, refl, sym, ap, ◌∙◌, subst, true, false, List, [], ◌∷◌,
  Option, none, some, arith, leb, length, get_elem?, All, inl, inr, ◌⊎◌, Bool-cases, Option-cases,
}
use linq_b2b.Failover.{Provider, Failover, is_blacklisted, is_available, recover, update}
use linq_b2b.Failover.Selection.{
  Selection, selected, recovered_all, recover_expired_blacklists, available_at, search, earlier,
  earliest, after, current_available, perform_emergency_recovery, find_next_available_provider,
  get_best_provider,
}
use linq_b2b.Failover.Choice.Candidates.{
  NoneAvailable, IsEarliest, recovered_all-NoneAvailable, search-found, search_complete,
  get_elem?-update, length-update, earliest_among, available_at-recovered_all, length-recovered_all,
}

-- The current index is -1 or a position of the list.
abbrev pub IsWellFormed : Failover → Type 0
IsWellFormed f = after f.current_index ≤ length f.providers

-- Why the provider at `index` is given, and what is the current one after that.
abbrev pub Reason : ℕ → List Provider → ℕ → Option ℕ → Type 0
Reason now ps index current =
    ((available_at now ps index ≡ true) × (current ≡ some index))
    ⊎ (NoneAvailable now ps × ((t : ℕ) × IsEarliest ps index t) × (current ≡ some 0))

-- The result of a choice at `now` among the providers of `f`.
pub record Chosen (now : ℕ) (f : Failover) (r : Selection × Failover) : Type 0 where
  pub index : ℕ
  pub chosen : r.0 ≡ selected index
  pub available : available_at now r.1.providers index ≡ true
  pub well_formed : IsWellFormed r.1
  pub reason : Reason now f.providers index r.1.current_index

available_at-elem :
    (now : ℕ) (ps : List Provider) (i : ℕ) (p : Provider)
    → get_elem? ps i ≡ some p
    → available_at now ps i ≡ is_available now p
available_at-elem now ps i p e = ground (arith, e)

-- A provider that is there is in the list.
pub available_at-length :
    (now : ℕ) (ps : List Provider) (i : ℕ) → available_at now ps i ≡ true → i < length ps
available_at-length now [] i e = ground (arith, e)
available_at-length now (p ∷ ps) zero e = omega arith
available_at-length now (p ∷ ps) (suc i) e = omega (arith, available_at-length now ps i e)

perform_emergency_recovery_eq :
    (f : Failover) (i t : ℕ)
    → f.config.enable_blacklisting ≡ true
    → earliest 0 f.providers ≡ some (i, t)
    → let r = perform_emergency_recovery f in
      (r.0 ≡ selected i)
      × (r.1.providers ≡ update i recover f.providers)
      × (r.1.current_index ≡ some 0)
unfolding perform_emergency_recovery
perform_emergency_recovery_eq f i t on e = ground (arith, on, e)

perform_emergency_recovery-Chosen :
    (now : ℕ) (f : Failover)
    → 0 < length f.providers
    → f.config.enable_blacklisting ≡ true
    → NoneAvailable now f.providers
    → Chosen now f (perform_emergency_recovery f)
unfolding recover
perform_emergency_recovery-Chosen now f pos on h =
    let (i, t, e, s) = earliest_among now f.providers pos h in
    let (p, at, until, least) = s in
    let (gives, list, current) = perform_emergency_recovery_eq f i t on e in
    record {
      index = i;
      chosen = gives;
      available =
          ap (λ ps. available_at now ps i) list
          ∙ available_at-elem now (update i recover f.providers) i (recover p)
              (get_elem?-update i recover f.providers p at);
      well_formed = ground (arith, list, current, length-update i recover f.providers);
      reason = inr (h, (t, s), current);
    }

find_next_some :
    (now : ℕ) (f : Failover) (i : ℕ)
    → 0 < length f.providers
    → search now f.providers (length f.providers) (after f.current_index) ≡ some i
    → let r = find_next_available_provider now f in
      (r.0 ≡ selected i) × (r.1.providers ≡ f.providers) × (r.1.current_index ≡ some i)
unfolding find_next_available_provider
find_next_some now f i pos e = ground (arith, e)

find_next_none :
    (now : ℕ) (f : Failover)
    → 0 < length f.providers
    → search now f.providers (length f.providers) (after f.current_index) ≡ none
    → find_next_available_provider now f ≡ perform_emergency_recovery f
unfolding find_next_available_provider
find_next_none now f pos e = ground (arith, e)

find_next_available_provider-Chosen :
    (now : ℕ) (f : Failover)
    → IsWellFormed f
    → 0 < length f.providers
    → f.config.enable_blacklisting ≡ true
    → Chosen now f (find_next_available_provider now f)
find_next_available_provider-Chosen now f wf pos on =
    let n = length f.providers in
    elim (Option-cases (search now f.providers n (after f.current_index))) [
      | inl e ↦ subst (Chosen now f) (sym (find_next_none now f pos e)) (
          perform_emergency_recovery-Chosen now f pos on
            (search_complete now f.providers (after f.current_index) wf e))
      | inr (i, e) ↦
          let (gives, list, current) = find_next_some now f i pos e in
          let here = search-found now f.providers n (after f.current_index) i e in
          record {
            index = i;
            chosen = gives;
            available = ap (λ ps. available_at now ps i) list ∙ here;
            well_formed = ground (arith, list, current, available_at-length now f.providers i here);
            reason = inl (here, current);
          }
    ]

NoneAvailable-recovered_all :
    (now : ℕ) (ps : List Provider) → NoneAvailable now (recovered_all now ps) → NoneAvailable now ps
unfolding recovered_all recover
NoneAvailable-recovered_all now [] h = tt
NoneAvailable-recovered_all now (p ∷ ps) h =
    (ground (arith, h.0), NoneAvailable-recovered_all now ps h.1)

Reason-recovered_all :
    (now : ℕ) (ps : List Provider) (i : ℕ) (current : Option ℕ)
    → Reason now (recovered_all now ps) i current
    → Reason now ps i current
Reason-recovered_all now ps i current (inl (here, c)) =
    inl (sym (available_at-recovered_all now ps i) ∙ here, c)
Reason-recovered_all now ps i current (inr (h, (t, s), c)) =
    let free = NoneAvailable-recovered_all now ps h in
    inr (free, (t, subst (λ qs. IsEarliest qs i t) (recovered_all-NoneAvailable now ps free) s), c)

best_current :
    (now i : ℕ) (f : Failover)
    → 0 < length f.providers
    → current_available now (recover_expired_blacklists now f) ≡ some i
    → get_best_provider now f ≡ (selected i, recover_expired_blacklists now f)
unfolding get_best_provider
best_current now i f pos e = ground (arith, e)

best_other :
    (now : ℕ) (f : Failover)
    → 0 < length f.providers
    → current_available now (recover_expired_blacklists now f) ≡ none
    → get_best_provider now f ≡ find_next_available_provider now (recover_expired_blacklists now f)
unfolding get_best_provider
best_other now f pos e = ground (arith, e)

current_available_case :
    (now i : ℕ) (f : Failover)
    → current_available now f ≡ some i
    → (f.current_index ≡ some i) × (available_at now f.providers i ≡ true)
current_available_case now i f e = elim (Option-cases f.current_index) [
  | inl n ↦ ground (arith, n, e)
  | inr (j, s) ↦ elim (Bool-cases (available_at now f.providers j)) [
    | inl here ↦
        let same : j ≡ i = ground (arith, s, here, e) in
        (s ∙ ap some same, subst (λ m. available_at now f.providers m ≡ true) same here)
    | inr gone ↦ ground (arith, s, gone, e)
  ]
]

-- With at least one provider, blacklisting enabled, and the current index -1 or a position of the
-- list, a provider is always found. It is available, and the index stays in the list. Either it
-- was available before and is the current one now; or no provider was, and it is the one whose
-- blacklisting ends first, while the current index is 0, whichever provider that is.
pub get_best_provider-Chosen :
    (now : ℕ) (f : Failover)
    → IsWellFormed f
    → 0 < length f.providers
    → f.config.enable_blacklisting ≡ true
    → Chosen now f (get_best_provider now f)
unfolding recover_expired_blacklists
get_best_provider-Chosen now f wf pos on =
    let f' = recover_expired_blacklists now f in
    let size = length-recovered_all now f.providers in
    elim (Option-cases (current_available now f')) [
      | inr (i, e) ↦
          let (current, here) = current_available_case now i f' e in
          subst (Chosen now f) (sym (best_current now i f pos e)) (record {
            index = i;
            chosen = refl;
            available = here;
            well_formed = omega (arith, size, wf);
            reason = inl (sym (available_at-recovered_all now f.providers i) ∙ here, current);
          })
      | inl e ↦
          let c =
            find_next_available_provider-Chosen now f' (omega (arith, size, wf))
              (omega (arith, size, pos)) on in
          subst (Chosen now f) (sym (best_other now f pos e)) (record {
            index = c.index;
            chosen = c.chosen;
            available = c.available;
            well_formed = c.well_formed;
            reason = Reason-recovered_all now f.providers c.index _ c.reason;
          })
    ]
