-- ===== src/Failover/Blacklisting.antt =====
-- A provider that fails is left alone while its cooldown lasts: indexer/internal/rpc/failover.go.
use linq_b2b.Prelude.{
  ℕ, zero, suc, ◌+◌, ◌≤◌, ◌<◌, ◌≡◌, ◌≢◌, refl, sym, ap, ◌∙◌, subst, Bool, true, false, List, [],
  ◌∷◌, Option, some, String, arith, ltb, ◌==◌, if◌then◌else◌, length, inl, inr,
}
use linq_b2b.Failover.{Provider, Failover, is_available, blacklist, update}
use linq_b2b.Failover.Errors.{analyze_error}
use linq_b2b.Failover.Selection.{selected, available_at, get_best_provider}
use linq_b2b.Failover.Execution.{Call, handle_error, handle_unhealthy_provider, execute_core}
use linq_b2b.Failover.Choice.Candidates.{NoneAvailable, length-update}
use linq_b2b.Failover.Choice.{IsWellFormed, Reason, get_best_provider-Chosen, available_at-length}

available_at-update :
    (now i j : ℕ) (g : Provider → Provider) (ps : List Provider)
    → i < length ps
    → (b : Bool) → ((p : Provider) → is_available now (g p) ≡ b)
    → available_at now (update i g ps) j ≡ (if i == j then b else available_at now ps j)
unfolding update
available_at-update now i j g [] h b e = ground arith
available_at-update now zero zero g (p ∷ ps) h b e = e p
available_at-update now zero (suc j) g (p ∷ ps) h b e = ground arith
available_at-update now (suc i) zero g (p ∷ ps) h b e = ground arith
available_at-update now (suc i) (suc j) g (p ∷ ps) h b e =
    available_at-update now i j g ps (omega arith) b e ∙ ground arith

execute_core_failed :
    (i : ℕ) (call : Call) (f : Failover) {err : String}
    → call.error ≡ some err
    → (analyze_error err call.elapsed).mark_unhealthy ≡ true
    → let f' = (execute_core i call f).1 in
      (f'.providers
        ≡ update i (blacklist call.ended (analyze_error err call.elapsed).cooldown) f.providers)
      × (f'.current_index ≡ f.current_index)
      × (f'.config ≡ f.config)
unfolding execute_core handle_error handle_unhealthy_provider
execute_core_failed i call f {err} e bad = rw e (rw bad (refl, refl, refl))

-- A call of a configured provider that fails with an error that marks it as unhealthy: the
-- provider is unavailable until the cooldown for that error is over, and available behind that;
-- the other providers are as available as before.
pub execute_core_blacklists :
    (i : ℕ) (call : Call) (f : Failover) {err : String}
    → i < length f.providers
    → call.error ≡ some err
    → (analyze_error err call.elapsed).mark_unhealthy ≡ true
    → (now j : ℕ)
    → available_at now (execute_core i call f).1.providers j ≡ (
        if i == j
        then ltb (call.ended + (analyze_error err call.elapsed).cooldown) now
        else available_at now f.providers j)
unfolding blacklist
execute_core_blacklists i call f {err} h e bad now j =
    let d = (analyze_error err call.elapsed).cooldown in
    ap (λ ps. available_at now ps j) (execute_core_failed i call f e bad).0
    ∙ available_at-update now i j (blacklist call.ended d) f.providers h (ltb (call.ended + d) now)
        (λ p. refl)

NoneAvailable-available_at :
    (now j : ℕ) (ps : List Provider) → NoneAvailable now ps → available_at now ps j ≡ false
NoneAvailable-available_at now j [] h = refl
NoneAvailable-available_at now zero (p ∷ ps) h = h.0
NoneAvailable-available_at now (suc j) (p ∷ ps) h = NoneAvailable-available_at now j ps h.1

Reason-avoids :
    (now i j : ℕ) (ps : List Provider) (current : Option ℕ)
    → available_at now ps i ≡ false
    → available_at now ps j ≡ true
    → ¬ Reason now ps i current
Reason-avoids now i j ps current gone here (inl (k, c)) = ground (arith, gone, k)
Reason-avoids now i j ps current gone here (inr (h, s, c)) =
    ground (arith, here, NoneAvailable-available_at now j ps h)

selected_inj : (i j : ℕ) → selected i ≡ selected j → i ≡ j
selected_inj i j e = cc e

get_best_provider_avoids :
    (now i j : ℕ) (f : Failover)
    → IsWellFormed f
    → f.config.enable_blacklisting ≡ true
    → available_at now f.providers i ≡ false
    → available_at now f.providers j ≡ true
    → (get_best_provider now f).0 ≢ selected i
get_best_provider_avoids now i j f wf on gone here e =
    let c =
      get_best_provider-Chosen now f wf (ground (arith, available_at-length now f.providers j here))
        on in
    let same = selected_inj c.index i (sym c.chosen ∙ e) in
    Reason-avoids now i j f.providers (get_best_provider now f).1.current_index gone here (
      subst (λ m. Reason now f.providers m (get_best_provider now f).1.current_index) same c.reason)

-- With blacklisting enabled and the current index -1 or a position of the list: after a call of a
-- provider of the list that failed with an error that marks it as unhealthy, and until its
-- cooldown is over, the provider is not chosen while another one is available.
pub execute_core_avoids :
    (i j now : ℕ) (call : Call) (f : Failover) {err : String}
    → IsWellFormed f
    → f.config.enable_blacklisting ≡ true
    → i < length f.providers
    → call.error ≡ some err
    → (analyze_error err call.elapsed).mark_unhealthy ≡ true
    → now ≤ call.ended + (analyze_error err call.elapsed).cooldown
    → (i == j) ≡ false
    → available_at now f.providers j ≡ true
    → (get_best_provider now (execute_core i call f).1).0 ≢ selected i
execute_core_avoids i j now call f {err} wf on h e bad within other here =
    let (list, current, config) = execute_core_failed i call f e bad in
    let d = (analyze_error err call.elapsed).cooldown in
    get_best_provider_avoids now i j (execute_core i call f).1
      (ground (arith, list, current, wf, length-update i (blacklist call.ended d) f.providers))
      (ap (λ c. c.enable_blacklisting) config ∙ on)
      (execute_core_blacklists i call f h e bad now i ∙ ground arith)
      (execute_core_blacklists i call f h e bad now j ∙ rw other here)
