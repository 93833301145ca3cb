-- ===== src/Failover/Choice/Candidates.antt =====
-- The search and the recoveries of indexer/internal/rpc/failover.go: what they find in a list.
use mathlib.Core.Option
use native.Mathlib.Nat.{mod-eq_of_lt, mod-eq-sub-mod}
use linq_b2b.Prelude.{
  ℕ, zero, suc, ◌+◌, ◌-◌, ◌%◌, ◌≤◌, ◌<◌, ◌≡◌, refl, sym, ap, ◌∙◌, subst, true, false, List, [], ◌∷◌,
  Option, none, some, arith, leb, length, get_elem?, All, inl, inr, ◌⊎◌, Bool-cases,
}
use linq_b2b.Failover.{Provider, is_blacklisted, is_available, recover, update}
use linq_b2b.Failover.Selection.{recovered_all, available_at, search, earlier, earliest}

pub length-recovered_all :
    (now : ℕ) (ps : List Provider) → length (recovered_all now ps) ≡ length ps
unfolding recovered_all
length-recovered_all now [] = refl
length-recovered_all now (p ∷ ps) = ap suc (length-recovered_all now ps)

-- Recovery makes no provider available that was not.
pub available_at-recovered_all :
    (now : ℕ) (ps : List Provider) (i : ℕ)
    → available_at now (recovered_all now ps) i ≡ available_at now ps i
unfolding recovered_all recover
available_at-recovered_all now [] i = refl
available_at-recovered_all now (p ∷ ps) zero = ground arith
available_at-recovered_all now (p ∷ ps) (suc i) = available_at-recovered_all now ps i

-- No provider is available.
abbrev pub NoneAvailable : ℕ → List Provider → Type 0
NoneAvailable now ps = All (λ p. is_available now p ≡ false) ps

pub recovered_all-NoneAvailable :
    (now : ℕ) (ps : List Provider) → NoneAvailable now ps → recovered_all now ps ≡ ps
unfolding recovered_all
recovered_all-NoneAvailable now [] h = refl
recovered_all-NoneAvailable now (p ∷ ps) h = ground (arith, recovered_all-NoneAvailable now ps h.1)

available_at-NoneAvailable :
    (now : ℕ) (ps : List Provider)
    → ((i : ℕ) → i < length ps → available_at now ps i ≡ false)
    → NoneAvailable now ps
available_at-NoneAvailable now [] h = tt
available_at-NoneAvailable now (p ∷ ps) h =
    (h 0 (omega arith), available_at-NoneAvailable now ps (λ i k. h (suc i) (omega (arith, k))))

pub search-found :
    (now : ℕ) (ps : List Provider) (count k i : ℕ)
    → search now ps count k ≡ some i
    → available_at now ps i ≡ true
unfolding search
search-found now ps zero k i e = ground (arith, e)
search-found now ps (suc count) k i e = elim (Bool-cases (available_at now ps (k % length ps))) [
  | inl here ↦ ground (arith, here)
  | inr further ↦ search-found now ps count (suc k) i (ground (arith, further))
]

search-none_step :
    (now : ℕ) (ps : List Provider) (count k : ℕ)
    → search now ps (suc count) k ≡ none
    → (available_at now ps (k % length ps) ≡ false) × (search now ps count (suc k) ≡ none)
unfolding search
search-none_step now ps count k e = elim (Bool-cases (available_at now ps (k % length ps))) [
  | inl here ↦ ground (arith, here)
  | inr further ↦ ground (arith, further)
]

search-none :
    (now : ℕ) (ps : List Provider) (count k j : ℕ)
    → search now ps count k ≡ none
    → j < count
    → available_at now ps ((k + j) % length ps) ≡ false
search-none now ps zero k j e h = ground arith
search-none now ps (suc count) k zero e h =
    ap (λ m. available_at now ps (m % length ps)) {x = k + 0} {y = k} (omega arith)
    ∙ (search-none_step now ps count k e).0
search-none now ps (suc count) k (suc j) e h =
    ap (λ m. available_at now ps (m % length ps)) {x = k + suc j} {y = suc k + j} (omega arith)
    ∙ search-none now ps count (suc k) j (search-none_step now ps count k e).1 (omega arith)

wrap : (n k i : ℕ) → k ≤ n → i < n → (j : ℕ) × (j < n) × ((k + j) % n ≡ i)
wrap n k i low h = elim (Bool-cases (leb k i)) [
  | inl ahead ↦ (
    i - k,
    ground arith,
    ap (λ m. m % n) {x = k + (i - k)} {y = i} (ground arith) ∙ mod-eq_of_lt h,
  )
  | inr behind ↦ (
    i + n - k,
    ground arith,
    ap (λ m. m % n) {x = k + (i + n - k)} {y = i + n} (ground arith)
        ∙ mod-eq-sub-mod {n = i + n} {m = n} (omega arith)
        ∙ ap (λ m. m % n) {x = i + n - n} {y = i} (omega arith)
        ∙ mod-eq_of_lt h,
  )
]

pub search_complete :
    (now : ℕ) (ps : List Provider) (k : ℕ)
    → k ≤ length ps
    → search now ps (length ps) k ≡ none
    → NoneAvailable now ps
search_complete now ps k low e = available_at-NoneAvailable now ps (λ i h.
    let (j, b, w) = wrap (length ps) k i low h in
    ap (available_at now ps) (sym w) ∙ search-none now ps (length ps) k j e b)

pub get_elem?-update :
    (i : ℕ) (g : Provider → Provider) (ps : List Provider) (p : Provider)
    → get_elem? ps i ≡ some p
    → get_elem? (update i g ps) i ≡ some (g p)
unfolding update
get_elem?-update i g [] p e = ground arith
get_elem?-update zero g (q ∷ ps) p e = ap (Option.map g) e
get_elem?-update (suc i) g (q ∷ ps) p e = get_elem?-update i g ps p e

pub length-update :
    (i : ℕ) (g : Provider → Provider) (ps : List Provider) → length (update i g ps) ≡ length ps
unfolding update
length-update i g [] = refl
length-update zero g (p ∷ ps) = refl
length-update (suc i) g (p ∷ ps) = ap suc (length-update i g ps)

-- The provider at `i` is blacklisted until `t`, and no provider until before that.
abbrev pub IsEarliest : List Provider → ℕ → ℕ → Type 0
IsEarliest ps i t =
    (p : Provider) × (get_elem? ps i ≡ some p)
    × (p.blacklisted_until ≡ t)
    × All (λ q. (is_blacklisted q.state ≡ false) ⊎ (t ≤ q.blacklisted_until)) ps

All-weaken :
    (t u : ℕ) (ps : List Provider)
    → u ≤ t
    → All (λ q. (is_blacklisted q.state ≡ false) ⊎ (t ≤ q.blacklisted_until)) ps
    → All (λ q. (is_blacklisted q.state ≡ false) ⊎ (u ≤ q.blacklisted_until)) ps
All-weaken t u [] h a = tt
All-weaken t u (p ∷ ps) h (inl free, a) = (inl free, All-weaken t u ps h a)
All-weaken t u (p ∷ ps) h (inr late, a) = (inr (omega (arith, late)), All-weaken t u ps h a)

-- What `earliest` finds among the providers from position `i` on.
EarliestFrom : ℕ → List Provider → Option (ℕ × ℕ) → Type 0
EarliestFrom i ps none = All (λ q. is_blacklisted q.state ≡ false) ps
EarliestFrom i ps (some (j, t)) = (d : ℕ) × (j ≡ i + d) × IsEarliest ps d t

All-free :
    (t : ℕ) (ps : List Provider)
    → All (λ q. is_blacklisted q.state ≡ false) ps
    → All (λ q. (is_blacklisted q.state ≡ false) ⊎ (t ≤ q.blacklisted_until)) ps
All-free t [] a = tt
All-free t (p ∷ ps) a = (inl a.0, All-free t ps a.1)

earlier-EarliestFrom :
    (i : ℕ) (p : Provider) (ps : List Provider) (r : Option (ℕ × ℕ))
    → EarliestFrom (suc i) ps r
    → EarliestFrom i (p ∷ ps) (earlier i p r)
unfolding EarliestFrom earlier
earlier-EarliestFrom i p ps none a =
    (0, omega arith, (p, refl, refl, (inr (omega arith), All-free p.blacklisted_until ps a)))
earlier-EarliestFrom i p ps (some (j, t)) (d, e, (q, f, g, a)) =
    elim (Bool-cases (leb p.blacklisted_until t)) [
      | inl first ↦ rw first (
        0,
        omega arith,
        (p, refl, refl, (inr (omega arith), All-weaken t p.blacklisted_until ps (ground arith) a)),
      )
      | inr later ↦ rw later (suc d, omega (arith, e), (q, f, g, (inr (ground arith), a)))
    ]

pass-EarliestFrom :
    (i : ℕ) (p : Provider) (ps : List Provider) (r : Option (ℕ × ℕ))
    → is_blacklisted p.state ≡ false
    → EarliestFrom (suc i) ps r
    → EarliestFrom i (p ∷ ps) r
unfolding EarliestFrom
pass-EarliestFrom i p ps none free a = (free, a)
pass-EarliestFrom i p ps (some (j, t)) free (d, e, (q, f, g, a)) =
    (suc d, omega (arith, e), (q, f, g, (inl free, a)))

earliest-EarliestFrom : (i : ℕ) (ps : List Provider) → EarliestFrom i ps (earliest i ps)
unfolding earliest EarliestFrom
earliest-EarliestFrom i [] = tt
earliest-EarliestFrom i (p ∷ ps) =
    let later = earliest-EarliestFrom (suc i) ps in
    elim (Bool-cases (is_blacklisted p.state)) [
      | inl black ↦ rw black (earlier-EarliestFrom i p ps (earliest (suc i) ps) later)
      | inr free ↦ rw free (pass-EarliestFrom i p ps (earliest (suc i) ps) free later)
    ]

EarliestFrom-cases :
    (now : ℕ) (ps : List Provider) (r : Option (ℕ × ℕ))
    → 0 < length ps
    → NoneAvailable now ps
    → EarliestFrom 0 ps r
    → (i : ℕ) × (t : ℕ) × (r ≡ some (i, t)) × IsEarliest ps i t
unfolding EarliestFrom
EarliestFrom-cases now [] r pos h a = ground arith
EarliestFrom-cases now (p ∷ ps) none pos h a = ground (arith, h.0, a.0)
EarliestFrom-cases now (p ∷ ps) (some (j, t)) pos h (d, e, s) =
    (j, t, refl, subst (λ m. IsEarliest (p ∷ ps) m t) {x = d} {y = j} (omega (arith, e)) s)

-- Where no provider is available, they are all blacklisted, and one of them is the earliest.
pub earliest_among :
    (now : ℕ) (ps : List Provider)
    → 0 < length ps
    → NoneAvailable now ps
    → (i : ℕ) × (t : ℕ) × (earliest 0 ps ≡ some (i, t)) × IsEarliest ps i t
earliest_among now ps pos h =
    EarliestFrom-cases now ps (earliest 0 ps) pos h (earliest-EarliestFrom 0 ps)
