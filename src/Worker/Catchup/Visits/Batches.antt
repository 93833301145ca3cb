-- ===== src/Worker/Catchup/Visits/Batches.antt =====
-- What a batch of indexer/internal/worker/catchup.go tells the observer, and how far it reaches.
use linq_b2b.Prelude.{
  ℕ, zero, suc, ◌+◌, ◌-◌, ◌≤◌, ◌≡◌, refl, sym, ap, ◌∙◌, true, false, List, [], ◌∷◌, ◌++◌, Option,
  none, some, arith, span, seq, All, inl, inr, ◌⊎◌, Bool-cases, append_assoc, append-nil,
}
use linq_b2b.Chain.{Error, Block, BlockResult}
use linq_b2b.Store.{save_failed_block}
use linq_b2b.Worker.{
  Config, Base, BlockStatus, status_of, push_failed, emit_block, notify_observer, handle_parts,
  handle_block_result,
}
use linq_b2b.Worker.Results.{emit_block-EmitsOnly}
use linq_b2b.Worker.Catchup.{Client, is_skipped_slot, catch_up_result, catch_up_results}

-- The blocks that the observer was told of.
unfoldable pub seen : List (ℕ × BlockStatus) → List ℕ
seen [] = []
seen ((n, s) ∷ rest) = n ∷ seen rest

seen-snoc :
    (xs : List (ℕ × BlockStatus)) (n : ℕ) (s : BlockStatus)
    → seen (xs ++ (n, s) ∷ []) ≡ seen xs ++ n ∷ []
unfolding seen
seen-snoc [] n s = refl
seen-snoc ((m, t) ∷ xs) n s = ap (◌∷◌ m) (seen-snoc xs n s)

unfoldable pub numbers : List BlockResult → List ℕ
numbers [] = []
numbers (r ∷ rs) = r.number ∷ numbers rs

-- A client that is not stopped and answers for exactly the blocks it is asked for, in order.
pub record IsAnswering (a : Client) : Type 0 where
  pub runs : (k : ℕ) → a.cancelled k ≡ false
  pub answers :
      (k from to : ℕ)
      → (rs : List BlockResult) × (a.blocks k from to ≡ some rs) × (numbers rs ≡ span from (suc to))

module _ (c : Config) (watching : c.has_observer ≡ true) where
  observed-notify_observer :
      (n : ℕ) (s : BlockStatus) (b : Base)
      → (notify_observer c n s b).observed ≡ b.observed ++ (n, s) ∷ []
  unfolding notify_observer
  observed-notify_observer n s b = ground (arith, watching)

  seen-notify_observer :
      (n : ℕ) (s : BlockStatus) (b : Base)
      → seen (notify_observer c n s b).observed ≡ seen b.observed ++ n ∷ []
  seen-notify_observer n s b = ap seen (observed-notify_observer n s b) ∙ seen-snoc b.observed n s

  observed-push_failed : (n : ℕ) (b : Base) → (push_failed c n b).observed ≡ b.observed
  unfolding push_failed
  observed-push_failed n b = ground arith

  seen-handle_parts :
      (n : ℕ) (e : Option Error) (block : Option Block) (b : Base)
      → seen (handle_parts c n e block b).1.observed ≡ seen b.observed ++ n ∷ []
  unfolding handle_parts
  seen-handle_parts n (some e) block b =
      let saved : Base = record b { store = (save_failed_block c.internal_code n b.store).1 } in
      seen-notify_observer n (status_of e.error_type) (push_failed c n saved)
      ∙ ap (λ o. seen o ++ n ∷ []) (observed-push_failed n saved)
  seen-handle_parts n none none b = seen-notify_observer n BlockStatus.failed b
  seen-handle_parts n none (some block) b =
      seen-notify_observer n BlockStatus.processed (emit_block c block b)
      ∙ ap (λ o. seen o ++ n ∷ []) (emit_block-EmitsOnly c block b).2

  seen-catch_up_result :
      (r : BlockResult) (best : ℕ) (b : Base)
      → seen (catch_up_result c r best b).1.observed ≡ seen b.observed ++ r.number ∷ []
  unfolding catch_up_result handle_block_result
  seen-catch_up_result r best b = elim (Bool-cases (is_skipped_slot c r.error)) [
    | inl skips ↦ rw skips (seen-notify_observer r.number BlockStatus.not_found b)
    | inr keeps ↦ rw keeps (seen-handle_parts r.number r.error r.block b)
  ]

  pub seen-catch_up_results :
      (rs : List BlockResult) (best : ℕ) (b : Base)
      → seen (catch_up_results c rs best b).1.observed ≡ seen b.observed ++ numbers rs
  unfolding catch_up_results numbers
  seen-catch_up_results [] best b = sym (append-nil (seen b.observed))
  seen-catch_up_results (r ∷ rs) best b =
      let p = catch_up_result c r best b in
      seen-catch_up_results rs p.0 p.1
      ∙ ap (λ l. l ++ numbers rs) (seen-catch_up_result r best b)
      ∙ append_assoc (seen b.observed) (r.number ∷ []) (numbers rs)

  -- How far the results of a batch reach.
  best-catch_up_result :
      (r : BlockResult) (best limit : ℕ) (b : Base)
      → best ≤ limit
      → r.number ≤ limit
      → (best ≤ (catch_up_result c r best b).0) × ((catch_up_result c r best b).0 ≤ limit)
  unfolding catch_up_result
  best-catch_up_result r best limit b h k = ground arith

  pub best-catch_up_results :
      (rs : List BlockResult) (best limit : ℕ) (b : Base)
      → best ≤ limit
      → All (λ n. n ≤ limit) (numbers rs)
      → (best ≤ (catch_up_results c rs best b).0) × ((catch_up_results c rs best b).0 ≤ limit)
  unfolding catch_up_results numbers
  best-catch_up_results [] best limit b h k = (omega arith, h)
  best-catch_up_results (r ∷ rs) best limit b h k =
      let p = catch_up_result c r best b in
      let step = best-catch_up_result r best limit b h k.0 in
      let rest = best-catch_up_results rs p.0 limit p.1 step.1 k.1 in
      (omega (arith, step, rest), rest.1)

pub span-bound : (a b limit : ℕ) → b ≤ suc limit → All (λ n. n ≤ limit) (span a b)
unfolding span
span-bound a b limit h = go a (b - a) (ground arith)
  where
    go : (a k : ℕ) → k ≡ 0 ⊎ (a + k ≤ suc limit) → All (λ n. n ≤ limit) (seq a k)
    go a zero h = tt
    go a (suc k) (inl e) = ground (arith, e)
    go a (suc k) (inr h) = (omega (arith, h), go (suc a) k (inr (omega (arith, h))))
