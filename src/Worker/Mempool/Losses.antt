-- ===== src/Worker/Mempool/Losses.antt =====
-- The keys of indexer/internal/worker/mempool.go name a transaction and a direction, and no output.
use Prim.Native.String.{◌++◌ as str_append}
use linq_b2b.Prelude.{
  suc, ◌+◌, ◌<◌, ◌≤◌, ◌≡◌, refl, sym, ap, ◌∙◌, subst, arith, inl, inr, Bool, true, false, not, ◌&&◌,
  [], ◌∷◌, String, str_eq, eq_iff, length, Bool-cases,
}
use linq_b2b.Chain.{Transaction, direction_in}
use linq_b2b.Worker.{Config, transaction}
use linq_b2b.Worker.Mempool.{
  Mempool, Outlet, max_seen, is_seen, mark_and_emit, emit_once, emit_direction, process_transaction,
  process_transactions,
}
use linq_b2b.Worker.Mempool.Once.{make_room_full}

abbrev in_key : Transaction → String
in_key t = str_append t.tx_hash ":in"

abbrev pub is_paid : (String → Bool) → Transaction → Bool
is_paid exist t = not (str_eq t.to_address "") && exist t.to_address

module _ (c : Config) (exist : String → Bool) (o : Outlet)
    (one_way : c.two_way_indexing ≡ false) where
  incoming_only :
      (t : Transaction) (m : Mempool)
      → is_paid exist t ≡ true
      → length m.seen < max_seen
      → process_transaction c exist o t m
        ≡ emit_once o (transaction (record t { direction = direction_in })) m
  unfolding process_transaction emit_direction
  incoming_only t m paid space =
      rw (process_transaction, one_way, paid, emit_direction, make_room_full o m space) refl

  emit_once-marks :
      (t : Transaction) (m : Mempool)
      → let after = emit_once o (transaction (record t { direction = direction_in })) m in
        (is_seen (in_key t) after.seen ≡ true) × (length after.seen ≤ suc (length m.seen))
  unfolding emit_once mark_and_emit is_seen
  emit_once-marks t m = elim (Bool-cases (is_seen (in_key t) m.seen)) [
    | inl old ↦ rw (emit_once, old) (old, omega arith)
    | inr new ↦
        rw (emit_once, new) (ground (arith, (eq_iff (in_key t) (in_key t)).1 refl), omega arith)
  ]

  emit_once-seen :
      (t : Transaction) (m : Mempool)
      → is_seen (in_key t) m.seen ≡ true
      → emit_once o (transaction (record t { direction = direction_in })) m ≡ m
  unfolding emit_once
  emit_once-seen t m old = rw (emit_once, old) refl

  -- Without two-way indexing and below the limit of marks, of two transfers of one transaction to
  -- watched addresses the mempool worker processes the first one only: the second one changes
  -- nothing, so it is not emitted.
  pub second_payment_lost :
      (t u : Transaction) (m : Mempool)
      → t.tx_hash ≡ u.tx_hash
      → is_paid exist t ≡ true
      → is_paid exist u ≡ true
      → length m.seen + 1 < max_seen
      → process_transactions c exist o (t ∷ u ∷ []) m ≡ process_transactions c exist o (t ∷ []) m
  unfolding process_transactions
  second_payment_lost t u m same paid_t paid_u space =
      let after = process_transaction c exist o t m in
      let first : after ≡ emit_once o (transaction (record t { direction = direction_in })) m =
        incoming_only t m paid_t (omega arith) in
      let (marked, grown) = emit_once-marks t m in
      let known : is_seen (in_key u) after.seen ≡ true =
        ap (λ h. is_seen (str_append h ":in") after.seen) (sym same)
        ∙ ap (λ s. is_seen (in_key t) s.seen) first
        ∙ marked in
      let room : length after.seen < max_seen =
        subst (λ s. length s.seen < max_seen) (sym first) (omega (arith, grown)) in
      incoming_only u after paid_u room ∙ emit_once-seen u after known
