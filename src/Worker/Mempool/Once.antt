-- ===== src/Worker/Mempool/Once.antt =====
-- What indexer/internal/worker/mempool.go emits once, and what it never emits.
use linq_b2b.Prelude.{
  ℕ, ◌+◌, ◌<◌, ◌≤◌, ◌≡◌, refl, arith, Bool, true, false, not, ◌&&◌, ◌||◌, List, [], ◌∷◌, String,
  str_eq, leb, length,
}
use linq_b2b.Worker.{Emission}
use linq_b2b.Worker.Mempool.{Mempool, Outlet, max_seen, is_seen, key_of, make_room}

unfoldable pub has_key : String → List Emission → Bool
has_key key [] = false
has_key key (e ∷ es) = str_eq (key_of e) key || has_key key es

-- No two events have the same key.
unfoldable pub keys_once : List Emission → Bool
keys_once [] = true
keys_once (e ∷ es) = not (has_key (key_of e) es) && keys_once es

-- The events have different keys, which are all marked.
pub record IsMarked (m : Mempool) : Type 0 where
  pub once : keys_once m.emitted ≡ true
  pub marked : (key : String) → (not (has_key key m.emitted) || is_seen key m.seen) ≡ true

module _ (o : Outlet) where
  -- What a step leaves: the marks, and a bound on the keys.
  record Marks (more : ℕ) (before after : Mempool) : Type 0 where
    sound : IsMarked after
    room : length after.seen ≤ length before.seen + more

  pub make_room_full : (m : Mempool) → length m.seen < max_seen → make_room o m ≡ m
  unfolding make_room
  make_room_full m h =
      let space : leb max_seen (length m.seen) ≡ false = ground arith in rw (make_room, space) refl
