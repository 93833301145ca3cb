-- ===== src/Examples/Watching.antt =====
-- The theorems on the synchronization of addresses at a concrete table, with a list as the filter.
use mathlib.Core.List.{Memᴰ}
use linq_b2b.Prelude.{
  ℕ, ◌≡◌, refl, arith, Bool, true, false, List, [], ◌∷◌, none, some, String, str_eq, eq_iff,
  if◌then◌else◌, Bool-cases, inl, inr,
}
use linq_b2b.Addresses.{
  BloomFilter, LoadedAddress, created_after, load_addresses, last_created, contains_address, Sync,
  sync_network,
}
use linq_b2b.Addresses.Ending.{MovesOn, sync_network_catches_up}
use linq_b2b.Addresses.Missing.{sync_network_stuck}

abbrev has_text : String → List String → Bool
has_text a [] = false
has_text a (x ∷ xs) = if str_eq a x then true else has_text a xs

has_text-add : (a : String) (xs : List String) → has_text a (a ∷ xs) ≡ true
has_text-add a xs = rw ((eq_iff a a).1 refl) refl

has_text-keeps :
    (a b : String) (xs : List String) → has_text a xs ≡ true → has_text a (b ∷ xs) ≡ true
has_text-keeps a b xs h = elim (Bool-cases (str_eq a b)) [
  | inl e ↦ rw e refl
  | inr e ↦ rw (e, h) refl
]

abbrev listing : BloomFilter
listing = record {
  Filter = List String;
  empty = [];
  add = λ a xs. a ∷ xs;
  test = has_text;
  test-add = has_text-add;
  test-keeps = has_text-keeps;
}

abbrev at : ℕ → String → LoadedAddress
at t a = record { address = a; created_at = t }

abbrev spread : List LoadedAddress
spread = at 10000000000 "0xa" ∷ at 20000000000 "0xb" ∷ at 30000000000 "0xc" ∷ []

abbrev crowded : List LoadedAddress
crowded = at 50000000000 "0xa" ∷ at 50000000000 "0xb" ∷ at 50000000000 "0xc" ∷ []

abbrev synced_at : ℕ → Sync listing
synced_at t = record {
  addresses = record { filter = []; address_count = 0 };
  last_synced = t;
  total_synced = 0;
}

spread-MovesOn : MovesOn 2 spread
unfolding load_addresses created_after last_created
spread-MovesOn t full = ground (arith, full)

sync_network_catches_up_example :
    (after : Sync listing) × (sync_network listing 4 2 spread (synced_at 5000000000) ≡ some after)
    × (contains_address listing "0xc" after.addresses ≡ true)
unfolding created_after
sync_network_catches_up_example =
    sync_network_catches_up listing 2 spread spread-MovesOn 4 (synced_at 5000000000)
      (at 30000000000 "0xc") (omega arith)
      ((omega arith, (omega arith, tt)), ((omega arith, tt), (tt, tt)))
      (Memᴰ.tail (Memᴰ.tail (Memᴰ.head refl))) (inr (omega arith)) (omega arith)

sync_network_stuck_example : sync_network listing 1000 2 crowded (synced_at 50000000000) ≡ none
unfolding load_addresses created_after last_created
sync_network_stuck_example =
    sync_network_stuck listing 1000 2 crowded (synced_at 50000000000) (omega arith) refl refl
