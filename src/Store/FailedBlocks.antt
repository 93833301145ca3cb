-- ===== src/Store/FailedBlocks.antt =====
-- The list of failed blocks of indexer/pkg/store/blockstore/store.go.
use linq_b2b.Prelude.{
  ℕ, ◌≤◌, ◌<◌, ◌≡◌, ◌≢◌, refl, true, false, not, ◌&&◌, ◌||◌, List, [], ◌∷◌, none, String, str_eq,
  arith, ◌==◌, contains, Bool-cases, inl, inr,
}
use linq_b2b.Store.{
  BlockStates, or_empty, insert_sorted, sort, snoc, merge_blocks, without, save_failed_block,
  save_failed_blocks, remove_failed_blocks,
}

-- Strictly increasing: sorted, and no block twice.
abbrev pub Increasing : List ℕ → Type 0
Increasing [] = Unit
Increasing (x ∷ []) = Unit
Increasing (x ∷ y ∷ ys) = (x < y) × Increasing (y ∷ ys)

-- The blocks that are stored as failed.
abbrev pub failed : BlockStates → List ℕ
failed s = or_empty s.failed_blocks

contains-snoc : (n x : ℕ) (xs : List ℕ) → contains n (snoc xs x) ≡ (contains n xs || x == n)
contains-snoc n x [] = ground arith
contains-snoc n x (y ∷ ys) = ground (arith, contains-snoc n x ys)

contains-insert_sorted :
    (n x : ℕ) (xs : List ℕ) → contains n (insert_sorted x xs) ≡ (x == n || contains n xs)
unfolding insert_sorted
contains-insert_sorted n x [] = refl
contains-insert_sorted n x (y ∷ ys) = ground (arith, contains-insert_sorted n x ys)

contains-sort : (n : ℕ) (xs : List ℕ) → contains n (sort xs) ≡ contains n xs
unfolding sort
contains-sort n [] = refl
contains-sort n (x ∷ xs) = ground (arith, contains-insert_sorted n x (sort xs), contains-sort n xs)

contains-cong : (n b : ℕ) (xs : List ℕ) → b ≡ n → contains n xs ≡ contains b xs
contains-cong n b xs e = cc

contains-merge_blocks :
    (n : ℕ) (xs bs : List ℕ)
    → contains n (merge_blocks xs bs) ≡ (contains n xs || (not (n == 0) && contains n bs))
unfolding merge_blocks
contains-merge_blocks n xs [] = ground arith
contains-merge_blocks n xs (b ∷ bs) = ground (
  arith,
  contains-merge_blocks n xs bs,
  contains-merge_blocks n (snoc xs b) bs,
  contains-snoc n b xs,
  contains-cong n b xs,
)

contains-without :
    (n : ℕ) (dropped xs : List ℕ)
    → contains n (without dropped xs) ≡ (contains n xs && not (contains n dropped))
unfolding without
contains-without n dropped [] = refl
contains-without n dropped (b ∷ bs) =
    ground (arith, contains-without n dropped bs, contains-cong n b dropped)

-- No block twice.
abbrev Distinct : List ℕ → Type 0
Distinct [] = Unit
Distinct (x ∷ xs) = (contains x xs ≡ false) × Distinct xs

snoc-Distinct : (xs : List ℕ) (n : ℕ) → contains n xs ≡ false → Distinct xs → Distinct (snoc xs n)
snoc-Distinct [] n h d = (refl, tt)
snoc-Distinct (x ∷ xs) n h d =
    ground (arith, contains-snoc x n xs, snoc-Distinct xs n (ground arith) d.1)

merge_blocks-Distinct : (xs bs : List ℕ) → Distinct xs → Distinct (merge_blocks xs bs)
unfolding merge_blocks
merge_blocks-Distinct xs [] d = d
merge_blocks-Distinct xs (b ∷ bs) d = elim (Bool-cases (b == 0 || contains b xs)) [
  | inl old ↦ rw old (merge_blocks-Distinct xs bs d)
  | inr new ↦ rw new (merge_blocks-Distinct (snoc xs b) bs (snoc-Distinct xs b (ground arith) d))
]

contains_below : (n x : ℕ) (xs : List ℕ) → n ≤ x → Increasing (x ∷ xs) → contains n xs ≡ false
contains_below n x [] h i = refl
contains_below n x (y ∷ ys) h i = ground (arith, contains_below n y ys (omega arith) i.1)

Increasing-tail : (x : ℕ) (xs : List ℕ) → Increasing (x ∷ xs) → Increasing xs
Increasing-tail x [] i = tt
Increasing-tail x (y ∷ ys) i = i.1

Increasing-Distinct : (xs : List ℕ) → Increasing xs → Distinct xs
Increasing-Distinct [] i = tt
Increasing-Distinct (x ∷ xs) i =
    (contains_below x x xs (omega arith) i, Increasing-Distinct xs (Increasing-tail x xs i))

insert_sorted-Increasing :
    (n : ℕ) (xs : List ℕ) → contains n xs ≡ false → Increasing xs → Increasing (insert_sorted n xs)
unfolding insert_sorted
insert_sorted-Increasing n [] h i = tt
insert_sorted-Increasing n (x ∷ []) h i = ground arith
insert_sorted-Increasing n (x ∷ y ∷ ys) h i =
    ground (arith, insert_sorted-Increasing n (y ∷ ys) (ground arith) i.1)

sort-Increasing : (xs : List ℕ) → Distinct xs → Increasing (sort xs)
unfolding sort
sort-Increasing [] d = tt
sort-Increasing (x ∷ xs) d =
    insert_sorted-Increasing x (sort xs) (rw (contains-sort x xs) d.0) (sort-Increasing xs d.1)

without-above :
    (x : ℕ) (dropped xs : List ℕ) → Increasing (x ∷ xs) → Increasing (x ∷ without dropped xs)
unfolding without
without-above x dropped [] i = tt
without-above x dropped (y ∷ ys) i =
    ground (arith, without-above x dropped ys (skip ys i.1), without-above y dropped ys i.1)
  where
    skip : (zs : List ℕ) → Increasing (y ∷ zs) → Increasing (x ∷ zs)
    skip [] j = tt
    skip (z ∷ zs) j = (omega (arith, i.0), j.1)

without-Increasing : (dropped xs : List ℕ) → Increasing xs → Increasing (without dropped xs)
unfolding without
without-Increasing dropped [] i = tt
without-Increasing dropped (x ∷ xs) i =
    ground
      (arith, without-above x dropped xs i, without-Increasing dropped xs (Increasing-tail x xs i))

-- A store whose calls succeed, with the failed blocks in order, under a chain name.
pub record IsHealthy (chain : String) (s : BlockStates) : Type 0 where
  pub named : str_eq chain "" ≡ false
  pub reliable : s.faults ≡ []
  pub ordered : Increasing (failed s)

-- What an update of the failed list leaves alone.
pub record KeepsRest (s t : BlockStates) : Type 0 where
  pub latest_block : t.latest_block ≡ s.latest_block
  pub catchup : t.catchup ≡ s.catchup
  pub block_hashes : t.block_hashes ≡ s.block_hashes

-- In a healthy store, saving one failed block adds that block (a zero adds nothing), keeps the
-- others and the order without repetitions, and touches no other key.
pub save_failed_block_adds :
    (chain : String) (number : ℕ) (s : BlockStates)
    → IsHealthy chain s
    → let s' = (save_failed_block chain number s).1 in
      ((n : ℕ) → contains n (failed s') ≡ (contains n (failed s) || (not (n == 0) && number == n)))
      × IsHealthy chain s'
      × KeepsRest s s'
unfolding save_failed_block
save_failed_block_adds chain number s v = (
  (λ n. ground (
    arith,
    contains-sort n (snoc (failed s) number),
    contains-snoc n number (failed s),
    contains-cong n number (failed s),
  )),
  ground (
    arith,
    sort-Increasing (snoc (failed s) number),
    snoc-Distinct (failed s) number,
    Increasing-Distinct (failed s),
  ),
  ground arith,
)

-- In a healthy store, saving a batch of failed blocks adds all of them but a zero, keeps the
-- others and the order without repetitions, and touches no other key.
pub save_failed_blocks_adds :
    (chain : String) (added : List ℕ) (s : BlockStates)
    → IsHealthy chain s
    → let s' = (save_failed_blocks chain added s).1 in
      ((n : ℕ)
        → contains n (failed s') ≡ (contains n (failed s) || (not (n == 0) && contains n added)))
      × IsHealthy chain s'
      × KeepsRest s s'
unfolding save_failed_blocks
save_failed_blocks_adds chain [] s v = ((λ n. ground arith), ground arith, ground arith)
save_failed_blocks_adds chain (b ∷ bs) s v =
    let merged = merge_blocks (failed s) (b ∷ bs) in
    (
      (λ n. ground (arith, contains-sort n merged, contains-merge_blocks n (failed s) (b ∷ bs))),
      ground (
        arith,
        sort-Increasing merged,
        merge_blocks-Distinct (failed s) (b ∷ bs),
        Increasing-Distinct (failed s),
      ),
      ground arith,
    )

-- In a healthy store, removing a batch of failed blocks removes exactly those, keeps the order,
-- and touches no other key.
pub remove_failed_blocks_removes :
    (chain : String) (dropped : List ℕ) (s : BlockStates)
    → IsHealthy chain s
    → let s' = (remove_failed_blocks chain dropped s).1 in
      ((n : ℕ) → contains n (failed s') ≡ (contains n (failed s) && not (contains n dropped)))
      × IsHealthy chain s'
      × KeepsRest s s'
unfolding remove_failed_blocks
remove_failed_blocks_removes chain [] s v = ((λ n. ground arith), ground arith, ground arith)
remove_failed_blocks_removes chain (b ∷ bs) s v = (
  (λ n. ground (arith, contains-without n (b ∷ bs) (failed s))),
  ground (arith, without-Increasing (b ∷ bs) (failed s)),
  ground arith,
)

-- When the read of the failed list fails and the write does not, saving a block other than 0 under
-- a chain name leaves that block alone in the list: all blocks that were stored are lost, and no
-- error is reported.
pub save_failed_block_overwrites :
    (chain : String) (number : ℕ) (s : BlockStates)
    → str_eq chain "" ≡ false
    → number ≢ 0
    → s.faults ≡ true ∷ []
    → (failed (save_failed_block chain number s).1 ≡ number ∷ [])
      × ((save_failed_block chain number s).0 ≡ none)
unfolding save_failed_block
save_failed_block_overwrites chain number s named pos f = ground arith
