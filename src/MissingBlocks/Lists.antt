-- ===== src/MissingBlocks/Lists.antt =====
-- Redis as lists and functions: the interfaces of the queue can be met.
use linq_b2b.Prelude.{
  ℕ, ◌≡◌, refl, ap, inl, inr, arith, Bool, true, false, not, ◌&&◌, List, [], ◌∷◌, Option, none,
  some, ltb, leb, ◌^◌, ◌%◌, ◌-◌, ◌<◌, ◌≤◌, if◌then◌else◌, Bool-cases,
}
use linq_b2b.MissingBlocks.{LuaNumbers, BlockRange, same, mem, SortedSet, Keys}

abbrev pub drop_range : BlockRange → List BlockRange → List BlockRange
drop_range r [] = []
drop_range r (q ∷ qs) = if same r q then drop_range r qs else q ∷ drop_range r qs

abbrev pub keep_if : (BlockRange → Bool) → List BlockRange → List BlockRange
keep_if f [] = []
keep_if f (q ∷ qs) = if f q then q ∷ keep_if f qs else keep_if f qs

same-eq : (r x : BlockRange) → same r x ≡ true → r ≡ x
same-eq r x e =
    let a : r.start_block ≡ x.start_block = ground arith in
    let b : r.end_block ≡ x.end_block = ground arith in
    λ i. record { start_block = a i; end_block = b i }

pub mem-drop_range :
    (r x : BlockRange) (qs : List BlockRange)
    → mem x (drop_range r qs) ≡ (not (same r x) && mem x qs)
mem-drop_range r x [] = ground arith
mem-drop_range r x (q ∷ qs) = ground (arith, mem-drop_range r x qs)

pub mem-keep_if :
    (f : BlockRange → Bool) (x : BlockRange) (qs : List BlockRange)
    → mem x (keep_if f qs) ≡ (mem x qs && f x)
mem-keep_if f x [] = refl
mem-keep_if f x (q ∷ qs) = elim (Bool-cases (same q x)) [
  | inl e ↦ ground (arith, mem-keep_if f x qs, ap f (same-eq q x e))
  | inr e ↦ ground (arith, mem-keep_if f x qs)
]

abbrev pub list_set : SortedSet
list_set = record {
  Db = List BlockRange × (BlockRange → ℕ);
  zadd = λ k r s. (r ∷ s.0, λ x. if same r x then k else s.1 x);
  zrem = λ r s. (drop_range r s.0, s.1);
  del = λ s. ([], s.1);
  zrange = λ s. s.0;
  by_score = λ lo hi s. keep_if (λ x. leb lo (s.1 x) && leb (s.1 x) hi) s.0;
  score = λ s x. s.1 x;
  mem-zadd = λ k r x s. refl;
  mem-zrem = λ r x s. mem-drop_range r x s.0;
  zrange-del = λ s. refl;
  score-zadd = λ k r x s. refl;
  score-zrem = λ r x s h. refl;
  mem-by_score = λ lo hi x s. mem-keep_if (λ y. leb lo (s.1 y) && leb (s.1 y) hi) x s.0;
}

abbrev pub put_if_none :
    Option ℕ → BlockRange → ℕ → (BlockRange → Option ℕ) → Bool × (BlockRange → Option ℕ)
put_if_none none r v s = (true, λ x. if same r x then some v else s x)
put_if_none (some w) r v s = (false, s)

abbrev pub function_keys : Keys
function_keys = record {
  Db = BlockRange → Option ℕ;
  get = λ s x. s x;
  put = λ r v s x. if same r x then some v else s x;
  put_new = λ r v s. put_if_none (s r) r v s;
  del = λ r s x. if same r x then none else s x;
  get-put = λ r x v s. refl;
  get-del = λ r x s. refl;
  put_new_free = λ r v s h. rw h refl;
  put_new_taken = λ r v w s h. rw h refl;
}

-- Numbers of 53 bits are exact; above, this one rounds down to an even number, as doubles of 54 bits
-- may. A number of more than 14 digits is written like 1e+14.
abbrev round_down : ℕ → ℕ
round_down n = if leb n (2 ^ 53) then n else n - n % 2

abbrev written_text : ℕ → ℕ → BlockRange
written_text from to =
    if ltb from (10 ^ 14) && ltb to (10 ^ 14)
    then record { start_block = from; end_block = to }
    else record { start_block = 14; end_block = 1 }

round_down-exact : (n : ℕ) → n ≤ 2 ^ 53 → round_down n ≡ n
round_down-exact n h = ground (arith, h)

written_text-exact :
    (from to : ℕ)
    → from < 10 ^ 14
    → to < 10 ^ 14
    → written_text from to ≡ record { start_block = from; end_block = to }
written_text-exact from to h k = ground (arith, h, k)

pub doubles : LuaNumbers
doubles = record {
  round = round_down;
  written = written_text;
  round-exact = round_down-exact;
  written-exact = written_text-exact;
}
