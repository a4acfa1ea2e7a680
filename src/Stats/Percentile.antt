-- ===== src/Stats/Percentile.antt =====
-- The percentile is the nearest rank.
use mathlib.Core.Path.{subst}
use ticket_triage.Base.{
  ℕ, zero, suc, ◌-◌, ◌*◌, ◌≤◌, ◌<◌, ◌≡◌, refl, ap, ◌∙◌, Bool, some, List, [], ◌∷◌, length, leb, ltb,
  All, arith,
}
use ticket_triage.Table.{insert_by, order_by}
use ticket_triage.Table.Laws
use ticket_triage.Counts.{count_if}
use ticket_triage.Stats.{get_elem?, rank_of, percentile}

abbrev value : ℕ → ℕ
value n = n

abbrev sort : List ℕ → List ℕ
sort = order_by value

count_if-insert_by :
    (p : ℕ → Bool) (x : ℕ) (xs : List ℕ) → count_if p (insert_by value x xs) ≡ count_if p (x ∷ xs)
unfolding insert_by
count_if-insert_by p x [] = refl
count_if-insert_by p x (y ∷ ys) = ground (arith, count_if-insert_by p x ys)

count_if-sort : (p : ℕ → Bool) (xs : List ℕ) → count_if p (sort xs) ≡ count_if p xs
unfolding order_by
count_if-sort p [] = refl
count_if-sort p (x ∷ xs) = omega (arith, count_if-insert_by p x (sort xs), count_if-sort p xs)

length-insert_by : (x : ℕ) (xs : List ℕ) → length (insert_by value x xs) ≡ suc (length xs)
unfolding insert_by
length-insert_by x [] = refl
length-insert_by x (y ∷ ys) = ground (arith, length-insert_by x ys)

length-sort : (xs : List ℕ) → length (sort xs) ≡ length xs
unfolding order_by
length-sort [] = refl
length-sort (x ∷ xs) = omega (arith, length-insert_by x (sort xs), length-sort xs)

count_below-zero : (v : ℕ) (xs : List ℕ) → All (λ y. v ≤ y) xs → count_if (λ n. ltb n v) xs ≡ 0
count_below-zero v [] h = refl
count_below-zero v (x ∷ xs) h = ground (arith, count_below-zero v xs h.1)

get_elem?-All :
    (P : ℕ → Type 0) (xs : List ℕ) (i : ℕ) {v : ℕ} → All P xs → get_elem? xs i ≡ some v → P v
get_elem?-All P [] i h e = cc
get_elem?-All P (x ∷ xs) zero h e = subst P (ground arith) h.0
get_elem?-All P (x ∷ xs) (suc i) h e = get_elem?-All P xs i h.1 e

-- In an ordered list at most `i` entries are below the one at `i`, and more than `i` are not above.
ranked :
    (xs : List ℕ) (i : ℕ) {v : ℕ}
    → Laws.Ascending value xs
    → get_elem? xs i ≡ some v
    → (count_if (λ n. ltb n v) xs ≤ i) × (i < count_if (λ n. leb n v) xs)
ranked [] i h e = cc
ranked (x ∷ xs) zero {v} h e =
    let same : x ≡ v = ground arith in
    let none_below : count_if (λ n. ltb n v) xs ≡ 0 =
      subst (λ w. count_if (λ n. ltb n w) xs ≡ 0) same (count_below-zero x xs h.0) in
    (ground (arith, none_below), ground arith)
ranked (x ∷ xs) (suc i) {v} h e =
    let (few, many) = ranked xs i h.1 e in
    let above : x ≤ v = get_elem?-All (λ y. x ≤ y) xs i h.0 e in
    (ground (arith, few), ground (arith, many, above))

in_range : (xs : List ℕ) (i : ℕ) → i < length xs → (v : ℕ) × (get_elem? xs i ≡ some v)
in_range [] i h = absurd (omega arith)
in_range (x ∷ xs) zero h = (x, refl)
in_range (x ∷ xs) (suc i) h = in_range xs i (omega arith)

percentile-get_elem? :
    (ys : List ℕ) (pct : ℕ)
    → 0 < length ys
    → percentile ys pct ≡ get_elem? ys (rank_of pct (length ys) - 1)
unfolding percentile
percentile-get_elem? [] pct h = absurd (omega arith)
percentile-get_elem? (y ∷ ys) pct h = refl

share_bounds : (pct n : ℕ) → 1 ≤ pct → pct ≤ 100 → 1 ≤ n → (1 ≤ pct * n) × (pct * n ≤ 100 * n)
share_bounds pct n lo hi pos = (grind arith, grind arith)

-- For a percentage from 1 to 100 the percentile of a list that is not empty exists, and it is the
-- nearest rank: at least that share of the entries are not above it, and less than that share are
-- below it.
pub percentile-sort :
    (pct : ℕ) (x : ℕ) (xs : List ℕ)
    → 1 ≤ pct
    → pct ≤ 100
    → (v : ℕ) × (percentile (order_by value (x ∷ xs)) pct ≡ some v)
      × (pct * length (x ∷ xs) ≤ 100 * count_if (λ n. leb n v) (x ∷ xs))
      × (100 * count_if (λ n. ltb n v) (x ∷ xs) < pct * length (x ∷ xs))
percentile-sort pct x xs lo hi =
    let n : ℕ = length (x ∷ xs) in
    let size : length (sort (x ∷ xs)) ≡ n = length-sort (x ∷ xs) in
    let (some_share, no_more) = share_bounds pct n lo hi (omega arith) in
    let i : ℕ = rank_of pct n - 1 in
    let (v, e) = in_range (sort (x ∷ xs)) i (omega (arith, size)) in
    let (few, many) = ranked (sort (x ∷ xs)) i (Laws.order_by-Ascending value (x ∷ xs)) e in
    let below = count_if-sort (λ n. ltb n v) (x ∷ xs) in
    let above = count_if-sort (λ n. leb n v) (x ∷ xs) in
    (
      v,
      percentile-get_elem? (sort (x ∷ xs)) pct (omega (arith, size))
          ∙ ap (λ m. get_elem? (sort (x ∷ xs)) (rank_of pct m - 1)) size
          ∙ e,
      omega (arith, many, above),
      omega (arith, few, below),
    )
