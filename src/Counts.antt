-- ===== src/Counts.antt =====
-- Counting: `Counter` and `GROUP BY` with `count()`, as an association list of the observed keys.
use ticket_triage.Base.{
  ℕ, suc, ◌+◌, ◌≤◌, ◌≡◌, refl, ◌==◌, Eq, Bool, List, [], ◌∷◌, ◌++◌, length, select, if◌then◌else◌,
  arith,
}

-- How many elements pass the test: `sum(1 for x in xs if p(x))`.
abbrev pub count_if {ℓ} : {A : Type ℓ} → (A → Bool) → List A → ℕ
count_if p [] = 0
count_if p (x ∷ xs) = (if p x then 1 else 0) + count_if p xs

abbrev pub total_by {ℓ} : {A : Type ℓ} → (A → ℕ) → List A → ℕ
total_by f [] = 0
total_by f (x ∷ xs) = f x + total_by f xs

pub count_if-le {ℓ} : {A : Type ℓ} (p : A → Bool) (xs : List A) → count_if p xs ≤ length xs
count_if-le p [] = omega arith
count_if-le p (x ∷ xs) = ground (arith, count_if-le p xs)

pub count_if-append {ℓ} :
    {A : Type ℓ} (p : A → Bool) (xs ys : List A)
    → count_if p (xs ++ ys) ≡ count_if p xs + count_if p ys
count_if-append p [] ys = omega arith
count_if-append p (x ∷ xs) ys = omega (arith, count_if-append p xs ys)

pub length-select {ℓ} :
    {A : Type ℓ} (p : A → Bool) (xs : List A) → length (select p xs) ≡ count_if p xs
length-select p [] = refl
length-select p (x ∷ xs) = ground (arith, length-select p xs)

pub record Group (K : Type 0) : Type 0 where
  pub key : K
  pub size : ℕ

module _ {K : Type 0} ⦃e : Eq K⦄ where
  unfoldable pub bump : K → List (Group K) → List (Group K)
  bump k [] = record { key = k; size = 1 } ∷ []
  bump k (g ∷ gs) = if g.key == k then record g { size = g.size + 1 } ∷ gs else g ∷ bump k gs

  -- The keys stand in the order in which they were met first.
  unfoldable pub group_onto : List (Group K) → List K → List (Group K)
  unfolding bump
  group_onto gs [] = gs
  group_onto gs (k ∷ ks) = group_onto (bump k gs) ks

  unfoldable pub group_counts : List K → List (Group K)
  unfolding group_onto
  group_counts ks = group_onto [] ks

  -- `counts.get(k, 0)`
  unfoldable pub get_count : K → List (Group K) → ℕ
  get_count k [] = 0
  get_count k (g ∷ gs) = if g.key == k then g.size else get_count k gs

  get_count-bump :
      (j k : K) (gs : List (Group K))
      → get_count j (bump k gs) ≡ (if k == j then 1 else 0) + get_count j gs
  unfolding get_count bump
  get_count-bump j k [] = ground arith
  get_count-bump j k (g ∷ gs) =
      ground (arith, get_count-bump j k gs, e.beq_iff g.key k, e.beq_iff g.key j, e.beq_iff k j)

  get_count-group_onto :
      (j : K) (gs : List (Group K)) (ks : List K)
      → get_count j (group_onto gs ks) ≡ get_count j gs + count_if (λ k. k == j) ks
  unfolding group_onto
  get_count-group_onto j gs [] = omega arith
  get_count-group_onto j gs (k ∷ ks) =
      omega (arith, get_count-bump j k gs, get_count-group_onto j (bump k gs) ks)

  -- A group has the size of its key's occurrences.
  pub get_count-group_counts :
      (j : K) (ks : List K) → get_count j (group_counts ks) ≡ count_if (λ k. k == j) ks
  unfolding get_count group_counts
  get_count-group_counts j ks = omega (arith, get_count-group_onto j [] ks)

  abbrev pub group_total : List (Group K) → ℕ
  group_total gs = total_by (λ (g : Group K). g.size) gs

  total-bump : (k : K) (gs : List (Group K)) → group_total (bump k gs) ≡ suc (group_total gs)
  unfolding bump
  total-bump k [] = omega arith
  total-bump k (g ∷ gs) = ground (arith, total-bump k gs)

  total-group_onto :
      (gs : List (Group K)) (ks : List K)
      → group_total (group_onto gs ks) ≡ group_total gs + length ks
  unfolding group_onto
  total-group_onto gs [] = omega arith
  total-group_onto gs (k ∷ ks) = omega (arith, total-bump k gs, total-group_onto (bump k gs) ks)

  -- The groups together have every element once.
  pub total-group_counts : (ks : List K) → group_total (group_counts ks) ≡ length ks
  unfolding group_counts
  total-group_counts ks = omega (arith, total-group_onto [] ks)
