-- ===== src/Table/Laws.antt =====
-- Laws of look-up, update and insertion by a key.
use mathlib.Core.Path.{subst}
use ticket_triage.Base.{
  ℕ, ◌≡◌, refl, ◌≤◌, false, inl, inr, ◌==◌, Eq, none, some, List, [], ◌∷◌, ◌++◌, if◌then◌else◌, leb,
  arith, Bool-cases, ==_refl, All,
}
use ticket_triage.Table.{lookup, contains, replace, Distinct, insert_by, order_by}

module _ {A K : Type 0} ⦃e : Eq K⦄ (key : A → K) where
  pub lookup-key : (k : K) (rows : List A) {x : A} → lookup key k rows ≡ some x → key x ≡ k
  unfolding lookup
  lookup-key k [] h = cc
  lookup-key k (y ∷ ys) {x} h = ground (arith, lookup-key k ys {x = x}, e.beq_iff (key y) k)

  pub lookup-append :
      (k : K) (rows : List A) (x : A)
      → lookup key k (rows ++ x ∷ [])
        ≡ elim (lookup key k rows) [ none ↦ if key x == k then some x else none | some y ↦ some y ]
  unfolding lookup
  lookup-append k [] x = ground arith
  lookup-append k (y ∷ ys) x = ground (arith, lookup-append k ys x)

  pub lookup-append_found :
      (k : K) (rows : List A) (x : A) {y : A}
      → lookup key k rows ≡ some y
      → lookup key k (rows ++ x ∷ []) ≡ some y
  lookup-append_found k rows x h = rw (lookup-append k rows x, h)

  pub lookup-append_ne :
      (k : K) (rows : List A) (x : A)
      → (key x == k) ≡ false
      → lookup key k (rows ++ x ∷ []) ≡ lookup key k rows
  lookup-append_ne k rows x h = ground (arith, lookup-append k rows x)

  pub lookup-append_new :
      (rows : List A) (x : A)
      → lookup key (key x) rows ≡ none
      → lookup key (key x) (rows ++ x ∷ []) ≡ some x
  lookup-append_new rows x h = ground (arith, lookup-append (key x) rows x, ==_refl (key x))

  pub contains-lookup :
      (k : K) (rows : List A) → contains key k rows ≡ false → lookup key k rows ≡ none
  unfolding lookup contains
  contains-lookup k [] h = refl
  contains-lookup k (y ∷ ys) h = ground (arith, contains-lookup k ys)

  pub lookup-contains :
      (k : K) (rows : List A) → lookup key k rows ≡ none → contains key k rows ≡ false
  unfolding lookup contains
  lookup-contains k [] h = refl
  lookup-contains k (y ∷ ys) h = ground (arith, lookup-contains k ys)

  pub lookup-replace_ne :
      (k : K) (x : A) (rows : List A)
      → (key x == k) ≡ false
      → lookup key k (replace key x rows) ≡ lookup key k rows
  unfolding lookup replace
  lookup-replace_ne k x [] h = refl
  lookup-replace_ne k x (y ∷ ys) h =
      ground (arith, lookup-replace_ne k x ys h, e.beq_iff (key y) (key x), e.beq_iff (key y) k)

  pub lookup-replace_self :
      (x : A) (rows : List A) {y : A}
      → lookup key (key x) rows ≡ some y
      → lookup key (key x) (replace key x rows) ≡ some x
  unfolding lookup replace
  lookup-replace_self x [] h = cc
  lookup-replace_self x (y ∷ ys) {y = z} h =
      ground (arith, lookup-replace_self x ys {y = z}, ==_refl (key x), e.beq_iff (key y) (key x))

  pub lookup-replace-none :
      (k : K) (x : A) (rows : List A)
      → lookup key k rows ≡ none
      → lookup key k (replace key x rows) ≡ none
  unfolding lookup replace
  lookup-replace-none k x [] h = refl
  lookup-replace-none k x (y ∷ ys) h =
      ground (arith, lookup-replace-none k x ys, e.beq_iff (key y) (key x))

  pub replace-Distinct :
      (x : A) (rows : List A) → Distinct key rows → Distinct key (replace key x rows)
  unfolding replace
  replace-Distinct x [] h = tt
  replace-Distinct x (y ∷ ys) h = ground (
    arith,
    replace-Distinct x ys h.1,
    lookup-replace-none (key y) x ys h.0,
    e.beq_iff (key y) (key x),
  )

  pub append-Distinct :
      (rows : List A) (x : A)
      → lookup key (key x) rows ≡ none
      → Distinct key rows
      → Distinct key (rows ++ x ∷ [])
  unfolding lookup
  append-Distinct [] x h d = (refl, tt)
  append-Distinct (y ∷ ys) x h d = ground (
    arith,
    append-Distinct ys x,
    lookup-append (key y) ys x,
    e.beq_iff (key y) (key x),
    e.beq_iff (key x) (key y),
  )

-- A row that one column finds is found under another one, if that is unique.
module _ {A K L : Type 0} ⦃e : Eq K⦄ ⦃f : Eq L⦄ (key : A → K) (other : A → L) where
  absent-ne :
      (l : L) (x : A) (rows : List A) (k : K)
      → lookup other l rows ≡ none
      → lookup key k rows ≡ some x
      → (l == other x) ≡ false
  unfolding lookup
  absent-ne l x [] k h found = cc found
  absent-ne l x (y ∷ ys) k h found =
      ground (arith, absent-ne l x ys k, f.beq_iff (other y) l, f.beq_iff l (other x))

  pub lookup-other :
      (k : K) (rows : List A) (x : A)
      → lookup key k rows ≡ some x
      → Distinct other rows
      → lookup other (other x) rows ≡ some x
  unfolding lookup
  lookup-other k [] x h d = cc h
  lookup-other k (y ∷ ys) x h d = elim (Bool-cases (key y == k)) [
    | inl e ↦ ground (arith, h, e, ==_refl (other x))
    | inr e ↦
        let found : lookup key k ys ≡ some x = ground (arith, h, e) in
        let ne = absent-ne (other y) x ys k d.0 found in
        ground (arith, ne, lookup-other k ys x found d.1)
  ]

module _ {A : Type 0} (key : A → ℕ) where
  -- Ascending by the key.
  abbrev pub Ascending : List A → Type 0
  Ascending [] = Unit
  Ascending (x ∷ xs) = All (λ y. key x ≤ key y) xs × Ascending xs

  All-insert_by :
      (P : A → Type 0) (x : A) (rows : List A) → P x → All P rows → All P (insert_by key x rows)
  unfolding insert_by
  All-insert_by P x [] p h = (p, tt)
  All-insert_by P x (y ∷ ys) p h = ground (arith, All-insert_by P x ys p h.1)

  pub All-order_by : (P : A → Type 0) (rows : List A) → All P rows → All P (order_by key rows)
  unfolding order_by
  All-order_by P [] h = tt
  All-order_by P (x ∷ xs) h = All-insert_by P x (order_by key xs) h.0 (All-order_by P xs h.1)

  below-All :
      (a b : ℕ) (rows : List A) → a ≤ b → All (λ y. b ≤ key y) rows → All (λ y. a ≤ key y) rows
  below-All a b [] le h = tt
  below-All a b (y ∷ ys) le h = (omega arith, below-All a b ys le h.1)

  insert_by-Ascending : (x : A) (rows : List A) → Ascending rows → Ascending (insert_by key x rows)
  unfolding insert_by
  insert_by-Ascending x [] h = (tt, tt)
  insert_by-Ascending x (y ∷ ys) h = ground (
    arith,
    insert_by-Ascending x ys h.1,
    below-All (key x) (key y) ys,
    All-insert_by (λ z. key y ≤ key z) x ys,
  )

  pub order_by-Ascending : (rows : List A) → Ascending (order_by key rows)
  unfolding order_by
  order_by-Ascending [] = tt
  order_by-Ascending (x ∷ xs) = insert_by-Ascending x (order_by key xs) (order_by-Ascending xs)

  insert_by-first :
      (x : A) (rows : List A) → All (λ y. key x ≤ key y) rows → insert_by key x rows ≡ x ∷ rows
  unfolding insert_by
  insert_by-first x [] h = refl
  insert_by-first x (y ∷ ys) h = ground arith

  -- An ordered table is read in its own order.
  pub order_by-of_Ascending : (rows : List A) → Ascending rows → order_by key rows ≡ rows
  unfolding order_by
  order_by-of_Ascending [] h = refl
  order_by-of_Ascending (x ∷ xs) h = rw (order_by-of_Ascending xs h.1) (insert_by-first x xs h.0)

-- A second unique column, under an update that leaves it alone.
module _ {A K L : Type 0} ⦃e : Eq K⦄ ⦃f : Eq L⦄ (key : A → K) (col : A → L) where
  abbrev SameColumn : A → List A → Type 0
  SameColumn x rows = All (λ z. key z ≡ key x → col z ≡ col x) rows

  SameColumn-absent : (x : A) (rows : List A) → lookup key (key x) rows ≡ none → SameColumn x rows
  unfolding lookup
  SameColumn-absent x [] h = tt
  SameColumn-absent x (z ∷ zs) h = (
    λ same. absurd (ground (arith, e.beq_iff (key z) (key x))),
    SameColumn-absent x zs (ground arith),
  )

  pub SameColumn-lookup :
      (x y : A) (rows : List A)
      → Distinct key rows
      → lookup key (key x) rows ≡ some y
      → col y ≡ col x
      → SameColumn x rows
  unfolding lookup
  SameColumn-lookup x y [] d h c = tt
  SameColumn-lookup x y (z ∷ zs) d h c = elim (Bool-cases (key z == key x)) [
    | inl hit ↦ (
      λ _. ground arith,
      SameColumn-absent x zs
          (subst (λ k. lookup key k zs ≡ none) ((e.beq_iff (key z) (key x)).0 hit) d.0),
    )
    | inr miss ↦ (
      λ same. absurd (ground (arith, e.beq_iff (key z) (key x))),
      SameColumn-lookup x y zs d.1 (ground arith) c,
    )
  ]

  lookup-replace_column :
      (k : L) (x : A) (rows : List A)
      → SameColumn x rows
      → lookup col k rows ≡ none
      → lookup col k (replace key x rows) ≡ none
  unfolding lookup replace
  lookup-replace_column k x [] s h = refl
  lookup-replace_column k x (z ∷ zs) s h =
      ground (arith, lookup-replace_column k x zs s.1, e.beq_iff (key z) (key x), s.0)

  pub replace-Distinct_column :
      (x : A) (rows : List A)
      → SameColumn x rows
      → Distinct col rows
      → Distinct col (replace key x rows)
  unfolding replace
  replace-Distinct_column x [] s d = tt
  replace-Distinct_column x (z ∷ zs) s d =
      let rest = replace-Distinct_column x zs s.1 d.1 in
      let gone = lookup-replace_column (col z) x zs s.1 d.0 in
      elim (Bool-cases (key z == key x)) [
        | inl hit ↦ rw hit (
          subst (λ c. lookup col c (replace key x zs) ≡ none)
              (s.0 ((e.beq_iff (key z) (key x)).0 hit)) gone,
          rest,
        )
        | inr miss ↦ rw miss (gone, rest)
      ]

module _ {A : Type 0} (key : A → ℕ) where
  All-of_insert_by :
      (P : A → Type 0) (x : A) (rows : List A) → All P (insert_by key x rows) → P x × All P rows
  unfolding insert_by
  All-of_insert_by P x [] h = (h.0, tt)
  All-of_insert_by P x (y ∷ ys) h = elim (Bool-cases (leb (key x) (key y))) [
    | inl e ↦ let h' : All P (x ∷ y ∷ ys) = rw e at h in (h'.0, h'.1)
    | inr e ↦
        let h' : All P (y ∷ insert_by key x ys) = rw e at h in
        let (px, rest) = All-of_insert_by P x ys h'.1 in (px, (h'.0, rest))
  ]

  -- Ordering a table drops no row.
  pub All-of_order_by : (P : A → Type 0) (rows : List A) → All P (order_by key rows) → All P rows
  unfolding order_by
  All-of_order_by P [] h = tt
  All-of_order_by P (x ∷ xs) h =
      let (px, rest) = All-of_insert_by P x (order_by key xs) h in (px, All-of_order_by P xs rest)
