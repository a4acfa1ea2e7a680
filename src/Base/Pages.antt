-- ===== src/Base/Pages.antt =====
-- Pages of a listing: `LIMIT` and `OFFSET`.
use Prim.Native.Nat.{ℕ, zero, suc, ◌+◌}
use mathlib.Core.Path.{◌≡◌, refl, sym, ap, ◌∙◌}
use mathlib.Core.List.{List, [], ◌∷◌, ◌++◌, map, map-append}
use native.Mathlib.Omega.{arith}
use ticket_triage.Base.Lists.{length, take, drop, length-map}

next : (a b : ℕ) → suc a + b ≡ suc (a + b)
next a b = omega arith

take-nil : {A : Type 0} (b : ℕ) → take {A = A} b [] ≡ []
take-nil zero = refl
take-nil (suc b) = refl

take-length : {A : Type 0} (xs : List A) → take (length xs) xs ≡ xs
take-length [] = refl
take-length (x ∷ xs) = ap (λ r. x ∷ r) (take-length xs)

drop-nil : {A : Type 0} (b : ℕ) → drop {A = A} b [] ≡ []
drop-nil zero = refl
drop-nil (suc b) = refl

drop-drop : {A : Type 0} (a b : ℕ) (xs : List A) → drop a (drop b xs) ≡ drop (b + a) xs
drop-drop a zero xs = ap (λ n. drop n xs) (omega arith)
drop-drop a (suc b) [] = drop-nil a ∙ rw (next b a) refl
drop-drop a (suc b) (x ∷ xs) = rw (next b a) (drop-drop a b xs)

take-append :
    {A : Type 0} (a b : ℕ) (xs : List A) → take a xs ++ take b (drop a xs) ≡ take (a + b) xs
take-append zero b xs = ap (λ n. take n xs) (omega arith)
take-append (suc a) b [] = take-nil b ∙ rw (next a b) refl
take-append (suc a) b (x ∷ xs) = rw (next a b) (ap (λ r. x ∷ r) (take-append a b xs))

module _ {A B : Type 0} (f : A → B) where
  -- Two pages, the second at the offset where the first ends, are the page of both limits.
  pub page-append :
      (a b offset : ℕ) (xs : List A)
      → map f (take a (drop offset xs)) ++ map f (take b (drop (offset + a) xs))
        ≡ map f (take (a + b) (drop offset xs))
  page-append a b offset xs =
      sym (map-append f (take a (drop offset xs)) (take b (drop (offset + a) xs)))
      ∙ ap (map f) (rw (← drop-drop a offset xs) (take-append a b (drop offset xs)))

  -- The page of the whole length has everything.
  pub length-page : (xs : List A) (n : ℕ) → length xs ≡ n → length (map f (take n (drop 0 xs))) ≡ n
  length-page xs n h = length-map f _ ∙ rw (← h) (ap length (take-length xs))
