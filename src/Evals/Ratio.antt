-- ===== src/Evals/Ratio.antt =====
-- The numbers of the evaluation: a ratio of natural numbers with a positive denominator.
use native.Mathlib.Nat.{mul-le-mul_left, mul-le-mul_right}
use ticket_triage.Base.{
  ℕ, zero, suc, ◌+◌, ◌*◌, ◌≤◌, ◌<◌, ◌≡◌, refl, List, [], ◌∷◌, length, All, arith,
}

pub record Ratio : Type 0 where
  pub num : ℕ
  pub den : ℕ

abbrev pub zero_ratio : Ratio
zero_ratio = record { num = 0; den = 1 }

-- `n / d if d else 0.0`
unfoldable pub quotient : ℕ → ℕ → Ratio
quotient n zero = zero_ratio
quotient n (suc d) = record { num = n; den = suc d }

unfoldable pub add : Ratio → Ratio → Ratio
add a b = record { num = a.num * b.den + b.num * a.den; den = a.den * b.den }

unfoldable pub mul : Ratio → Ratio → Ratio
mul a b = record { num = a.num * b.num; den = a.den * b.den }

-- `a / b if b else 0.0`
unfoldable pub divide : Ratio → Ratio → Ratio
unfolding quotient
divide a b = quotient (a.num * b.den) (a.den * b.num)

unfoldable pub twice : Ratio → Ratio
twice a = record { num = 2 * a.num; den = a.den }

abbrev pub from_nat : ℕ → Ratio
from_nat n = record { num = n; den = 1 }

unfoldable pub sum : List Ratio → Ratio
unfolding add
sum [] = zero_ratio
sum (r ∷ rs) = add r (sum rs)

-- A number from 0 to 1.
pub record IsShare (r : Ratio) : Type 0 where
  pub positive : 0 < r.den
  pub at_most_one : r.num ≤ r.den

-- The same number.
abbrev pub Same : Ratio → Ratio → Type 0
Same a b = a.num * b.den ≡ b.num * a.den

pub quotient-IsShare : (n d : ℕ) → n ≤ d → IsShare (quotient n d)
unfolding quotient
quotient-IsShare n zero h = record { positive = omega arith; at_most_one = omega arith }
quotient-IsShare n (suc d) h = record { positive = omega arith; at_most_one = h }

pub quotient-den : (n d : ℕ) → 0 < (quotient n d).den
unfolding quotient
quotient-den n zero = omega arith
quotient-den n (suc d) = omega arith

pub product_pos : (a b : ℕ) → 0 < a → 0 < b → 0 < a * b
product_pos a b h k = grind arith

-- The harmonic mean of two shares is one.
pub harmonic-IsShare :
    (p r : Ratio) → IsShare p → IsShare r → IsShare (divide (twice (mul p r)) (add p r))
unfolding divide twice mul add
harmonic-IsShare p r hp hr =
    let left : p.num * r.num ≤ p.num * r.den = mul-le-mul_left p.num hr.at_most_one in
    let right : r.num * p.num ≤ r.num * p.den = mul-le-mul_left r.num hp.at_most_one in
    let both : 2 * (p.num * r.num) ≤ p.num * r.den + r.num * p.den = omega (arith, left, right) in
    let scaled = mul-le-mul_left (p.den * r.den) both in
    quotient-IsShare (2 * (p.num * r.num) * (p.den * r.den))
      (p.den * r.den * (p.num * r.den + r.num * p.den)) (omega (arith, scaled))

-- A sum of shares is at most their number.
sum_bounds :
    (rs : List Ratio)
    → All IsShare rs
    → (0 < (sum rs).den) × ((sum rs).num ≤ length rs * (sum rs).den)
unfolding sum
sum_bounds [] h = (omega arith, omega arith)
sum_bounds (r ∷ rs) h =
    let (pos, bound) = sum_bounds rs h.1 in
    let one = mul-le-mul_right (sum rs).den (h.0).at_most_one in
    let others = mul-le-mul_right r.den bound in
    (product_pos r.den (sum rs).den (h.0).positive pos, omega (arith, one, others))

pub mean-IsShare :
    (rs : List Ratio) → All IsShare rs → IsShare (divide (sum rs) (from_nat (length rs)))
unfolding divide
mean-IsShare rs h =
    let (pos, bound) = sum_bounds rs h in
    quotient-IsShare ((sum rs).num * 1) ((sum rs).den * length rs) (omega (arith, bound))

pub quotient-pos : (n d : ℕ) → 0 < d → quotient n d ≡ record { num = n; den = d }
unfolding quotient
quotient-pos n zero h = absurd (omega arith)
quotient-pos n (suc d) h = refl

num-quotient_zero : (n d : ℕ) → n ≡ 0 → (quotient n d).num ≡ 0
unfolding quotient
num-quotient_zero n zero h = refl
num-quotient_zero n (suc d) h = h

module _ (t a b : ℕ) where
  -- The harmonic mean of `t / a` and `t / b` is `2 t / (a + b)`.
  harmonic_pos :
      0 < t
      → 0 < a
      → 0 < b
      → Same
          (divide
            (twice (mul (record { num = t; den = a }) (record { num = t; den = b })))
            (add (record { num = t; den = a }) (record { num = t; den = b })))
          (record { num = 2 * t; den = a + b })
  unfolding divide twice mul add
  harmonic_pos ht ha hb =
      let inner = product_pos t b ht hb in
      let pos =
        product_pos (a * b) (t * b + t * a) (product_pos a b ha hb) (omega (arith, inner)) in
      rw (quotient-pos (2 * (t * t) * (a * b)) (a * b * (t * b + t * a)) pos) (omega arith)

both_zero : (a b : Ratio) → a.num ≡ 0 → b.num ≡ 0 → Same a b
both_zero a b h k = rw (h, k) (omega arith)

num-divide_zero : (a b : Ratio) → a.num ≡ 0 → (divide a b).num ≡ 0
unfolding divide
num-divide_zero a b h = num-quotient_zero (a.num * b.den) (a.den * b.num) (rw h (omega arith))

num-mul_zero : (a b : Ratio) → a.num ≡ 0 → (twice (mul a b)).num ≡ 0
unfolding twice mul
num-mul_zero a b h = rw h (omega arith)

-- The harmonic mean of two quotients of one number, also where they are 0 for want of a denominator.
pub harmonic_lem :
    (t a b : ℕ)
    → t ≤ a
    → t ≤ b
    → Same
        (divide (twice (mul (quotient t a) (quotient t b))) (add (quotient t a) (quotient t b)))
        (quotient (2 * t) (a + b))
unfolding divide twice mul add
harmonic_lem zero a b h k =
    both_zero
      (divide (twice (mul (quotient 0 a) (quotient 0 b))) (add (quotient 0 a) (quotient 0 b)))
      (quotient (2 * 0) (a + b))
      (num-divide_zero (twice (mul (quotient 0 a) (quotient 0 b)))
        (add (quotient 0 a) (quotient 0 b))
        (num-mul_zero (quotient 0 a) (quotient 0 b) (num-quotient_zero 0 a refl)))
      (num-quotient_zero (2 * 0) (a + b) refl)
harmonic_lem (suc t) a b h k =
    rw
      (
        quotient-pos (suc t) a (omega arith),
        quotient-pos (suc t) b (omega arith),
        quotient-pos (2 * suc t) (a + b) (omega arith),
      )
      (harmonic_pos (suc t) a b (omega arith) (omega arith) (omega arith))
