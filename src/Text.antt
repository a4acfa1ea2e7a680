-- ===== src/Text.antt =====
-- Python's `str` as the list of its code points, with the methods that the program calls.
-- `str.lower` and `str.upper` are exact on ASCII. No other character has a case form that is a
-- letter of a word to which the program compares the result (app/schemas/triage.py, and "json").
pub mod Strip
use Prim.Native.Char.{code}
use ticket_triage.Base.{
  not, ℕ, zero, suc, ◌+◌, ◌-◌, ◌/◌, ◌%◌, ltb, String, ◌≡◌, refl, ◌↔◌, Bool, true, false, ◌&&◌, ◌||◌,
  List, [], ◌∷◌, arith, leb, eqb, ◌==◌, Eq, nat_eq, if◌then◌else◌, length, take, drop,
}

abbrev pub Text : Type 0
Text = List ℕ

-- A literal of the source.
abbrev pub codes : String → Text
codes String.[] = []
codes (String.◌∷◌ c s) = code c ∷ codes s

unfoldable pub same : Text → Text → Bool
same [] [] = true
same [] (d ∷ t) = false
same (c ∷ s) [] = false
same (c ∷ s) (d ∷ t) = eqb c d && same s t

same-eq : (s t : Text) → same s t ≡ true → s ≡ t
unfolding same
same-eq [] [] h = refl
same-eq [] (d ∷ t) h = cc
same-eq (c ∷ s) [] h = cc
same-eq (c ∷ s) (d ∷ t) h = ground (arith, same-eq s t)

same_refl : (s : Text) → same s s ≡ true
unfolding same
same_refl [] = refl
same_refl (c ∷ s) = ground (arith, same_refl s)

eq-same : (s t : Text) → s ≡ t → same s t ≡ true
eq-same s t h = rw (← h) (same_refl s)

pub same_iff : (s t : Text) → (same s t ≡ true) ↔ (s ≡ t)
same_iff s t = (same-eq s t, eq-same s t)

instance abbrev pub text_eq : Eq Text
text_eq = record { beq = same; beq_iff = same_iff }

-- The characters for which `str.isspace` holds, which are what `str.strip` takes off.
unfoldable pub is_space : ℕ → Bool
is_space c =
    leb 9 c && leb c 13
    || leb 28 c && leb c 32
    || c == 0x85
    || c == 0xa0
    || c == 0x1680
    || leb 0x2000 c && leb c 0x200a
    || c == 0x2028
    || c == 0x2029
    || c == 0x202f
    || c == 0x205f
    || c == 0x3000

-- The characters that pydantic's `str_strip_whitespace` takes off: Unicode's White_Space, without the
-- four separators from 28 to 31.
unfoldable pub is_white : ℕ → Bool
unfolding is_space
is_white c = is_space c && not (leb 28 c && leb c 31)

-- Both ends without the characters of a kind.
module _ (blank : ℕ → Bool) where
  unfoldable pub lstrip : Text → Text
  lstrip [] = []
  lstrip (c ∷ s) = if blank c then lstrip s else c ∷ s

  -- `c` before a text that ends in no blank.
  unfoldable pub trim_cons : ℕ → Text → Text
  trim_cons c [] = if blank c then [] else c ∷ []
  trim_cons c (d ∷ s) = c ∷ d ∷ s

  unfoldable pub rstrip : Text → Text
  rstrip [] = []
  rstrip (c ∷ s) = trim_cons c (rstrip s)

  unfoldable pub strip_of : Text → Text
  strip_of s = rstrip (lstrip s)

-- `str.strip`, and the stripping of pydantic.
unfoldable pub strip : Text → Text
unfolding strip_of
strip s = strip_of is_space s

unfoldable pub trim : Text → Text
unfolding strip_of
trim s = strip_of is_white s

unfoldable pub lower_char : ℕ → ℕ
lower_char c = if leb b'A' c && leb c b'Z' then c + 32 else c

unfoldable pub upper_char : ℕ → ℕ
upper_char c = if leb b'a' c && leb c b'z' then c - 32 else c

unfoldable pub lower : Text → Text
lower [] = []
lower (c ∷ s) = lower_char c ∷ lower s

unfoldable pub upper : Text → Text
upper [] = []
upper (c ∷ s) = upper_char c ∷ upper s

unfoldable pub starts_with : Text → Text → Bool
starts_with s p = take (length p) s == p

unfoldable pub ends_with : Text → Text → Bool
ends_with s p = leb (length p) (length s) && drop (length s - length p) s == p

-- `str(n)` of a number, on fuel: a number has fewer digits than its successor is large.
unfoldable pub decimal_loop : ℕ → ℕ → Text → Text
decimal_loop zero n acc = acc
decimal_loop (suc fuel) n acc =
    let digits = (b'0' + n % 10) ∷ acc in
    let rest = decimal_loop fuel (n / 10) digits in if ltb n 10 then digits else rest

unfoldable pub decimal : ℕ → Text
unfolding decimal_loop
decimal n = decimal_loop (suc n) n []

decimal_408 : decimal 408 ≡ codes "408"
unfolding decimal
decimal_408 = refl
