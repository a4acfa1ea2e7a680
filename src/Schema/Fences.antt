-- ===== src/Schema/Fences.antt =====
-- Code fences and blanks around the provider's document do not reach the JSON decoder.
use ticket_triage.Base.{
  ◌-◌, ◌≡◌, refl, ap, ◌∙◌, true, false, Bool-cases, inl, inr, ==_refl, List, [], ◌∷◌, ◌++◌, length,
  take, drop, length-append, arith, leb, All, if◌then◌else◌,
}
use ticket_triage.Text.{
  Text, codes, text_eq, same, is_space, strip, lower, lower_char, starts_with, ends_with, rstrip,
  trim_cons,
}
use ticket_triage.Text.Strip.{IsSpace, strip_idem, strip_of-pad, strip_of_bare}
use ticket_triage.Schema.{fence, drop_tag, drop_closing, strip_fences}

module _ {A : Type 0} where
  take-append : (xs ys : List A) → take (length xs) (xs ++ ys) ≡ xs
  take-append [] ys = refl
  take-append (x ∷ xs) ys = ap (λ (t : List A). x ∷ t) (take-append xs ys)

  drop-append : (xs ys : List A) → drop (length xs) (xs ++ ys) ≡ ys
  drop-append [] ys = refl
  drop-append (x ∷ xs) ys = drop-append xs ys

drop_closing-fence : (s : Text) → drop_closing (s ++ fence) ≡ s
unfolding drop_closing ends_with
drop_closing-fence s =
    let e : length (s ++ fence) - 3 ≡ length s = omega (arith, length-append s fence) in
    let le : leb 3 (length (s ++ fence)) ≡ true = ground (arith, length-append s fence) in
    rw (e, le) (rw (drop-append s fence) (rw (==_refl fence) (take-append s fence)))

-- The fenced text with the tag of the prompt's format.
abbrev pub fenced : Text → Text
fenced s = codes "```json" ++ (s ++ fence)

strip-fenced :
    (w body v : Text)
    → All (IsSpace is_space) w
    → All (IsSpace is_space) v
    → strip (w ++ (fenced body ++ v)) ≡ fenced body
unfolding is_space rstrip trim_cons strip
strip-fenced w body v hw hv =
    strip_of-pad is_space w (fenced body) v hw hv
    ∙ strip_of_bare is_space b'`' (codes "``json" ++ body) b'`' (codes "``") refl refl

unwrap-fenced :
    (body : Text)
    → (if starts_with (fenced body) fence
        then strip (drop_closing (drop_tag (drop 3 (fenced body))))
        else strip (fenced body))
      ≡ strip body
unfolding starts_with drop_tag same lower lower_char
unwrap-fenced body = ap strip (drop_closing-fence body)

-- A document in a ```json fence, with any blanks outside the fence, is unwrapped to the stripped
-- document between the fences.
pub strip_fences-fenced :
    (w body v : Text)
    → All (IsSpace is_space) w
    → All (IsSpace is_space) v
    → strip_fences (w ++ (fenced body ++ v)) ≡ strip body
unfolding strip_fences
strip_fences-fenced w body v hw hv = rw (strip-fenced w body v hw hv) (unwrap-fenced body)

-- A text that begins with no fence is only stripped.
strip_fences-bare : (s : Text) → starts_with (strip s) fence ≡ false → strip_fences s ≡ strip s
unfolding strip_fences
strip_fences-bare s h = rw h (strip_idem s)

-- What reaches the decoder carries no blank at either end.
strip-strip_fences : (s : Text) → strip (strip_fences s) ≡ strip_fences s
unfolding strip_fences
strip-strip_fences s = elim (Bool-cases (starts_with (strip s) fence)) [
  | inl e ↦ rw e (strip_idem (drop_closing (drop_tag (drop 3 (strip s)))))
  | inr e ↦ rw e (strip_idem (strip s))
]
