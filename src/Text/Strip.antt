-- ===== src/Text/Strip.antt =====
-- Laws of `str.strip`, and of pydantic's stripping.
use ticket_triage.Base.{
  ℕ, Bool, ◌≡◌, refl, sym, ap, ◌∙◌, true, false, inl, inr, [], ◌∷◌, ◌++◌, arith, Bool-cases, All,
}
use ticket_triage.Text.{Text, is_space, is_white, lstrip, rstrip, trim_cons, strip_of, strip, trim}

module _ (blank : ℕ → Bool) where
  abbrev pub IsSpace : ℕ → Type 0
  IsSpace c = blank c ≡ true

  lstrip_idem : (s : Text) → lstrip blank (lstrip blank s) ≡ lstrip blank s
  unfolding lstrip
  lstrip_idem [] = refl
  lstrip_idem (c ∷ s) = elim (Bool-cases (blank c)) [
    | inl e ↦ rw e (lstrip_idem s)
    | inr e ↦ rw (e, lstrip, e)
  ]

  trim_cons_stable :
      (c : ℕ) (s : Text)
      → rstrip blank s ≡ s
      → rstrip blank (trim_cons blank c s) ≡ trim_cons blank c s
  unfolding rstrip trim_cons
  trim_cons_stable c [] h = ground arith
  trim_cons_stable c (d ∷ s) h = rw h

  rstrip_idem : (s : Text) → rstrip blank (rstrip blank s) ≡ rstrip blank s
  unfolding rstrip
  rstrip_idem [] = refl
  rstrip_idem (c ∷ s) = trim_cons_stable c (rstrip blank s) (rstrip_idem s)

  lstrip-trim_cons_space :
      (c : ℕ) (s : Text) → blank c ≡ true → lstrip blank (trim_cons blank c s) ≡ lstrip blank s
  unfolding lstrip trim_cons
  lstrip-trim_cons_space c [] e = rw e
  lstrip-trim_cons_space c (d ∷ s) e = rw e

  lstrip-trim_cons_bare :
      (c : ℕ) (s : Text)
      → blank c ≡ false
      → lstrip blank (trim_cons blank c s) ≡ trim_cons blank c s
  unfolding lstrip trim_cons
  lstrip-trim_cons_bare c [] e = ground arith
  lstrip-trim_cons_bare c (d ∷ s) e = rw e

  -- The two ends are stripped independently.
  pub lstrip-rstrip : (s : Text) → lstrip blank (rstrip blank s) ≡ rstrip blank (lstrip blank s)
  unfolding lstrip rstrip
  lstrip-rstrip [] = refl
  lstrip-rstrip (c ∷ s) = elim (Bool-cases (blank c)) [
    | inl e ↦ rw e (lstrip-trim_cons_space c (rstrip blank s) e ∙ lstrip-rstrip s)
    | inr e ↦ rw e (lstrip-trim_cons_bare c (rstrip blank s) e)
  ]

  pub strip_of_idem : (s : Text) → strip_of blank (strip_of blank s) ≡ strip_of blank s
  unfolding strip_of
  strip_of_idem s =
      ap (rstrip blank) (lstrip-rstrip (lstrip blank s))
      ∙ rstrip_idem (lstrip blank (lstrip blank s))
      ∙ ap (rstrip blank) (lstrip_idem s)

  lstrip-append : (w s : Text) → All IsSpace w → lstrip blank (w ++ s) ≡ lstrip blank s
  unfolding lstrip
  lstrip-append [] s h = refl
  lstrip-append (c ∷ w) s h = rw h.0 (lstrip-append w s h.1)

  rstrip_spaces : (w : Text) → All IsSpace w → rstrip blank w ≡ []
  unfolding rstrip trim_cons
  rstrip_spaces [] h = refl
  rstrip_spaces (c ∷ w) h = rw (rstrip_spaces w h.1, trim_cons, h.0)

  rstrip-append : (s w : Text) → All IsSpace w → rstrip blank (s ++ w) ≡ rstrip blank s
  unfolding rstrip
  rstrip-append [] w h = rstrip_spaces w h
  rstrip-append (c ∷ s) w h = ap (trim_cons blank c) (rstrip-append s w h)

  -- Blanks around a text do not change what is left of it.
  pub strip_of-pad :
      (w s v : Text)
      → All IsSpace w
      → All IsSpace v
      → strip_of blank (w ++ (s ++ v)) ≡ strip_of blank s
  unfolding strip_of
  strip_of-pad w s v hw hv =
      ap (rstrip blank) (lstrip-append w (s ++ v) hw)
      ∙ sym (lstrip-rstrip (s ++ v))
      ∙ ap (lstrip blank) (rstrip-append s v hv)
      ∙ lstrip-rstrip s

  rstrip-append_bare :
      (s : Text) (d : ℕ) (t : Text)
      → rstrip blank (d ∷ t) ≡ d ∷ t
      → rstrip blank (s ++ d ∷ t) ≡ s ++ d ∷ t
  unfolding rstrip trim_cons
  rstrip-append_bare [] d t h = h
  rstrip-append_bare (c ∷ s) d t h =
      ap (trim_cons blank c) (rstrip-append_bare s d t h) ∙ trim_cons_append c s d t
    where
      trim_cons_append :
          (c : ℕ) (s : Text) (d : ℕ) (t : Text) → trim_cons blank c (s ++ d ∷ t) ≡ c ∷ (s ++ d ∷ t)
      trim_cons_append c [] d t = refl
      trim_cons_append c (e ∷ s) d t = refl

  -- A text that begins and ends in no blank is left alone.
  pub strip_of_bare :
      (c : ℕ) (s : Text) (d : ℕ) (t : Text)
      → blank c ≡ false
      → rstrip blank (d ∷ t) ≡ d ∷ t
      → strip_of blank (c ∷ (s ++ d ∷ t)) ≡ c ∷ (s ++ d ∷ t)
  unfolding strip_of lstrip
  strip_of_bare c s d t bare h = rw bare (rstrip-append_bare (c ∷ s) d t h)

pub strip_idem : (s : Text) → strip (strip s) ≡ strip s
unfolding strip
strip_idem s = strip_of_idem is_space s

pub trim_idem : (s : Text) → trim (trim s) ≡ trim s
unfolding trim
trim_idem s = strip_of_idem is_white s
