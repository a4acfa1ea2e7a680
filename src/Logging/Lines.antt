-- ===== src/Logging/Lines.antt =====
-- What a line carries: the fields of the record's `extra`, then those of the context.
use ticket_triage.Base.{
  ◌≡◌, refl, ◌∙◌, false, Bool-cases, inl, inr, ◌==◌, Option, none, some, [], ◌∷◌, arith,
  if◌then◌else◌,
}
use ticket_triage.Text.{Text, codes, text_eq, same_iff}
use ticket_triage.Json.{Json, str}
use ticket_triage.Logging.{
  Dict, put, get, update, LogRecord, extras, head_fields, with_exception, format,
}

pub get-put :
    (k j : Text) (v : Json) (d : Dict) → get j (put k v d) ≡ (if k == j then some v else get j d)
unfolding get put
get-put k j v [] = refl
get-put k j v ((i, w) ∷ d) =
    ground (arith, same_iff k j, same_iff i k, same_iff i j, get-put k j v d)

-- A key that the second dict lacks keeps its value.
pub get-update_absent : (j : Text) (d e : Dict) → get j e ≡ none → get j (update d e) ≡ get j d
unfolding get update
get-update_absent j d [] h = refl
get-update_absent j d ((k, v) ∷ e) h = elim (Bool-cases (k == j)) [
  | inl hit ↦ absurd (ground arith)
  | inr miss ↦ get-update_absent j (put k v d) e (ground arith) ∙ get-put k j v d ∙ rw miss refl
]

-- The keys of a dict are distinct.
abbrev pub Unique : Dict → Type 0
Unique [] = Unit
Unique ((k, v) ∷ d) = (get k d ≡ none) × Unique d

pub put-Unique : (k : Text) (v : Json) (d : Dict) → Unique d → Unique (put k v d)
unfolding put get
put-Unique k v [] u = (refl, tt)
put-Unique k v ((i, w) ∷ d) u =
    ground (arith, put-Unique k v d u.1, get-put k i v d, same_iff k i, same_iff i k)

-- A key of the second dict gets its value.
pub get-update_present :
    (j : Text) (d e : Dict) {v : Json} → Unique e → get j e ≡ some v → get j (update d e) ≡ some v
unfolding get update
get-update_present j d [] u h = cc
get-update_present j d ((k, w) ∷ e) {v} u h = elim (Bool-cases (k == j)) [
  | inl hit ↦
      let same_key : k ≡ j = (same_iff k j).0 hit in
      get-update_absent j (put k w d) e (rw (← same_key) u.0) ∙ get-put k j w d ∙ ground arith
  | inr miss ↦ get-update_present j (put k w d) e u.1 (ground arith)
]

get-with_exception :
    (k : Text) (e : Option Text) (payload : Dict)
    → (codes "exception" == k) ≡ false
    → get k (with_exception e payload) ≡ get k payload
get-with_exception k none payload other = refl
get-with_exception k (some e) payload other =
    get-put (codes "exception") k (str e) payload ∙ rw other refl

-- A line has what the context has, unless the record's `extra` names the key.
pub get-format :
    (k : Text) (d : Dict) (r : LogRecord) {v : Json}
    → Unique d
    → get k d ≡ some v
    → get k (extras r.attributes) ≡ none
    → (codes "exception" == k) ≡ false
    → get k (format (some d) r) ≡ some v
unfolding format
get-format k d r {v} u h absent other =
    get-with_exception k r.exc_info _ other
    ∙ get-update_absent k (update (head_fields r) d) (extras r.attributes) absent
    ∙ get-update_present k (head_fields r) d u h

-- A line has no key that neither the record nor the context gives.
pub get-format_absent :
    (k : Text) (r : LogRecord)
    → get k (head_fields r) ≡ none
    → get k (extras r.attributes) ≡ none
    → (codes "exception" == k) ≡ false
    → get k (format none r) ≡ none
unfolding format
get-format_absent k r h absent other =
    get-with_exception k r.exc_info _ other
    ∙ get-update_absent k (head_fields r) (extras r.attributes) absent
    ∙ h
