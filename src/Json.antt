-- ===== src/Json.antt =====
-- The values that `json.loads` and `response.json()` return. A number is a natural one: the code
-- reads no number of a document but the token counts. An object is a dict after decoding.
use ticket_triage.Base.{ℕ, Bool, true, false, [], ◌∷◌, not, eqb, ◌==◌, if◌then◌else◌}
use ticket_triage.Text.{Text, text_eq}

mutual
  pub data Json : Type 0 where
    null : Json
    bool : Bool → Json
    int : ℕ → Json
    str : Text → Json
    arr : Items → Json
    obj : Fields → Json

  pub data Items : Type 0 where
    nil : Items
    cons : Json → Items → Items

  pub data Fields : Type 0 where
    end : Fields
    field : Text → Json → Fields → Fields

-- `d.get(key)`; a missing key is `None`, which is also what `null` decodes to.
unfoldable pub get : Text → Fields → Json
get key end = null
get key (field k v fs) = let rest = get key fs in if k == key then v else rest

unfoldable pub has_key : Text → Fields → Bool
has_key key end = false
has_key key (field k v fs) = let rest = has_key key fs in if k == key then true else rest

-- The truth value of a decoded document.
unfoldable pub truthy : Json → Bool
truthy null = false
truthy (bool b) = b
truthy (int n) = not (eqb n 0)
truthy (str []) = false
truthy (str (c ∷ s)) = true
truthy (arr nil) = false
truthy (arr (cons v vs)) = true
truthy (obj end) = false
truthy (obj (field k v fs)) = true
