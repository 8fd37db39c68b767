-- ===== src/Relay/Audit/Redaction.antt =====
-- `redactPayload` leaves no secret in the log, at any depth.
use cucoudle.Prelude.{String, ◌≡◌, refl, ap, false, Bool-cases, inl, inr, ◌⊎◌, if◌then◌else◌, arith}
use mathlib.Core.Path.{ap₂}
use cucoudle.Protocol.Json.{
  Json, null, bool, number, string, array, object, Items, nil, cons, Fields, end, field,
}
use cucoudle.Relay.Audit.{is_sensitive, redact_payload, redact_items, redact_fields}

-- No field with a sensitive name has another value than the mark, however deep it stands.
abbrev mutual
  pub IsRedacted : Json → Type 0
  IsRedacted null = Unit
  IsRedacted (bool b) = Unit
  IsRedacted (number n) = Unit
  IsRedacted (string s) = Unit
  IsRedacted (array xs) = AreRedacted xs
  IsRedacted (object r) = FieldsRedacted r

  pub AreRedacted : Items → Type 0
  AreRedacted nil = Unit
  AreRedacted (cons j xs) = IsRedacted j × AreRedacted xs

  pub FieldsRedacted : Fields → Type 0
  FieldsRedacted end = Unit
  FieldsRedacted (field k j r) =
      ((is_sensitive k ≡ false) ⊎ (j ≡ string "<redacted>")) × IsRedacted j × FieldsRedacted r

IsRedacted-field :
    (k : String) (j : Json)
    → IsRedacted j
    → ((is_sensitive k ≡ false)
        ⊎ ((if is_sensitive k then string "<redacted>" else j) ≡ string "<redacted>"))
      × IsRedacted (if is_sensitive k then string "<redacted>" else j)
IsRedacted-field k j h = elim (Bool-cases (is_sensitive k)) [
  | inl y ↦ rw y (inr refl, tt)
  | inr n ↦ (inl n, rw n h)
]

mutual
  unfolding redact_payload redact_items redact_fields

  redact_value : (j : Json) → IsRedacted (redact_payload j)
  redact_value null = tt
  redact_value (bool b) = tt
  redact_value (number n) = tt
  redact_value (string s) = tt
  redact_value (array xs) = redact_list xs
  redact_value (object r) = redact_record r

  redact_list : (xs : Items) → AreRedacted (redact_items xs)
  redact_list nil = tt
  redact_list (cons j xs) = (redact_value j, redact_list xs)

  redact_record : (r : Fields) → FieldsRedacted (redact_fields r)
  redact_record end = tt
  redact_record (field k j r) =
      let (hidden, inside) = IsRedacted-field k (redact_payload j) (redact_value j) in
      (hidden, inside, redact_record r)

-- The payload that is logged has no field with a sensitive name whose value is shown, at any depth.
pub redact_payload-IsRedacted : (j : Json) → IsRedacted (redact_payload j)
redact_payload-IsRedacted j = redact_value j

fixed_field :
    (k : String) (j : Json) {j' : Json}
    → (is_sensitive k ≡ false) ⊎ (j ≡ string "<redacted>")
    → j' ≡ j
    → (if is_sensitive k then string "<redacted>" else j') ≡ j
fixed_field k j h e = ground (arith, h, e)

mutual
  unfolding redact_payload redact_items redact_fields

  fixed_value : (j : Json) → IsRedacted j → redact_payload j ≡ j
  fixed_value null h = refl
  fixed_value (bool b) h = refl
  fixed_value (number n) h = refl
  fixed_value (string s) h = refl
  fixed_value (array xs) h = ap array (fixed_list xs h)
  fixed_value (object r) h = ap object (fixed_record r h)

  fixed_list : (xs : Items) → AreRedacted xs → redact_items xs ≡ xs
  fixed_list nil h = refl
  fixed_list (cons j xs) h = ap₂ cons (fixed_value j h.0) (fixed_list xs h.1)

  fixed_record : (r : Fields) → FieldsRedacted r → redact_fields r ≡ r
  fixed_record end h = refl
  fixed_record (field k j r) h =
      ap₂ (field k) (fixed_field k j h.0 (fixed_value j h.1)) (fixed_record r h.2)

-- A payload with nothing to hide is logged as it is.
pub redact_payload_fixed : (j : Json) → IsRedacted j → redact_payload j ≡ j
redact_payload_fixed j h = fixed_value j h
