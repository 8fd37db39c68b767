-- ===== src/Protocol/Json.antt =====
-- JSON values as `JSON.parse` makes them, and the property accesses that the program makes on
-- values of type `unknown`. Numbers are the naturals; the entries of an object keep their order.
use cucoudle.Prelude.{
  ℕ, String, ◌≡◌, refl, Bool, Option, none, some, arith, str_eq, eq_iff, if◌then◌else◌, List, [],
  ◌∷◌,
}

mutual
  pub data Json : Type 0 where
    null : Json
    bool : Bool → Json
    number : ℕ → Json
    string : String → Json
    array : Items → Json
    object : Fields → Json

  pub data Items : Type 0 where
    nil : Items
    cons : Json → Items → Items

  pub data Fields : Type 0 where
    end : Fields
    field : String → Json → Fields → Fields

-- value.k, or `undefined`
unfoldable pub field? : String → Fields → Option Json
field? k end = none
field? k (field j v r) = if str_eq j k then some v else field? k r

-- value.k = w, in place
unfoldable pub set_field : String → Json → Fields → Fields
set_field k w end = field k w end
set_field k w (field j v r) = if str_eq j k then field k w r else field j v (set_field k w r)

pub field?-set_field :
    (k j : String) (w : Json) (r : Fields)
    → field? j (set_field k w r) ≡ (if str_eq k j then some w else field? j r)
unfolding field? set_field
field?-set_field k j w end = refl
field?-set_field k j w (field i v r) =
    ground (arith, eq_iff k j, eq_iff i k, eq_iff i j, field?-set_field k j w r)

-- typeof v === "string" ? v : undefined
abbrev pub as_string : Option Json → Option String
as_string (some (string s)) = some s
as_string _ = none

abbrev pub as_number : Option Json → Option ℕ
as_number (some (number n)) = some n
as_number _ = none

-- typeof v === "object" && v !== null; the names asked for are none of an array's.
abbrev pub as_object : Option Json → Option Fields
as_object (some (object r)) = some r
as_object _ = none

-- The texts of a list, as an array.
abbrev pub strings : List String → Items
strings [] = nil
strings (s ∷ l) = cons (string s) (strings l)
