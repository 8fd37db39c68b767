-- ===== src/Prelude/Dict.antt =====
-- `Map<string, V>` and `Record<string, V>`: entries in the order of insertion. A write to a key
-- that is there keeps its place.
use Prim.Native.String.{String}
use mathlib.Core.Path.{◌≡◌, refl}
use mathlib.Core.Bool.{Bool, true, false, not}
use mathlib.Core.List.{List, [], ◌∷◌, map}
use mathlib.Core.Option.{Option, none, some}
use native.Mathlib.Omega.{arith}
use text.Mathlib.Text.{◌==◌ as str_eq}
use text.Mathlib.TextEquality.{eq_iff}
use cucoudle.Prelude.Tests.{if◌then◌else◌}
use cucoudle.Prelude.Lists.{filter, elem}

abbrev pub Dict {ℓ} : Type ℓ → Type ℓ
Dict V = List (String × V)

module _ {ℓ} {V : Type ℓ} where
  -- m.get(k), or m[k]
  unfoldable pub get : String → Dict V → Option V
  get k [] = none
  get k ((j, v) ∷ m) = if str_eq j k then some v else get k m

  -- m.set(k, v), or { ...m, [k]: v }
  unfoldable pub set : String → V → Dict V → Dict V
  set k v [] = (k, v) ∷ []
  set k v ((j, w) ∷ m) = if str_eq j k then (k, v) ∷ m else (j, w) ∷ set k v m

  -- A filter over the entries, as a loop that deletes while it runs over the map.
  abbrev pub keep_if : (String → V → Bool) → Dict V → Dict V
  keep_if p = filter (λ e. p e.0 e.1)

  -- m.delete(k)
  unfoldable pub delete : String → Dict V → Dict V
  delete k = keep_if (λ j _. not (str_eq j k))

  -- m.has(k)
  unfoldable pub has : String → Dict V → Bool
  has k [] = false
  has k ((j, v) ∷ m) = if str_eq j k then true else has k m

  abbrev pub keys : Dict V → List String
  keys = map (λ e. e.0)

  pub get-set :
      (k j : String) (v : V) (m : Dict V)
      → get j (set k v m) ≡ (if str_eq k j then some v else get j m)
  unfolding get set
  get-set k j v [] = refl
  get-set k j v ((i, w) ∷ m) = ground (arith, eq_iff k j, eq_iff i k, eq_iff i j, get-set k j v m)

  pub get-delete :
      (k j : String) (m : Dict V) → get j (delete k m) ≡ (if str_eq k j then none else get j m)
  unfolding get delete
  get-delete k j [] = ground arith
  get-delete k j ((i, w) ∷ m) = ground (arith, eq_iff k j, eq_iff i k, eq_iff i j, get-delete k j m)

  pub has-get :
      (k : String) (m : Dict V) → has k m ≡ elim (get k m) [ none ↦ false | some _ ↦ true ]
  unfolding has get
  has-get k [] = refl
  has-get k ((j, v) ∷ m) = ground (arith, has-get k m)

  pub elem-keys : (k : String) (m : Dict V) → elem k (keys m) ≡ has k m
  unfolding has
  elem-keys k [] = refl
  elem-keys k ((j, v) ∷ m) = ground (arith, elem-keys k m)

  pub has-set :
      (k j : String) (v : V) (m : Dict V)
      → has j (set k v m) ≡ (if str_eq k j then true else has j m)
  unfolding has set
  has-set k j v [] = refl
  has-set k j v ((i, w) ∷ m) = ground (arith, eq_iff k j, eq_iff i k, eq_iff i j, has-set k j v m)

  pub has-keep_if :
      (p : String → V → Bool) (k : String) (m : Dict V)
      → has k m ≡ false
      → has k (keep_if p m) ≡ false
  unfolding has
  has-keep_if p k [] h = refl
  has-keep_if p k ((j, v) ∷ m) h = ground (arith, has-keep_if p k m)

  -- The keys are distinct.
  abbrev pub IsDict : Dict V → Type 0
  IsDict [] = Unit
  IsDict ((k, v) ∷ m) = (has k m ≡ false) × IsDict m

  pub set-IsDict : (k : String) (v : V) (m : Dict V) → IsDict m → IsDict (set k v m)
  unfolding set has
  set-IsDict k v [] h = ground arith
  set-IsDict k v ((j, w) ∷ m) h =
      ground (arith, eq_iff j k, has-set k j v m, eq_iff k j, set-IsDict k v m h.1)

  pub keep_if-IsDict : (p : String → V → Bool) (m : Dict V) → IsDict m → IsDict (keep_if p m)
  keep_if-IsDict p [] h = tt
  keep_if-IsDict p ((j, w) ∷ m) h = ground (arith, has-keep_if p j m h.0, keep_if-IsDict p m h.1)

  -- What a filter leaves of an entry.
  abbrev pub filter_some : (V → Bool) → Option V → Option V
  filter_some p none = none
  filter_some p (some v) = if p v then some v else none

  get_of_not-has : (k : String) (m : Dict V) → has k m ≡ false → get k m ≡ none
  unfolding get has
  get_of_not-has k [] h = refl
  get_of_not-has k ((j, v) ∷ m) h = ground (arith, get_of_not-has k m)

  pub get-keep_if :
      (p : String → V → Bool) (k : String) (m : Dict V)
      → IsDict m
      → get k (keep_if p m) ≡ filter_some (p k) (get k m)
  unfolding get
  get-keep_if p k [] d = refl
  get-keep_if p k ((j, v) ∷ m) d =
      ground (arith, eq_iff j k, get-keep_if p k m d.1, get_of_not-has k m)

  pub delete-IsDict : (k : String) (m : Dict V) → IsDict m → IsDict (delete k m)
  unfolding delete
  delete-IsDict k m d = keep_if-IsDict _ m d

  pub has-filter_keys :
      (p : String → Bool) (k : String) (m : Dict V)
      → p k ≡ false
      → has k (keep_if (λ j _. p j) m) ≡ false
  unfolding has
  has-filter_keys p k [] h = refl
  has-filter_keys p k ((j, v) ∷ m) h = ground (arith, h, eq_iff j k, has-filter_keys p k m h)

-- The names of the properties of Object.prototype, which every plain object answers.
abbrev pub inherited_names : List String
inherited_names =
    "constructor" ∷ "hasOwnProperty" ∷ "isPrototypeOf" ∷ "propertyIsEnumerable" ∷ "toLocaleString"
    ∷ "toString" ∷ "valueOf" ∷ "__proto__" ∷ "__defineGetter__" ∷ "__defineSetter__"
    ∷ "__lookupGetter__" ∷ "__lookupSetter__" ∷ []

unfoldable pub is_inherited : String → Bool
is_inherited key = elem key inherited_names
