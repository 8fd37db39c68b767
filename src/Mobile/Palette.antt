-- ===== src/Mobile/Palette.antt =====
-- apps/mobile/src/features/session/ansiPalette.ts. `lower` is String.prototype.toLowerCase.
use Prim.Native.Char.{code}
use Prim.Native.String.{[] as empty_text, ◌∷◌ as cons_text}
use cucoudle.Prelude.{
  ℕ, zero, suc, ◌≡◌, ◌⊎◌, String, Bool, true, false, ◌||◌, ◌&&◌, Option, none, some, [], ◌∷◌,
  str_eq, if◌then◌else◌, ◌==◌,
}
use cucoudle.Prelude.Dict.{Dict, get, is_inherited}
use cucoudle.Prelude.Texts.{within}

abbrev pub named_colors : Dict String
named_colors =
    ("black", "#0D1117")
    ∷ ("red", "#F47067")
    ∷ ("green", "#57AB5A")
    ∷ ("yellow", "#C69026")
    ∷ ("blue", "#539BF5")
    ∷ ("magenta", "#B083F0")
    ∷ ("cyan", "#39C5CF")
    ∷ ("white", "#D0D7DE")
    ∷ ("brightblack", "#636E7B")
    ∷ ("brightred", "#FF938A")
    ∷ ("brightgreen", "#6BC46D")
    ∷ ("brightyellow", "#DAAA3F")
    ∷ ("brightblue", "#6CB6FF")
    ∷ ("brightmagenta", "#DCBDFB")
    ∷ ("brightcyan", "#56D4DD")
    ∷ ("brightwhite", "#F4F7FA")
    ∷ ("brown", "#C69026")
    ∷ []

-- [0-9a-f], with the flag `i`
unfoldable pub is_hex : ℕ → Bool
is_hex c = within 48 57 c || within 97 102 c || within 65 70 c

-- ^[0-9a-f]{n}$, with the flag `i`
unfoldable pub is_hex_text : ℕ → String → Bool
unfolding is_hex
is_hex_text zero empty_text = true
is_hex_text (suc n) (cons_text c text) = is_hex (code c) && is_hex_text n text
is_hex_text _ _ = false

-- ^#[0-9a-f]{6}$, with the flag `i`
unfoldable pub is_hex_color : String → Bool
unfolding is_hex_text
is_hex_color empty_text = false
is_hex_color (cons_text c text) = code c == 35 && is_hex_text 6 text

-- What the lookup answers: a text, or the property of Object.prototype with this name.
pub data AnsiColor : Type 0 where
  color_text : String → AnsiColor
  inherited : String → AnsiColor

abbrev pub as_color : Option String → Option AnsiColor
as_color none = none
as_color (some color) = some (color_text color)

-- A value that is missing, or empty, is `none`. No property of Object.prototype is falsy.
unfoldable pub ansi_color : (String → String) → Option String → Option String → Option AnsiColor
unfolding is_hex_text is_hex_color is_inherited
ansi_color lower none fallback = as_color fallback
ansi_color lower (some value) fallback =
    if str_eq value "" then as_color fallback else elim (get (lower value) named_colors) [
      | some named ↦ some (color_text named)
      | none ↦
          if is_inherited (lower value)
          then some (inherited (lower value))
          else if is_hex_text 6 value
          then some (color_text (cons_text "#" value))
          else if is_hex_color value
          then some (color_text value)
          else as_color fallback
    ]

module _ (lower : String → String) where
  -- What a missing colour falls back to, or the form #RRGGBB, or a property of Object.prototype that
  -- the value names.
  abbrev pub IsColor : Option String → Option String → Option AnsiColor → Type 0
  IsColor value fallback none = fallback ≡ none
  IsColor value fallback (some (color_text color)) =
      (fallback ≡ some color) ⊎ (is_hex_color color ≡ true)
  IsColor none fallback (some (inherited name)) = ⊥
  IsColor (some value) fallback (some (inherited name)) =
      (is_inherited name ≡ true) × (name ≡ lower value)
