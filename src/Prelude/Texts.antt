-- ===== src/Prelude/Texts.antt =====
-- JavaScript's operations on strings that the programs use.
use Prim.Native.Nat.{ℕ}
use Prim.Native.Char.{code}
use Prim.Native.String.{String, [] as empty_text, ◌∷◌ as cons_text}
use mathlib.Core.Bool.{Bool, true, false, ◌||◌, ◌&&◌}
use mathlib.Core.List.{[], ◌∷◌}
use text.Mathlib.Text.{◌==◌ as str_eq}
use cucoudle.Prelude.Tests.{leb, ◌==◌, if◌then◌else◌}
use cucoudle.Prelude.Lists.{any}

abbrev pub within : ℕ → ℕ → ℕ → Bool
within low high c = leb low c && leb c high

-- A character that `trim` takes off.
unfoldable pub is_white : ℕ → Bool
is_white c =
    within 9 13 c
    || any (λ w. w == c) (32 ∷ 160 ∷ 5760 ∷ 8232 ∷ 8233 ∷ 8239 ∷ 8287 ∷ 12_288 ∷ 65_279 ∷ [])
    || within 8192 8202 c

unfoldable pub trim_start : String → String
unfolding is_white
trim_start empty_text = ""
trim_start (cons_text c s) =
    let rest = trim_start s in if is_white (code c) then rest else cons_text c s

unfoldable pub trim_end : String → String
unfolding is_white
trim_end empty_text = ""
trim_end (cons_text c s) =
    let rest = trim_end s in if str_eq rest "" && is_white (code c) then "" else cons_text c rest

-- text.trim()
unfoldable pub trim_text : String → String
unfolding trim_start trim_end
trim_text s = trim_end (trim_start s)

-- text.startsWith(prefix)
unfoldable pub starts_with : String → String → Bool
starts_with empty_text s = true
starts_with (cons_text c p) empty_text = false
starts_with (cons_text c p) (cons_text d s) = (code c == code d) && starts_with p s

-- text.endsWith(suffix)
unfoldable pub ends_with : String → String → Bool
ends_with suffix empty_text = str_eq suffix ""
ends_with suffix (cons_text c s) =
    let rest = ends_with suffix s in str_eq (cons_text c s) suffix || rest
