-- ===== src/Relay/Pending/Keys.antt =====
-- The composite key `${desktopId}\u0000${requestId}`.
use Prim.Native.Char.{Char, code}
use Prim.Native.String.{[] as empty_text, ◌∷◌ as cons_text}
use text.Mathlib.TextLemmas.{nil-append, cons-append, head-eq_of_cons-eq, tail-eq_of_cons-eq}
use mathlib.Core.Path.{ap₂}
use cucoudle.Prelude.{String, ◌≡◌, ◌≢◌, refl, sym, ap, ◌∙◌}
use cucoudle.Relay.Pending.{pending_key}

-- The text holds no U+0000.
abbrev pub NoNul : String → Type 0
NoNul empty_text = Unit
NoNul (cons_text c s) = (code c ≢ 0) × NoNul s

abbrev nul : Char
nul = "\0"

pending_key-nil : (r : String) → pending_key empty_text r ≡ cons_text nul r
unfolding pending_key
pending_key-nil r = nil-append _ ∙ cons-append nul empty_text r ∙ ap (cons_text nul) (nil-append r)

pending_key-cons :
    (c : Char) (d r : String) → pending_key (cons_text c d) r ≡ cons_text c (pending_key d r)
unfolding pending_key
pending_key-cons c d r = cons-append c d _

-- Desktop ids without U+0000 make different keys: two requests share a key only if their desktop and
-- their id are the same.
pub pending_key_injective :
    (d e r q : String) → NoNul d → NoNul e → pending_key d r ≡ pending_key e q → (d ≡ e) × (r ≡ q)
pending_key_injective empty_text empty_text r q nd ne h =
    (refl, tail-eq_of_cons-eq (sym (pending_key-nil r) ∙ h ∙ pending_key-nil q))
pending_key_injective empty_text (cons_text c e) r q nd ne h = absurd (
    ne.0
      (ap code (sym (head-eq_of_cons-eq (sym (pending_key-nil r) ∙ h ∙ pending_key-cons c e q)))))
pending_key_injective (cons_text c d) empty_text r q nd ne h =
    absurd
      (nd.0 (ap code (head-eq_of_cons-eq (sym (pending_key-cons c d r) ∙ h ∙ pending_key-nil q))))
pending_key_injective (cons_text c d) (cons_text b e) r q nd ne h =
    let both = sym (pending_key-cons c d r) ∙ h ∙ pending_key-cons b e q in
    let (same, rest) = pending_key_injective d e r q nd.1 ne.1 (tail-eq_of_cons-eq both) in
    (ap₂ cons_text (head-eq_of_cons-eq both) same, rest)
