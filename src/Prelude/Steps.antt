-- ===== src/Prelude/Steps.antt =====
-- A call that changes a state and does something to the host: the state afterwards, and the effects
-- in their order.
use mathlib.Core.List.{List, ◌++◌}

-- One call, then another on the state that it leaves.
abbrev pub and_then {ℓ κ} : {S : Type ℓ} {E : Type κ} → S × List E → (S → S × List E) → S × List E
and_then (s, effects) f = let (t, more) = f s in (t, effects ++ more)
