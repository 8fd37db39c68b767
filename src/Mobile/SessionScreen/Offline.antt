-- ===== src/Mobile/SessionScreen/Offline.antt =====
-- That nothing is sent from the screen of a session while the phone is not online.
use cucoudle.Prelude.{
  ◌≡◌, refl, ◌∙◌, String, Bool, true, false, none, some, List, [], ◌∷◌, All, arith, Option-cases,
}
use cucoudle.Prelude.Dict.{get}
use cucoudle.Protocol.Json.{Fields}
use cucoudle.Mobile.State.{SessionState}
use cucoudle.Mobile.Composer.{
  Composer, SendResult, answered, ComposerInput, disabled_changed, draft_typed, send_pressed,
  send_settled, controls_disabled, send_disabled, finish_send, settle_send, composer_step,
  run_composer,
}
use cucoudle.Mobile.Answers.{
  Zone, ZoneInput, rendered, option_pressed, typed, settled, accepted, thrown, is_disabled,
  render_zone, settle_answer, zone_step, run_zone, ZoneStep,
}
use cucoudle.Mobile.SessionScreen.{
  SessionConnectionStatus, is_online_status, session_controls, composer_disabled_prop,
}

-- The composer stays disabled.
abbrev pub StaysDisabled : ComposerInput → Type 0
StaysDisabled (disabled_changed disabled) = disabled ≡ true
StaysDisabled _ = Unit

-- Nothing is sent, and the composer is disabled.
abbrev IsIdle : Composer × List Fields → Type 0
IsIdle (c, sent) = (c.disabled ≡ true) × (sent ≡ [])

settle_send-disabled :
    (result : SendResult) (c : Composer) → (settle_send result c).disabled ≡ c.disabled
unfolding settle_send finish_send
settle_send-disabled (answered true) c = ground arith
settle_send-disabled (answered false) c = ground arith
settle_send-disabled (SendResult.thrown m) c = ground arith

composer_step-IsIdle :
    (input : ComposerInput) (c : Composer)
    → c.disabled ≡ true
    → StaysDisabled input
    → IsIdle (composer_step input c)
unfolding composer_step controls_disabled send_disabled
composer_step-IsIdle (disabled_changed disabled) c h k = (k, refl)
composer_step-IsIdle (draft_typed draft) c h k = (ground (arith, h), ground (arith, h))
composer_step-IsIdle send_pressed c h k = (ground (arith, h), ground (arith, h))
composer_step-IsIdle (send_settled result) c h k = (settle_send-disabled result c ∙ h, refl)

run_composer-silent :
    (inputs : List ComposerInput) (c : Composer)
    → c.disabled ≡ true
    → All StaysDisabled inputs
    → (run_composer inputs c).1 ≡ []
unfolding run_composer
run_composer-silent [] c h k = refl
run_composer-silent (input ∷ inputs) c h (k, ks) =
    let (d, e) = composer_step-IsIdle input c h k in
    rw (e) (run_composer-silent inputs (composer_step input c).0 d ks)

-- The zone is rendered offline.
abbrev pub StaysOffline : ZoneInput → Type 0
StaysOffline (rendered props) = props.can_mutate ≡ false
StaysOffline _ = Unit

abbrev IsQuiet : ZoneStep → Type 0
IsQuiet (z, sent) = (z.props.can_mutate ≡ false) × (sent ≡ [])

module _ (session_id : String) where
  zone_step-IsQuiet :
      (input : ZoneInput) (z : Zone)
      → z.props.can_mutate ≡ false
      → StaysOffline input
      → IsQuiet (zone_step session_id input z)
  unfolding zone_step is_disabled render_zone settle_answer
  zone_step-IsQuiet (rendered props) z h k = (ground (arith, k), refl)
  zone_step-IsQuiet (option_pressed id) z h k = (ground (arith, h), ground (arith, h))
  zone_step-IsQuiet (typed text) z h k = (ground (arith, h), ground (arith, h))
  zone_step-IsQuiet ZoneInput.send_pressed z h k = (ground (arith, h), ground (arith, h))
  zone_step-IsQuiet (settled accepted) z h k = (ground (arith, h), refl)
  zone_step-IsQuiet (settled (thrown (some m))) z h k = (ground (arith, h), refl)
  zone_step-IsQuiet (settled (thrown none)) z h k = (ground (arith, h), refl)

  run_zone-silent :
      (inputs : List ZoneInput) (z : Zone)
      → z.props.can_mutate ≡ false
      → All StaysOffline inputs
      → (run_zone session_id inputs z).1 ≡ []
  unfolding run_zone
  run_zone-silent [] z h k = refl
  run_zone-silent (input ∷ inputs) z h (k, ks) =
      let (d, e) = zone_step-IsQuiet input z h k in
      rw (e) (run_zone-silent inputs (zone_step session_id input z).0 d ks)

composer_disabled_prop-offline :
    (session_id : String) (state : SessionState) (connection : SessionConnectionStatus)
    (connected : Bool) {disabled : Bool}
    → is_online_status connection ≡ false
    → composer_disabled_prop session_id state connection connected ≡ some disabled
    → disabled ≡ true
unfolding composer_disabled_prop session_controls
composer_disabled_prop-offline session_id state connection connected h e =
    ground (arith, h, e, Option-cases (get session_id state.sessions_by_id))

-- Once the phone is not online, nothing is sent from the screen of a session, whatever was typed and
-- sent before, is typed and pressed now, and whatever earlier promises come to: the composer, in any
-- state, is rendered with the prop that the screen makes of the session and the connection, and sends
-- no command from there on, and the controls of an interaction, in any state in which they are
-- rendered offline, send no answer, as long as both stay rendered offline.
pub offline_silent :
    (session_id : String) (state : SessionState) (connection : SessionConnectionStatus)
    (connected disabled : Bool) (c : Composer) (z : Zone) (inputs : List ComposerInput)
    (zone_inputs : List ZoneInput)
    → is_online_status connection ≡ false
    → composer_disabled_prop session_id state connection connected ≡ some disabled
    → z.props.can_mutate ≡ is_online_status connection
    → All StaysDisabled inputs
    → All StaysOffline zone_inputs
    → ((run_composer (disabled_changed disabled ∷ inputs) c).1 ≡ [])
      × ((run_zone session_id zone_inputs z).1 ≡ [])
unfolding run_composer composer_step
offline_silent session_id state connection connected disabled c z inputs zone_inputs h e m k l =
    let off = composer_disabled_prop-offline session_id state connection connected h e in
    (
      run_composer-silent inputs (record c { disabled = disabled }) off k,
      run_zone-silent session_id zone_inputs z (m ∙ h) l,
    )
