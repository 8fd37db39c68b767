-- ===== src/Mobile/PairingScreen.antt =====
-- apps/mobile/src/features/pairing/PairingScreen.tsx and ManualPairingForm.tsx. A control is only handled
-- while it is there and not disabled; the calls of a submission are seen through its result.
pub mod Attempts
use cucoudle.Prelude.{
  ℕ, String, Bool, true, false, ◌||◌, Option, none, some, List, [], ◌∷◌, map, if◌then◌else◌,
}
use cucoudle.Prelude.Dict.{Dict, get}
use cucoudle.Prelude.Steps.{and_then}
use cucoudle.Protocol.Params.{Parsed, success, failure}
use cucoudle.Mobile.Pairing.{
  PairingRequest, PairingProfile, ManualPairingErrors, valid, invalid, Platform,
  validate_manual_pairing_request, parse_qr_pairing_request,
}

abbrev pub pairing_errors : Dict String
pairing_errors =
    ("PAIRING_EXPIRED", "Код подключения истёк. Создайте новый код на компьютере.")
    ∷ ("PAIRING_NOT_FOUND", "Код подключения не найден. Проверьте данные или создайте новый код.")
    ∷ (
      "DESKTOP_OFFLINE",
      "Компьютер не в сети. Запустите Cucoudle на компьютере и попробуйте снова.",
    )
    ∷ []

abbrev pub other_error : String
other_error = "Не удалось подключиться. Проверьте соединение и попробуйте снова."

-- The code of the error, where it has one, as a text, which names no property of Object.prototype.
unfoldable pub error_copy : Option String → String
unfolding get
error_copy none = other_error
error_copy (some code) = elim (get code pairing_errors) [ none ↦ other_error | some copy ↦ copy ]

-- The state of the form.
pub record ManualForm : Type 0 where
  pub values : PairingRequest
  pub errors : ManualPairingErrors

abbrev pub new_form : ManualForm
new_form = record {
  values = record { relay_ws_url = ""; desktop_id = ""; pairing_code = "" };
  errors = record { relay_ws_url = none; desktop_id = none; pairing_code = none };
}

pub data FormKey : Type 0 where
  relay_ws_url_key desktop_id_key pairing_code_key : FormKey

-- [key]: value
unfoldable pub update_form : FormKey → String → ManualForm → ManualForm
update_form relay_ws_url_key value form = record {
  values = record form.values { relay_ws_url = value };
  errors = record form.errors { relay_ws_url = none };
}
update_form desktop_id_key value form = record {
  values = record form.values { desktop_id = value };
  errors = record form.errors { desktop_id = none };
}
update_form pairing_code_key value form = record {
  values = record form.values { pairing_code = value };
  errors = record form.errors { pairing_code = none };
}

-- The form, and the request that it calls `onSubmit` with.
unfoldable pub submit_form : Platform → ManualForm → ManualForm × Option PairingRequest
unfolding validate_manual_pairing_request
submit_form z form = elim (validate_manual_pairing_request z.new_url form.values) [
  | invalid errors ↦ (record form { errors = errors }, none)
  | valid value ↦ (form, some value)
]

-- The state and the ref of the screen; the form is mounted while `manual` holds.
pub record PairingScreen : Type 0 where
  pub manual : Option ManualForm
  pub loading : Bool
  pub error : Option String
  pub pairing_in_progress : Bool

abbrev pub new_screen : PairingScreen
new_screen = record { manual = none; loading = false; error = none; pairing_in_progress = false }

-- What the calls of `submit` come to: the profile that was saved, or the code of an exception.
pub data Attempt : Type 0 where
  saved : PairingProfile → Attempt
  thrown : Option String → Attempt

-- A submission that starts, and a profile that `onPaired` is called with.
pub data ScreenEffect : Type 0 where
  attempted : PairingRequest → ScreenEffect
  paired : PairingProfile → ScreenEffect

abbrev pub ScreenStep : Type 0
ScreenStep = PairingScreen × List ScreenEffect

-- submit up to its first `await`
unfoldable pub submit_request : PairingRequest → PairingScreen → ScreenStep
submit_request request s = if s.pairing_in_progress then (s, []) else (
  record s { pairing_in_progress = true; loading = true; error = none },
  attempted request ∷ [],
)

-- The end of `submit`, where one is in progress.
unfoldable pub finish_attempt : Attempt → PairingScreen → ScreenStep
unfolding error_copy
finish_attempt attempt s =
    let done : PairingScreen = record s { pairing_in_progress = false; loading = false } in
    if s.pairing_in_progress
    then elim attempt [
      | saved profile ↦ (done, paired profile ∷ [])
      | thrown code ↦ (record done { error = some (error_copy code) }, [])
    ]
    else (s, [])

-- The camera only reports what it sees while nothing is loading.
unfoldable pub scan : Platform → String → PairingScreen → ScreenStep
unfolding parse_qr_pairing_request submit_request
scan z text s = elim (parse_qr_pairing_request z text) [
  | failure message ↦ (record s { error = some "Не удалось прочитать QR-код подключения." }, [])
  | success request ↦ submit_request request s
]

pub data ScreenInput : Type 0 where
  scanned : String → ScreenInput
  manual_pressed back_pressed submit_pressed : ScreenInput
  form_typed : FormKey → String → ScreenInput
  finished : Attempt → ScreenInput

module _ (z : Platform) where
  -- `onSubmit` of the form, with its submission.
  unfoldable pub submit_manual : ManualForm → PairingScreen → ScreenStep
  unfolding submit_form submit_request
  submit_manual form s =
      let (next, request) = submit_form z form in
      let shown : PairingScreen = record s { manual = some next } in
      elim request [ none ↦ (shown, []) | some value ↦ submit_request value shown ]

  -- What the screen does, with the camera or with the form in it.
  unfoldable pub handle_input : Option ManualForm → ScreenInput → PairingScreen → ScreenStep
  unfolding scan update_form submit_manual finish_attempt
  handle_input none (scanned text) s = if s.loading then (s, []) else scan z text s
  handle_input none manual_pressed s = (record s { error = none; manual = some new_form }, [])
  handle_input (some form) back_pressed s =
      if s.loading then (s, []) else (record s { error = none; manual = none }, [])
  handle_input (some form) submit_pressed s = if s.loading then (s, []) else submit_manual form s
  handle_input (some form) (form_typed key value) s =
      (record s { manual = some (update_form key value form) }, [])
  handle_input manual (finished attempt) s = finish_attempt attempt s
  handle_input manual input s = (s, [])

  unfoldable pub screen_step : ScreenInput → PairingScreen → ScreenStep
  unfolding handle_input
  screen_step input s = handle_input s.manual input s

  unfoldable pub run_screen : List ScreenInput → PairingScreen → ScreenStep
  unfolding screen_step
  run_screen [] s = (s, [])
  run_screen (input ∷ inputs) s = and_then (screen_step input s) (run_screen inputs)
