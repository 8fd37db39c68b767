-- ===== src/Mobile/Runtime/Latest.antt =====
-- Which results of opened sessions are dispatched.
use text.Mathlib.TextPositions.{eq_refl}
use cucoudle.Prelude.{
  ◌≡◌, ◌≢◌, ◌∙◌, String, false, not, ◌||◌, ◌&&◌, Option, some, List, [], ◌∷◌, ◌++◌, elem,
  elem-append, elem-filter, str_eq, eq_iff, arith, if◌then◌else◌,
}
use cucoudle.Protocol.Json.{Fields}
use cucoudle.Mobile.Coordinator.{OpenSessionRecovery, online, same_status}
use cucoudle.Mobile.Coordinator.Sync.{Outcome, fulfilled, refused}
use cucoudle.Mobile.Runtime.{
  Runtime, RuntimeEffect, session_requested, result_dispatched, open_params, open_session,
  is_latest, session_answered,
}

-- The results that reach the reducer.
abbrev pub results : List RuntimeEffect → List Fields
results [] = []
results (result_dispatched result ∷ es) = result ∷ results es
results (_ ∷ es) = results es

-- The requests for a session.
abbrev pub requests : List RuntimeEffect → List Fields
requests [] = []
requests (session_requested method params ∷ es) = params ∷ requests es
requests (_ ∷ es) = requests es

results-opened :
    (session_id : String) (current : Option OpenSessionRecovery) (r : Runtime)
    → ((open_session session_id current r).0.latest ≡ some session_id)
      × ((open_session session_id current r).0.disposed ≡ r.disposed)
unfolding open_session
results-opened session_id current r = (ground arith, ground arith)

results-answered :
    (session_id : String) (result : Fields) (r : Runtime)
    → (results (session_answered session_id (fulfilled result) r).1
        ≡ (if not r.disposed && is_latest session_id r.latest then result ∷ [] else []))
      × ((session_answered session_id (fulfilled result) r).0.latest ≡ r.latest)
      × ((session_answered session_id (fulfilled result) r).0.disposed ≡ r.disposed)
unfolding session_answered
results-answered session_id result r = (ground arith, ground arith, ground arith)

latest_of :
    (session_id : String) (result : Fields) (r : Runtime) (other : String)
    → r.disposed ≡ false
    → r.latest ≡ some other
    → session_id ≢ other
    → (if not r.disposed && is_latest session_id r.latest then result ∷ [] else []) ≡ []
unfolding is_latest
latest_of session_id result r other h e n = ground (arith, h, e, n, eq_iff other session_id)

latest_shown :
    (session_id : String) (result : Fields) (r : Runtime)
    → r.disposed ≡ false
    → r.latest ≡ some session_id
    → (if not r.disposed && is_latest session_id r.latest then result ∷ [] else []) ≡ result ∷ []
unfolding is_latest
latest_shown session_id result r h e = ground (arith, h, e, eq_refl session_id)

-- Of two sessions opened one after the other, in a runtime that is not disposed of, only the second is
-- shown what its subscription brings: the result for the first is dropped when it comes, whether before
-- or after the other, and the result for the second is dispatched.
pub latest_wins :
    (first second : String) (current again : Option OpenSessionRecovery) (a b : Fields)
    (r : Runtime)
    → r.disposed ≡ false
    → first ≢ second
    → let s = (open_session second again (open_session first current r).0).0 in
      let early = session_answered first (fulfilled a) s in
      let late = session_answered second (fulfilled b) s in
      (results early.1 ≡ [])
      × (results (session_answered first (fulfilled a) late.0).1 ≡ [])
      × (results late.1 ≡ b ∷ [])
      × (results (session_answered second (fulfilled b) early.0).1 ≡ b ∷ [])
latest_wins first second current again a b r h n =
    let r1 = (open_session first current r).0 in
    let s = (open_session second again r1).0 in
    let (l, d2) = results-opened second again r1 in
    let d = d2 ∙ (results-opened first current r).1 ∙ h in
    let early = (session_answered first (fulfilled a) s).0 in
    let late = (session_answered second (fulfilled b) s).0 in
    let (x, xl, xd) = results-answered first a s in
    let (y, yl, yd) = results-answered second b s in
    let (u, _, _) = results-answered first a late in
    let (v, _, _) = results-answered second b early in
    (
      x ∙ latest_of first a s second d l n,
      u ∙ latest_of first a late second (yd ∙ d) (yl ∙ l) n,
      y ∙ latest_shown second b s d l,
      v ∙ latest_shown second b early (xd ∙ d) (xl ∙ l),
    )

answered_gone :
    (session_id : String) (outcome : Outcome) (r : Runtime)
    → elem session_id (session_answered session_id outcome r).0.subscribing ≡ false
unfolding session_answered
answered_gone session_id (refused error) r = ground (
  arith,
  elem-filter (λ id. not (str_eq id session_id)) session_id r.subscribing,
  eq_refl session_id,
)
answered_gone session_id (fulfilled result) r = ground (
  arith,
  elem-filter (λ id. not (str_eq id session_id)) session_id r.subscribing,
  eq_refl session_id,
)

-- Opening a session twice while its subscription is waited for sends at most one request, and exactly
-- one where the runtime is online, not disposed of and does not wait for it yet; its answer, whatever
-- it is, ends the wait.
pub requested_once :
    (session_id : String) (current again : Option OpenSessionRecovery) (outcome : Outcome)
    (r : Runtime)
    → let s = (open_session session_id current r).0 in
      (requests (open_session session_id current r).1
          ++ requests (open_session session_id again s).1
        ≡ (if r.disposed
              || not (same_status r.coordinator.status online)
              || elem session_id r.subscribing
            then []
            else open_params session_id current ∷ []))
      × (elem session_id (session_answered session_id outcome s).0.subscribing ≡ false)
unfolding open_session
requested_once session_id current again outcome r = (
  ground (arith, elem-append session_id r.subscribing (session_id ∷ []), eq_refl session_id),
  answered_gone session_id outcome (open_session session_id current r).0,
)
