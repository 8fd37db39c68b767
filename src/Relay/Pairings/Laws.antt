-- ===== src/Relay/Pairings/Laws.antt =====
-- What pairing codes and mobile sessions promise: one use, one code per desktop, and expiry.
use text.Mathlib.TextPositions.{eq_refl}
use cucoudle.Prelude.{
  ℕ, ◌+◌, ◌*◌, ◌≤◌, String, ◌≡◌, ◌≢◌, refl, false, not, ◌&&◌, Option, none, some, List, [], ◌∷◌,
  ◌++◌, arith, str_eq, eq_iff, if◌then◌else◌, ltb, Option-cases, ◌↔◌,
}
use cucoudle.Prelude.Dict.{
  Dict, get, set, has, get-set, get-delete, IsDict, get-keep_if, filter_some,
}
use cucoudle.Protocol.Message.{pairing_not_found, pairing_expired, unauthorized}
use cucoudle.Relay.State.{RelayState, Pairing, granted, refused}
use cucoudle.Relay.Pairings.{
  fresh_code, drop_codes_of, generate_pairing_code, CreatedPairing, create_pairing, consume_pairing,
  issue_mobile_session, resume_mobile, session_token,
}

module _ (s : RelayState) (id code : String) (now : ℕ) where
  -- A code that was accepted, or that was refused as expired, is gone: whoever presents it next,
  -- at whatever time, is told that it does not exist, and the state stays as it is.
  pub consume_pairing_once :
      (id' : String) (later : ℕ)
      → (consume_pairing s id code now).0 ≢ refused pairing_not_found
      → let s' = (consume_pairing s id code now).1 in
        consume_pairing s' id' code later ≡ (refused pairing_not_found, s')
  unfolding consume_pairing
  consume_pairing_once id' later h =
      ground (
        arith,
        h,
        get-delete code code s.pairings,
        eq_refl code,
        Option-cases (get code s.pairings),
      )

  -- A code is accepted exactly when it is held for that desktop and its time has not passed.
  pub consume_pairing-granted : ((consume_pairing s id code now).0 ≡ granted) ↔ (
      (p : Pairing) × (get code s.pairings ≡ some p) × (p.desktop_id ≡ id) × (now ≤ p.expires_at))
  unfolding consume_pairing
  consume_pairing-granted =
      (accepted (get code s.pairings) refl, λ h. ground (arith, h, eq_iff h.0.desktop_id id))
    where
      accepted :
          (o : Option Pairing)
          → get code s.pairings ≡ o
          → (consume_pairing s id code now).0 ≡ granted
          → (p : Pairing) × (get code s.pairings ≡ some p)
            × (p.desktop_id ≡ id)
            × (now ≤ p.expires_at)
      accepted none e h = absurd (ground arith)
      accepted (some p) e h =
          (p, e, ground (arith, eq_iff p.desktop_id id), ground (arith, eq_iff p.desktop_id id))

has-fresh_code :
    (m : Dict Pairing) (draws : List ℕ) (code : String)
    → fresh_code m draws ≡ some code
    → has code m ≡ false
unfolding fresh_code
has-fresh_code m [] code h = absurd (ground arith)
has-fresh_code m (n ∷ draws) code h = ground (arith, has-fresh_code m draws code)

fresh_code-total :
    (m : Dict Pairing) (pre post : List ℕ) (n : ℕ)
    → has (generate_pairing_code n) m ≡ false
    → fresh_code m (pre ++ n ∷ post) ≢ none
unfolding fresh_code
fresh_code-total m [] post n h = ground arith
fresh_code-total m (k ∷ pre) post n h = ground (arith, fresh_code-total m pre post n)

module _ (s : RelayState) (id : String) (ttl_seconds : ℕ) (url : String) (now : ℕ)
    (iso : ℕ → String) where
  -- The loop that draws codes ends: as soon as one draw gives a code that no other desktop holds,
  -- a pairing is created.
  pub create_pairing-total :
      (pre post : List ℕ) (n : ℕ)
      → has (generate_pairing_code n) (drop_codes_of id s.pairings) ≡ false
      → create_pairing s id ttl_seconds url now iso (pre ++ n ∷ post) ≢ none
  unfolding create_pairing
  create_pairing-total pre post n h =
      ground (arith, fresh_code-total (drop_codes_of id s.pairings) pre post n h)

  module _ (draws : List ℕ) (c : CreatedPairing) (s' : RelayState)
      (created : create_pairing s id ttl_seconds url now iso draws ≡ some (c, s')) where
    created_pairings :
        s'.pairings
        ≡ set c.pairing_code
            (record { desktop_id = id; expires_at = now + ttl_seconds * 1000 })
            (drop_codes_of id s.pairings)
    unfolding create_pairing
    created_pairings = ground arith

    -- What is held after a creation: the new code, the codes of the other desktops as they were,
    -- and no other code of this desktop.
    pub get-create_pairing :
        IsDict s.pairings
        → (k : String)
        → get k s'.pairings ≡ (
            if str_eq c.pairing_code k
            then some (record { desktop_id = id; expires_at = now + ttl_seconds * 1000 })
            else filter_some (λ p. not (str_eq p.desktop_id id)) (get k s.pairings))
    unfolding drop_codes_of
    get-create_pairing d k =
        rw (created_pairings, get-set)
          (rw (get-keep_if (λ _ p. not (str_eq p.desktop_id id)) k s.pairings d))

    -- The code that is handed out is accepted, for its desktop, until its time has passed, and is
    -- refused as expired after that.
    pub consume-create_pairing :
        (t : ℕ)
        → (consume_pairing s' id c.pairing_code t).0
          ≡ (if ltb (now + ttl_seconds * 1000) t then refused pairing_expired else granted)
    unfolding consume_pairing
    consume-create_pairing t = ground (
      arith,
      created_pairings,
      get-set c.pairing_code c.pairing_code
          (record { desktop_id = id; expires_at = now + ttl_seconds * 1000 })
          (drop_codes_of id s.pairings),
      eq_refl c.pairing_code,
      eq_refl id,
    )

    -- The code that is handed out was held by no other desktop.
    pub create_pairing_fresh : has c.pairing_code (drop_codes_of id s.pairings) ≡ false
    unfolding create_pairing
    create_pairing_fresh =
        ground (arith, has-fresh_code (drop_codes_of id s.pairings) draws c.pairing_code)

module _ (s : RelayState) (id device : String) (ttl_ms now : ℕ) (iso : ℕ → String)
    (uuid : String) where
  abbrev issued : RelayState
  issued = (issue_mobile_session s id device ttl_ms now iso uuid).1

  -- A token that was issued resumes, for its desktop and its device, until its time has passed; then
  -- it is refused as expired. For any other desktop or device it is refused as unauthorized.
  pub resume-issue_mobile_session :
      (id' device' : String) (t : ℕ)
      → (resume_mobile issued id' device' (session_token uuid) t).0 ≡ (
          if str_eq id id' && str_eq device device'
          then (if ltb (now + ttl_ms) t then refused pairing_expired else granted)
          else refused unauthorized)
  unfolding issue_mobile_session resume_mobile
  resume-issue_mobile_session id' device' t = ground (
    arith,
    get-set (session_token uuid) (session_token uuid)
        (record { desktop_id = id; mobile_device_id = device; expires_at = now + ttl_ms })
        s.mobile_sessions,
    eq_refl (session_token uuid),
  )

module _ (s : RelayState) (id device token : String) (now : ℕ) where
  -- A resumption changes nothing but that an expired token is forgotten: afterwards it is refused
  -- as unauthorized, for whatever desktop and device.
  pub resume_mobile_expired :
      (id' device' : String) (later : ℕ)
      → (resume_mobile s id device token now).0 ≡ refused pairing_expired
      → (resume_mobile (resume_mobile s id device token now).1 id' device' token later).0
        ≡ refused unauthorized
  unfolding resume_mobile
  resume_mobile_expired id' device' later h =
      ground (arith, h, get-delete token token s.mobile_sessions, eq_refl token)

  pub resume_mobile_unchanged :
      (resume_mobile s id device token now).0 ≢ refused pairing_expired
      → (resume_mobile s id device token now).1 ≡ s
  unfolding resume_mobile
  resume_mobile_unchanged h = ground arith
