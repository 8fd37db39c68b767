-- ===== src/Relay/Pending/Steps.antt =====
-- What the operations on pending requests do, and that they keep requests and timers in step.
use text.Mathlib.TextPositions.{eq_refl}
use cucoudle.Prelude.{
  ℕ, suc, String, ◌≡◌, refl, sym, true, false, not, none, some, ◌∷◌, ◌==◌, str_eq, eq_iff,
  str_eq-cases, if◌then◌else◌, arith, inl, inr, Bool-cases, Option-cases, subst,
}
use cucoudle.Prelude.Dict.{
  get, set, has, get-set, get-delete, has-get, set-IsDict, filter_some, get-keep_if,
}
use cucoudle.Relay.State.{RelayState, PendingRequest, MobileConn, Timer}
use cucoudle.Relay.Pending.{
  pending_key, armed, Captured, add_pending, fire_timer, take_pending, remove_pending_for_desktop,
}
use cucoudle.Relay.Pending.Timing.{
  IsTimed, settled_state, settled_state-IsTimed, drop_pending-IsTimed,
}

module _ (s : RelayState) (id request_id method : String) (mobile : MobileConn) (delay : ℕ)
    (c : Captured) where
  abbrev key : String
  key = pending_key id request_id

  abbrev request : PendingRequest
  request = record {
    desktop_id = id;
    request_id = request_id;
    method = method;
    mobile = mobile;
    timeout = s.next_timer;
  }

  abbrev timer : Timer
  timer = record {
    handle = s.next_timer;
    key = key;
    delay = delay;
    desktop_id = c.desktop_id;
    request_id = c.request_id;
    method = c.method;
    params = c.params;
  }

  -- The state with one more request.
  unfoldable pub enlarged : RelayState
  enlarged = record s {
    pending = set key request s.pending;
    timers = timer ∷ s.timers;
    next_timer = suc s.next_timer;
  }

  pub add_pending_lem :
      add_pending s id request_id method mobile delay c
      ≡ (if has key s.pending then (false, s) else (true, enlarged))
  unfolding add_pending enlarged
  add_pending_lem = refl

  -- A request that was added can be taken: that gives back the phone and the method, and leaves no
  -- request under its key.
  pub take-add_pending :
      has key s.pending ≡ false
      → let s' = (add_pending s id request_id method mobile delay c).1 in
        ((take_pending s' id request_id).0 ≡ some (mobile, method))
        × (get key (take_pending s' id request_id).1.pending ≡ none)
  unfolding add_pending take_pending
  take-add_pending h =
      let found = get-set key key request s.pending in
      (
        ground (arith, h, found, eq_refl key),
        ground (arith, h, found, eq_refl key, get-delete key key (set key request s.pending)),
      )

  module _ (v : IsTimed s) (same : c.request_id ≡ request_id)
      (absent : has key s.pending ≡ false) where
    enlarged-due :
        (k : String) (q : PendingRequest)
        → get k enlarged.pending ≡ some q
        → (t : Timer) × (armed q.timeout enlarged.timers ≡ some t)
          × (t.key ≡ k)
          × (t.request_id ≡ q.request_id)
    unfolding enlarged armed
    enlarged-due k q h = elim (str_eq-cases key k) [
      | inl (y, e) ↦
          let new : q ≡ request = ground (arith, h, y, get-set key k request s.pending) in
          (timer, ground (arith, new), e, ground (arith, new, same))
      | inr (n, _) ↦
          let (t, a, b, d) = v.due k q (ground (arith, h, n, get-set key k request s.pending)) in
          (t, ground (arith, a, v.fresh q.timeout t a), b, d)
    ]

    enlarged-live :
        (h : ℕ) (t : Timer)
        → armed h enlarged.timers ≡ some t
        → (q : PendingRequest) × (get t.key enlarged.pending ≡ some q) × (q.timeout ≡ h)
    unfolding enlarged armed
    enlarged-live h t e = elim (Bool-cases (s.next_timer == h)) [
      | inl y ↦ (
        request,
        ground (arith, e, y, get-set key t.key request s.pending, eq_refl key),
        ground arith,
      )
      | inr n ↦
          let (q, g, z) = v.live h t (ground (arith, e, n)) in
          (
            q,
            ground (
              arith,
              g,
              absent,
              get-set key t.key request s.pending,
              eq_iff key t.key,
              has-get key s.pending,
            ),
            z,
          )
    ]

    enlarged-IsTimed : IsTimed enlarged
    unfolding enlarged armed
    enlarged-IsTimed = record {
      distinct = set-IsDict key request s.pending v.distinct;
      own_key =
          λ k q h. ground (arith, h, eq_iff key k, get-set key k request s.pending, v.own_key k q);
      due = enlarged-due;
      live = enlarged-live;
      fresh = λ h t e. ground (arith, e, v.fresh h t);
    }

  -- Adding a request keeps requests and timers in step.
  pub add_pending-IsTimed :
      IsTimed s
      → c.request_id ≡ request_id
      → IsTimed (add_pending s id request_id method mobile delay c).1
  add_pending-IsTimed v same = elim (Bool-cases (has key s.pending)) [
    | inl y ↦ rw (add_pending_lem, y) v
    | inr n ↦ rw (add_pending_lem, n) (enlarged-IsTimed v same n)
  ]

-- Taking a pending request keeps requests and timers in step.
pub take_pending-IsTimed :
    (s : RelayState) (id request_id : String) → IsTimed s → IsTimed (take_pending s id request_id).1
unfolding take_pending settled_state
take_pending-IsTimed s id request_id v =
    elim (Option-cases (get (pending_key id request_id) s.pending)) [
      | inl e ↦ rw (e, take_pending) v
      | inr (q, e) ↦
          rw (e, take_pending) (settled_state-IsTimed s v (pending_key id request_id) q e)
    ]

module _ (s : RelayState) (v : IsTimed s) where
  -- A timer that falls due is that of a request which still waits: the error that it makes goes to
  -- the phone that sent this request, under this request's id.
  pub fire_timer_lem :
      (h : ℕ) (t : Timer)
      → armed h s.timers ≡ some t
      → (q : PendingRequest) × (get t.key s.pending ≡ some q)
        × (q.timeout ≡ h)
        × (t.request_id ≡ q.request_id)
        × ((fire_timer s h).0 ≡ some (t, q.mobile))
        × (get t.key (fire_timer s h).1.pending ≡ none)
  unfolding fire_timer
  fire_timer_lem h t e =
      let (q, g, y) = v.live h t e in
      let (t', a, _, d) = v.due t.key q g in
      (
        q,
        g,
        y,
        ground (arith, e, a, y, d),
        ground (arith, e, g),
        ground (arith, e, g, get-delete t.key t.key s.pending, eq_refl t.key),
      )

  fired :
      (h : ℕ) (t : Timer) (q : PendingRequest)
      → armed h s.timers ≡ some t
      → get t.key s.pending ≡ some q
      → q.timeout ≡ h
      → (fire_timer s h).1 ≡ settled_state s v t.key q
  unfolding fire_timer settled_state
  fired h t q e g y = ground (arith, e, g, y)

  -- A timer that falls due keeps requests and timers in step.
  pub fire_timer-IsTimed : (h : ℕ) → IsTimed (fire_timer s h).1
  unfolding fire_timer
  fire_timer-IsTimed h = elim (Option-cases (armed h s.timers)) [
    | inl e ↦ rw (e, fire_timer) v
    | inr (t, e) ↦
        let (q, g, y) = v.live h t e in
        subst IsTimed (sym (fired h t q e g y)) (settled_state-IsTimed s v t.key q g)
  ]

  -- When a desktop goes, no request of it waits any longer, and every other request stays as it is.
  pub get-remove_pending_for_desktop :
      (id k : String)
      → get k (remove_pending_for_desktop s id).1.pending
        ≡ filter_some (λ q. not (str_eq q.desktop_id id)) (get k s.pending)
  unfolding remove_pending_for_desktop
  get-remove_pending_for_desktop id k =
      get-keep_if (λ _ q. not (str_eq q.desktop_id id)) k s.pending v.distinct

  pub remove_pending_for_desktop-IsTimed :
      (id : String) → IsTimed (remove_pending_for_desktop s id).1
  unfolding remove_pending_for_desktop
  remove_pending_for_desktop-IsTimed id = drop_pending-IsTimed s v (λ q. str_eq q.desktop_id id)
