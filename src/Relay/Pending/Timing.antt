-- ===== src/Relay/Pending/Timing.antt =====
-- The timers of pending requests: each request has one armed timer, and each armed timer belongs
-- to one pending request.
use text.Mathlib.TextPositions.{eq_refl}
use cucoudle.Prelude.{
  ℕ, ◌<◌, String, ◌≡◌, refl, sym, Bool, true, not, none, some, List, [], ◌∷◌, ◌==◌, eq_iff,
  if◌then◌else◌, filter, any, arith, inl, inr, Bool-cases,
}
use cucoudle.Prelude.Dict.{
  Dict, get, delete, get-delete, has-get, IsDict, delete-IsDict, keep_if-IsDict, get-keep_if,
}
use cucoudle.Relay.State.{RelayState, PendingRequest, Timer, new_state}
use cucoudle.Relay.Pending.{pending_key, armed, clear_timeout, clear_timeouts, drop_pending}

pub armed-clear_timeout :
    (h g : ℕ) (ts : List Timer)
    → armed h (clear_timeout g ts) ≡ (if g == h then none else armed h ts)
unfolding armed clear_timeout
armed-clear_timeout h g [] = ground arith
armed-clear_timeout h g (t ∷ ts) = ground (arith, armed-clear_timeout h g ts)

-- One of the entries has the timer.
abbrev pub owns : ℕ → Dict PendingRequest → Bool
owns h = any (λ e. e.1.timeout == h)

pub armed-clear_timeouts :
    (h : ℕ) (es : Dict PendingRequest) (ts : List Timer)
    → armed h (clear_timeouts es ts) ≡ (if owns h es then none else armed h ts)
unfolding clear_timeouts
armed-clear_timeouts h [] ts = refl
armed-clear_timeouts h ((k, q) ∷ es) ts = ground (
  arith,
  armed-clear_timeouts h es (clear_timeout q.timeout ts),
  armed-clear_timeout h q.timeout ts,
)

module _ (p : PendingRequest → Bool) where
  owner :
      (h : ℕ) (m : Dict PendingRequest)
      → IsDict m
      → owns h (filter (λ e. p e.1) m) ≡ true
      → (k : String) × (q : PendingRequest) × (get k m ≡ some q) × (p q ≡ true) × (q.timeout ≡ h)
  unfolding get
  owner h [] d e = absurd (ground arith)
  owner h ((j, r) ∷ m) d e = elim (Bool-cases (p r)) [
    | inl y ↦ elim (Bool-cases (r.timeout == h)) [
      | inl z ↦ (j, r, ground (arith, eq_refl j), y, ground arith)
      | inr z ↦ skip (owner h m d.1 (ground arith))
    ]
    | inr n ↦ skip (owner h m d.1 (ground arith))
  ]
    where
      skip :
          (k : String) × (q : PendingRequest) × (get k m ≡ some q) × (p q ≡ true) × (q.timeout ≡ h)
          → (k : String) × (q : PendingRequest) × (get k ((j, r) ∷ m) ≡ some q)
            × (p q ≡ true)
            × (q.timeout ≡ h)
      skip (k, q, g, y, z) = (k, q, ground (arith, g, eq_iff j k, has-get k m), y, z)

  owns-filter :
      (k : String) (q : PendingRequest) (m : Dict PendingRequest)
      → get k m ≡ some q
      → p q ≡ true
      → owns q.timeout (filter (λ e. p e.1) m) ≡ true
  unfolding get
  owns-filter k q [] g y = absurd (ground arith)
  owns-filter k q ((j, r) ∷ m) g y = ground (arith, owns-filter k q m)

pub record IsTimed (s : RelayState) : Type 0 where
  -- One entry for each key, and each under the key of its own ids.
  pub distinct : IsDict s.pending
  pub own_key :
      (k : String) (q : PendingRequest)
      → get k s.pending ≡ some q
      → pending_key q.desktop_id q.request_id ≡ k
  -- The timer of a pending request is armed, and is set for that request.
  pub due :
      (k : String) (q : PendingRequest)
      → get k s.pending ≡ some q
      → (t : Timer) × (armed q.timeout s.timers ≡ some t)
        × (t.key ≡ k)
        × (t.request_id ≡ q.request_id)
  -- An armed timer is that of the pending request under its key.
  pub live :
      (h : ℕ) (t : Timer)
      → armed h s.timers ≡ some t
      → (q : PendingRequest) × (get t.key s.pending ≡ some q) × (q.timeout ≡ h)
  -- The next handle is new.
  pub fresh : (h : ℕ) (t : Timer) → armed h s.timers ≡ some t → h < s.next_timer

-- The predicate speaks of the pending requests and of the timers only.
pub IsTimed-of :
    (s t : RelayState)
    → IsTimed s
    → t.pending ≡ s.pending
    → t.timers ≡ s.timers
    → t.next_timer ≡ s.next_timer
    → IsTimed t
IsTimed-of s t v p q n = record {
  distinct = rw p v.distinct;
  own_key = rw p v.own_key;
  due = rw (p, q) v.due;
  live = rw (p, q) v.live;
  fresh = rw (q, n) v.fresh;
}

-- No request is pending at the start.
pub new_state-IsTimed : IsTimed new_state
unfolding new_state get armed
new_state-IsTimed = record {
  distinct = tt;
  own_key = λ k q h. ground arith;
  due = λ k q h. absurd (ground arith);
  live = λ h t e. absurd (ground arith);
  fresh = λ h t e. absurd (ground arith);
}

module _ (s : RelayState) (v : IsTimed s) where
  one_owner :
      (j k : String) (r q : PendingRequest)
      → get j s.pending ≡ some r
      → get k s.pending ≡ some q
      → r.timeout ≡ q.timeout
      → j ≡ k
  one_owner j k r q gr gq e =
      let (t, a, b, _) = v.due j r gr in
      let (t', a', b', _) = v.due k q gq in ground (arith, a, b, a', b')

  -- A pending request goes, and its timer with it.
  unfoldable pub settled_state : String → PendingRequest → RelayState
  settled_state k q = record s {
    timers = clear_timeout q.timeout s.timers;
    pending = delete k s.pending;
  }

  module _ (k : String) (q : PendingRequest) (g : get k s.pending ≡ some q) where
    settled_state-due :
        (j : String) (r : PendingRequest)
        → get j (settled_state k q).pending ≡ some r
        → (t : Timer) × (armed r.timeout (settled_state k q).timers ≡ some t)
          × (t.key ≡ j)
          × (t.request_id ≡ r.request_id)
    unfolding settled_state
    settled_state-due j r h =
        let old : get j s.pending ≡ some r = ground (arith, h, get-delete k j s.pending) in
        let (t, a, b, c) = v.due j r old in
        (
          t,
          ground (
            arith,
            a,
            h,
            eq_iff k j,
            get-delete k j s.pending,
            armed-clear_timeout r.timeout q.timeout s.timers,
            one_owner j k r q old g,
          ),
          b,
          c,
        )

    settled_state-live :
        (h : ℕ) (t : Timer)
        → armed h (settled_state k q).timers ≡ some t
        → (r : PendingRequest) × (get t.key (settled_state k q).pending ≡ some r) × (r.timeout ≡ h)
    unfolding settled_state
    settled_state-live h t e =
        let old : armed h s.timers ≡ some t =
          ground (arith, e, armed-clear_timeout h q.timeout s.timers) in
        let (r, g', y) = v.live h t old in
        (
          r,
          ground (
            arith,
            e,
            g,
            g',
            y,
            eq_iff k t.key,
            get-delete k t.key s.pending,
            armed-clear_timeout h q.timeout s.timers,
          ),
          y,
        )

    pub settled_state-IsTimed : IsTimed (settled_state k q)
    unfolding settled_state
    settled_state-IsTimed = record {
      distinct = delete-IsDict k s.pending v.distinct;
      own_key = λ j r h. v.own_key j r (ground (arith, h, get-delete k j s.pending));
      due = settled_state-due;
      live = settled_state-live;
      fresh = λ h t e. v.fresh h t (ground (arith, e, armed-clear_timeout h q.timeout s.timers));
    }

module _ (s : RelayState) (v : IsTimed s) (p : PendingRequest → Bool) where
  abbrev dropped : Dict PendingRequest
  dropped = filter (λ e. p e.1) s.pending

  drop-due :
      (j : String) (r : PendingRequest)
      → get j (drop_pending p s).pending ≡ some r
      → (t : Timer) × (armed r.timeout (drop_pending p s).timers ≡ some t)
        × (t.key ≡ j)
        × (t.request_id ≡ r.request_id)
  unfolding drop_pending
  drop-due j r h =
      let kept = get-keep_if (λ _ q. not (p q)) j s.pending v.distinct in
      let old : get j s.pending ≡ some r = ground (arith, h, kept) in
      let (t, a, b, c) = v.due j r old in
      (
        t,
        elim (Bool-cases (owns r.timeout dropped)) [
          | inl y ↦
              let (k, q, gq, z, w) = owner p r.timeout s.pending v.distinct y in
              absurd (ground (arith, h, kept, gq, z, one_owner s v j k r q old gq (sym w)))
          | inr n ↦ ground (arith, a, n, armed-clear_timeouts r.timeout dropped s.timers)
        ],
        b,
        c,
      )

  drop-live :
      (h : ℕ) (t : Timer)
      → armed h (drop_pending p s).timers ≡ some t
      → (r : PendingRequest) × (get t.key (drop_pending p s).pending ≡ some r) × (r.timeout ≡ h)
  unfolding drop_pending
  drop-live h t e =
      let cleared = armed-clear_timeouts h dropped s.timers in
      let old : armed h s.timers ≡ some t = ground (arith, e, cleared) in
      let (r, g, y) = v.live h t old in
      (
        r,
        ground (
          arith,
          e,
          g,
          y,
          cleared,
          owns-filter p t.key r s.pending g,
          get-keep_if (λ _ q. not (p q)) t.key s.pending v.distinct,
        ),
        y,
      )

  pub drop_pending-IsTimed : IsTimed (drop_pending p s)
  unfolding drop_pending
  drop_pending-IsTimed = record {
    distinct = keep_if-IsDict _ s.pending v.distinct;
    own_key = λ j r h.
        v.own_key j r (ground (arith, h, get-keep_if (λ _ q. not (p q)) j s.pending v.distinct));
    due = drop-due;
    live = drop-live;
    fresh = λ h t e. v.fresh h t (ground (arith, e, armed-clear_timeouts h dropped s.timers));
  }
