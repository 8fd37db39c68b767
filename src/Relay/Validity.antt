-- ===== src/Relay/Validity.antt =====
-- The relay's invariant, and that each operation on its state keeps it.
use cucoudle.Prelude.{ℕ, ◌+◌, ◌*◌, String, not, str_eq, ◌≡◌, refl, some, List, arith}
use cucoudle.Prelude.Dict.{get, IsDict, set-IsDict, delete-IsDict, keep_if-IsDict}
use cucoudle.Protocol.Params.{DesktopRegisterParams}
use cucoudle.Relay.State.{RelayState, MobileConn, Pairing, Socket, new_state}
use cucoudle.Relay.Desktops.{
  IsRegistry, register_desktop, register_desktop-IsRegistry, remove_desktop_by_socket,
}
use cucoudle.Relay.Desktops.Removal.{remove_desktop_by_socket-IsRegistry}
use cucoudle.Relay.Pairings.{
  CreatedPairing, create_pairing, drop_codes_of, consume_pairing, issue_mobile_session,
  resume_mobile,
}
use cucoudle.Relay.Links.{link_mobile, unlink_mobile_by_socket}
use cucoudle.Relay.Links.Grouping.{
  IsGrouped, link_mobile-IsGrouped, unlink_mobile_by_socket-IsGrouped,
}
use cucoudle.Relay.Links.Laws.{unlink_mobile_by_socket-IsTimed}
use cucoudle.Relay.Pending.{
  Captured, add_pending, take_pending, fire_timer, drop_pending, remove_pending_for_desktop,
}
use cucoudle.Relay.Pending.Timing.{IsTimed, IsTimed-of, new_state-IsTimed}
use cucoudle.Relay.Pending.Steps.{
  add_pending-IsTimed, take_pending-IsTimed, fire_timer-IsTimed, remove_pending_for_desktop-IsTimed,
}

pub record IsValid (s : RelayState) : Type 0 where
  pub registry : IsRegistry s.desktops
  pub codes : IsDict s.pairings
  pub grouped : IsGrouped s.links
  pub timed : IsTimed s

new_state-IsRegistry : IsRegistry new_state.desktops
unfolding new_state get
new_state-IsRegistry = record {
  distinct = tt;
  own_id = λ i c h. ground arith;
  one_id = λ i j c d hi hj e. absurd (ground arith);
}

pub new_state-IsValid : IsValid new_state
unfolding new_state
new_state-IsValid = record {
  registry = new_state-IsRegistry;
  codes = tt;
  grouped = tt;
  timed = new_state-IsTimed;
}

module _ (s : RelayState) (v : IsValid s) where
  -- The invariant of a state that differs in parts that are valid by themselves.
  IsValid-of :
      (t : RelayState)
      → IsRegistry t.desktops
      → IsDict t.pairings
      → IsGrouped t.links
      → t.pending ≡ s.pending
      → t.timers ≡ s.timers
      → t.next_timer ≡ s.next_timer
      → IsValid t
  IsValid-of t r c g p q n = record {
    registry = r;
    codes = c;
    grouped = g;
    timed = IsTimed-of s t v.timed p q n;
  }

  pub register_desktop-IsValid :
      (p : DesktopRegisterParams) (socket : Socket) → IsValid (register_desktop s p socket).0
  unfolding register_desktop
  register_desktop-IsValid p socket =
      IsValid-of _ (register_desktop-IsRegistry s p socket v.registry) v.codes v.grouped refl refl
        refl

  pub remove_desktop_by_socket-IsValid :
      (socket : Socket) → IsValid (remove_desktop_by_socket s socket).1
  unfolding remove_desktop_by_socket
  remove_desktop_by_socket-IsValid socket =
      IsValid-of _ (remove_desktop_by_socket-IsRegistry s socket v.registry)
        (ground (arith, v.codes)) (ground (arith, v.grouped)) (ground arith) (ground arith)
        (ground arith)

  pub consume_pairing-IsValid :
      (id code : String) (now : ℕ) → IsValid (consume_pairing s id code now).1
  unfolding consume_pairing
  consume_pairing-IsValid id code now = ground (
    arith,
    v,
    delete-IsDict code s.pairings v.codes,
    IsValid-of (consume_pairing s id code now).1,
  )

  pub create_pairing-IsValid :
      (id : String) (ttl : ℕ) (url : String) (now : ℕ) (iso : ℕ → String) (draws : List ℕ)
      (c : CreatedPairing) (t : RelayState)
      → create_pairing s id ttl url now iso draws ≡ some (c, t)
      → IsValid t
  unfolding create_pairing drop_codes_of
  create_pairing-IsValid id ttl url now iso draws c t h =
      let new : Pairing = record { desktop_id = id; expires_at = now + ttl * 1000 } in
      IsValid-of t (ground (arith, h, v.registry))
        (ground (
          arith,
          h,
          set-IsDict c.pairing_code new (drop_codes_of id s.pairings)
              (keep_if-IsDict (λ _ p. not (str_eq p.desktop_id id)) s.pairings v.codes),
        ))
        (ground (arith, h, v.grouped)) (ground (arith, h)) (ground (arith, h)) (ground (arith, h))

  pub issue_mobile_session-IsValid :
      (id device : String) (ttl now : ℕ) (iso : ℕ → String) (uuid : String)
      → IsValid (issue_mobile_session s id device ttl now iso uuid).1
  unfolding issue_mobile_session
  issue_mobile_session-IsValid id device ttl now iso uuid =
      IsValid-of _ v.registry v.codes v.grouped refl refl refl

  pub resume_mobile-IsValid :
      (id device token : String) (now : ℕ) → IsValid (resume_mobile s id device token now).1
  unfolding resume_mobile
  resume_mobile-IsValid id device token now =
      IsValid-of _ (ground (arith, v.registry)) (ground (arith, v.codes))
        (ground (arith, v.grouped)) (ground arith) (ground arith) (ground arith)

  pub link_mobile-IsValid : (c : MobileConn) → IsValid (link_mobile s c)
  unfolding link_mobile
  link_mobile-IsValid c =
      IsValid-of _ v.registry v.codes (link_mobile-IsGrouped s c v.grouped) refl refl refl

  pub unlink_mobile_by_socket-IsValid :
      (socket : Socket) → IsValid (unlink_mobile_by_socket s socket).1
  unfolding unlink_mobile_by_socket drop_pending
  unlink_mobile_by_socket-IsValid socket = record {
    registry = ground (arith, v.registry);
    codes = ground (arith, v.codes);
    grouped = unlink_mobile_by_socket-IsGrouped s socket v.grouped;
    timed = unlink_mobile_by_socket-IsTimed s socket v.timed;
  }

  pub add_pending-IsValid :
      (id request_id method : String) (mobile : MobileConn) (delay : ℕ) (c : Captured)
      → c.request_id ≡ request_id
      → IsValid (add_pending s id request_id method mobile delay c).1
  unfolding add_pending
  add_pending-IsValid id request_id method mobile delay c same = record {
    registry = ground (arith, v.registry);
    codes = ground (arith, v.codes);
    grouped = ground (arith, v.grouped);
    timed = add_pending-IsTimed s id request_id method mobile delay c v.timed same;
  }

  pub take_pending-IsValid : (id request_id : String) → IsValid (take_pending s id request_id).1
  unfolding take_pending
  take_pending-IsValid id request_id = record {
    registry = ground (arith, v.registry);
    codes = ground (arith, v.codes);
    grouped = ground (arith, v.grouped);
    timed = take_pending-IsTimed s id request_id v.timed;
  }

  pub fire_timer-IsValid : (h : ℕ) → IsValid (fire_timer s h).1
  unfolding fire_timer
  fire_timer-IsValid h = record {
    registry = ground (arith, v.registry);
    codes = ground (arith, v.codes);
    grouped = ground (arith, v.grouped);
    timed = fire_timer-IsTimed s v.timed h;
  }

  pub remove_pending_for_desktop-IsValid :
      (id : String) → IsValid (remove_pending_for_desktop s id).1
  unfolding remove_pending_for_desktop drop_pending
  remove_pending_for_desktop-IsValid id = record {
    registry = v.registry;
    codes = v.codes;
    grouped = v.grouped;
    timed = remove_pending_for_desktop-IsTimed s v.timed id;
  }
