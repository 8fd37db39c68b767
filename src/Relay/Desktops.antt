-- ===== src/Relay/Desktops.antt =====
-- The registry of desktops: `registerDesktop`, `getDesktop`, `removeDesktopBySocket` of
-- apps/relay/src/state.ts and `findDesktopId` of handlers.ts.
pub mod Removal
use mathlib.Core.Option
use cucoudle.Prelude.{
  ℕ, String, ◌≡◌, refl, ◌≢◌, Bool, true, false, not, ◌&&◌, Option, none, some, List, [], ◌∷◌, arith,
  sym, ap, ◌∙◌, ◌⊎◌, str_eq, eq_iff, str_eq-cases, if◌then◌else◌, ◌==◌, inl, inr, Option-cases,
}
use cucoudle.Prelude.Dict
use cucoudle.Prelude.Dict.{
  Dict, get, set, delete, keep_if, get-set, get-delete, get-keep_if, filter_some, IsDict,
  set-IsDict, keep_if-IsDict,
}
use cucoudle.Protocol.Params.{DesktopRegisterParams}
use cucoudle.Relay.State.{RelayState, DesktopConn, Socket, Effect, closed}

-- The loop at the head of `registerDesktop`: a socket speaks for one desktop only.
unfoldable pub drop_other_ids : String → Socket → Dict DesktopConn → Dict DesktopConn
drop_other_ids id socket = keep_if (λ j c. not (c.socket == socket && not (str_eq j id)))

unfoldable pub desktop_conn : DesktopRegisterParams → Socket → DesktopConn
desktop_conn p socket = record {
  desktop_id = p.desktop_id;
  name = p.desktop_name;
  platform = p.platform;
  app_version = p.app_version;
  offered_capabilities = Option.get_or p.offered_capabilities [];
  socket = socket;
}

-- The close of the connection that is replaced.
unfoldable pub replaced : Option DesktopConn → Socket → List Effect
replaced none socket = []
replaced (some existing) socket =
    if existing.socket == socket
    then []
    else closed existing.socket 4001 "replaced by a new connection" ∷ []

unfoldable pub register_desktop :
    RelayState → DesktopRegisterParams → Socket → RelayState × List Effect
unfolding drop_other_ids desktop_conn replaced
register_desktop s p socket =
    let kept = drop_other_ids p.desktop_id socket s.desktops in
    (
      record s { desktops = set p.desktop_id (desktop_conn p socket) kept },
      replaced (get p.desktop_id kept) socket,
    )

unfoldable pub get_desktop : RelayState → String → Option DesktopConn
get_desktop s id = get id s.desktops

-- The loop of `removeDesktopBySocket` and `findDesktopId`: the first desktop with the socket.
unfoldable pub first_with_socket : Socket → Dict DesktopConn → Option String
first_with_socket socket [] = none
first_with_socket socket ((id, c) ∷ m) =
    if c.socket == socket then some id else first_with_socket socket m

unfoldable pub remove_desktop_by_socket : RelayState → Socket → Option String × RelayState
unfolding first_with_socket
remove_desktop_by_socket s socket = elim (first_with_socket socket s.desktops) [
  | none ↦ (none, s)
  | some id ↦ (some id, record s { desktops = delete id s.desktops })
]

-- `""` stands for "not registered".
unfoldable pub find_desktop_id : RelayState → Socket → String
unfolding first_with_socket
find_desktop_id s socket = Option.get_or (first_with_socket socket s.desktops) ""

-- Each desktop stands under its own id, once, and no two have the same socket.
pub record IsRegistry (m : Dict DesktopConn) : Type 0 where
  pub distinct : IsDict m
  pub own_id : (i : String) (c : DesktopConn) → get i m ≡ some c → c.desktop_id ≡ i
  pub one_id :
      (i j : String) (c d : DesktopConn)
      → get i m ≡ some c
      → get j m ≡ some d
      → c.socket ≡ d.socket
      → i ≡ j

module _ (id : String) (socket : Socket) (m : Dict DesktopConn) (r : IsRegistry m) where
  get-drop_other_ids :
      (j : String) (d : DesktopConn)
      → get j (drop_other_ids id socket m) ≡ some d
      → (get j m ≡ some d) × ((d.socket ≡ socket) → j ≡ id)
  unfolding drop_other_ids
  get-drop_other_ids j d h = ground (
    arith,
    get-keep_if (λ j c. not (c.socket == socket && not (str_eq j id))) j m r.distinct,
    eq_iff j id,
  )

module _ (s : RelayState) (p : DesktopRegisterParams) (socket : Socket) where
  abbrev after_register : Dict DesktopConn
  after_register = (register_desktop s p socket).0.desktops

  get-register_desktop :
      (j : String)
      → get j after_register ≡ (
          if str_eq p.desktop_id j
          then some (desktop_conn p socket)
          else get j (drop_other_ids p.desktop_id socket s.desktops))
  unfolding register_desktop
  get-register_desktop j = get-set p.desktop_id j _ _

  module _ (r : IsRegistry s.desktops) where
    -- An entry after a registration is the new one, or an old one with another id and socket.
    entry_after :
        (j : String) (d : DesktopConn)
        → get j after_register ≡ some d
        → ((p.desktop_id ≡ j) × (d ≡ desktop_conn p socket))
          ⊎ ((get j s.desktops ≡ some d) × (d.socket ≢ socket))
    entry_after j d h = elim (str_eq-cases p.desktop_id j) [
      | inl (t, e) ↦ inl (e, ground (arith, get-register_desktop j))
      | inr (t, n) ↦
          let old =
            get-drop_other_ids p.desktop_id socket s.desktops r j d
              (ground (arith, get-register_desktop j)) in
          inr (old.0, λ q. n (sym (old.1 q)))
    ]

    own_id_after : (i : String) (c : DesktopConn) → get i after_register ≡ some c → c.desktop_id ≡ i
    unfolding desktop_conn
    own_id_after i c h = elim (entry_after i c h) [
      | inl (e, f) ↦ ap (λ (x : DesktopConn). x.desktop_id) f ∙ e
      | inr (old, _) ↦ r.own_id i c old
    ]

    one_id_after :
        (i j : String) (c d : DesktopConn)
        → get i after_register ≡ some c
        → get j after_register ≡ some d
        → c.socket ≡ d.socket
        → i ≡ j
    unfolding desktop_conn
    one_id_after i j c d hi hj e =
        ground (arith, entry_after i c hi, entry_after j d hj, r.one_id i j c d)

    -- A registration keeps the registry well formed: ids are distinct keys, each entry stands under
    -- its own id, and a socket speaks for at most one desktop.
    pub register_desktop-IsRegistry : IsRegistry after_register
    unfolding register_desktop
    register_desktop-IsRegistry = record {
      distinct = set-IsDict _ _ _ (keep_if-IsDict _ s.desktops r.distinct);
      own_id = own_id_after;
      one_id = one_id_after;
    }
