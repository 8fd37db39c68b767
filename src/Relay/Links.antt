-- ===== src/Relay/Links.antt =====
-- The phones that are linked to desktops: `linkMobile`, `unlinkMobileBySocket`,
-- `mobilesForDesktop` of apps/relay/src/state.ts, `findMobileConn` of handlers.ts, and
-- `negotiateCapabilities`.
pub mod Laws
pub mod Finding
pub mod Grouping
use mathlib.Core.Option
use cucoudle.Prelude.{
  ℕ, String, Bool, not, ◌&&◌, Option, none, some, List, [], ◌∷◌, ◌++◌, ◌==◌, if◌then◌else◌, filter,
  elem,
}
use cucoudle.Prelude.Dict.{Dict, get, set}
use cucoudle.Relay.State.{RelayState, MobileConn, Socket}
use cucoudle.Relay.Pending.{drop_pending}

-- PROTOCOL_CAPABILITIES, which the relay offers as it is.
abbrev pub relay_capabilities : List String
relay_capabilities = "interaction.structured" ∷ []

unfoldable pub negotiate_capabilities : List String → List String → List String
negotiate_capabilities mobile_offered desktop_offered =
    filter (λ c. elem c relay_capabilities && elem c desktop_offered) mobile_offered

unfoldable pub link_mobile : RelayState → MobileConn → RelayState
link_mobile s conn = record s {
  links = set conn.desktop_id (Option.get_or (get conn.desktop_id s.links) [] ++ conn ∷ []) s.links;
}

-- What is found in the rest of a set, or of the map, with the head put back.
abbrev pub keep_conn :
    MobileConn → Option (MobileConn × List MobileConn) → Option (MobileConn × List MobileConn)
keep_conn c none = none
keep_conn c (some (found, cs)) = some (found, c ∷ cs)

abbrev pub Found : Type 0
Found = Option (String × MobileConn × Dict (List MobileConn))

abbrev pub keep_set : String → List MobileConn → Found → Found
keep_set id cs none = none
keep_set id cs (some (found_id, found, m)) = some (found_id, found, (id, cs) ∷ m)

-- The first connection of a set with the socket, and the set without it.
unfoldable pub unlink_first : Socket → List MobileConn → Option (MobileConn × List MobileConn)
unlink_first socket [] = none
unlink_first socket (c ∷ cs) =
    let rest = keep_conn c (unlink_first socket cs) in
    if c.socket == socket then some (c, cs) else rest

-- An empty set is dropped from the map.
unfoldable pub shrink : String → List MobileConn → Dict (List MobileConn) → Dict (List MobileConn)
shrink id [] m = m
shrink id (c ∷ cs) m = (id, c ∷ cs) ∷ m

-- The two loops of `unlinkMobileBySocket` over the links: the desktop and the connection found,
-- and the links without it.
unfoldable pub unlink_from : Socket → Dict (List MobileConn) → Found
unfolding unlink_first shrink
unlink_from socket [] = none
unlink_from socket ((id, cs) ∷ m) =
    let rest = keep_set id cs (unlink_from socket m) in
    elim (unlink_first socket cs) [
      | some (c, others) ↦ some (id, c, shrink id others m)
      | none ↦ rest
    ]

pub record Unlinked : Type 0 where
  pub mobile_device_id : String
  pub desktop_id : String

unfoldable pub unlink_mobile_by_socket : RelayState → Socket → Option Unlinked × RelayState
unfolding unlink_from
unlink_mobile_by_socket s socket = elim (unlink_from socket s.links) [
  | none ↦ (none, s)
  | some (id, conn, links) ↦ (
    some (record { mobile_device_id = conn.mobile_device_id; desktop_id = id }),
    drop_pending (λ q. q.mobile.socket == socket) (record s { links = links }),
  )
]

unfoldable pub mobiles_for_desktop : RelayState → String → List MobileConn
mobiles_for_desktop s id = Option.get_or (get id s.links) []

-- The first connection with the socket.
unfoldable pub first_conn : Socket → List MobileConn → Option MobileConn
first_conn socket [] = none
first_conn socket (c ∷ cs) = if c.socket == socket then some c else first_conn socket cs

unfoldable pub conn_in : Socket → Dict (List MobileConn) → Option MobileConn
unfolding first_conn
conn_in socket [] = none
conn_in socket ((_, cs) ∷ m) = elim (first_conn socket cs) [
  | some c ↦ some c
  | none ↦ conn_in socket m
]

unfoldable pub find_mobile_conn : RelayState → Socket → Option MobileConn
unfolding conn_in
find_mobile_conn s socket = conn_in socket s.links
