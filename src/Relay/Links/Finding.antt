-- ===== src/Relay/Links/Finding.antt =====
-- Which sockets count as paired: `findMobileConn` of apps/relay/src/handlers.ts.
use cucoudle.Prelude.{◌<◌, ◌≡◌, refl, none, some, List, [], ◌∷◌, arith, inl, inr, ◌↔◌, Option-cases}
use cucoudle.Prelude.Dict.{Dict}
use cucoudle.Relay.State.{RelayState, MobileConn, Socket}
use cucoudle.Relay.Links.{first_conn, conn_in, find_mobile_conn}
use cucoudle.Relay.Links.Laws.{in_set, linked}

first_conn-in_set :
    (socket : Socket) (cs : List MobileConn) → first_conn socket cs ≡ none → in_set socket cs ≡ 0
unfolding first_conn
first_conn-in_set socket [] h = refl
first_conn-in_set socket (c ∷ cs) h = ground (arith, first_conn-in_set socket cs)

first_conn-socket :
    (socket : Socket) (cs : List MobileConn) (c : MobileConn)
    → first_conn socket cs ≡ some c
    → (c.socket ≡ socket) × (0 < in_set socket cs)
unfolding first_conn
first_conn-socket socket [] c h = absurd (ground arith)
first_conn-socket socket (d ∷ cs) c h = ground (arith, first_conn-socket socket cs c)

conn_in-linked :
    (socket : Socket) (m : Dict (List MobileConn)) → conn_in socket m ≡ none → linked socket m ≡ 0
unfolding conn_in linked
conn_in-linked socket [] h = refl
conn_in-linked socket ((id, cs) ∷ m) h =
    ground (arith, conn_in-linked socket m, first_conn-in_set socket cs)

conn_in-socket :
    (socket : Socket) (m : Dict (List MobileConn)) (c : MobileConn)
    → conn_in socket m ≡ some c
    → (c.socket ≡ socket) × (0 < linked socket m)
unfolding conn_in linked
conn_in-socket socket [] c h = absurd (ground arith)
conn_in-socket socket ((id, cs) ∷ m) c h = elim (Option-cases (first_conn socket cs)) [
  | inl e ↦ ground (arith, e, conn_in-socket socket m c)
  | inr (d, e) ↦ ground (arith, e, first_conn-socket socket cs d)
]

-- A socket counts as paired exactly while it has a link.
pub find_mobile_conn-linked :
    (s : RelayState) (socket : Socket)
    → (find_mobile_conn s socket ≡ none) ↔ (linked socket s.links ≡ 0)
unfolding find_mobile_conn
find_mobile_conn-linked s socket = (
  conn_in-linked socket s.links,
  λ z. elim (Option-cases (conn_in socket s.links)) [
    | inl e ↦ e
    | inr (c, e) ↦ absurd (omega (arith, (conn_in-socket socket s.links c e).1))
  ],
)
