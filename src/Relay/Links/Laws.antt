-- ===== src/Relay/Links/Laws.antt =====
-- What linking and unlinking a phone do to the links and to the requests that wait.
use cucoudle.Prelude.{
  ℕ, ◌+◌, ◌-◌, ◌<◌, String, ◌≡◌, refl, not, ◌&&◌, none, some, List, [], ◌∷◌, ◌==◌, if◌then◌else◌,
  elem, elem-filter, arith, inl, inr, Option-cases, count,
}
use cucoudle.Prelude.Dict.{Dict, get, filter_some, get-keep_if}
use cucoudle.Relay.State.{RelayState, MobileConn, Socket}
use cucoudle.Relay.Pending.{drop_pending}
use cucoudle.Relay.Pending.Timing.{IsTimed, IsTimed-of, drop_pending-IsTimed}
use cucoudle.Relay.Links.{
  relay_capabilities, negotiate_capabilities, unlink_first, shrink, unlink_from,
  unlink_mobile_by_socket,
}

-- A capability is negotiated exactly when the phone, the relay and the desktop all offer it.
pub elem-negotiate_capabilities :
    (c : String) (mobile_offered desktop_offered : List String)
    → elem c (negotiate_capabilities mobile_offered desktop_offered)
      ≡ (elem c mobile_offered && (elem c relay_capabilities && elem c desktop_offered))
unfolding negotiate_capabilities
elem-negotiate_capabilities c m d = elem-filter (λ x. elem x relay_capabilities && elem x d) c m

-- How many connections of a set have the socket.
abbrev pub in_set : Socket → List MobileConn → ℕ
in_set socket = count (λ c. c.socket == socket)

-- How many links have the socket.
unfoldable pub linked : Socket → Dict (List MobileConn) → ℕ
linked socket [] = 0
linked socket ((_, cs) ∷ m) = in_set socket cs + linked socket m

unlink_first-eq-none :
    (socket : Socket) (cs : List MobileConn) → unlink_first socket cs ≡ none → in_set socket cs ≡ 0
unfolding unlink_first
unlink_first-eq-none socket [] h = refl
unlink_first-eq-none socket (c ∷ cs) h = ground (arith, unlink_first-eq-none socket cs)

unlink_first-eq-some :
    (socket k : Socket) (cs : List MobileConn) (c : MobileConn) (rest : List MobileConn)
    → unlink_first socket cs ≡ some (c, rest)
    → in_set k cs ≡ in_set k rest + (if socket == k then 1 else 0)
unfolding unlink_first
unlink_first-eq-some socket k [] c rest h = absurd (ground arith)
unlink_first-eq-some socket k (d ∷ cs) c rest h = elim (Option-cases (unlink_first socket cs)) [
  | inl e ↦ ground (arith, e)
  | inr ((c', rest'), e) ↦ ground (arith, e, unlink_first-eq-some socket k cs c' rest')
]

linked-shrink :
    (k : Socket) (id : String) (cs : List MobileConn) (m : Dict (List MobileConn))
    → linked k (shrink id cs m) ≡ in_set k cs + linked k m
unfolding linked shrink
linked-shrink k id [] m = omega arith
linked-shrink k id (c ∷ cs) m = refl

unlink_from-eq-none :
    (socket : Socket) (m : Dict (List MobileConn))
    → unlink_from socket m ≡ none
    → linked socket m ≡ 0
unfolding unlink_from linked
unlink_from-eq-none socket [] h = refl
unlink_from-eq-none socket ((id, cs) ∷ m) h =
    ground (arith, unlink_from-eq-none socket m, unlink_first-eq-none socket cs)

unlink_from-eq-some :
    (socket k : Socket) (m : Dict (List MobileConn)) (id : String) (c : MobileConn)
    (rest : Dict (List MobileConn))
    → unlink_from socket m ≡ some (id, c, rest)
    → linked k m ≡ linked k rest + (if socket == k then 1 else 0)
unfolding unlink_from linked
unlink_from-eq-some socket k [] id c rest h = absurd (ground arith)
unlink_from-eq-some socket k ((j, cs) ∷ m) id c rest h =
    elim (Option-cases (unlink_first socket cs)) [
      | inl e ↦ elim (Option-cases (unlink_from socket m)) [
        | inl f ↦ absurd (ground (arith, e, f))
        | inr ((id', c', rest'), f) ↦
            ground (arith, e, f, unlink_from-eq-some socket k m id' c' rest')
      ]
      | inr ((c', others), e) ↦
          ground (arith, e, unlink_first-eq-some socket k cs c' others, linked-shrink k j others m)
    ]

module _ (s : RelayState) (socket : Socket) where
  abbrev unlinked : RelayState
  unlinked = (unlink_mobile_by_socket s socket).1

  -- The close of a phone's socket takes away one link of that socket, if there is one, and none of
  -- another socket.
  pub linked-unlink_mobile_by_socket :
      (k : Socket)
      → linked k unlinked.links ≡ (if socket == k then linked k s.links - 1 else linked k s.links)
  unfolding unlink_mobile_by_socket drop_pending
  linked-unlink_mobile_by_socket k = elim (Option-cases (unlink_from socket s.links)) [
    | inl e ↦ ground (arith, e, unlink_from-eq-none socket s.links e)
    | inr ((id, c, rest), e) ↦ ground (arith, e, unlink_from-eq-some socket k s.links id c rest e)
  ]

  -- If the socket had a link, none of the requests that it sent waits any longer, and every other
  -- request stays as it is.
  pub get-unlink_mobile_by_socket :
      IsTimed s
      → 0 < linked socket s.links
      → (k : String)
      → get k unlinked.pending
        ≡ filter_some (λ q. not (q.mobile.socket == socket)) (get k s.pending)
  unfolding unlink_mobile_by_socket drop_pending
  get-unlink_mobile_by_socket v h k = ground (
    arith,
    h,
    unlink_from-eq-none socket s.links,
    get-keep_if (λ _ q. not (q.mobile.socket == socket)) k s.pending v.distinct,
  )

  drop_after :
      (links : Dict (List MobileConn))
      → IsTimed s
      → IsTimed (drop_pending (λ q. q.mobile.socket == socket) (record s { links = links }))
  drop_after links v = drop_pending-IsTimed _ (IsTimed-of s _ v refl refl refl) _

  -- A phone's close keeps requests and timers in step.
  pub unlink_mobile_by_socket-IsTimed : IsTimed s → IsTimed unlinked
  unfolding unlink_mobile_by_socket
  unlink_mobile_by_socket-IsTimed v = elim (Option-cases (unlink_from socket s.links)) [
    | inl e ↦ rw (e, unlinked, unlink_mobile_by_socket) v
    | inr ((id, c, rest), e) ↦ rw (e, unlinked, unlink_mobile_by_socket) (drop_after rest v)
  ]
