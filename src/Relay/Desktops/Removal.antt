-- ===== src/Relay/Desktops/Removal.antt =====
-- The registry of desktops when a socket closes: `removeDesktopBySocket` and `findDesktopId`.
use cucoudle.Prelude.{
  String, ◌≡◌, ◌≢◌, not, ◌&&◌, none, some, [], ◌∷◌, arith, str_eq, eq_iff, ◌==◌, inl, inr,
  Option-cases, Bool-cases, ◌↔◌,
}
use cucoudle.Prelude.Dict.{
  Dict, get, delete, get-delete, has-get, IsDict, delete-IsDict, get-keep_if,
}
use text.Mathlib.TextPositions.{eq_refl}
use cucoudle.Protocol.Params.{DesktopRegisterParams}
use cucoudle.Relay.State.{RelayState, DesktopConn, Socket, closed}
use cucoudle.Relay.Desktops.{
  first_with_socket, remove_desktop_by_socket, find_desktop_id, register_desktop, desktop_conn,
  IsRegistry, register_desktop-IsRegistry, entry_after, get-register_desktop, after_register,
}

no_socket :
    (socket : Socket) (m : Dict DesktopConn) (j : String) (d : DesktopConn)
    → first_with_socket socket m ≡ none
    → get j m ≡ some d
    → d.socket ≢ socket
unfolding first_with_socket get
no_socket socket [] j d h e = λ q. cc
no_socket socket ((i, c) ∷ m) j d h e = ground (arith, no_socket socket m j d)

found_socket :
    (socket : Socket) (m : Dict DesktopConn) (i : String)
    → IsDict m
    → first_with_socket socket m ≡ some i
    → (c : DesktopConn) × (get i m ≡ some c) × (c.socket ≡ socket)
unfolding first_with_socket get
found_socket socket [] i d h = absurd (ground arith)
found_socket socket ((j, c) ∷ m) i d h = elim (Bool-cases (c.socket == socket)) [
  | inl e ↦ (c, ground (arith, eq_iff j i), ground arith)
  | inr e ↦
      let (x, found, same) = found_socket socket m i d.1 (ground arith) in
      (x, ground (arith, found, eq_iff j i, has-get i m), same)
]

module _ (s : RelayState) (socket : Socket) (r : IsRegistry s.desktops) where
  abbrev after_removal : Dict DesktopConn
  after_removal = (remove_desktop_by_socket s socket).1.desktops

  kept_all : first_with_socket socket s.desktops ≡ none → after_removal ≡ s.desktops
  unfolding remove_desktop_by_socket
  kept_all e = ground arith

  deleted :
      (i : String)
      → first_with_socket socket s.desktops ≡ some i
      → after_removal ≡ delete i s.desktops
  unfolding remove_desktop_by_socket
  deleted i e = ground arith

  -- After a removal the registry holds exactly the entries whose socket is another one, unchanged.
  pub get-remove_desktop_by_socket :
      (j : String) (d : DesktopConn)
      → (get j after_removal ≡ some d) ↔ ((get j s.desktops ≡ some d) × (d.socket ≢ socket))
  get-remove_desktop_by_socket j d = elim (Option-cases (first_with_socket socket s.desktops)) [
    | inl e ↦ rw (kept_all e) ((λ h. (h, no_socket socket s.desktops j d e h)), (λ h. h.0))
    | inr (i, e) ↦
        let (c, found, same) = found_socket socket s.desktops i r.distinct e in
        rw (deleted i e, get-delete i j s.desktops)
          (
            (λ h. ground (arith, h, eq_iff i j, found, same, r.one_id i j c d)),
            (λ h. ground (arith, h, eq_iff i j, found, same)),
          )
  ]

  -- Removal keeps the registry well formed.
  pub remove_desktop_by_socket-IsRegistry : IsRegistry after_removal
  remove_desktop_by_socket-IsRegistry = record {
    distinct = elim (Option-cases (first_with_socket socket s.desktops)) [
      | inl e ↦ rw (kept_all e) r.distinct
      | inr (i, e) ↦ rw (deleted i e) (delete-IsDict i s.desktops r.distinct)
    ];
    own_id = λ i c h. r.own_id i c ((get-remove_desktop_by_socket i c).0 h).0;
    one_id = λ i j c d hi hj.
        r.one_id i j c d ((get-remove_desktop_by_socket i c).0 hi).0
          ((get-remove_desktop_by_socket j d).0 hj).0;
  }

  -- The id under which a socket is found is the one its entry stands under, and a socket that
  -- stands under a non-empty id is found.
  pub find_desktop_id_lem :
      (i : String)
      → i ≢ ""
      → (find_desktop_id s socket ≡ i)
        ↔ ((c : DesktopConn) × (get i s.desktops ≡ some c) × (c.socket ≡ socket))
  unfolding find_desktop_id
  find_desktop_id_lem i n = elim (Option-cases (first_with_socket socket s.desktops)) [
    | inl e ↦ (
      (λ h. absurd (ground (arith, e, h, n))),
      (λ h. absurd (no_socket socket s.desktops i h.0 e h.1 h.2)),
    )
    | inr (j, e) ↦
        let (c, found, same) = found_socket socket s.desktops j r.distinct e in
        (
          (λ h. (c, ground (arith, e, h, found), same)),
          (λ h. ground (arith, e, r.one_id i j h.0 c)),
        )
  ]

module _ (s : RelayState) (p : DesktopRegisterParams) (socket : Socket)
    (r : IsRegistry s.desktops) where
  old_absent :
      (old : DesktopConn) (j : String) (d : DesktopConn)
      → get p.desktop_id s.desktops ≡ some old
      → old.socket ≢ socket
      → get j (after_register s p socket) ≡ some d
      → d.socket ≢ old.socket
  unfolding desktop_conn
  old_absent old j d e n h = λ q. ground (
    arith,
    n,
    entry_after s p socket r j d h,
    r.one_id j p.desktop_id d old,
    get-register_desktop s p socket j,
    eq_iff p.desktop_id j,
  )

  not_found :
      (m : Dict DesktopConn) (old : Socket)
      → IsDict m
      → ((j : String) (d : DesktopConn) → get j m ≡ some d → d.socket ≢ old)
      → first_with_socket old m ≡ none
  not_found m old k all = elim (Option-cases (first_with_socket old m)) [
    | inl e ↦ e
    | inr (i, e) ↦ let (c, found, same) = found_socket old m i k e in absurd (all i c found same)
  ]

  replaced_effects :
      (old : DesktopConn)
      → get p.desktop_id s.desktops ≡ some old
      → old.socket ≢ socket
      → (register_desktop s p socket).1 ≡ closed old.socket 4001 "replaced by a new connection" ∷ []
  unfolding register_desktop
  replaced_effects old e n = ground (
    arith,
    n,
    get-keep_if (λ j c. not (c.socket == socket && not (str_eq j p.desktop_id))) p.desktop_id
        s.desktops r.distinct,
    eq_refl p.desktop_id,
  )

  unfound_removal :
      (t : RelayState) (old : Socket)
      → first_with_socket old t.desktops ≡ none
      → remove_desktop_by_socket t old ≡ (none, t)
  unfolding remove_desktop_by_socket
  unfound_removal t old e = ground arith

  -- A desktop that connects again takes the place of its old connection, which is closed with code
  -- 4001; the close of that old socket, when it is reported, then removes nothing.
  pub remove-register_desktop :
      (old : DesktopConn)
      → get p.desktop_id s.desktops ≡ some old
      → old.socket ≢ socket
      → ((register_desktop s p socket).1
          ≡ closed old.socket 4001 "replaced by a new connection" ∷ [])
        × (remove_desktop_by_socket (register_desktop s p socket).0 old.socket
            ≡ (none, (register_desktop s p socket).0))
  remove-register_desktop old e n = (
    replaced_effects old e n,
    unfound_removal _ old.socket (
        not_found _ old.socket (register_desktop-IsRegistry s p socket r).distinct
          (λ j d h. old_absent old j d e n h)),
  )
