-- ===== src/Relay/Links/Grouping.antt =====
-- Each link stands under its own desktop, and no set of links is empty.
use mathlib.Core.Option
use cucoudle.Prelude.{
  String, ◌≡◌, ◌≢◌, refl, sym, false, some, List, [], ◌∷◌, ◌++◌, ◌==◌, eq_iff, arith, inl, inr,
  Bool-cases, Option-cases, All, All-append, str_eq-cases, subst,
}
use cucoudle.Prelude.Dict.{Dict, get, set, has, has-set}
use cucoudle.Relay.State.{RelayState, MobileConn, Socket}
use cucoudle.Relay.Pending.{drop_pending}
use cucoudle.Relay.Links.{
  link_mobile, unlink_first, shrink, unlink_from, unlink_mobile_by_socket, mobiles_for_desktop,
}

abbrev pub AllOf : String → List MobileConn → Type 0
AllOf id = All (λ c. c.desktop_id ≡ id)

abbrev pub IsGrouped : Dict (List MobileConn) → Type 0
IsGrouped [] = Unit
IsGrouped ((id, cs) ∷ m) = (has id m ≡ false) × (cs ≢ []) × AllOf id cs × IsGrouped m

append-ne-nil : (cs : List MobileConn) (c : MobileConn) → cs ++ c ∷ [] ≢ []
append-ne-nil [] c = λ e. cc
append-ne-nil (d ∷ cs) c = λ e. cc

set-IsGrouped :
    (id : String) (ds : List MobileConn) (m : Dict (List MobileConn))
    → ds ≢ []
    → AllOf id ds
    → IsGrouped m
    → IsGrouped (set id ds m)
unfolding set has
set-IsGrouped id ds [] n a g = (refl, n, a, tt)
set-IsGrouped id ds ((j, cs) ∷ m) n a g = elim (str_eq-cases j id) [
  | inl (y, p) ↦ rw y (subst (λ (i : String). has i m ≡ false) p g.0, n, a, g.3)
  | inr (y, p) ↦ rw y (
    ground (arith, g.0, p, has-set id j ds m, eq_iff id j),
    g.1,
    g.2,
    set-IsGrouped id ds m n a g.3,
  )
]

AllOf-group :
    (id : String) (m : Dict (List MobileConn))
    → IsGrouped m
    → AllOf id (Option.get_or (get id m) [])
unfolding get
AllOf-group id [] g = tt
AllOf-group id ((j, cs) ∷ m) g = elim (str_eq-cases j id) [
  | inl (y, p) ↦ rw y (subst (λ (i : String). AllOf i cs) p g.2)
  | inr (y, p) ↦ rw y (AllOf-group id m g.3)
]

-- The phones to which a desktop's events go are linked to that desktop.
pub mobiles_for_desktop-AllOf :
    (s : RelayState) (id : String) → IsGrouped s.links → AllOf id (mobiles_for_desktop s id)
unfolding mobiles_for_desktop
mobiles_for_desktop-AllOf s id g = AllOf-group id s.links g

-- A link keeps the links grouped by desktop.
pub link_mobile-IsGrouped :
    (s : RelayState) (c : MobileConn) → IsGrouped s.links → IsGrouped (link_mobile s c).links
unfolding link_mobile
link_mobile-IsGrouped s c g =
    set-IsGrouped c.desktop_id _ s.links (append-ne-nil _ c)
      (All-append _ _ (c ∷ []) (AllOf-group c.desktop_id s.links g) (refl, tt)) g

unlink_first-AllOf :
    (socket : Socket) (id : String) (cs : List MobileConn) (c : MobileConn) (rest : List MobileConn)
    → unlink_first socket cs ≡ some (c, rest)
    → AllOf id cs
    → AllOf id rest × (c.desktop_id ≡ id)
unfolding unlink_first
unlink_first-AllOf socket id [] c rest h a = absurd (ground arith)
unlink_first-AllOf socket id (d ∷ cs) c rest h a = elim (Bool-cases (d.socket == socket)) [
  | inl y ↦
      let same : rest ≡ cs = ground (arith, h, y) in
      let found : c ≡ d = ground (arith, h, y) in
      (
        subst (AllOf id) (sym same) a.1,
        subst (λ (x : MobileConn). x.desktop_id ≡ id) (sym found) a.0,
      )
  | inr n ↦ elim (Option-cases (unlink_first socket cs)) [
    | inl e ↦ absurd (ground (arith, h, n, e))
    | inr ((c', rest'), e) ↦
        let same : rest ≡ d ∷ rest' = ground (arith, h, n, e) in
        let found : c ≡ c' = ground (arith, h, n, e) in
        let (more, own) = unlink_first-AllOf socket id cs c' rest' e a.1 in
        (
          subst (AllOf id) (sym same) (a.0, more),
          subst (λ (x : MobileConn). x.desktop_id ≡ id) (sym found) own,
        )
  ]
]

shrink-IsGrouped :
    (id : String) (cs : List MobileConn) (m : Dict (List MobileConn))
    → has id m ≡ false
    → AllOf id cs
    → IsGrouped m
    → IsGrouped (shrink id cs m)
unfolding shrink
shrink-IsGrouped id [] m h a g = g
shrink-IsGrouped id (c ∷ cs) m h a g = (h, (λ e. cc), a, g)

has-shrink :
    (j id : String) (cs : List MobileConn) (m : Dict (List MobileConn))
    → has j ((id, cs) ∷ m) ≡ false
    → has j (shrink id cs m) ≡ false
unfolding shrink has
has-shrink j id [] m h = ground arith
has-shrink j id (c ∷ cs) m h = h

-- The links stay grouped, and no desktop gets a group that had none.
abbrev Shrinks : Dict (List MobileConn) → Dict (List MobileConn) → Type 0
Shrinks m rest = IsGrouped rest × ((j : String) → has j m ≡ false → has j rest ≡ false)

keep-Shrinks :
    (i : String) (cs : List MobileConn) (m rest : Dict (List MobileConn))
    → IsGrouped ((i, cs) ∷ m)
    → Shrinks m rest
    → Shrinks ((i, cs) ∷ m) ((i, cs) ∷ rest)
unfolding has
keep-Shrinks i cs m rest g h = ((h.1 i g.0, g.1, g.2, h.0), λ j e. ground (arith, e, h.1 j))

unlink_from-Shrinks :
    (socket : Socket) (m : Dict (List MobileConn)) (id : String) (c : MobileConn)
    (rest : Dict (List MobileConn))
    → unlink_from socket m ≡ some (id, c, rest)
    → IsGrouped m
    → Shrinks m rest
unfolding unlink_from has
unlink_from-Shrinks socket [] id c rest h g = absurd (ground arith)
unlink_from-Shrinks socket ((i, cs) ∷ m) id c rest h g =
    elim (Option-cases (unlink_first socket cs)) [
      | inl e ↦ elim (Option-cases (unlink_from socket m)) [
        | inl f ↦ absurd (ground (arith, h, e, f))
        | inr ((id', c', rest'), f) ↦
            let same : rest ≡ (i, cs) ∷ rest' = ground (arith, h, e, f) in
            subst (Shrinks ((i, cs) ∷ m)) (sym same)
              (keep-Shrinks i cs m rest' g (unlink_from-Shrinks socket m id' c' rest' f g.3))
      ]
      | inr ((c', others), e) ↦
          let same : rest ≡ shrink i others m = ground (arith, h, e) in
          subst (Shrinks ((i, cs) ∷ m)) (sym same) (
            shrink-IsGrouped i others m g.0 (unlink_first-AllOf socket i cs c' others e g.2).0 g.3,
            λ j n. has-shrink j i others m n,
          )
    ]

-- A phone's close keeps the links grouped by desktop.
pub unlink_mobile_by_socket-IsGrouped :
    (s : RelayState) (socket : Socket)
    → IsGrouped s.links
    → IsGrouped (unlink_mobile_by_socket s socket).1.links
unfolding unlink_mobile_by_socket drop_pending
unlink_mobile_by_socket-IsGrouped s socket g = elim (Option-cases (unlink_from socket s.links)) [
  | inl e ↦ rw (e, unlink_mobile_by_socket) g
  | inr ((id, c, rest), e) ↦
      rw (e, unlink_mobile_by_socket) (unlink_from-Shrinks socket s.links id c rest e g).0
]
