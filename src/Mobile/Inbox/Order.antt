-- ===== src/Mobile/Inbox/Order.antt =====
-- Which sessions and facts the inbox shows, and in which order.
use cucoudle.Prelude.{
  ℕ, zero, suc, ◌≡◌, sym, ◌≤◌, refl, ◌∙◌, String, Bool, true, false, not, ◌&&◌, Option, none, some,
  List, [], ◌∷◌, filter, count, take, drop, length, length-take, All, arith, ltb, str_eq, eq_iff,
  if◌then◌else◌, Bool-cases, inl, inr,
}
use cucoudle.Prelude.Dict.{get-set}
use cucoudle.Prelude.Sorting.{sort_by, All-sort_by}
use cucoudle.Prelude.Sorted.{IsSorted, count-sort_by, sort_by-IsSorted}
use cucoudle.Protocol.Json.{Json}
use cucoudle.Mobile.State.{SessionObject, ActivityFact, SessionState, attention_dismissed}
use cucoudle.Mobile.Reducer.{session_reducer}
use cucoudle.Mobile.Inbox.{
  SessionFilter, attention_priority, known_sessions, newest_first, waiting_first,
  make_dismissal_key, is_card, less_urgent, card_before, select_attention_cards, is_shown,
  select_sessions, newest_fact, select_recent_activity,
}

module _ {ℓ} {A : Type ℓ} where
  All-filtered : (p : A → Bool) (xs : List A) → All (λ x. p x ≡ true) (filter p xs)
  All-filtered p [] = tt
  All-filtered p (x ∷ xs) = elim (Bool-cases (p x)) [
    | inl e ↦ rw e (e, All-filtered p xs)
    | inr e ↦ rw e (All-filtered p xs)
  ]

module _ (date : Option Json → ℕ) where
  -- Two sessions by urgency, then by date.
  by_urgency : Option ℕ → Option ℕ → ℕ → ℕ → Bool
  by_urgency p q d e = if less_urgent p q then true else if less_urgent q p then false else ltb e d

  by_urgency_trans :
      (p q r : Option ℕ) (d e f : ℕ)
      → by_urgency p q d e ≡ true
      → by_urgency q r e f ≡ true
      → by_urgency p r d f ≡ true
  unfolding by_urgency
  by_urgency_trans none none none d e f h k = ground (arith, h, k)
  by_urgency_trans none none (some r) d e f h k = ground (arith, h, k)
  by_urgency_trans none (some q) none d e f h k = ground (arith, h, k)
  by_urgency_trans none (some q) (some r) d e f h k = ground (arith, h, k)
  by_urgency_trans (some p) none none d e f h k = ground (arith, h, k)
  by_urgency_trans (some p) none (some r) d e f h k = ground (arith, h, k)
  by_urgency_trans (some p) (some q) none d e f h k = ground (arith, h, k)
  by_urgency_trans (some p) (some q) (some r) d e f h k = ground (arith, h, k)

  by_urgency_asym :
      (p q : Option ℕ) (d e : ℕ) → by_urgency p q d e ≡ true → by_urgency q p e d ≡ false
  unfolding by_urgency
  by_urgency_asym none none d e h = ground (arith, h)
  by_urgency_asym none (some q) d e h = ground (arith, h)
  by_urgency_asym (some p) none d e h = ground (arith, h)
  by_urgency_asym (some p) (some q) d e h = ground (arith, h)

  card_before_trans :
      (x y z : SessionObject)
      → card_before date x y ≡ true
      → card_before date y z ≡ true
      → card_before date x z ≡ true
  unfolding card_before by_urgency
  card_before_trans x y z h k =
      by_urgency_trans (attention_priority x) (attention_priority y) (attention_priority z) _ _ _ h
        k

  card_before_asym :
      (x y : SessionObject) → card_before date x y ≡ true → card_before date y x ≡ false
  unfolding card_before by_urgency
  card_before_asym x y h = by_urgency_asym (attention_priority x) (attention_priority y) _ _ h

  waiting_first_trans :
      (x y z : SessionObject)
      → waiting_first date x y ≡ true
      → waiting_first date y z ≡ true
      → waiting_first date x z ≡ true
  unfolding waiting_first newest_first
  waiting_first_trans x y z h k = ground (arith, h, k)

  waiting_first_asym :
      (x y : SessionObject) → waiting_first date x y ≡ true → waiting_first date y x ≡ false
  unfolding waiting_first newest_first
  waiting_first_asym x y h = ground (arith, h)

  newest_fact_trans :
      (x y z : ActivityFact)
      → newest_fact date x y ≡ true
      → newest_fact date y z ≡ true
      → newest_fact date x z ≡ true
  unfolding newest_fact
  newest_fact_trans x y z h k = ground (arith, h, k)

  newest_fact_asym :
      (x y : ActivityFact) → newest_fact date x y ≡ true → newest_fact date y x ≡ false
  unfolding newest_fact
  newest_fact_asym x y h = ground (arith, h)

pub select_attention_cards_lem :
    (to_text : Option Json → String) (date : Option Json → ℕ) (s : SessionState)
    (p : SessionObject → Bool)
    → let cards = select_attention_cards to_text date s in
      IsSorted (card_before date) cards
      × All (λ c. is_card to_text s c ≡ true) cards
      × (count p cards
          ≡ count p (filter (is_card to_text s) (known_sessions s.sessions_by_id s.session_ids)))
unfolding select_attention_cards
select_attention_cards_lem to_text date s p =
    let listed = filter (is_card to_text s) (known_sessions s.sessions_by_id s.session_ids) in
    (
      sort_by-IsSorted (card_before date) (card_before_trans date) (card_before_asym date) listed,
      All-sort_by (λ c. is_card to_text s c ≡ true) (card_before date) listed
          (All-filtered (is_card to_text s) (known_sessions s.sessions_by_id s.session_ids)),
      count-sort_by (card_before date) p listed,
    )

-- The sessions of a filter are sorted, those that wait first and then from the newest on, all pass
-- the filter, and any test on sessions is passed by as many of them as of the listed sessions that
-- pass the filter.
pub select_sessions-IsSorted :
    (date : Option Json → ℕ) (s : SessionState) (choice : SessionFilter) (p : SessionObject → Bool)
    → let shown = select_sessions date s choice in
      IsSorted (waiting_first date) shown
      × All (λ c. is_shown choice c ≡ true) shown
      × (count p shown
          ≡ count p (filter (is_shown choice) (known_sessions s.sessions_by_id s.session_ids)))
unfolding select_sessions
select_sessions-IsSorted date s choice p =
    let listed = filter (is_shown choice) (known_sessions s.sessions_by_id s.session_ids) in
    (
      sort_by-IsSorted (waiting_first date) (waiting_first_trans date) (waiting_first_asym date)
          listed,
      All-sort_by (λ c. is_shown choice c ≡ true) (waiting_first date) listed
          (All-filtered (is_shown choice) (known_sessions s.sessions_by_id s.session_ids)),
      count-sort_by (waiting_first date) p listed,
    )

card_dismissed :
    (to_text : Option Json → String) (s : SessionState) (key : String) (c : SessionObject)
    → is_card to_text (session_reducer s (attention_dismissed key)) c
      ≡ (is_card to_text s c && not (str_eq (make_dismissal_key to_text c) key))
unfolding is_card session_reducer
card_dismissed to_text s key c = ground (
  arith,
  eq_iff (make_dismissal_key to_text c) key,
  eq_iff key (make_dismissal_key to_text c),
  get-set key (make_dismissal_key to_text c) true s.dismissed_attention_keys,
)

not_key :
    (to_text : Option Json → String) (s : SessionState) (key : String) (c : SessionObject)
    → (is_card to_text s c && not (str_eq (make_dismissal_key to_text c) key)) ≡ true
    → str_eq (make_dismissal_key to_text c) key ≡ false
not_key to_text s key c h = ground (arith, h)

module _ {ℓ κ μ} {A : Type ℓ} {P : A → Type κ} {Q : A → Type μ} (f : (x : A) → P x → Q x) where
  pub All-map : (xs : List A) → All P xs → All Q xs
  All-map [] a = tt
  All-map (x ∷ xs) a = (f x a.0, All-map xs a.1)

-- A card that is dismissed is gone, and nothing else is: after the reducer handled the dismissal of a
-- key, no attention card has this key, the sessions that qualify as a card are those that did before
-- less those with this key, and the sessions of each filter are unchanged.
pub dismissed_gone :
    (to_text : Option Json → String) (date : Option Json → ℕ) (s : SessionState) (key : String)
    (choice : SessionFilter) (c : SessionObject)
    → let t = session_reducer s (attention_dismissed key) in
      All
        (λ d. str_eq (make_dismissal_key to_text d) key ≡ false)
        (select_attention_cards to_text date t)
      × (is_card to_text t c
          ≡ (is_card to_text s c && not (str_eq (make_dismissal_key to_text c) key)))
      × (select_sessions date t choice ≡ select_sessions date s choice)
unfolding select_sessions session_reducer
dismissed_gone to_text date s key choice c =
    let t = session_reducer s (attention_dismissed key) in
    let (_, cards, _) = select_attention_cards_lem to_text date t (λ d. true) in
    (
      All-map
          (λ (d : SessionObject) (h : is_card to_text t d ≡ true).
            not_key to_text s key d (sym (card_dismissed to_text s key d) ∙ h))
          (select_attention_cards to_text date t) cards,
      card_dismissed to_text s key c,
      refl,
    )

module _ {ℓ κ} {A : Type ℓ} (P : A → Type κ) where
  All-take : (n : ℕ) (xs : List A) → All P xs → All P (take n xs)
  All-take zero xs a = tt
  All-take (suc n) [] a = tt
  All-take (suc n) (x ∷ xs) a = (a.0, All-take n xs a.1)

  All-drop : (n : ℕ) (xs : List A) → All P xs → All P (drop n xs)
  All-drop zero xs a = a
  All-drop (suc n) [] a = tt
  All-drop (suc n) (x ∷ xs) a = All-drop n xs a.1

take-IsSorted :
    (before : ActivityFact → ActivityFact → Bool) (n : ℕ) (xs : List ActivityFact)
    → IsSorted before xs
    → IsSorted before (take n xs) × All (λ x. All (λ y. before y x ≡ false) (drop n xs)) (take n xs)
take-IsSorted before zero xs h = (tt, tt)
take-IsSorted before (suc n) [] h = (tt, tt)
take-IsSorted before (suc n) (x ∷ xs) h =
    let later = λ (y : ActivityFact). before y x ≡ false in
    let (a, b) = take-IsSorted before n xs h.1 in
    ((All-take later n xs h.0, a), (All-drop later n xs h.0, b))

-- The recent activity is the newest twenty facts at most: they are sorted from the newest on, and of
-- the facts of the state, sorted, no fact that is left out is newer than one that is shown.
pub select_recent_activity-newest :
    (date : Option Json → ℕ) (s : SessionState)
    → let recent = select_recent_activity date s in
      (length recent ≤ 20)
      × IsSorted (newest_fact date) recent
      × All
          (λ x.
            All
              (λ y. newest_fact date y x ≡ false)
              (drop 20 (sort_by (newest_fact date) s.activity)))
          recent
unfolding select_recent_activity
select_recent_activity-newest date s =
    let facts = sort_by (newest_fact date) s.activity in
    let sorted =
      sort_by-IsSorted (newest_fact date) (newest_fact_trans date) (newest_fact_asym date)
        s.activity in
    let (kept, newest) = take-IsSorted (newest_fact date) 20 facts sorted in
    (length-take 20 facts, kept, newest)
