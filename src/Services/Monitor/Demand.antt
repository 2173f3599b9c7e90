-- ===== src/Services/Monitor/Demand.antt =====
-- The monitor and a manager, with the messages between them on their way.
use v2_engine.Common.{
  ◌≡◌, inl, inr, Bool, true, false, not, ◌&&◌, some, List, [], ◌∷◌, ◌++◌, map, All, arith, refl, ap,
  ◌∙◌, Bool-cases,
}
use v2_engine.Services.Cmd.Tokens.{Text, same_text, is_opened}
use v2_engine.Services.Monitor.{
  member, insert, erase, no_one, Request, subscribe, unsubscribe, tick, Monitor, Event, join, leave,
  sys_data, pmu_data, Sent, to_managers, snapshot, monitor_name, subscribe_to_data,
  unsubscribe_from_data, try_publish, handle_event, handle_monitor,
}

same_text-eq : (s t : Text) → same_text s t ≡ true → s ≡ t
unfolding same_text
same_text-eq [] [] h = refl
same_text-eq [] (d ∷ ds) h = cc
same_text-eq (c ∷ cs) [] h = cc
same_text-eq (c ∷ cs) (d ∷ ds) h = ground (arith, same_text-eq cs ds)

same_text_refl : (s : Text) → same_text s s ≡ true
unfolding same_text
same_text_refl [] = refl
same_text_refl (c ∷ cs) = ground (arith, same_text_refl cs)

pub member-insert_self : (t : Text) (xs : List Text) → member t (insert t xs) ≡ true
unfolding member insert
member-insert_self t xs = ground (arith, same_text_refl t)

pub member-erase_self : (t : Text) (xs : List Text) → member t (erase t xs) ≡ false
unfolding member erase
member-erase_self t [] = refl
member-erase_self t (x ∷ xs) = ground (arith, member-erase_self t xs)

pub member-insert_other :
    (t s : Text) (xs : List Text) → same_text s t ≡ false → member t (insert s xs) ≡ member t xs
unfolding member insert
member-insert_other t s xs h = ground arith

pub member-erase_other :
    (t s : Text) (xs : List Text) → same_text s t ≡ false → member t (erase s xs) ≡ member t xs
unfolding member erase
member-erase_other t s [] h = refl
member-erase_other t s (x ∷ xs) h = elim (Bool-cases (same_text x s)) [
  | inl e ↦
      let other : same_text x t ≡ false = ap (λ y. same_text y t) (same_text-eq x s e) ∙ h in
      rw (e, other) (member-erase_other t s xs h)
  | inr e ↦ ground (arith, member-erase_other t s xs h)
]

-- The requests among what the monitor sends, which reach a manager in that order.
unfoldable pub requests : {S D : Type 0} → List (Sent S D) → List Request
requests [] = []
requests (to_managers r ∷ sent) = r ∷ requests sent
requests (snapshot to s d ∷ sent) = requests sent

requests-publish :
    {S D : Type 0} (m : Monitor S D) (to : List Text)
    → requests (map (λ t. snapshot t m.sys_cache m.pmu_cache) to) ≡ []
unfolding requests
requests-publish m [] = refl
requests-publish m (x ∷ xs) = requests-publish m xs

-- Whether the monitor is a subscriber once the requests on their way have been handled.
unfoldable pub after : List Request → Bool → Bool
after [] b = b
after (subscribe who ∷ rs) b = after rs true
after (unsubscribe who ∷ rs) b = after rs false
after (tick ∷ rs) b = after rs b

pub after-append : (rs qs : List Request) (b : Bool) → after (rs ++ qs) b ≡ after qs (after rs b)
unfolding after
after-append [] qs b = refl
after-append (subscribe who ∷ rs) qs b = after-append rs qs true
after-append (unsubscribe who ∷ rs) qs b = after-append rs qs false
after-append (tick ∷ rs) qs b = after-append rs qs b

no_one-insert : (t : Text) (xs : List Text) → no_one (insert t xs) ≡ false
unfolding insert no_one member
no_one-insert t [] = refl
no_one-insert t (x ∷ xs) = ground arith

no_one-erase : (t : Text) (xs : List Text) → no_one (erase t xs) ≡ false → no_one xs ≡ false
unfolding erase no_one
no_one-erase t [] h = h
no_one-erase t (x ∷ xs) h = refl

module _ {S D : Type 0} where
  -- Who is subscribed decides whether the monitor asks for data.
  abbrev pub Asks : Monitor S D → Type 0
  Asks m = m.data_subscribed ≡ not (no_one m.subscribers)

  -- An event keeps that, and the requests that it sends say what it made of the subscription.
  pub handle_event-Asks :
      (e : Event S D) (m : Monitor S D)
      → Asks m
      → Asks (handle_event e m).0
        × (after (requests (handle_event e m).1) m.data_subscribed
            ≡ (handle_event e m).0.data_subscribed)
        × ((handle_event e m).0.state ≡ m.state)
  unfolding handle_event subscribe_to_data unsubscribe_from_data try_publish requests after
  handle_event-Asks (join who) m asks =
      (ground (arith, no_one-insert who m.subscribers), ground arith, ground arith)
  handle_event-Asks (leave who) m asks =
      (ground (arith, no_one-erase who m.subscribers), ground arith, ground arith)
  handle_event-Asks (sys_data d) m asks = (
    asks,
    ap (λ r. after r m.data_subscribed)
        (requests-publish (record m { sys_cache = some d }) m.subscribers),
    refl,
  )
  handle_event-Asks (pmu_data d) m asks = (
    asks,
    ap (λ r. after r m.data_subscribed)
        (requests-publish (record m { pmu_cache = some d }) m.subscribers),
    refl,
  )

-- The monitor asks for itself only.
abbrev pub Own : Request → Type 0
Own (subscribe who) = who ≡ monitor_name
Own (unsubscribe who) = who ≡ monitor_name
Own tick = ⊥

module _ {S D : Type 0} where
  publish-Own :
      (m : Monitor S D) (to : List Text)
      → All Own (requests (map (λ t. snapshot t m.sys_cache m.pmu_cache) to))
  unfolding requests
  publish-Own m [] = tt
  publish-Own m (x ∷ xs) = publish-Own m xs

  pub handle_event-Own : (e : Event S D) (m : Monitor S D) → All Own (requests (handle_event e m).1)
  unfolding handle_event subscribe_to_data unsubscribe_from_data try_publish requests
  handle_event-Own (join who) m = elim (Bool-cases m.data_subscribed) [
    | inl e ↦ rw e tt
    | inr e ↦ rw e (refl, tt)
  ]
  handle_event-Own (leave who) m =
      elim (Bool-cases (no_one (erase who m.subscribers) && m.data_subscribed)) [
        | inl e ↦ rw e (refl, tt)
        | inr e ↦ rw e tt
      ]
  handle_event-Own (sys_data d) m = publish-Own (record m { sys_cache = some d }) m.subscribers
  handle_event-Own (pmu_data d) m = publish-Own (record m { pmu_cache = some d }) m.subscribers

module _ {S D : Type 0} (who : Text) (m : Monitor S D) (open' : is_opened m.state ≡ true) where
  -- Somebody who joins an opened monitor is among its subscribers, and somebody who leaves is not.
  pub handle_monitor-join :
      (member who (handle_monitor (join who) m).0.subscribers ≡ true)
      × ((handle_monitor (join who) m).0.state ≡ m.state)
  unfolding handle_monitor handle_event subscribe_to_data
  handle_monitor-join = rw open' (ground (arith, member-insert_self who m.subscribers))

  pub handle_monitor-leave :
      (member who (handle_monitor (leave who) m).0.subscribers ≡ false)
      × ((handle_monitor (leave who) m).0.state ≡ m.state)
  unfolding handle_monitor handle_event unsubscribe_from_data
  handle_monitor-leave = rw open' (ground (arith, member-erase_self who m.subscribers))
