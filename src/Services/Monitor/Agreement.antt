-- ===== src/Services/Monitor/Agreement.antt =====
-- The monitor and a manager, with the messages between them on their way.
use v2_engine.Common.{
  ◌≡◌, inl, inr, true, false, not, Option, none, some, List, [], ◌∷◌, ◌++◌, All, refl, sym, ap, ◌∙◌,
  subst, Bool-cases,
}
use v2_engine.Services.Cmd.Tokens.{same_text, is_opened}
use v2_engine.Services.Monitor.{
  member, insert, erase, no_one, Devices, Request, subscribe, unsubscribe, tick, pump,
  handle_request, handle_devices, Monitor, Event, monitor_name, handle_event, handle_monitor,
}
use v2_engine.Services.Monitor.Demand.{
  requests, after, after-append, Asks, Own, handle_event-Asks, handle_event-Own, member-insert_self,
  member-erase_self, member-insert_other, member-erase_other,
}

-- The monitor, the requests in the manager's mailbox, and the manager.
pub record System (S D : Type 0) : Type 0 where
  pub monitor : Monitor S D
  pub mail : List Request
  pub devices : Devices D

-- A request of another subscriber, or the manager's own tick.
abbrev pub Foreign : Request → Type 0
Foreign (subscribe who) = same_text who monitor_name ≡ false
Foreign (unsubscribe who) = same_text who monitor_name ≡ false
Foreign tick = Unit

pub data Step {S D : Type 0} (s : System S D) : System S D → Type 0 where
  monitor_event :
      (e : Event S D)
      → Step s (record s {
        monitor = (handle_monitor e s.monitor).0;
        mail = s.mail ++ requests (handle_monitor e s.monitor).1;
      })
  deliver :
      {r : Request} {rest : List Request} (reading : Option D)
      → s.mail ≡ r ∷ rest
      → Step s (record s { mail = rest; devices = (handle_devices reading r s.devices).0 })
  other_request :
      (reading : Option D) (r : Request)
      → Foreign r
      → Step s (record s { devices = (handle_devices reading r s.devices).0 })

pub data Reach {S D : Type 0} (s : System S D) : System S D → Type 0 where
  start : Reach s s
  later : {t u : System S D} → Reach s t → Step t u → Reach s u

module _ {D : Type 0} where
  pump-same :
      (reading : Option D) (s : Devices D)
      → ((pump reading s).0.subscribers ≡ s.subscribers) × ((pump reading s).0.state ≡ s.state)
  unfolding pump
  pump-same none s = (refl, refl)
  pump-same (some d) s = (refl, refl)

  -- What a request does to the monitor's place among the subscribers.
  request-member :
      (reading : Option D) (r : Request) (s : Devices D)
      → ((handle_request reading r s).0.state ≡ s.state)
        × (Foreign r
            → member monitor_name (handle_request reading r s).0.subscribers
              ≡ member monitor_name s.subscribers)
  unfolding handle_request
  request-member reading (subscribe who) s =
      let same = pump-same reading (record s { subscribers = insert who s.subscribers }) in
      (
        same.1,
        λ other.
            ap (member monitor_name) same.0
            ∙ member-insert_other monitor_name who s.subscribers other,
      )
  request-member reading (unsubscribe who) s =
      (refl, λ other. member-erase_other monitor_name who s.subscribers other)
  request-member reading tick s = elim (Bool-cases (no_one s.subscribers)) [
    | inl e ↦ rw e (refl, λ other. refl)
    | inr e ↦
        rw e ((pump-same reading s).1, λ other. ap (member monitor_name) (pump-same reading s).0)
  ]

  handle_devices-opened :
      (reading : Option D) (r : Request) (s : Devices D)
      → is_opened s.state ≡ true
      → handle_devices reading r s ≡ handle_request reading r s
  unfolding handle_devices
  handle_devices-opened reading r s open' = rw open'

module _ {D : Type 0} where
  -- The manager handles the first request on its way.
  deliver-told :
      (reading : Option D) (r : Request) (rest : List Request) (d : Devices D)
      → Own r
      → after rest (member monitor_name (handle_request reading r d).0.subscribers)
        ≡ after (r ∷ rest) (member monitor_name d.subscribers)
  unfolding handle_request after
  deliver-told reading (subscribe who) rest d own = ap (after rest) (
      ap (member monitor_name)
        (pump-same reading (record d { subscribers = insert who d.subscribers })).0
      ∙ ap (λ w. member monitor_name (insert w d.subscribers)) own
      ∙ member-insert_self monitor_name d.subscribers)
  deliver-told reading (unsubscribe who) rest d own = ap (after rest) (
      ap (λ w. member monitor_name (erase w d.subscribers)) own
      ∙ member-erase_self monitor_name d.subscribers)
  deliver-told reading tick rest d own = absurd own

All-append : (rs qs : List Request) → All Own rs → All Own qs → All Own (rs ++ qs)
All-append [] qs h k = k
All-append (r ∷ rs) qs (h, hs) k = (h, All-append rs qs hs k)

module _ {S D : Type 0} where
  pub record Agrees (s : System S D) : Type 0 where
    pub monitor_open : is_opened s.monitor.state ≡ true
    pub devices_open : is_opened s.devices.state ≡ true
    pub asks : Asks s.monitor
    pub own : All Own s.mail
    pub told : after s.mail (member monitor_name s.devices.subscribers) ≡ s.monitor.data_subscribed

  handle_monitor-opened :
      (e : Event S D) (m : Monitor S D)
      → is_opened m.state ≡ true
      → handle_monitor e m ≡ handle_event e m
  unfolding handle_monitor
  handle_monitor-opened e m open' = rw open'

  monitor_event-Agrees :
      (s : System S D) (e : Event S D)
      → Agrees s
      → Agrees (record s {
        monitor = (handle_event e s.monitor).0;
        mail = s.mail ++ requests (handle_event e s.monitor).1;
      })
  monitor_event-Agrees s e a =
      let (asks, told, state) = handle_event-Asks e s.monitor a.asks in
      record {
        monitor_open = ap is_opened state ∙ a.monitor_open;
        devices_open = a.devices_open;
        asks = asks;
        own =
            All-append s.mail (requests (handle_event e s.monitor).1) a.own
              (handle_event-Own e s.monitor);
        told =
            after-append s.mail (requests (handle_event e s.monitor).1)
              (member monitor_name s.devices.subscribers)
            ∙ ap (after (requests (handle_event e s.monitor).1)) a.told
            ∙ told;
      }

  Step-Agrees : {s t : System S D} → Agrees s → Step s t → Agrees t
  Step-Agrees {s} a (monitor_event e) =
      subst (λ o. Agrees (record s { monitor = o.0; mail = s.mail ++ requests o.1 }))
        (sym (handle_monitor-opened e s.monitor a.monitor_open)) (monitor_event-Agrees s e a)
  Step-Agrees {s} a (deliver {r} {rest} reading at) =
      subst (λ o. Agrees (record s { mail = rest; devices = o.0 }))
        (sym (handle_devices-opened reading r s.devices a.devices_open))
        (let (first, others) = subst (All Own) at a.own in
          record {
            monitor_open = a.monitor_open;
            devices_open = ap is_opened (request-member reading r s.devices).0 ∙ a.devices_open;
            asks = a.asks;
            own = others;
            told =
                deliver-told reading r rest s.devices first
                ∙ ap (λ q. after q (member monitor_name s.devices.subscribers)) (sym at)
                ∙ a.told;
          })
  Step-Agrees {s} a (other_request reading r other) =
      subst (λ o. Agrees (record s { devices = o.0 }))
        (sym (handle_devices-opened reading r s.devices a.devices_open))
        (record {
          monitor_open = a.monitor_open;
          devices_open = ap is_opened (request-member reading r s.devices).0 ∙ a.devices_open;
          asks = a.asks;
          own = a.own;
          told = ap (after s.mail) ((request-member reading r s.devices).1 other) ∙ a.told;
        })

  Reach-Agrees : {s t : System S D} → Agrees s → Reach s t → Agrees t
  Reach-Agrees a start = a
  Reach-Agrees a (later before step) = Step-Agrees (Reach-Agrees a before) step

  -- Measurements are made for the monitor exactly while somebody watches, as long as neither actor is
  -- closed and no message between them is dropped: both actors opened and
  -- without subscribers at first, whatever subscribers join and leave the monitor, and however its
  -- requests are delayed and mixed with those of others, once no request is on its way the monitor is
  -- among the manager's subscribers if and only if it has subscribers itself.
  pub demand_agrees :
      (s t : System S D)
      → is_opened s.monitor.state ≡ true
      → is_opened s.devices.state ≡ true
      → s.monitor.subscribers ≡ []
      → s.monitor.data_subscribed ≡ false
      → s.devices.subscribers ≡ []
      → s.mail ≡ []
      → Reach s t
      → t.mail ≡ []
      → member monitor_name t.devices.subscribers ≡ not (no_one t.monitor.subscribers)
  unfolding after member no_one
  demand_agrees s t monitor_open devices_open none' off nobody empty reach quiet =
      let first : Agrees s = record {
        monitor_open = monitor_open;
        devices_open = devices_open;
        asks = off ∙ ap (λ xs. not (no_one xs)) (sym none');
        own = subst (All Own) (sym empty) tt;
        told =
            ap (λ q. after q (member monitor_name s.devices.subscribers)) empty
            ∙ ap (member monitor_name) nobody
            ∙ sym off;
      } in
      let a = Reach-Agrees first reach in
      ap (λ q. after q (member monitor_name t.devices.subscribers)) (sym quiet) ∙ a.told ∙ a.asks
