-- ===== src/Actors/Supervision/Budget.antt =====
-- The restarts of one actor stay within the limit, and its failures come to an end.
use v2_engine.Common.{
  ℕ, zero, suc, ◌-◌, ◌≤◌, ◌<◌, ◌≡◌, refl, ◌∙◌, Option, none, some, List, ltb, leb, arith, max,
  Bool-cases, Option-cases, inl, inr,
}
use v2_engine.Common.Maps.{lookup, nat_key}
use v2_engine.Actors.Supervision.{
  ActorState, closed, closing, opening, opened, inherited, RestartStrategy, one_for_one,
  one_for_all, no_restart, Message, blank, Outcome, returned, threw, threw_unknown, Reason,
  open_failed, open_failed_unknown, World, drain, strategy_of, Behaviour, act, shutdown,
  perform_restart, count_restart, restarted, broadcast, restart_everyone, on_actor_failed,
}

-- What a step of the runtime keeps: the limit, and a count of restarts that does not fall and does
-- not pass the limit.
pub record Within {S : Type 0} (w w' : World S) : Type 0 where
  pub limit : w'.supervisor.max_restarts ≡ w.supervisor.max_restarts
  pub up : w.runtime.restart_count ≤ w'.runtime.restart_count
  pub below : w'.runtime.restart_count ≤ max w.supervisor.max_restarts w.runtime.restart_count

pub Within-refl : {S : Type 0} (w : World S) → Within w w
Within-refl w = record { limit = refl; up = omega arith; below = omega arith }

pub Within-trans : {S : Type 0} {u v w : World S} → Within u v → Within v w → Within u w
Within-trans p q = record {
  limit = q.limit ∙ p.limit;
  up = omega (arith, p.up, q.up);
  below = omega (arith, p.below, p.up, q.below, p.limit);
}

-- A call that has returned, within the limit.
pub record Ends {S : Type 0} (w : World S) (result : Option (Outcome × World S)) : Type 0 where
  pub outcome : Outcome
  pub last : World S
  pub returns : result ≡ some (outcome, last)
  pub within : Within w last

module _ {S : Type 0} (b : Behaviour S) (restart_all : Option (Option ℕ × List Message)) where
  pub act-Within : (f : S → Outcome × S × List Message) (w : World S) → Within w (act b f w).1
  unfolding act
  act-Within f w = record { limit = refl; up = omega arith; below = omega arith }

  shutdown-Within : (w : World S) → Within w (shutdown b w).1
  unfolding shutdown act
  shutdown-Within w = record { limit = refl; up = omega arith; below = omega arith }

  pub perform_restart-Ends :
      (notify : Reason → World S → Option (Outcome × World S)) (w : World S)
      → ((reason : Reason) (v : World S) → Within w v → Ends v (notify reason v))
      → Ends w (perform_restart b notify w)
  unfolding perform_restart
  perform_restart-Ends notify w ends =
      let w1 : World S = (act b b.on_close w).1 in
      let w2 : World S = (act b b.on_open w1).1 in
      let closing_within : Within w w1 = act-Within b.on_close w in
      let opened_within : Within w w2 = Within-trans closing_within (act-Within b.on_open w1) in
      let stays : perform_restart b notify w ≡ some (returned, w1)
          → Ends w (perform_restart b notify w) =
        λ e. record { outcome = returned; last = w1; returns = e; within = closing_within } in
      let told : (reason : Reason)
          → perform_restart b notify w ≡ notify reason w2
          → Ends w (perform_restart b notify w) =
        λ reason e.
          let r = ends reason w2 opened_within in
          record {
            outcome = r.outcome;
            last = r.last;
            returns = e ∙ r.returns;
            within = Within-trans opened_within r.within;
          } in
      go stays told (b.state w1.runtime.actor) refl (act b b.on_open w1).0 refl
    where
      go :
          (perform_restart b notify w ≡ some (returned, (act b b.on_close w).1)
            → Ends w (perform_restart b notify w))
          → ((reason : Reason)
              → perform_restart b notify w
                ≡ notify reason (act b b.on_open (act b b.on_close w).1).1
              → Ends w (perform_restart b notify w))
          → (s : ActorState) → b.state (act b b.on_close w).1.runtime.actor ≡ s
          → (o : Outcome) → (act b b.on_open (act b b.on_close w).1).0 ≡ o
          → Ends w (perform_restart b notify w)
      go stays told closed e returned q = record {
        outcome = returned;
        last = (act b b.on_open (act b b.on_close w).1).1;
        returns = rw (e, perform_restart) (rw q refl);
        within =
            Within-trans (act-Within b.on_close w) (act-Within b.on_open (act b b.on_close w).1);
      }
      go stays told closed e (threw text) q =
          told (open_failed text) (rw (e, perform_restart) (rw q refl))
      go stays told closed e threw_unknown q =
          told open_failed_unknown (rw (e, perform_restart) (rw q refl))
      go stays told closing e o q = stays (rw (e, perform_restart) refl)
      go stays told opening e o q = stays (rw (e, perform_restart) refl)
      go stays told opened e o q = stays (rw (e, perform_restart) refl)
      go stays told inherited e o q = stays (rw (e, perform_restart) refl)

  restarted-Within : (o : Outcome) (v w : World S) → Within v w → Within v (restarted b (o, w)).1
  unfolding restarted
  restarted-Within returned v w h = record { limit = h.limit; up = h.up; below = h.below }
  restarted-Within (threw text) v w h = h
  restarted-Within threw_unknown v w h = h

  shutdown_drained :
      (failed : Message) (reason : Reason) (w : World S)
      → Within w (shutdown b (drain failed reason w)).1
  unfolding shutdown act drain
  shutdown_drained failed reason w = record { limit = refl; up = omega arith; below = omega arith }

  -- A world with the same limit and the same count.
  same-Within :
      (w w' : World S)
      → w'.supervisor.max_restarts ≡ w.supervisor.max_restarts
      → w'.runtime.restart_count ≡ w.runtime.restart_count
      → Within w w'
  same-Within w w' l c = record { limit = l; up = omega (arith, c); below = omega (arith, c) }

  broadcast_fields :
      (w : World S)
      → ((broadcast b restart_all w).supervisor.max_restarts ≡ w.supervisor.max_restarts)
        × ((broadcast b restart_all w).runtime.restart_count ≡ w.runtime.restart_count)
  unfolding broadcast
  broadcast_fields w = elim (Option-cases restart_all) [
    | inl e ↦ rw (e, broadcast) (refl, refl)
    | inr (told, e) ↦ rw (e, broadcast) (refl, refl)
  ]

  restart_everyone_fields :
      (w : World S)
      → ((restart_everyone b restart_all w).1.supervisor.max_restarts ≡ w.supervisor.max_restarts)
        × ((restart_everyone b restart_all w).1.runtime.restart_count ≡ w.runtime.restart_count)
  unfolding restart_everyone shutdown act
  restart_everyone_fields w =
      let n : ℕ = elim (lookup w.runtime.actor_id w.supervisor.one_for_all_restart_count) [
        | none ↦ 0
        | some n ↦ n
      ] in
      elim (Bool-cases (ltb n w.supervisor.max_restarts)) [
        | inl e ↦ rw e (broadcast_fields _)
        | inr e ↦ rw e (refl, refl)
      ]

  -- One more restart, below the limit, is within it.
  count-Within :
      (w v : World S)
      → w.runtime.restart_count < w.supervisor.max_restarts
      → Within (count_restart b w) v
      → Within w v
  unfolding count_restart
  count-Within w v h inner = record {
    limit = inner.limit;
    up = omega (arith, inner.up);
    below = omega (arith, inner.below);
  }

  -- `onActorFailed` returns when its fuel is more than the restarts that are left, and the restarts
  -- stay within the limit.
  pub on_actor_failed-Ends :
      (fuel : ℕ) (failed : Message) (reason : Reason) (w : World S)
      → w.supervisor.max_restarts - w.runtime.restart_count < fuel
      → Ends w (on_actor_failed b restart_all fuel failed reason w)
  unfolding on_actor_failed drain
  on_actor_failed-Ends zero failed reason w h = absurd (omega arith)
  on_actor_failed-Ends (suc fuel) failed reason w h =
      go (strategy_of w.runtime.actor_id w.supervisor) refl (on_actor_failed-Ends fuel)
    where
      ended :
          (t : Outcome × World S)
          → on_actor_failed b restart_all (suc fuel) failed reason w ≡ some t
          → Within w t.1
          → Ends w (on_actor_failed b restart_all (suc fuel) failed reason w)
      ended t e within = record { outcome = t.0; last = t.1; returns = e; within = within }

      drained_count :
          {v : World S}
          → w.runtime.restart_count < w.supervisor.max_restarts
          → Within (count_restart b (drain failed reason w)) v
          → Within w v
      drained_count {v} room inner =
          let within = count-Within (drain failed reason w) v room inner in
          record { limit = within.limit; up = within.up; below = within.below }

      go :
          (s : RestartStrategy)
          → strategy_of w.runtime.actor_id w.supervisor ≡ s
          → ((failed : Message) (reason : Reason) (v : World S)
              → v.supervisor.max_restarts - v.runtime.restart_count < fuel
              → Ends v (on_actor_failed b restart_all fuel failed reason v))
          → Ends w (on_actor_failed b restart_all (suc fuel) failed reason w)
      go no_restart e again =
          ended (shutdown b (drain failed reason w)) (rw (e, on_actor_failed) refl)
            (shutdown_drained failed reason w)
      go one_for_all e again =
          let same = restart_everyone_fields (drain failed reason w) in
          ended (restart_everyone b restart_all (drain failed reason w))
            (rw (e, on_actor_failed) refl) (same-Within w _ same.0 same.1)
      go one_for_one e again =
          elim (Bool-cases (leb w.supervisor.max_restarts w.runtime.restart_count)) [
            | inl spent ↦
                ended (shutdown b (drain failed reason w)) (rw (e, on_actor_failed) (rw spent refl))
                  (shutdown_drained failed reason w)
            | inr left ↦
                let room : w.runtime.restart_count < w.supervisor.max_restarts =
                  ground (arith, left) in
                let counted : World S = count_restart b (drain failed reason w) in
                let r =
                  perform_restart-Ends (on_actor_failed b restart_all fuel blank) counted
                    (λ told v within.
                      again blank told v (
                        unfold count_restart in omega (arith, within.up, within.limit, room, h))) in
                let last : Outcome × World S = restarted b (r.outcome, r.last) in
                ended last (rw (e, on_actor_failed) (rw left (rw r.returns refl)))
                  (drained_count room (restarted-Within r.outcome _ r.last r.within))
          ]

  -- With more fuel than the restarts that are left, `onActorFailed` returns, whatever the actor's class
  -- does and whichever strategy applies: the restarts do not fall, and do not pass the limit if they were
  -- within it.
  pub on_actor_failed-returns :
      (fuel : ℕ) (failed : Message) (reason : Reason) (w : World S)
      → w.supervisor.max_restarts - w.runtime.restart_count < fuel
      → (o : Outcome) × (w' : World S) × (on_actor_failed b restart_all fuel failed reason w
          ≡ some (o, w'))
        × (w.runtime.restart_count ≤ w'.runtime.restart_count)
        × (w'.runtime.restart_count ≤ max w.supervisor.max_restarts w.runtime.restart_count)
  on_actor_failed-returns fuel failed reason w h =
      let r = on_actor_failed-Ends fuel failed reason w h in
      (r.outcome, r.last, r.returns, r.within.up, r.within.below)
