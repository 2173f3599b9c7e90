-- ===== src/Actors/Supervision/Batch.antt =====
-- A batch ends, processes no more messages than it may, and keeps the restarts within the limit.
use v2_engine.Common.{
  ℕ, zero, suc, ◌-◌, ◌≤◌, ◌<◌, ◌≡◌, refl, Option, some, List, [], ◌∷◌, max, arith, Bool-cases, inl,
  inr,
}
use v2_engine.Actors.Supervision.{
  ActorState, closed, closing, opening, opened, inherited, Message, enable_request, disable_request,
  restart_request, user, blank, Outcome, returned, threw, threw_unknown, what, unknown, World,
  Behaviour, act, on_actor_failed, consume, batch_loop, process_batch,
}
use v2_engine.Actors.Supervision.Budget.{
  Within, Within-refl, Within-trans, Ends, act-Within, perform_restart-Ends, on_actor_failed-Ends,
}

module _ {S : Type 0} (b : Behaviour S) (restart_all : Option (Option ℕ × List Message)) where
  act-Ends : (f : S → Outcome × S × List Message) (w : World S) → Ends w (some (act b f w))
  act-Ends f w = record {
    outcome = (act b f w).0;
    last = (act b f w).1;
    returns = refl;
    within = act-Within b restart_all f w;
  }

  idle-Ends : (w : World S) → Ends w (some (returned, w))
  idle-Ends w = record { outcome = returned; last = w; returns = refl; within = Within-refl w }

  consume-Ends :
      (fuel : ℕ) (m : Message) (w : World S)
      → w.supervisor.max_restarts - w.runtime.restart_count < fuel
      → Ends w (consume b restart_all fuel m w)
  unfolding consume
  consume-Ends fuel blank w h = act-Ends (b.on_handle blank) w
  consume-Ends fuel (user k) w h = act-Ends (b.on_handle (user k)) w
  consume-Ends fuel enable_request w h = go (b.state w.runtime.actor) refl
    where
      go :
          (s : ActorState)
          → b.state w.runtime.actor ≡ s
          → Ends w (consume b restart_all fuel enable_request w)
      go closed e = rw (e, consume) (act-Ends b.on_open w)
      go closing e = rw (e, consume) (idle-Ends w)
      go opening e = rw (e, consume) (idle-Ends w)
      go opened e = rw (e, consume) (idle-Ends w)
      go inherited e = rw (e, consume) (idle-Ends w)
  consume-Ends fuel disable_request w h = go (b.state w.runtime.actor) refl
    where
      go :
          (s : ActorState)
          → b.state w.runtime.actor ≡ s
          → Ends w (consume b restart_all fuel disable_request w)
      go closed e = rw (e, consume) (idle-Ends w)
      go closing e = rw (e, consume) (idle-Ends w)
      go opening e = rw (e, consume) (idle-Ends w)
      go opened e = elim (Bool-cases (b.essential w.runtime.actor)) [
        | inl keep ↦ rw (e, consume) (rw keep (idle-Ends w))
        | inr may ↦ rw (e, consume) (rw may (act-Ends b.on_close w))
      ]
      go inherited e = rw (e, consume) (idle-Ends w)
  consume-Ends fuel (restart_request text) w h = go (b.state w.runtime.actor) refl
    where
      go :
          (s : ActorState)
          → b.state w.runtime.actor ≡ s
          → Ends w (consume b restart_all fuel (restart_request text) w)
      go closed e = rw (e, consume) (idle-Ends w)
      go closing e = rw (e, consume) (idle-Ends w)
      go opening e = rw (e, consume) (idle-Ends w)
      go opened e =
          rw (e, consume)
            (perform_restart-Ends b restart_all (on_actor_failed b restart_all fuel blank) w
              (λ told v within.
                on_actor_failed-Ends b restart_all fuel blank told v
                  (omega (arith, within.up, within.limit, h))))
      go inherited e = rw (e, consume) (idle-Ends w)

  -- A batch that has returned.
  record Batched (n : ℕ) (w : World S) (result : Option (ℕ × Outcome × World S)) : Type 0 where
    count : ℕ
    outcome : Outcome
    last : World S
    returns : result ≡ some (count, outcome, last)
    few : count ≤ n
    within : Within w last

  popped : List Message → World S → World S
  popped rest w = record w { runtime = record (w.runtime) { mailbox = rest } }

  popped-Within : (rest : List Message) (w : World S) → Within w (popped rest w)
  unfolding popped
  popped-Within rest w = record { limit = refl; up = omega arith; below = omega arith }

  batch_loop-Batched :
      (fuel n : ℕ) (w : World S)
      → w.supervisor.max_restarts - w.runtime.restart_count < fuel
      → Batched n w (batch_loop b restart_all fuel n w)
  unfolding batch_loop popped
  batch_loop-Batched fuel zero w h = record {
    count = 0;
    outcome = returned;
    last = w;
    returns = refl;
    few = omega arith;
    within = Within-refl w;
  }
  batch_loop-Batched fuel (suc n) w h = go w.runtime.mailbox refl (batch_loop-Batched fuel n)
    where
      go :
          (ms : List Message)
          → w.runtime.mailbox ≡ ms
          → ((v : World S)
              → v.supervisor.max_restarts - v.runtime.restart_count < fuel
              → Batched n v (batch_loop b restart_all fuel n v))
          → Batched (suc n) w (batch_loop b restart_all fuel (suc n) w)
      go [] e more = record {
        count = 0;
        outcome = returned;
        last = w;
        returns = ground (arith, e);
        few = omega arith;
        within = Within-refl w;
      }
      go (m ∷ rest) e more =
          let r = consume-Ends fuel m (popped rest w) h in
          after r.outcome r.last r.returns (Within-trans (popped-Within rest w) r.within)
        where
          budget :
              {v : World S}
              → Within w v
              → v.supervisor.max_restarts - v.runtime.restart_count < fuel
          budget {v} within = omega (arith, within.up, within.limit, h)

          after :
              (o : Outcome) (v : World S)
              → consume b restart_all fuel m (popped rest w) ≡ some (o, v)
              → Within w v
              → Batched (suc n) w (batch_loop b restart_all fuel (suc n) w)
          after returned v q within =
              let t = more v (budget within) in
              record {
                count = suc t.count;
                outcome = t.outcome;
                last = t.last;
                returns = rw (e, batch_loop) (rw q (rw t.returns refl));
                few = omega (arith, t.few);
                within = Within-trans within t.within;
              }
          after (threw text) v q within =
              let t = on_actor_failed-Ends b restart_all fuel m (what text) v (budget within) in
              record {
                count = 0;
                outcome = t.outcome;
                last = t.last;
                returns = rw (e, batch_loop) (rw q (rw t.returns refl));
                few = omega arith;
                within = Within-trans within t.within;
              }
          after threw_unknown v q within =
              let t = on_actor_failed-Ends b restart_all fuel m unknown v (budget within) in
              record {
                count = 0;
                outcome = t.outcome;
                last = t.last;
                returns = rw (e, batch_loop) (rw q (rw t.returns refl));
                few = omega arith;
                within = Within-trans within t.within;
              }

  -- With more fuel than the restarts that are left, `processBatch` returns, through every failure and
  -- restart on its way: it has processed at most `max_batch` messages, and the restarts do not pass the
  -- limit if they were within it.
  pub process_batch-returns :
      (fuel max_batch : ℕ) (w : World S)
      → w.supervisor.max_restarts - w.runtime.restart_count < fuel
      → (k : ℕ) × (o : Outcome) × (w' : World S) × (process_batch b restart_all fuel max_batch w
          ≡ some (k, o, w'))
        × (k ≤ max_batch)
        × (w'.runtime.restart_count ≤ max w.supervisor.max_restarts w.runtime.restart_count)
  unfolding process_batch
  process_batch-returns fuel max_batch w h = elim (Bool-cases (w.runtime.stopped)) [
    | inl e ↦ (0, returned, w, ground (arith, e), omega arith, omega arith)
    | inr e ↦
        let t = batch_loop-Batched fuel max_batch w h in
        (t.count, t.outcome, t.last, ground (arith, e, t.returns), t.few, t.within.below)
  ]
