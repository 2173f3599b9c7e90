-- ===== src/Dispatcher/Token.antt =====
-- One actor's token, with any number of threads inside ActorRuntime::enqueue, WorkDispatcher::dispatch,
-- Worker::runLoop, ActorRuntime::run and WorkDispatcher::settleToken. The threads at one point of the
-- code are counted, and each atomic access is a step of its own; memory is sequentially consistent.
-- Which queue a token enters, and whether it is full, is left open.
use v2_engine.Common.{
  ℕ, ◌+◌, ◌-◌, ◌≤◌, ◌<◌, ◌≡◌, ◌⊎◌, inl, inr, Bool, true, false, arith, refl, sym, ◌∙◌,
}

pub record Token : Type 0 where
  pub mail : ℕ
  -- `held` of the actor's slot, 0 or 1.
  pub held : ℕ
  pub stopped : Bool
  -- Between the push into the mailbox and the exchange of `held`.
  pub notifying : ℕ
  -- Has found `held` 0 and set it, and is about to enqueue the token.
  pub dispatching : ℕ
  -- In a worker's queue.
  pub queued : ℕ
  -- On the waiting list of a full queue.
  pub pended : ℕ
  -- Whether `stop` of the dispatcher has dropped the waiting list.
  pub cleared : Bool
  -- Workers that have taken the token and process the mailbox.
  pub running : ℕ
  -- Between the release of `held` and the look at the actor's state and mailbox.
  pub checking : ℕ
  -- Has seen mail, and is about to claim `held` again.
  pub claiming : ℕ
  pub requeueing : ℕ

abbrev pub idle : Token
idle = record {
  mail = 0;
  held = 0;
  stopped = false;
  notifying = 0;
  dispatching = 0;
  queued = 0;
  pended = 0;
  cleared = false;
  running = 0;
  checking = 0;
  claiming = 0;
  requeueing = 0;
}

pub data Step (t : Token) : Token → Type 0 where
  post : Step t (record t { mail = t.mail + 1; notifying = t.notifying + 1 })
  notify_win :
      0 < t.notifying
      → t.held ≡ 0
      → Step t (record t { notifying = t.notifying - 1; held = 1; dispatching = t.dispatching + 1 })
  notify_lose : 0 < t.notifying → t.held ≡ 1 → Step t (record t { notifying = t.notifying - 1 })
  enqueue :
      0 < t.dispatching
      → Step t (record t { dispatching = t.dispatching - 1; queued = t.queued + 1 })
  pend :
      0 < t.dispatching
      → Step t (record t { dispatching = t.dispatching - 1; pended = t.pended + 1 })
  -- A worker takes from the queues only; drainPendedActor moves from the waiting list to a queue.
  acquire : 0 < t.queued → Step t (record t { queued = t.queued - 1; running = t.running + 1 })
  drain : 0 < t.pended → Step t (record t { pended = t.pended - 1; queued = t.queued + 1 })
  clear_pended : Step t (record t { pended = 0; cleared = true })
  consume : 0 < t.running → 0 < t.mail → Step t (record t { mail = t.mail - 1 })
  stop : Step t (record t { stopped = true })
  release :
      0 < t.running
      → Step t (record t { running = t.running - 1; held = 0; checking = t.checking + 1 })
  check_stopped :
      0 < t.checking → t.stopped ≡ true → Step t (record t { checking = t.checking - 1 })
  check_empty : 0 < t.checking → t.mail ≡ 0 → Step t (record t { checking = t.checking - 1 })
  check_more :
      0 < t.checking
      → 0 < t.mail
      → Step t (record t { checking = t.checking - 1; claiming = t.claiming + 1 })
  claim_win :
      0 < t.claiming
      → t.held ≡ 0
      → Step t (record t { claiming = t.claiming - 1; held = 1; requeueing = t.requeueing + 1 })
  claim_lose : 0 < t.claiming → t.held ≡ 1 → Step t (record t { claiming = t.claiming - 1 })
  requeue :
      0 < t.requeueing → Step t (record t { requeueing = t.requeueing - 1; queued = t.queued + 1 })
  requeue_pend :
      0 < t.requeueing → Step t (record t { requeueing = t.requeueing - 1; pended = t.pended + 1 })

-- The tokens of the actor, wherever they are.
tokens : Token → ℕ
tokens t = t.dispatching + t.queued + t.pended + t.running + t.requeueing

pub data Reach : Token → Type 0 where
  start : Reach idle
  later : {t u : Token} → Reach t → Step t u → Reach u

-- There is one token exactly while `held` is set, unless the waiting list was dropped, and mail that no
-- token covers is known to a thread that is on its way to look.
record Covered (t : Token) : Type 0 where
  few : tokens t ≤ t.held
  one : (t.cleared ≡ true) ⊎ (tokens t ≡ t.held)
  bit : t.held ≤ 1
  seen : (t.stopped ≡ true) ⊎ ((t.mail ≡ 0) ⊎ (0 < t.held + t.notifying + t.checking + t.claiming))

Step-Covered : {t u : Token} → Covered t → Step t u → Covered u
unfolding tokens
Step-Covered c post = ground arith
Step-Covered c (notify_win n h) = ground arith
Step-Covered c (notify_lose n h) = ground arith
Step-Covered c (enqueue n) = ground arith
Step-Covered c (pend n) = ground arith
Step-Covered c (acquire n) = ground arith
Step-Covered c (drain n) = ground arith
Step-Covered c clear_pended = ground arith
Step-Covered c (consume n m) = ground arith
Step-Covered c stop = ground arith
Step-Covered c (release n) = ground arith
Step-Covered c (check_stopped n s) = ground arith
Step-Covered c (check_empty n m) = ground arith
Step-Covered c (check_more n m) = ground arith
Step-Covered c (claim_win n h) = ground arith
Step-Covered c (claim_lose n h) = ground arith
Step-Covered c (requeue n) = ground arith
Step-Covered c (requeue_pend n) = ground arith

Reach-Covered : {t : Token} → Reach t → Covered t
unfolding tokens
Reach-Covered start = record {
  few = omega arith;
  one = inr refl;
  bit = omega arith;
  seen = inr (inl refl);
}
Reach-Covered (later before step) = Step-Covered (Reach-Covered before) step

-- However posts, dispatches, batches and settlements interleave, there is at most one token of an actor
-- in queues, waiting list and workers together, so that no two workers process its mailbox at once.
pub token_single :
    {t : Token} → Reach t → t.dispatching + t.queued + t.pended + t.running + t.requeueing ≤ 1
unfolding tokens
token_single reach = let c = Reach-Covered reach in omega (arith, c.few, c.bit)

-- When every thread has left the code between a push and its dispatch, and between a batch and its
-- settlement, and `stop` of the dispatcher has not dropped the waiting list, an actor with mail that is
-- not stopped has its token in a queue or on the waiting list.
pub token_waits :
    {t : Token}
    → Reach t
    → t.stopped ≡ false
    → t.cleared ≡ false
    → 0 < t.mail
    → t.notifying + t.dispatching + t.running + t.checking + t.claiming + t.requeueing ≡ 0
    → t.queued + t.pended ≡ 1
unfolding tokens
token_waits {t} reach alive kept mail quiet =
    let c = Reach-Covered reach in
    elim c.seen [
      | inl over ↦ let clash : true ≡ false = sym over ∙ alive in absurd cc
      | inr (inl none') ↦ absurd (omega (arith, none', mail))
      | inr (inr covered) ↦ elim c.one [
        | inl gone ↦ let clash : true ≡ false = sym gone ∙ kept in absurd cc
        | inr one ↦ omega (arith, one, c.bit, covered, quiet)
      ]
    ]
