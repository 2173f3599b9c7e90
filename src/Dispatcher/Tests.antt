-- ===== src/Dispatcher/Tests.antt =====
-- Dispatchers with one, two or three workers.
use v2_engine.Common.{ℕ, zero, suc, ◌+◌, ◌≡◌, ◌≤◌, refl, Bool, true, false, List, [], ◌∷◌, arith}
use v2_engine.Dispatcher.{Dispatcher, pick_worker, dispatch, settle_token}
use v2_engine.Dispatcher.Accounting.{Accounts, total, dispatch-Accounts, settle_token-Accounts}
use v2_engine.Dispatcher.Token
use v2_engine.Dispatcher.Token.{
  Token, Reach, start, later, post, notify_win, notify_lose, enqueue, release, check_more,
  claim_win, requeue, token_single, token_waits,
}

-- The token of actor 5 is queued, and, with `pending` 2, one more is with a worker.
abbrev made : (workers capacity pending : ℕ) → Bool → List ℕ → (ℕ → List ℕ) → Dispatcher
made workers capacity pending draining pended queues = record {
  worker_count = workers;
  queue_capacity = capacity;
  high_watermark = 1;
  running = true;
  draining = draining;
  pending_work = pending;
  held = λ slot. false;
  pended = pended;
  semas = λ worker. 0;
  queues = queues;
}

abbrev queues : ℕ → List ℕ
queues zero = 1 ∷ 2 ∷ 3 ∷ []
queues (suc zero) = 4 ∷ 5 ∷ []
queues (suc (suc _)) = 6 ∷ []

abbrev one_worker : ℕ → ℕ → Dispatcher
one_worker capacity pending = made 1 capacity pending false (9 ∷ []) (λ worker. 5 ∷ [])

one_worker-Accounts : Accounts (one_worker 4 1) 0 0
unfolding total
one_worker-Accounts = record { sum = refl; small = omega arith; workers = omega arith }

running-Accounts : Accounts (one_worker 4 2) 1 0
unfolding total
running-Accounts = record { sum = refl; small = omega arith; workers = omega arith }

dispatch-Accounts_example : Accounts (dispatch 8 (one_worker 4 1)).1 0 0
dispatch-Accounts_example = dispatch-Accounts 8 (omega arith) one_worker-Accounts

settle_token-Accounts_example : Accounts (settle_token 8 true (one_worker 4 2)).1 0 0
unfolding pick_worker
settle_token-Accounts_example = settle_token-Accounts 8 true (omega arith) running-Accounts

-- A message is posted while a worker runs the batch of another; the settlement finds it, and claims the
-- token before the sender does.
abbrev settled_first : (t : Token) × Reach t
settled_first =
    let queued =
      later (later (later start post) (notify_win (omega arith) refl)) (enqueue (omega arith)) in
    let run =
      later (later queued (Token.acquire (omega arith)))
        (Token.consume (omega arith) (omega arith)) in
    let checked =
      later (later (later run post) (release (omega arith)))
        (check_more (omega arith) (omega arith)) in
    let claimed = later (later checked (claim_win (omega arith) refl)) (requeue (omega arith)) in
    (_, later claimed (notify_lose (omega arith) refl))

token_single_example :
    settled_first.0.dispatching + settled_first.0.queued + settled_first.0.pended
      + settled_first.0.running + settled_first.0.requeueing
    ≤ 1
token_single_example = token_single settled_first.1

token_waits_example : settled_first.0.queued + settled_first.0.pended ≡ 1
token_waits_example = token_waits settled_first.1 refl refl (omega arith) refl
