-- ===== src/Dispatcher/Accounting.antt =====
-- The accounting of `pendingWork_`: the tokens in the queues, the tokens that workers run, and what is
-- owed for tokens that no longer exist.
use native.Mathlib.Decide.{ℕ_discrete}
use v2_engine.Common.{
  ℕ, zero, suc, ◌+◌, ◌%◌, ◌^◌, ◌≤◌, ◌<◌, ◌≡◌, refl, ap, ap₂, ◌∙◌, sym, Bool, true, false, ◌&&◌,
  List, [], ◌∷◌, ◌++◌, length, length-append, arith, ltb, ◌==◌, update, update_self, update_ne,
  Bool-cases, inl, inr,
}
use v2_engine.Dispatcher.{
  Dispatcher, load, pick_worker, put, dispatch, redispatch, settle_token, slot_of, exchange,
  count_up, retire_pending_work, drain_each, drain_pended_actor,
}
use v2_engine.Dispatcher.Placement.{pick_worker-bounds, enqueue_entry_cases}

-- The entries of the first `n` queues.
unfoldable pub total : ℕ → (ℕ → List ℕ) → ℕ
total zero queues = 0
total (suc n) queues = total n queues + length (queues n)

total-update_above :
    (n : ℕ) (queues : ℕ → List ℕ) (w : ℕ) (q : List ℕ)
    → n ≤ w
    → total n (update queues w q) ≡ total n queues
unfolding total
total-update_above zero queues w q h = refl
total-update_above (suc n) queues w q h =
    ap₂ ◌+◌ (total-update_above n queues w q (omega arith))
      (ap length (update_ne queues w n q (λ e. absurd (omega (arith, e)))))

pub total-update :
    (n : ℕ) (queues : ℕ → List ℕ) (w : ℕ) (q : List ℕ)
    → w < n
    → total n (update queues w q) + length (queues w) ≡ total n queues + length q
unfolding total
total-update zero queues w q h = absurd (omega arith)
total-update (suc n) queues w q h = elim (ℕ_discrete w n) [
  | yes e ↦
      let last : length (update queues w q n) ≡ length q =
        ap (λ k. length (update queues w q k)) (sym e) ∙ ap length (update_self queues w q) in
      let here : length (queues n) ≡ length (queues w) = ap (λ k. length (queues k)) (sym e) in
      omega (arith, total-update_above n queues w q (omega arith), last, here)
  | no ne ↦
      let same : length (update queues w q n) ≡ length (queues n) =
        ap length (update_ne queues w n q (λ e. ne (sym e))) in
      omega (arith, total-update n queues w q (omega arith), same)
]

-- `running` tokens are with workers; `owed` counts what has been counted twice.
pub record Accounts (d : Dispatcher) (running owed : ℕ) : Type 0 where
  pub sum : d.pending_work ≡ total d.worker_count d.queues + running + owed
  pub small : d.pending_work < 2 ^ 63
  pub workers : 0 < d.worker_count

pub total-put :
    (actor w : ℕ) (d : Dispatcher)
    → w < d.worker_count
    → total d.worker_count (put actor w d).queues ≡ total d.worker_count d.queues + 1
unfolding put
total-put actor w d h = omega (
  arith,
  total-update d.worker_count d.queues w (d.queues w ++ actor ∷ []) h,
  length-append (d.queues w) (actor ∷ []),
)

-- An entry that is put into a queue and counted keeps the accounts.
put-Accounts :
    (actor w n : ℕ) (d : Dispatcher) {running owed : ℕ}
    → w < d.worker_count
    → n < 2 ^ 63
    → n ≡ total d.worker_count d.queues + 1 + running + owed
    → 0 < d.worker_count
    → Accounts (record (put actor w d) { pending_work = n }) running owed
unfolding put
put-Accounts actor w n d h small e workers = record {
  sum = omega (arith, e, total-put_lem);
  small = small;
  workers = workers;
}
  where
    total-put_lem :
        total d.worker_count (update d.queues w (d.queues w ++ actor ∷ []))
        ≡ total d.worker_count d.queues + 1
    total-put_lem = total-put actor w d h

-- A dispatch keeps the accounts where the count cannot wrap: a token that is issued is counted, one that finds its queue full
-- waits without being counted, and a second token for an actor is not issued.
pub dispatch-Accounts :
    (actor : ℕ) {d : Dispatcher} {running owed : ℕ}
    → d.pending_work + 1 < 2 ^ 63
    → Accounts d running owed
    → Accounts (dispatch actor d).1 running owed
unfolding dispatch count_up exchange
dispatch-Accounts actor {d} {running} {owed} h a =
    let claimed = (exchange actor true d).1 in
    let same : Accounts claimed running owed = record {
      sum = a.sum;
      small = a.small;
      workers = a.workers;
    } in
    elim (Bool-cases (d.held (slot_of actor))) [
      | inl before ↦ rw before same
      | inr free ↦ rw free (elim (enqueue_entry_cases actor claimed a.workers) [
        | inl (room, w_in, e) ↦ rw e (
            put-Accounts actor (pick_worker actor claimed) ((d.pending_work + 1) % 2 ^ 64) claimed
              w_in (omega arith) (omega (arith, a.sum)) a.workers)
        | inr (full, e) ↦ rw e (record { sum = a.sum; small = a.small; workers = a.workers })
      ])
    ]

-- The waiting list enters the queues with one more count for each entry: this keeps the accounts of
-- tokens that have not been counted.
drain_each-Accounts :
    (actors : List ℕ) {d : Dispatcher} {running owed : ℕ}
    → d.pending_work + length actors < 2 ^ 63
    → Accounts d running owed
    → Accounts (drain_each actors d) running owed
unfolding drain_each count_up
drain_each-Accounts [] h a = a
drain_each-Accounts (actor ∷ actors) {d} {running} {owed} h a =
    let w = pick_worker actor d in
    elim (Bool-cases (ltb (load d w) d.queue_capacity)) [
      | inl room ↦ rw room (
          drain_each-Accounts actors (put_room actor w) (
            put-Accounts actor w ((d.pending_work + 1) % 2 ^ 64) d
              (pick_worker-bounds actor d a.workers).0 (omega arith) (omega (arith, a.sum))
              a.workers))
      | inr full ↦ rw full (
          drain_each-Accounts actors (omega arith)
            (record { sum = a.sum; small = a.small; workers = a.workers }))
    ]
  where
    put_room : (x w : ℕ) → (d.pending_work + 1) % 2 ^ 64 + length actors < 2 ^ 63
    put_room x w = omega arith

-- `drainPendedActor` keeps the accounts where the count cannot wrap: each entry of the waiting list that
-- enters a queue is counted once more, and the rest goes on waiting.
pub drain_pended_actor-Accounts :
    {d : Dispatcher} {running owed : ℕ}
    → d.pending_work + length d.pended < 2 ^ 63
    → Accounts d running owed
    → Accounts (drain_pended_actor d) running owed
unfolding drain_pended_actor
drain_pended_actor-Accounts {d} h a =
    drain_each-Accounts d.pended h (record { sum = a.sum; small = a.small; workers = a.workers })

-- The worker that the actor would go back to has room.
abbrev pub HasRoom : ℕ → Dispatcher → Type 0
HasRoom actor d = load d (pick_worker actor d) < d.queue_capacity

retire-Accounts :
    {d : Dispatcher} {running owed : ℕ}
    → Accounts d (suc running) owed
    → Accounts (retire_pending_work d) running owed
unfolding retire_pending_work
retire-Accounts {d} a = elim (Bool-cases (d.pending_work == 1 && d.draining)) [
  | inl last ↦ rw last (record {
    sum = omega (arith, a.sum, a.small);
    small = omega (arith, a.sum, a.small);
    workers = a.workers;
  })
  | inr more ↦ rw more (record {
    sum = omega (arith, a.sum, a.small);
    small = omega (arith, a.sum, a.small);
    workers = a.workers;
  })
]

-- Settling the token of an actor that has run keeps the accounts where the queue it would go back to
-- has room: with a backlog the token enters that queue, and without it is retired.
pub settle_token-Accounts :
    (actor : ℕ) (backlog : Bool) {d : Dispatcher} {running owed : ℕ}
    → HasRoom actor d
    → Accounts d (suc running) owed
    → Accounts (settle_token actor backlog d).1 running owed
unfolding settle_token exchange redispatch
settle_token-Accounts actor backlog {d} {running} {owed} room a =
    let released : Dispatcher = (exchange actor false d).1 in
    let claimed : Dispatcher = (exchange actor true released).1 in
    let free : released.held (slot_of actor) ≡ false = update_self d.held (slot_of actor) false in
    let kept : Accounts released (suc running) owed = record {
      sum = a.sum;
      small = a.small;
      workers = a.workers;
    } in
    elim (Bool-cases backlog) [
      | inl more ↦
          rw (more, free)
            (elim (enqueue_entry_cases actor claimed a.workers) [
              | inl (fits, w_in, e) ↦ rw e (
                  put-Accounts actor (pick_worker actor claimed) d.pending_work claimed w_in a.small
                    (omega (arith, a.sum)) a.workers)
              | inr (full, e) ↦ absurd (omega (arith, full, room))
            ])
      | inr done ↦ rw done (retire-Accounts kept)
    ]

-- Where the accounts hold, an actor with a backlog whose queue has no room goes to the waiting list, and its token stays
-- counted although no queue and no worker has it.
pub settle_token-full :
    (actor : ℕ) (d : Dispatcher) {running owed : ℕ}
    → d.queue_capacity ≤ load d (pick_worker actor d)
    → Accounts d (suc running) owed
    → Accounts (settle_token actor true d).1 running (suc owed)
      × ((settle_token actor true d).1.pended ≡ d.pended ++ actor ∷ [])
unfolding settle_token exchange redispatch
settle_token-full actor d full a =
    let claimed = (exchange actor true (exchange actor false d).1).1 in
    let free : update d.held (slot_of actor) false (slot_of actor) ≡ false =
      update_self d.held (slot_of actor) false in
    rw free (elim (enqueue_entry_cases actor claimed a.workers) [
      | inl (fits, w_in, e) ↦ absurd (omega (arith, full, fits))
      | inr (no_room, e) ↦
          rw e (record { sum = omega (arith, a.sum); small = a.small; workers = a.workers }, refl)
    ])
