-- ===== src/Actors/System/Order.antt =====
-- The order in which actor_system.cpp starts and stops the parts of the system.
use v2_engine.Common.{
  ℕ, zero, suc, ◌≤◌, ◌<◌, ◌≡◌, Bool, true, false, Option, none, some, List, [], ◌∷◌, ◌++◌, arith,
  refl, ap, ◌∙◌, ◌==◌, if◌then◌else◌, ◌&&◌, not,
}
use v2_engine.Actors.System.{
  Attached, ActorSystem, Result, done, threw, Call, dispatcher_start, begin_drain, dispatcher_stop,
  scheduler_start, scheduler_stop, loop_start, loop_run, loop_stop, registry_clear, worker_start,
  worker_stop, actor_open, actor_close, with_loop, each_worker, close_all, stop, destroy, Opened,
  opened, failed, exception, open_next, open_all, finish_start, start,
}

-- Which parts run, and which workers.
pub record Running : Type 0 where
  pub dispatching : Bool
  pub looping : Bool
  pub scheduling : Bool
  pub working : List ℕ

abbrev pub idle : Running
idle = record { dispatching = false; looping = false; scheduling = false; working = [] }

is_empty : List ℕ → Bool
is_empty [] = true
is_empty (x ∷ xs) = false

remove : ℕ → List ℕ → List ℕ
remove w [] = []
remove w (x ∷ xs) = let rest = remove w xs in if x == w then rest else x ∷ rest

guard : Bool → Running → Option Running
guard true r = some r
guard false r = none

-- The rules of the order. Actors open while messages can be sent and nobody runs them, workers need a
-- dispatcher, nothing may feed a dispatcher that drains, and an actor closes when all the rest is off.
step : Call → Running → Option Running
unfolding is_empty remove guard
step dispatcher_start r = some (record r { dispatching = true })
step loop_start r = some (record r { looping = true })
step loop_run r = guard r.looping r
step scheduler_start r = some (record r { scheduling = true })
step (actor_open id) r = guard (r.dispatching && (r.scheduling && is_empty r.working)) r
step (worker_start w) r = guard r.dispatching (record r { working = w ∷ r.working })
step scheduler_stop r = some (record r { scheduling = false })
step loop_stop r = some (record r { looping = false })
step begin_drain r = guard (not r.scheduling && not r.looping) r
step (worker_stop w) r = some (record r { working = remove w r.working })
step dispatcher_stop r = guard (is_empty r.working) (record r { dispatching = false })
step (actor_close id) r =
    guard (not r.dispatching && (not r.scheduling && (not r.looping && is_empty r.working))) r
step registry_clear r = guard (not r.dispatching && is_empty r.working) r

-- The calls one after the other, as long as each is allowed.
pub replay : List Call → Running → Option Running
unfolding step
replay [] r = some r
replay (c ∷ cs) r = elim (step c r) [ some r' ↦ replay cs r' | none ↦ none ]

replay-append :
    (cs more : List Call) (r : Running) {r' : Running}
    → replay cs r ≡ some r'
    → replay (cs ++ more) r ≡ replay more r'
unfolding replay
replay-append [] more r e = ap (λ o. elim o [ some x ↦ replay more x | none ↦ none ]) e
replay-append (c ∷ cs) more r {r'} e =
    (elim (step c r)
        as (λ o.
          elim o [ some x ↦ replay cs x | none ↦ none ] ≡ some r'
          → elim o [ some x ↦ replay (cs ++ more) x | none ↦ none ] ≡ replay more r') [
            | some x ↦ replay-append cs more x
            | none ↦ λ h. cc
          ])
      e

-- The workers from the last started to the first.
down_from : ℕ → List ℕ
down_from zero = []
down_from (suc n) = n ∷ down_from n

remove_all : ℕ → List ℕ → List ℕ
unfolding remove
remove_all zero xs = xs
remove_all (suc n) xs = remove n (remove_all n xs)

ne→== : (a b : ℕ) → b < a → (a == b) ≡ false
ne→== a b h = ground arith

==-refl : (n : ℕ) → (n == n) ≡ true
==-refl n = ground arith

remove_all-cons : (n x : ℕ) (xs : List ℕ) → n ≤ x → remove_all n (x ∷ xs) ≡ x ∷ remove_all n xs
unfolding remove_all remove
remove_all-cons zero x xs h = refl
remove_all-cons (suc n) x xs h =
    ap (remove n) (remove_all-cons n x xs (omega (arith, h)))
    ∙ rw (ne→== x n (omega (arith, h))) refl

remove_all-nil : (n : ℕ) → remove_all n [] ≡ []
unfolding remove_all remove
remove_all-nil zero = refl
remove_all-nil (suc n) = ap (remove n) (remove_all-nil n)

remove_all-down_from : (n : ℕ) → remove_all n (down_from n) ≡ []
unfolding remove_all remove down_from
remove_all-down_from zero = refl
remove_all-down_from (suc n) =
    ap (remove n) (remove_all-cons n n (down_from n) (omega arith))
    ∙ rw (==-refl n) (ap (remove n) (remove_all-down_from n))

-- The state after the dispatcher, the loop and the scheduler were started.
up : Bool → List ℕ → Running
up looping workers = record {
  dispatching = true;
  looping = looping;
  scheduling = true;
  working = workers;
}

replay-worker_start :
    (n : ℕ) (looping : Bool)
    → replay (each_worker worker_start n) (up looping []) ≡ some (up looping (down_from n))
unfolding replay each_worker down_from up step guard
replay-worker_start zero looping = refl
replay-worker_start (suc n) looping =
    replay-append (each_worker worker_start n) _ (up looping []) (replay-worker_start n looping)

replay-worker_stop :
    (n : ℕ) (r : Running)
    → replay (each_worker worker_stop n) r ≡ some (record r { working = remove_all n r.working })
unfolding replay each_worker remove_all step
replay-worker_stop zero r = refl
replay-worker_stop (suc n) r =
    replay-append (each_worker worker_stop n) _ r (replay-worker_stop n r)

replay-close_all : (rts : List Attached) → replay (close_all rts) idle ≡ some idle
unfolding replay close_all step guard is_empty
replay-close_all [] = refl
replay-close_all (rt ∷ rts) = replay-close_all rts

replay-open_next :
    (o : Opened) (id : ℕ) (rest : Result × List Call) (looping : Bool)
    → replay rest.1 (up looping []) ≡ some (up looping [])
    → replay (open_next o id rest).1 (up looping []) ≡ some (up looping [])
unfolding replay open_next step guard is_empty up
replay-open_next exception id rest looping e = refl
replay-open_next opened id rest looping e = e
replay-open_next failed id rest looping e = e

replay-open_all :
    (opens : ℕ → Opened) (rts : List Attached) (looping : Bool)
    → replay (open_all opens rts).1 (up looping []) ≡ some (up looping [])
unfolding replay open_all step guard is_empty up
replay-open_all opens [] looping = refl
replay-open_all opens (rt ∷ rts) looping =
    replay-open_next (opens rt.id) rt.id (open_all opens rts) looping
      (replay-open_all opens rts looping)

replay-loop_stop :
    (has_loop : Bool) (rest : List Call) (r : Running)
    → (has_loop ≡ false → r.looping ≡ false)
    → replay (with_loop has_loop loop_stop ++ rest) r ≡ replay rest (record r { looping = false })
unfolding replay with_loop step
replay-loop_stop true rest r off = refl
replay-loop_stop false rest r off = rw (off refl) refl

replay-stop :
    (s : ActorSystem) (r : Running)
    → (s.has_event_loop ≡ false → r.looping ≡ false)
    → remove_all s.workers r.working ≡ []
    → replay (stop s) r ≡ some idle
unfolding replay stop step guard is_empty with_loop
replay-stop s r off gone =
    let still : Running = record r { scheduling = false; looping = false } in
    replay-loop_stop s.has_event_loop _ (record r { scheduling = false }) off
    ∙ replay-append (each_worker worker_stop s.workers) _ still (replay-worker_stop s.workers still)
    ∙ rw gone (replay-close_all s.runtimes)

-- What a start leaves, with the workers of a start that went well.
after : Result → ActorSystem → Running
unfolding up down_from
after done s = up s.has_event_loop (down_from s.workers)
after threw s = idle

replay-finish_start :
    (result : Result) (s : ActorSystem)
    → replay (finish_start result s) (up s.has_event_loop []) ≡ some (after result s)
unfolding finish_start after up
replay-finish_start done s = replay-worker_start s.workers s.has_event_loop
replay-finish_start threw s =
    replay-stop s (up s.has_event_loop []) (λ e. e) (remove_all-nil s.workers)

replay-loop_start :
    (has_loop : Bool) (rest : List Call) (r : Running)
    → r.looping ≡ false
    → replay (with_loop has_loop loop_start ++ rest) r
      ≡ replay rest (record r { looping = has_loop })
unfolding replay with_loop step
replay-loop_start true rest r off = refl
replay-loop_start false rest r off = ap (λ b. replay rest (record r { looping = b })) off

replay-start :
    (opens : ℕ → Opened) (s : ActorSystem)
    → replay (start opens s).1 idle ≡ some (after (start opens s).0 s)
unfolding start replay with_loop step up
replay-start opens s =
    let calls = open_all opens s.runtimes in
    replay-loop_start s.has_event_loop _ (record idle { dispatching = true }) refl
    ∙ replay-append calls.1 _ (up s.has_event_loop [])
        (replay-open_all opens s.runtimes s.has_event_loop)
    ∙ replay-finish_start calls.0 s

replay-stop-after :
    (result : Result) (s : ActorSystem) → replay (stop s) (after result s) ≡ some idle
unfolding after up
replay-stop-after done s = replay-stop s _ (λ e. e) (remove_all-down_from s.workers)
replay-stop-after threw s = replay-stop s idle (λ e. refl) (remove_all-nil s.workers)

-- Whatever the actors' `open` comes to, the calls of `start`, of `stop` and of the destructor keep the
-- rules of the order, and at the end no part and no worker runs.
pub start-stop-destroy :
    (opens : ℕ → Opened) (s : ActorSystem)
    → replay ((start opens s).1 ++ (stop s ++ destroy s)) idle ≡ some idle
unfolding destroy replay step guard is_empty
start-stop-destroy opens s =
    let (result, calls) = start opens s in
    let stopped = replay-stop s idle (λ e. refl) (remove_all-nil s.workers) in
    replay-append calls _ idle (replay-start opens s)
    ∙ replay-append (stop s) _ (after result s) (replay-stop-after result s)
    ∙ replay-append (stop s) _ idle stopped
