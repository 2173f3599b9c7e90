-- ===== src/Platform/EventLoop/Tests.antt =====
-- A loop whose kernel watches what it is asked to, but descriptor 9.
use v2_engine.Common.{
  ℕ, ◌≡◌, Bool, true, false, none, some, List, [], ◌∷◌, arith, refl, ◌==◌, if◌then◌else◌, update,
}
use v2_engine.Platform.EventLoop.{
  Epoll, IsLawful, EventLoop, ok, add, Call, subscribe, unsubscribe, stop, Wait, ready, interrupted,
  returned, set_handler, erase_handler, watch, subscribe_fd, unsubscribe_fd, drain_pending_ops, run,
}
use v2_engine.Platform.EventLoop.Lost.{resubscribed-lost}
use v2_engine.Platform.EventLoop.Threads.{
  System, Reach, free, subscribe_there, push, take_add, add_now, took,
}

abbrev kernel : Epoll
kernel = record {
  State = ℕ → Bool;
  watched = λ s j. s j;
  add = λ fd s. if fd == 9 then (false, s) else (true, update s fd true);
  del = λ fd s. update s fd false;
}

kernel-IsLawful : IsLawful kernel
kernel-IsLawful = record {
  watched-add = λ fd j s. ground arith;
  watched-del = λ fd j s. ground arith;
}

-- Handlers are numbers: 1 takes a connection, 2 drops one, 3 stops the loop.
abbrev calls : ℕ → List (Call ℕ)
calls h =
    if h == 1
    then subscribe 7 2 ∷ subscribe 9 2 ∷ []
    else if h == 2
    then unsubscribe 7 ∷ []
    else stop ∷ []

abbrev fresh : EventLoop kernel ℕ
fresh = record {
  running = true;
  handlers = λ j. none;
  pending = [];
  epoll = λ j. j == 4;
  stop_fd = 4;
}

abbrev listening : EventLoop kernel ℕ
listening = record {
  running = true;
  handlers = λ j. if j == 5 then some 1 else if j == 6 then some 3 else none;
  pending = [];
  epoll = λ j. if j == 4 then true else if j == 5 then true else j == 6;
  stop_fd = 4;
}

abbrev waits : List Wait
waits = ready (5 ∷ []) ∷ interrupted ∷ ready (4 ∷ 7 ∷ 6 ∷ []) ∷ ready (5 ∷ []) ∷ []

-- The third handler has stopped the loop, so its fourth wait is not served.
run_ends :
    ((run calls waits listening).0 ≡ returned) × ((run calls waits listening).1.handlers 7 ≡ none)
unfolding run subscribe_fd set_handler watch erase_handler
run_ends = (refl, refl)

connection_taken : (run calls (ready (5 ∷ []) ∷ []) listening).1.handlers 7 ≡ some 2
unfolding run subscribe_fd set_handler watch erase_handler
connection_taken = refl

-- Descriptor 7 is given out anew.
resubscribed-lost_example :
    ((subscribe_fd false 7 2 (unsubscribe_fd false 7 listening).1).0 ≡ ok)
    × ((drain_pending_ops (subscribe_fd false 7 2 (unsubscribe_fd false 7 listening).1).1).handlers
          7
        ≡ none)
    × ((drain_pending_ops (subscribe_fd false 7 2 (unsubscribe_fd false 7 listening).1).1).epoll 7
        ≡ true)
resubscribed-lost_example = resubscribed-lost kernel-IsLawful 7 2 listening refl

abbrev quiet : System kernel ℕ
quiet = record { loop = fresh; stage = free; posting = [] }

abbrev asked : (s : System kernel ℕ) × Reach quiet s
unfolding set_handler
asked = (_, Reach.later Reach.start (subscribe_there 7 2 refl))

-- A thread subscribes 8 before the loop takes the subscription of 7.
abbrev served : (t : System kernel ℕ) × Reach asked.0 t
unfolding asked set_handler took
served = (
  _,
  Reach.later
      (Reach.later
        (Reach.later
          (Reach.later
            (Reach.later
              (Reach.later (Reach.later Reach.start (subscribe_there 8 3 refl))
                (push (add 7) (add 8 ∷ []) [] refl (omega arith)))
              (take_add 7 [] refl refl))
            (push (add 8) [] [] refl (omega arith)))
          (add_now 7 refl))
        (take_add 8 [] refl refl))
      (add_now 8 refl),
)
