-- ===== src/Platform/EventLoop/Owner.antt =====
-- The loop of event_loop_epoll.cpp where only its own thread subscribes and unsubscribes.
use v2_engine.Common.{
  ℕ, ◌≡◌, ◌≢◌, inl, inr, Bool, true, false, Option, none, some, List, [], ◌∷◌, arith, refl, ◌==◌,
  Bool-cases, Option-cases,
}
use v2_engine.Platform.EventLoop.{
  Epoll, IsLawful, EventLoop, Call, subscribe, unsubscribe, stop, Wait, ready, interrupted, failed,
  set_handler, erase_handler, watch, subscribe_fd, unsubscribe_fd, drain_pending_ops, stop_loop,
  make_calls, serve, serve_all, run, run_ops,
}

abbrev pub is_set {ℓ} : {A : Type ℓ} → Option A → Bool
is_set none = false
is_set (some a) = true

module _ {E : Epoll} {H : Type 0} (lawful : IsLawful E) where
  -- A descriptor, other than the loop's own, is watched exactly when it has a handler, and no
  -- operation waits.
  pub record Agrees (l : EventLoop E H) : Type 0 where
    pub same : (j : ℕ) → j ≢ l.stop_fd → E.watched l.epoll j ≡ is_set (l.handlers j)
    pub settled : l.pending ≡ []

  subscribe-Agrees :
      (fd : ℕ) (h : H) (l : EventLoop E H) → Agrees l → Agrees (subscribe_fd true fd h l).1
  unfolding subscribe_fd set_handler watch erase_handler
  subscribe-Agrees fd h l agrees = record {
    same = λ j ne. ground (arith, lawful.watched-add fd j l.epoll, agrees.same j);
    settled = ground (arith, agrees.settled);
  }

  unsubscribe-Agrees : (fd : ℕ) (l : EventLoop E H) → Agrees l → Agrees (unsubscribe_fd true fd l).1
  unfolding unsubscribe_fd erase_handler
  unsubscribe-Agrees fd l agrees = record {
    same = λ j ne. ground (arith, lawful.watched-del fd j l.epoll, agrees.same j ne);
    settled = agrees.settled;
  }

  running_any : (b : Bool) (l : EventLoop E H) → Agrees l → Agrees (record l { running = b })
  running_any b l agrees = record { same = agrees.same; settled = agrees.settled }

  make_calls-Agrees :
      (calls : List (Call H)) (l : EventLoop E H) → Agrees l → Agrees (make_calls calls l)
  unfolding make_calls stop_loop
  make_calls-Agrees [] l agrees = agrees
  make_calls-Agrees (subscribe fd h ∷ calls) l agrees =
      make_calls-Agrees calls _ (subscribe-Agrees fd h l agrees)
  make_calls-Agrees (unsubscribe fd ∷ calls) l agrees =
      make_calls-Agrees calls _ (unsubscribe-Agrees fd l agrees)
  make_calls-Agrees (stop ∷ calls) l agrees = make_calls-Agrees calls _ (running_any false l agrees)

  serve-Agrees :
      (calls : H → List (Call H)) (fd : ℕ) (l : EventLoop E H)
      → Agrees l
      → Agrees (serve calls fd l)
  unfolding serve
  serve-Agrees calls fd l agrees = elim (Bool-cases (fd == l.stop_fd)) [
    | inl own ↦ rw own agrees
    | inr other ↦ elim (Option-cases (l.handlers fd)) [
      | inl none' ↦ rw (other, none') agrees
      | inr (h, set') ↦ rw (other, set') (make_calls-Agrees (calls h) l agrees)
    ]
  ]

  serve_all-Agrees :
      (calls : H → List (Call H)) (fds : List ℕ) (l : EventLoop E H)
      → Agrees l
      → Agrees (serve_all calls fds l)
  unfolding serve_all
  serve_all-Agrees calls [] l agrees = agrees
  serve_all-Agrees calls (fd ∷ fds) l agrees =
      serve_all-Agrees calls fds (serve calls fd l) (serve-Agrees calls fd l agrees)

  drain-Agrees : (l : EventLoop E H) → Agrees l → Agrees (drain_pending_ops l)
  unfolding drain_pending_ops run_ops
  drain-Agrees l agrees = rw agrees.settled (record { same = agrees.same; settled = refl })

  -- As long as only handlers that the loop itself calls subscribe and unsubscribe, each descriptor
  -- other than the loop's own is watched exactly when it has a handler, whatever the kernel answers
  -- and whatever the handlers do, also after a handler has stopped the loop.
  run-Agrees :
      (calls : H → List (Call H)) (waits : List Wait) (l : EventLoop E H)
      → Agrees l
      → Agrees (run calls waits l).1
  unfolding run
  run-Agrees calls [] l agrees = agrees
  run-Agrees calls (ready fds ∷ waits) l agrees = elim (Bool-cases l.running) [
    | inr over ↦ rw over (running_any false l agrees)
    | inl on ↦ rw on (
        run-Agrees calls waits _
          (serve_all-Agrees calls fds _ (drain-Agrees _ (running_any true l agrees))))
  ]
  run-Agrees calls (interrupted ∷ waits) l agrees = elim (Bool-cases l.running) [
    | inr over ↦ rw over (running_any false l agrees)
    | inl on ↦ rw on (run-Agrees calls waits _ (drain-Agrees _ (running_any true l agrees)))
  ]
  run-Agrees calls (failed ∷ waits) l agrees = elim (Bool-cases l.running) [
    | inr over ↦ rw over (running_any false l agrees)
    | inl on ↦ rw on (drain-Agrees _ (running_any true l agrees))
  ]
