-- ===== src/Platform/EventLoop/Lost.antt =====
-- A descriptor that is unsubscribed and subscribed again from another thread, as a connection whose
-- number the kernel gives out anew.
use v2_engine.Common.{ℕ, ◌≡◌, false, none, some, [], ◌∷◌, ◌++◌, arith, ap, ◌∙◌, update, update_self}
use v2_engine.Platform.EventLoop.{
  Epoll, IsLawful, EventLoop, Result, ok, add, del, erase_handler, set_handler, watch, post,
  subscribe_fd, unsubscribe_fd, run_op, run_ops, drain_pending_ops,
}

module _ {E : Epoll} {H : Type 0} (lawful : IsLawful E) (fd : ℕ) (h : H) (l : EventLoop E H) where
  abbrev pub resubscribed : Result × EventLoop E H
  resubscribed = subscribe_fd false fd h (unsubscribe_fd false fd l).1

  -- What both calls leave behind.
  waiting_ops : EventLoop E H
  waiting_ops = record l {
    handlers = update (update l.handlers fd none) fd (some h);
    pending = (l.pending ++ del fd ∷ []) ++ add fd ∷ [];
  }

  resubscribed_lem : resubscribed ≡ (ok, waiting_ops)
  unfolding waiting_ops subscribe_fd unsubscribe_fd set_handler erase_handler post
  resubscribed_lem = ground (arith, update_self l.handlers fd none)

  drained_lem :
      l.pending ≡ []
      → ((drain_pending_ops waiting_ops).handlers fd ≡ none)
        × (E.watched (drain_pending_ops waiting_ops).epoll fd ≡ (E.add fd (E.del fd l.epoll)).0)
  unfolding waiting_ops drain_pending_ops run_ops run_op unsubscribe_fd watch erase_handler
  drained_lem settled =
      let first = lawful.watched-del fd fd l.epoll in
      let second = lawful.watched-add fd fd (E.del fd l.epoll) in
      rw settled (ground arith, ground arith)

  -- If a thread other than the loop's unsubscribes a descriptor and subscribes it again before the
  -- loop has run what the first call posted, then the second call answers `Ok`, and once the loop has
  -- run both there is no handler, although the descriptor is watched if the kernel took it.
  pub resubscribed-lost :
      l.pending ≡ []
      → (resubscribed.0 ≡ ok)
        × ((drain_pending_ops resubscribed.1).handlers fd ≡ none)
        × (E.watched (drain_pending_ops resubscribed.1).epoll fd ≡ (E.add fd (E.del fd l.epoll)).0)
  resubscribed-lost settled =
      let (gone, watched) = drained_lem settled in
      (
        ap (λ r. r.0) resubscribed_lem,
        ap (λ r. (drain_pending_ops r.1).handlers fd) resubscribed_lem ∙ gone,
        ap (λ r. E.watched (drain_pending_ops r.1).epoll fd) resubscribed_lem ∙ watched,
      )
