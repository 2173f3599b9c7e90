-- ===== src/Platform/EventLoop.antt =====
-- src/infra/platform/linux/event_loop_epoll.cpp: who is called when a file descriptor is readable.
-- The set of watched descriptors is the kernel's, behind `epoll_ctl`: a parameter with what its manual
-- says of the calls. What a handler asks of the loop is a parameter too, the same at each of its calls.
pub mod Owner
pub mod Threads
pub mod Lost
mod Tests
use v2_engine.Common.{
  ℕ, ◌≡◌, Bool, true, false, Option, none, some, List, [], ◌∷◌, ◌++◌, ◌==◌, if◌then◌else◌, update,
}

pub record Epoll : Type 1 where
  pub State : Type 0
  pub watched : State → ℕ → Bool
  -- EPOLL_CTL_ADD, with whether it succeeds, and EPOLL_CTL_DEL.
  pub add : ℕ → State → Bool × State
  pub del : ℕ → State → State

-- A descriptor that is added is watched, one that is deleted is not, and no other changes. A call that
-- fails changes nothing; deleting fails only where the descriptor is not watched.
pub record IsLawful (E : Epoll) : Type 0 where
  pub watched-add :
      (fd j : ℕ) (s : E.State)
      → E.watched (E.add fd s).1 j
        ≡ (if (E.add fd s).0 then (if j == fd then true else E.watched s j) else E.watched s j)
  pub watched-del :
      (fd j : ℕ) (s : E.State)
      → E.watched (E.del fd s) j ≡ (if j == fd then false else E.watched s j)

-- What `subscribe` and `unsubscribe` post to the loop from another thread.
pub data Op : Type 0 where
  add del : ℕ → Op

pub data Result : Type 0 where
  ok fail : Result

module _ (E : Epoll) (H : Type 0) where
  pub record EventLoop : Type 0 where
    pub running : Bool
    pub handlers : ℕ → Option H
    pub pending : List Op
    pub epoll : E.State
    pub stop_fd : ℕ

-- What a handler asks of the loop.
pub data Call (H : Type 0) : Type 0 where
  subscribe : ℕ → H → Call H
  unsubscribe : ℕ → Call H
  stop : Call H

-- What a call of `epoll_wait` comes to.
pub data Wait : Type 0 where
  ready : List ℕ → Wait
  interrupted failed : Wait

pub data Ended : Type 0 where
  returned waiting : Ended

module _ {E : Epoll} {H : Type 0} where
  -- The part of `subscribe` under the lock.
  pub set_handler : ℕ → H → EventLoop E H → Option (EventLoop E H)
  set_handler fd h l = elim (l.handlers fd) [
    | some old ↦ none
    | none ↦ some (record l { handlers = update l.handlers fd (some h) })
  ]

  pub erase_handler : ℕ → EventLoop E H → EventLoop E H
  erase_handler fd l = record l { handlers = update l.handlers fd none }

  -- The lambda `add`: a descriptor that cannot be watched loses its handler.
  pub watch : ℕ → EventLoop E H → Result × EventLoop E H
  unfolding erase_handler
  watch fd l =
      let (added, epoll) = E.add fd l.epoll in
      if added
      then (ok, record l { epoll = epoll })
      else (fail, erase_handler fd (record l { epoll = epoll }))

  -- A caller waits while the queue is full; here there is always room.
  pub post : Op → EventLoop E H → EventLoop E H
  post op l = record l { pending = l.pending ++ op ∷ [] }

  -- The flag says whether the caller is the thread of the loop.
  pub subscribe_fd : Bool → ℕ → H → EventLoop E H → Result × EventLoop E H
  unfolding set_handler watch post
  subscribe_fd on_loop fd h l = elim (set_handler fd h l) [
    | none ↦ (fail, l)
    | some l' ↦ if on_loop then watch fd l' else (ok, post (add fd) l')
  ]

  pub unsubscribe_fd : Bool → ℕ → EventLoop E H → Result × EventLoop E H
  unfolding erase_handler post
  unsubscribe_fd on_loop fd l =
      let l' = erase_handler fd l in
      if on_loop then (ok, record l' { epoll = E.del fd l'.epoll }) else (ok, post (del fd) l')

  -- A posted operation, run by the thread of the loop.
  pub run_op : Op → EventLoop E H → EventLoop E H
  unfolding watch unsubscribe_fd
  run_op (add fd) l = (watch fd l).1
  run_op (del fd) l = (unsubscribe_fd true fd l).1

  pub run_ops : List Op → EventLoop E H → EventLoop E H
  unfolding run_op
  run_ops [] l = l
  run_ops (op ∷ ops) l = run_ops ops (run_op op l)

  pub drain_pending_ops : EventLoop E H → EventLoop E H
  unfolding run_ops
  drain_pending_ops l = run_ops l.pending (record l { pending = [] })

  pub stop_loop : EventLoop E H → EventLoop E H
  stop_loop l = record l { running = false }

  -- `start`, with the descriptor that `eventfd` gave.
  pub start : ℕ → EventLoop E H → EventLoop E H
  start fd l = record l { running = true; stop_fd = fd; epoll = (E.add fd l.epoll).1 }

  pub make_calls : List (Call H) → EventLoop E H → EventLoop E H
  unfolding subscribe_fd unsubscribe_fd stop_loop
  make_calls [] l = l
  make_calls (subscribe fd h ∷ calls) l = make_calls calls (subscribe_fd true fd h l).1
  make_calls (unsubscribe fd ∷ calls) l = make_calls calls (unsubscribe_fd true fd l).1
  make_calls (stop ∷ calls) l = make_calls calls (stop_loop l)

  -- One readable descriptor: the counter of `stopFd_` is read, any other has its handler called.
  pub serve : (H → List (Call H)) → ℕ → EventLoop E H → EventLoop E H
  unfolding make_calls
  serve calls fd l =
      if fd == l.stop_fd
      then l
      else elim (l.handlers fd) [ none ↦ l | some h ↦ make_calls (calls h) l ]

  pub serve_all : (H → List (Call H)) → List ℕ → EventLoop E H → EventLoop E H
  unfolding serve
  serve_all calls [] l = l
  serve_all calls (fd ∷ fds) l = serve_all calls fds (serve calls fd l)

  -- The loop of `run`, with what each wait comes to.
  pub run : (H → List (Call H)) → List Wait → EventLoop E H → Ended × EventLoop E H
  unfolding drain_pending_ops serve_all
  run calls [] l = (waiting, l)
  run calls (wait ∷ waits) l = elim l.running [
    | false ↦ (returned, l)
    | true ↦
        let l' = drain_pending_ops l in
        elim wait [
          | ready fds ↦ run calls waits (serve_all calls fds l')
          | interrupted ↦ run calls waits l'
          | failed ↦ (returned, l')
        ]
  ]
