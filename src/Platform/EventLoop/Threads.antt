-- ===== src/Platform/EventLoop/Threads.antt =====
-- The loop of event_loop_epoll.cpp among any number of threads. What stands under one lock is a step,
-- a call of the kernel is a step, and a push into the queue is a step, which waits for room.
pub mod Kept
use v2_engine.Common.{
  ℕ, ◌+◌, ◌<◌, ◌≡◌, ◌⊎◌, Bool, true, false, none, some, List, [], ◌∷◌, ◌++◌, length, ◌==◌,
  if◌then◌else◌,
}
use v2_engine.Platform.EventLoop.{
  Epoll, IsLawful, EventLoop, Op, add, del, set_handler, erase_handler,
}

-- Where the loop's thread stands in `subscribe`'s lambda `add` and in `unsubscribe`.
pub data Stage : Type 0 where
  free : Stage
  -- About to call the kernel.
  adding deleting : ℕ → Stage
  -- The kernel has refused, and the handler is about to be erased.
  refused : ℕ → Stage

-- The capacity of `pendingOps_` is kPendingOpsCapacity.
abbrev pub pending_ops_capacity : ℕ
pending_ops_capacity = 128

module _ (E : Epoll) (H : Type 0) where
  pub record System : Type 0 where
    pub loop : EventLoop E H
    pub stage : Stage
    -- What the other threads are about to push.
    pub posting : List Op

module _ {E : Epoll} {H : Type 0} where
  unfoldable pub took : ℕ → Bool × E.State → System E H → System E H
  took fd (added, epoll) s = record s {
    loop = record s.loop { epoll = epoll };
    stage = if added then free else refused fd;
  }

  pub data Step (s : System E H) : System E H → Type 0 where
    -- The loop's thread subscribes, unsubscribes, or takes what was posted.
    subscribe_here :
        (fd : ℕ) (h : H) {l : EventLoop E H}
        → s.stage ≡ free
        → set_handler fd h s.loop ≡ some l
        → Step s (record s { loop = l; stage = adding fd })
    unsubscribe_here :
        (fd : ℕ)
        → s.stage ≡ free
        → Step s (record s { loop = erase_handler fd s.loop; stage = deleting fd })
    take_add :
        (fd : ℕ) (ops : List Op)
        → s.stage ≡ free
        → s.loop.pending ≡ add fd ∷ ops
        → Step s (record s { loop = record s.loop { pending = ops }; stage = adding fd })
    take_del :
        (fd : ℕ) (ops : List Op)
        → s.stage ≡ free
        → s.loop.pending ≡ del fd ∷ ops
        → Step s (record s {
          loop = erase_handler fd (record s.loop { pending = ops });
          stage = deleting fd;
        })
    add_now : (fd : ℕ) → s.stage ≡ adding fd → Step s (took fd (E.add fd s.loop.epoll) s)
    del_now :
        (fd : ℕ)
        → s.stage ≡ deleting fd
        → Step s (record s { loop = record s.loop { epoll = E.del fd s.loop.epoll }; stage = free })
    drop_refused :
        (fd : ℕ)
        → s.stage ≡ refused fd
        → Step s (record s { loop = erase_handler fd s.loop; stage = free })
    -- Another thread subscribes or unsubscribes, and pushes what it posts.
    subscribe_there :
        (fd : ℕ) (h : H) {l : EventLoop E H}
        → set_handler fd h s.loop ≡ some l
        → Step s (record s { loop = l; posting = add fd ∷ s.posting })
    unsubscribe_there :
        (fd : ℕ)
        → Step s (record s { loop = erase_handler fd s.loop; posting = del fd ∷ s.posting })
    push :
        (op : Op) (before after : List Op)
        → s.posting ≡ before ++ op ∷ after
        → length s.loop.pending < pending_ops_capacity
        → Step s (record s {
          loop = record s.loop { pending = s.loop.pending ++ op ∷ [] };
          posting = before ++ after;
        })

  pub data Reach (s : System E H) : System E H → Type 0 where
    start : Reach s s
    later : {t u : System E H} → Reach s t → Step t u → Reach s u

-- How many subscriptions of a descriptor are on their way to the kernel.
adds : ℕ → List Op → ℕ
adds j [] = 0
adds j (add fd ∷ ops) = (if fd == j then 1 else 0) + adds j ops
adds j (del fd ∷ ops) = adds j ops

stage_adds : ℕ → Stage → ℕ
stage_adds j free = 0
stage_adds j (adding fd) = if fd == j then 1 else 0
stage_adds j (deleting fd) = 0
stage_adds j (refused fd) = if fd == j then 1 else 0

deletes : ℕ → Stage → Bool
deletes j free = false
deletes j (adding fd) = false
deletes j (deleting fd) = fd == j
deletes j (refused fd) = false

module _ {E : Epoll} {H : Type 0} (lawful : IsLawful E) where
  on_way : ℕ → System E H → ℕ
  unfolding adds stage_adds
  on_way j s = adds j s.posting + adds j s.loop.pending + stage_adds j s.stage

  -- A descriptor with a handler is watched, or is on its way to the kernel; the second while the
  -- loop is about to delete it.
  record Served (j : ℕ) (s : System E H) : Type 0 where
    watched : (s.loop.handlers j ≡ none) ⊎ (E.watched s.loop.epoll j ≡ true) ⊎ (0 < on_way j s)
    renewed : (deletes j s.stage ≡ false) ⊎ (s.loop.handlers j ≡ none) ⊎ (0 < on_way j s)
