-- ===== src/Platform/EventLoop/Threads/Kept.antt =====
-- Subscriptions of event_loop_epoll.cpp that nobody takes back, among any number of threads.
use v2_engine.Common.{ℕ, ◌+◌, ◌≡◌, false, some, List, [], ◌∷◌, ◌==◌, if◌then◌else◌}
use v2_engine.Platform.EventLoop.{Epoll, Op, add, del}
use v2_engine.Platform.EventLoop.Threads.{
  Stage, free, adding, deleting, refused, System, Step, unsubscribe_here, unsubscribe_there, Reach,
  start, later,
}

-- How many subscriptions are on the way of being undone: an unsubscription of the descriptor that was
-- posted or is under way, or a refusal by the kernel.
unfoldable pub dels : ℕ → List Op → ℕ
dels j [] = 0
dels j (add fd ∷ ops) = dels j ops
dels j (del fd ∷ ops) = (if fd == j then 1 else 0) + dels j ops

unfoldable pub stage_dels : ℕ → Stage → ℕ
stage_dels j free = 0
stage_dels j (adding fd) = 0
stage_dels j (deleting fd) = if fd == j then 1 else 0
stage_dels j (refused fd) = if fd == j then 1 else 0

module _ {E : Epoll} {H : Type 0} where
  -- No thread unsubscribes the descriptor in this step.
  unfoldable pub Spares : (j : ℕ) {s t : System E H} → Step s t → Type 0
  Spares j (unsubscribe_here fd e) = (fd == j) ≡ false
  Spares j (unsubscribe_there fd) = (fd == j) ≡ false
  Spares j _ = Unit

  unfoldable pub AllSpare : (j : ℕ) {s t : System E H} → Reach s t → Type 0
  unfolding Spares
  AllSpare j start = Unit
  AllSpare j (later r step) = AllSpare j r × Spares j step

  unfoldable pub undone : ℕ → System E H → ℕ
  unfolding dels stage_dels
  undone j s = dels j s.posting + dels j s.loop.pending + stage_dels j s.stage

  record Kept (j : ℕ) (h : H) (s : System E H) : Type 0 where
    held : s.loop.handlers j ≡ some h
    calm : undone j s ≡ 0
