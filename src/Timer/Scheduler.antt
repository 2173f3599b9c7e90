-- ===== src/Timer/Scheduler.antt =====
-- src/core/actor_system/runtime/scheduler/scheduler.hpp and scheduler.cpp. A target and a message are
-- numbers; a clone of a message is the message.
use v2_engine.Common.{ℕ, Bool, Option, [], ◌∷◌, if◌then◌else◌}
use v2_engine.Common.Maps.{AssocMap, lookup, insert, erase, nat_key}
use v2_engine.Timer.{TimerBase, is_alive}
use v2_engine.Timer

pub record TimerCtx : Type 0 where
  pub target : ℕ
  pub message : ℕ

pub record Scheduler : Type 0 where
  pub timer : TimerBase
  pub timer_ctxs : AssocMap ℕ TimerCtx

-- The loop of `cleanupTimerCtxs`: the contexts of timers that are alive stay.
unfoldable pub cleanup : TimerBase → AssocMap ℕ TimerCtx → AssocMap ℕ TimerCtx
unfolding is_alive
cleanup t [] = []
cleanup t ((id, ctx) ∷ ctxs) = if is_alive id t then (id, ctx) ∷ cleanup t ctxs else cleanup t ctxs

unfoldable pub add_timer : ℕ → ℕ → ℕ → ℕ → Bool → Scheduler → ℕ × Scheduler
unfolding cleanup insert Timer.add
add_timer now target message delay repeating s =
    let (id, t) = Timer.add now delay repeating 0 s.timer in
    (
      id,
      record {
        timer = t;
        timer_ctxs =
            insert id (record { target = target; message = message })
              (cleanup s.timer s.timer_ctxs);
      },
    )

unfoldable pub cancel : ℕ → Scheduler → Scheduler
unfolding erase Timer.cancel
cancel id s = record { timer = Timer.cancel id s.timer; timer_ctxs = erase id s.timer_ctxs }

-- The message that `timerCallback` puts into the mailbox of the target.
unfoldable pub timer_callback : ℕ → Scheduler → Option TimerCtx
unfolding lookup
timer_callback id s = lookup id s.timer_ctxs

-- `stop`, without the platform's timer.
unfoldable pub stop : Scheduler → Scheduler
stop s = record s { timer_ctxs = [] }
