-- ===== src/Metrics/Tests.antt =====
-- One registered actor, and a peak that another thread raises first.
use v2_engine.Common.{ℕ, true, Option, none, some, [], ◌∷◌, if◌then◌else◌, ◌==◌}
use v2_engine.Metrics.{Metrics, no_actor, no_dispatcher}

abbrev metrics : Metrics
metrics = record {
  enabled = true;
  actors = no_actor ∷ no_actor ∷ [];
  workers = [];
  dispatcher = no_dispatcher;
}

abbrev others : ℕ → Option ℕ
others round = if round == 0 then none else some 4
