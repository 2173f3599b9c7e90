-- ===== src/Services/Snapshot/RoundTrip.antt =====
-- Snapshots of monitor_data.hpp written as JSON and read again.
use v2_engine.Common.{
  ◌+◌, ◌-◌, ◌^◌, ◌≤◌, ◌<◌, ◌≡◌, some, List, [], ◌∷◌, map, All, arith, refl, ap₂, ◌∙◌,
}
use v2_engine.Common.Maps.{string_key}
use v2_engine.Services.Snapshot.{
  JsonLib, IsLawful, ActorInfo, SystemResources, PmuData, Snapshot, to_json, from_json,
}
use v2_engine.Services.Snapshot.Narrow.{
  narrow-small, narrow-large, narrow_actor, narrow_system, narrow_pmu, narrow_snapshot,
  snapshot_lem,
}

-- Every number of 64 bits lies below 2 ^ 31, and every `int` is a bit pattern.
pub record ActorFits (a : ActorInfo) : Type 0 where
  pub id : a.id < 2 ^ 31
  pub mailbox_count : a.mailbox_count < 2 ^ 31
  pub mailbox_capacity : a.mailbox_capacity < 2 ^ 31
  pub state : a.state < 2 ^ 32

module _ {J : JsonLib} where
  pub record SystemFits (r : SystemResources J) : Type 0 where
    pub memory_rss_kb : r.memory_rss_kb < 2 ^ 31
    pub memory_total_kb : r.memory_total_kb < 2 ^ 31
    pub uptime_ms : r.uptime_ms < 2 ^ 31
    pub thread_count : r.thread_count < 2 ^ 31
    pub vm_peak_kb : r.vm_peak_kb < 2 ^ 31
    pub vm_hwm_kb : r.vm_hwm_kb < 2 ^ 31
    pub vm_swap_kb : r.vm_swap_kb < 2 ^ 31
    pub sys_mem_total_kb : r.sys_mem_total_kb < 2 ^ 31
    pub sys_mem_avail_kb : r.sys_mem_avail_kb < 2 ^ 31

  pub record PmuFits (p : PmuData J) : Type 0 where
    pub clock_arm_hz : p.clock_arm_hz < 2 ^ 31
    pub clock_core_hz : p.clock_core_hz < 2 ^ 31
    pub clock_v3d_hz : p.clock_v3d_hz < 2 ^ 31
    pub mem_arm_mb : p.mem_arm_mb < 2 ^ 31
    pub mem_gpu_mb : p.mem_gpu_mb < 2 ^ 31
    pub throttled : p.throttled < 2 ^ 31

  pub record Fits (s : Snapshot J) : Type 0 where
    pub timestamp_ms : s.timestamp_ms < 2 ^ 31
    pub client_count : s.client_count < 2 ^ 32
    pub actors : All ActorFits s.actors
    pub sys_resources : SystemFits s.sys_resources
    pub pmu_data : PmuFits s.pmu_data

  system_same : (r : SystemResources J) → SystemFits r → narrow_system r ≡ r
  unfolding narrow_system
  system_same r h = λ i. record r {
    memory_rss_kb = narrow-small r.memory_rss_kb h.memory_rss_kb i;
    memory_total_kb = narrow-small r.memory_total_kb h.memory_total_kb i;
    uptime_ms = narrow-small r.uptime_ms h.uptime_ms i;
    thread_count = narrow-small r.thread_count h.thread_count i;
    vm_peak_kb = narrow-small r.vm_peak_kb h.vm_peak_kb i;
    vm_hwm_kb = narrow-small r.vm_hwm_kb h.vm_hwm_kb i;
    vm_swap_kb = narrow-small r.vm_swap_kb h.vm_swap_kb i;
    sys_mem_total_kb = narrow-small r.sys_mem_total_kb h.sys_mem_total_kb i;
    sys_mem_avail_kb = narrow-small r.sys_mem_avail_kb h.sys_mem_avail_kb i;
  }

  pmu_same : (p : PmuData J) → PmuFits p → narrow_pmu p ≡ p
  unfolding narrow_pmu
  pmu_same p h = λ i. record p {
    clock_arm_hz = narrow-small p.clock_arm_hz h.clock_arm_hz i;
    clock_core_hz = narrow-small p.clock_core_hz h.clock_core_hz i;
    clock_v3d_hz = narrow-small p.clock_v3d_hz h.clock_v3d_hz i;
    mem_arm_mb = narrow-small p.mem_arm_mb h.mem_arm_mb i;
    mem_gpu_mb = narrow-small p.mem_gpu_mb h.mem_gpu_mb i;
    throttled = narrow-small p.throttled h.throttled i;
  }

actor_same : (a : ActorInfo) → ActorFits a → narrow_actor a ≡ a
unfolding narrow_actor
actor_same a h = λ i. record a {
  id = narrow-small a.id h.id i;
  mailbox_count = narrow-small a.mailbox_count h.mailbox_count i;
  mailbox_capacity = narrow-small a.mailbox_capacity h.mailbox_capacity i;
}

actors_same : (infos : List ActorInfo) → All ActorFits infos → map narrow_actor infos ≡ infos
actors_same [] h = refl
actors_same (a ∷ infos) h = ap₂ (λ x xs. x ∷ xs) (actor_same a h.0) (actors_same infos h.1)

states_fit : (infos : List ActorInfo) → All ActorFits infos → All (λ a. a.state < 2 ^ 32) infos
states_fit [] h = tt
states_fit (a ∷ infos) h = (h.0.state, states_fit infos h.1)

module _ {J : JsonLib} (lawful : IsLawful J) where
  -- A snapshot that is written as JSON and read again is the same, with every actor, if its numbers of
  -- 64 bits all lie below 2 ^ 31.
  pub to_json-from_json : (s : Snapshot J) → Fits s → from_json J (to_json J s) ≡ some s
  unfolding narrow_snapshot
  to_json-from_json s h =
      snapshot_lem lawful s h.client_count (states_fit s.actors h.actors) ∙ (λ i. some (record s {
        timestamp_ms = narrow-small s.timestamp_ms h.timestamp_ms i;
        actors = actors_same s.actors h.actors i;
        sys_resources = system_same s.sys_resources h.sys_resources i;
        pmu_data = pmu_same s.pmu_data h.pmu_data i;
      }))

  -- The clock of a processor at 2 ^ 31 Hz or more, and below 2 ^ 32, is read as a number that is larger
  -- by 2 ^ 64 - 2 ^ 32.
  clock_arm_hz-lost :
      (s : Snapshot J)
      → s.client_count < 2 ^ 32
      → All (λ a. a.state < 2 ^ 32) s.actors
      → 2 ^ 31 ≤ s.pmu_data.clock_arm_hz
      → s.pmu_data.clock_arm_hz < 2 ^ 32
      → (t : Snapshot J) × (from_json J (to_json J s) ≡ some t)
        × (t.pmu_data.clock_arm_hz ≡ s.pmu_data.clock_arm_hz + (2 ^ 64 - 2 ^ 32))
  unfolding narrow_snapshot narrow_pmu
  clock_arm_hz-lost s clients states large h = (
    narrow_snapshot s,
    snapshot_lem lawful s clients states,
    narrow-large s.pmu_data.clock_arm_hz large h ∙ omega arith,
  )
