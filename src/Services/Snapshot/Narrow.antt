-- ===== src/Services/Snapshot/Narrow.antt =====
-- What the fields of monitor_data.hpp are read back as.
use Prim.Native.String.{String}
use v2_engine.Common.{
  ℕ, ◌+◌, ◌-◌, ◌%◌, ◌^◌, ◌≤◌, ◌<◌, ◌≡◌, Bool, false, Option, none, some, List, [], ◌∷◌, map, All,
  arith, refl, ap, ap₂, ◌∙◌,
}
use v2_engine.Common.Maps.{AssocMap, lookup, string_key}
use v2_engine.Services.Snapshot.{
  JsonLib, IsLawful, widen, ActorInfo, SystemResources, PmuData, Snapshot, int_value, real_value,
  text_value, bool_value, system_fields, pmu_fields, actor_fields, snapshot_fields, system_to_json,
  pmu_to_json, actor_to_json, to_json, ◌>>=◌, system_from_json, pmu_from_json, actor_from_json,
  from_json,
}

-- What becomes of a number of 64 bits.
pub narrow : ℕ → ℕ
unfolding widen
narrow n = widen (n % 2 ^ 32)

pub narrow-small : (n : ℕ) → n < 2 ^ 31 → narrow n ≡ n
unfolding narrow
narrow-small n h = ground arith

pub narrow-large : (n : ℕ) → 2 ^ 31 ≤ n → n < 2 ^ 32 → narrow n ≡ n + 2 ^ 64 - 2 ^ 32
unfolding narrow
narrow-large n h k = ground arith

unfoldable pub narrow_actor : ActorInfo → ActorInfo
narrow_actor a = record a {
  id = narrow a.id;
  mailbox_count = narrow a.mailbox_count;
  mailbox_capacity = narrow a.mailbox_capacity;
}

module _ {J : JsonLib} where
  -- What becomes of each field that is not a `float`.
  unfoldable pub narrow_system : SystemResources J → SystemResources J
  narrow_system r = record r {
    memory_rss_kb = narrow r.memory_rss_kb;
    memory_total_kb = narrow r.memory_total_kb;
    uptime_ms = narrow r.uptime_ms;
    thread_count = narrow r.thread_count;
    vm_peak_kb = narrow r.vm_peak_kb;
    vm_hwm_kb = narrow r.vm_hwm_kb;
    vm_swap_kb = narrow r.vm_swap_kb;
    sys_mem_total_kb = narrow r.sys_mem_total_kb;
    sys_mem_avail_kb = narrow r.sys_mem_avail_kb;
  }

  -- What becomes of each field that is not a `float`.
  unfoldable pub narrow_pmu : PmuData J → PmuData J
  narrow_pmu p = record p {
    clock_arm_hz = narrow p.clock_arm_hz;
    clock_core_hz = narrow p.clock_core_hz;
    clock_v3d_hz = narrow p.clock_v3d_hz;
    mem_arm_mb = narrow p.mem_arm_mb;
    mem_gpu_mb = narrow p.mem_gpu_mb;
    throttled = narrow p.throttled;
  }

  -- What becomes of a snapshot.
  unfoldable pub narrow_snapshot : Snapshot J → Snapshot J
  narrow_snapshot s = record {
    timestamp_ms = narrow s.timestamp_ms;
    client_count = s.client_count;
    actors = map narrow_actor s.actors;
    sys_resources = narrow_system s.sys_resources;
    pmu_data = narrow_pmu s.pmu_data;
  }

module _ {J : JsonLib} (lawful : IsLawful J) where
  module _ (key : String) (fields : AssocMap String J.Value) where
    unsigned_field :
        (n : ℕ)
        → lookup key fields ≡ some (J.unsigned n)
        → widen (int_value J key (J.object fields)) ≡ narrow n
    unfolding int_value narrow
    unsigned_field n e =
        let read : Option J.Value → ℕ = λ o. elim o [ none ↦ 0 | some v ↦ J.get_int v ] in
        ap (λ o. widen (read o)) (lawful.find-object key fields ∙ e)
        ∙ ap widen (lawful.get_int-unsigned n)

    integer_field :
        (w : ℕ)
        → w < 2 ^ 32
        → lookup key fields ≡ some (J.integer w)
        → int_value J key (J.object fields) ≡ w
    unfolding int_value
    integer_field w h e =
        let read : Option J.Value → ℕ = λ o. elim o [ none ↦ 0 | some v ↦ J.get_int v ] in
        ap read (lawful.find-object key fields ∙ e) ∙ lawful.get_int-integer w h

    real_field :
        (x : J.Real) → lookup key fields ≡ some (J.real x) → real_value J key (J.object fields) ≡ x
    unfolding real_value
    real_field x e =
        let read : Option J.Value → J.Real =
          λ o. elim o [ none ↦ J.zero_real | some v ↦ J.get_real v ] in
        ap read (lawful.find-object key fields ∙ e) ∙ lawful.get_real-real x

    text_field :
        (t : String) → lookup key fields ≡ some (J.text t) → text_value J key (J.object fields) ≡ t
    unfolding text_value
    text_field t e =
        let read : Option J.Value → String = λ o. elim o [ none ↦ "" | some v ↦ J.get_text v ] in
        ap read (lawful.find-object key fields ∙ e) ∙ lawful.get_text-text t

    bool_field :
        (b : Bool) → lookup key fields ≡ some (J.boolean b) → bool_value J key (J.object fields) ≡ b
    unfolding bool_value
    bool_field b e =
        let read : Option J.Value → Bool = λ o. elim o [ none ↦ false | some v ↦ J.get_bool v ] in
        ap read (lawful.find-object key fields ∙ e) ∙ lawful.get_bool-boolean b

  actor_lem :
      (a : ActorInfo) → a.state < 2 ^ 32 → actor_from_json J (actor_to_json J a) ≡ narrow_actor a
  unfolding actor_from_json actor_to_json narrow_actor lookup
  actor_lem a h =
      let f = actor_fields J a in
      let name = text_field "name" f a.name refl in
      let id = unsigned_field "id" f a.id refl in
      let count = unsigned_field "mailboxCount" f a.mailbox_count refl in
      let capacity = unsigned_field "mailboxCapacity" f a.mailbox_capacity refl in
      let state = integer_field "state" f a.state h refl in
      let essential = bool_field "essential" f a.essential refl in
      λ i. record {
        name = name i;
        id = id i;
        mailbox_count = count i;
        mailbox_capacity = capacity i;
        state = state i;
        essential = essential i;
      }

  system_lem : (r : SystemResources J) → system_from_json J (system_to_json J r) ≡ narrow_system r
  unfolding system_from_json system_to_json narrow_system lookup
  system_lem r =
      let f = system_fields J r in
      let memory_rss_kb = unsigned_field "memoryRssKb" f r.memory_rss_kb refl in
      let memory_total_kb = unsigned_field "memoryTotalKb" f r.memory_total_kb refl in
      let cpu_percent = real_field "cpuPercent" f r.cpu_percent refl in
      let uptime_ms = unsigned_field "uptimeMs" f r.uptime_ms refl in
      let thread_count = unsigned_field "threadCount" f r.thread_count refl in
      let vm_peak_kb = unsigned_field "vmPeakKb" f r.vm_peak_kb refl in
      let vm_hwm_kb = unsigned_field "vmHwmKb" f r.vm_hwm_kb refl in
      let vm_swap_kb = unsigned_field "vmSwapKb" f r.vm_swap_kb refl in
      let load_avg1 = real_field "loadAvg1" f r.load_avg1 refl in
      let load_avg5 = real_field "loadAvg5" f r.load_avg5 refl in
      let load_avg15 = real_field "loadAvg15" f r.load_avg15 refl in
      let sys_mem_total_kb = unsigned_field "sysMemTotalKb" f r.sys_mem_total_kb refl in
      let sys_mem_avail_kb = unsigned_field "sysMemAvailKb" f r.sys_mem_avail_kb refl in
      λ i. record {
        memory_rss_kb = memory_rss_kb i;
        memory_total_kb = memory_total_kb i;
        cpu_percent = cpu_percent i;
        uptime_ms = uptime_ms i;
        thread_count = thread_count i;
        vm_peak_kb = vm_peak_kb i;
        vm_hwm_kb = vm_hwm_kb i;
        vm_swap_kb = vm_swap_kb i;
        load_avg1 = load_avg1 i;
        load_avg5 = load_avg5 i;
        load_avg15 = load_avg15 i;
        sys_mem_total_kb = sys_mem_total_kb i;
        sys_mem_avail_kb = sys_mem_avail_kb i;
      }

  pmu_lem : (p : PmuData J) → pmu_from_json J (pmu_to_json J p) ≡ narrow_pmu p
  unfolding pmu_from_json pmu_to_json narrow_pmu lookup
  pmu_lem p =
      let f = pmu_fields J p in
      let clock_arm_hz = unsigned_field "clockArmHz" f p.clock_arm_hz refl in
      let clock_core_hz = unsigned_field "clockCoreHz" f p.clock_core_hz refl in
      let clock_v3d_hz = unsigned_field "clockV3dHz" f p.clock_v3d_hz refl in
      let mem_arm_mb = unsigned_field "memArmMb" f p.mem_arm_mb refl in
      let mem_gpu_mb = unsigned_field "memGpuMb" f p.mem_gpu_mb refl in
      let throttled = unsigned_field "throttled" f p.throttled refl in
      let temp_celsius = real_field "tempCelsius" f p.temp_celsius refl in
      let volt_core = real_field "voltCore" f p.volt_core refl in
      let current_vdd_core_a = real_field "currentVddCoreA" f p.current_vdd_core_a refl in
      λ i. record {
        clock_arm_hz = clock_arm_hz i;
        clock_core_hz = clock_core_hz i;
        clock_v3d_hz = clock_v3d_hz i;
        mem_arm_mb = mem_arm_mb i;
        mem_gpu_mb = mem_gpu_mb i;
        throttled = throttled i;
        temp_celsius = temp_celsius i;
        volt_core = volt_core i;
        current_vdd_core_a = current_vdd_core_a i;
      }

  actors_lem :
      (infos : List ActorInfo)
      → All (λ a. a.state < 2 ^ 32) infos
      → map (actor_from_json J) (map (actor_to_json J) infos) ≡ map narrow_actor infos
  actors_lem [] h = refl
  actors_lem (a ∷ infos) h = ap₂ (λ x xs. x ∷ xs) (actor_lem a h.0) (actors_lem infos h.1)

  -- The parts that `from_json` needs are there.
  read_parts :
      (g : List J.Value → J.Value → J.Value → Snapshot J) {a r p : Option J.Value}
      {av rv pv : J.Value} {values : List J.Value}
      → a ≡ some av
      → J.items av ≡ some values
      → r ≡ some rv
      → p ≡ some pv
      → (a >>= λ x. J.items x >>= λ xs. r >>= λ y. p >>= λ z. some (g xs y z))
        ≡ some (g values rv pv)
  read_parts g {r} {p} {av} {rv} {pv} {values} ea ei er ep =
      ap (λ o. o >>= λ x. J.items x >>= λ xs. r >>= λ y. p >>= λ z. some (g xs y z)) ea
      ∙ ap (λ o. o >>= λ xs. r >>= λ y. p >>= λ z. some (g xs y z)) ei
      ∙ ap (λ o. o >>= λ y. p >>= λ z. some (g values y z)) er
      ∙ ap (λ o. o >>= λ z. some (g values rv z)) ep

  pub snapshot_lem :
      (s : Snapshot J)
      → s.client_count < 2 ^ 32
      → All (λ a. a.state < 2 ^ 32) s.actors
      → from_json J (to_json J s) ≡ some (narrow_snapshot s)
  unfolding from_json to_json narrow_snapshot lookup
  snapshot_lem s clients states =
      let f = snapshot_fields J s in
      let timestamp = unsigned_field "timestampMs" f s.timestamp_ms refl in
      let count = integer_field "clientCount" f s.client_count clients refl in
      let values = map (actor_to_json J) s.actors in
      let system = system_to_json J s.sys_resources in
      let pmu = pmu_to_json J s.pmu_data in
      let j = to_json J s in
      read_parts
        (λ infos r p. record {
          timestamp_ms = widen (int_value J "timestampMs" j);
          client_count = int_value J "clientCount" j;
          actors = map (actor_from_json J) infos;
          sys_resources = system_from_json J r;
          pmu_data = pmu_from_json J p;
        })
        (lawful.find-object "actors" f) (lawful.items-array values)
        (lawful.find-object "resources" f) (lawful.find-object "pmu" f)
      ∙ (λ i. some (record {
        timestamp_ms = timestamp i;
        client_count = count i;
        actors = actors_lem s.actors states i;
        sys_resources = system_lem s.sys_resources i;
        pmu_data = pmu_lem s.pmu_data i;
      }))
