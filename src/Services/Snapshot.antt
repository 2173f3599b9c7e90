-- ===== src/Services/Snapshot.antt =====
-- src/service/monitor/monitor_data.hpp: snapshots as JSON. The JSON library is a parameter, with what
-- its manual says of the calls. A field of 64 bits is a number below 2 ^ 64; an `int` is its bit
-- pattern, below 2 ^ 32; the type `float` is a parameter.
pub mod Narrow
pub mod RoundTrip
mod Tests
use Prim.Native.String.{String}
use v2_engine.Common.{
  ℕ, ◌+◌, ◌-◌, ◌%◌, ◌^◌, ◌<◌, ◌≡◌, Bool, true, false, Option, none, some, List, [], ◌∷◌, map, ltb,
  if◌then◌else◌,
}
use v2_engine.Common.Maps.{AssocMap, lookup, string_key}

-- Values with their constructors, and the conversions of `get`; `integer` takes a bit pattern, and the
-- conversion to an `int` gives one.
pub record JsonLib : Type 1 where
  pub Value : Type 0
  pub Real : Type 0
  pub zero_real : Real
  pub unsigned : ℕ → Value
  pub integer : ℕ → Value
  pub real : Real → Value
  pub text : String → Value
  pub boolean : Bool → Value
  pub object : AssocMap String Value → Value
  pub array : List Value → Value
  pub get_int : Value → ℕ
  pub get_real : Value → Real
  pub get_text : Value → String
  pub get_bool : Value → Bool
  pub find : String → Value → Option Value
  pub items : Value → Option (List Value)

-- A number is narrowed to an `int` as by a cast; anything else that was put in comes out.
pub record IsLawful (J : JsonLib) : Type 0 where
  pub get_int-unsigned : (n : ℕ) → J.get_int (J.unsigned n) ≡ n % 2 ^ 32
  pub get_int-integer : (w : ℕ) → w < 2 ^ 32 → J.get_int (J.integer w) ≡ w
  pub get_real-real : (x : J.Real) → J.get_real (J.real x) ≡ x
  pub get_text-text : (t : String) → J.get_text (J.text t) ≡ t
  pub get_bool-boolean : (b : Bool) → J.get_bool (J.boolean b) ≡ b
  pub find-object :
      (key : String) (fields : AssocMap String J.Value)
      → J.find key (J.object fields) ≡ lookup key fields
  pub items-array : (vs : List J.Value) → J.items (J.array vs) ≡ some vs

-- An `int` that is assigned to a field of 64 bits keeps its sign.
pub widen : ℕ → ℕ
widen w = if ltb w (2 ^ 31) then w else w + 2 ^ 64 - 2 ^ 32

pub record ActorInfo : Type 0 where
  pub name : String
  pub id : ℕ
  pub mailbox_count : ℕ
  pub mailbox_capacity : ℕ
  pub state : ℕ
  pub essential : Bool

module _ (J : JsonLib) where
  pub record SystemResources : Type 0 where
    pub memory_rss_kb : ℕ
    pub memory_total_kb : ℕ
    pub cpu_percent : J.Real
    pub uptime_ms : ℕ
    pub thread_count : ℕ
    pub vm_peak_kb : ℕ
    pub vm_hwm_kb : ℕ
    pub vm_swap_kb : ℕ
    pub load_avg1 : J.Real
    pub load_avg5 : J.Real
    pub load_avg15 : J.Real
    pub sys_mem_total_kb : ℕ
    pub sys_mem_avail_kb : ℕ

  pub record PmuData : Type 0 where
    pub clock_arm_hz : ℕ
    pub clock_core_hz : ℕ
    pub clock_v3d_hz : ℕ
    pub mem_arm_mb : ℕ
    pub mem_gpu_mb : ℕ
    pub throttled : ℕ
    pub temp_celsius : J.Real
    pub volt_core : J.Real
    pub current_vdd_core_a : J.Real

  pub record Snapshot : Type 0 where
    pub timestamp_ms : ℕ
    pub client_count : ℕ
    pub actors : List ActorInfo
    pub sys_resources : SystemResources
    pub pmu_data : PmuData

infixl 5 ◌>>=◌
abbrev pub ◌>>=◌ : {A B : Type 0} → Option A → (A → Option B) → Option B
none >>= f = none
some a >>= f = f a

module _ (J : JsonLib) where
  -- `j.value(key, default)`, at the type of the default.
  pub int_value : String → J.Value → ℕ
  int_value key j = elim (J.find key j) [ none ↦ 0 | some v ↦ J.get_int v ]

  pub real_value : String → J.Value → J.Real
  real_value key j = elim (J.find key j) [ none ↦ J.zero_real | some v ↦ J.get_real v ]

  pub text_value : String → J.Value → String
  text_value key j = elim (J.find key j) [ none ↦ "" | some v ↦ J.get_text v ]

  pub bool_value : String → J.Value → Bool
  bool_value key j = elim (J.find key j) [ none ↦ false | some v ↦ J.get_bool v ]

  pub system_fields : SystemResources J → AssocMap String J.Value
  system_fields r =
      ("memoryRssKb", J.unsigned r.memory_rss_kb)
      ∷ ("memoryTotalKb", J.unsigned r.memory_total_kb)
      ∷ ("cpuPercent", J.real r.cpu_percent)
      ∷ ("uptimeMs", J.unsigned r.uptime_ms)
      ∷ ("threadCount", J.unsigned r.thread_count)
      ∷ ("vmPeakKb", J.unsigned r.vm_peak_kb)
      ∷ ("vmHwmKb", J.unsigned r.vm_hwm_kb)
      ∷ ("vmSwapKb", J.unsigned r.vm_swap_kb)
      ∷ ("loadAvg1", J.real r.load_avg1)
      ∷ ("loadAvg5", J.real r.load_avg5)
      ∷ ("loadAvg15", J.real r.load_avg15)
      ∷ ("sysMemTotalKb", J.unsigned r.sys_mem_total_kb)
      ∷ ("sysMemAvailKb", J.unsigned r.sys_mem_avail_kb)
      ∷ []

  pub system_to_json : SystemResources J → J.Value
  unfolding system_fields
  system_to_json r = J.object (system_fields r)

  pub pmu_fields : PmuData J → AssocMap String J.Value
  pmu_fields p =
      ("clockArmHz", J.unsigned p.clock_arm_hz)
      ∷ ("clockCoreHz", J.unsigned p.clock_core_hz)
      ∷ ("clockV3dHz", J.unsigned p.clock_v3d_hz)
      ∷ ("memArmMb", J.unsigned p.mem_arm_mb)
      ∷ ("memGpuMb", J.unsigned p.mem_gpu_mb)
      ∷ ("throttled", J.unsigned p.throttled)
      ∷ ("tempCelsius", J.real p.temp_celsius)
      ∷ ("voltCore", J.real p.volt_core)
      ∷ ("currentVddCoreA", J.real p.current_vdd_core_a)
      ∷ []

  pub pmu_to_json : PmuData J → J.Value
  unfolding pmu_fields
  pmu_to_json p = J.object (pmu_fields p)

  pub actor_fields : ActorInfo → AssocMap String J.Value
  actor_fields a =
      ("name", J.text a.name)
      ∷ ("id", J.unsigned a.id)
      ∷ ("mailboxCount", J.unsigned a.mailbox_count)
      ∷ ("mailboxCapacity", J.unsigned a.mailbox_capacity)
      ∷ ("state", J.integer a.state)
      ∷ ("essential", J.boolean a.essential)
      ∷ []

  pub actor_to_json : ActorInfo → J.Value
  unfolding actor_fields
  actor_to_json a = J.object (actor_fields a)

  pub snapshot_fields : Snapshot J → AssocMap String J.Value
  snapshot_fields s =
      ("timestampMs", J.unsigned s.timestamp_ms)
      ∷ ("clientCount", J.integer s.client_count)
      ∷ ("actors", J.array (map actor_to_json s.actors))
      ∷ ("resources", system_to_json s.sys_resources)
      ∷ ("pmu", pmu_to_json s.pmu_data)
      ∷ []

  pub to_json : Snapshot J → J.Value
  unfolding snapshot_fields
  to_json s = J.object (snapshot_fields s)

  pub system_from_json : J.Value → SystemResources J
  system_from_json j = record {
    memory_rss_kb = widen (int_value "memoryRssKb" j);
    memory_total_kb = widen (int_value "memoryTotalKb" j);
    cpu_percent = real_value "cpuPercent" j;
    uptime_ms = widen (int_value "uptimeMs" j);
    thread_count = widen (int_value "threadCount" j);
    vm_peak_kb = widen (int_value "vmPeakKb" j);
    vm_hwm_kb = widen (int_value "vmHwmKb" j);
    vm_swap_kb = widen (int_value "vmSwapKb" j);
    load_avg1 = real_value "loadAvg1" j;
    load_avg5 = real_value "loadAvg5" j;
    load_avg15 = real_value "loadAvg15" j;
    sys_mem_total_kb = widen (int_value "sysMemTotalKb" j);
    sys_mem_avail_kb = widen (int_value "sysMemAvailKb" j);
  }

  pub pmu_from_json : J.Value → PmuData J
  pmu_from_json j = record {
    clock_arm_hz = widen (int_value "clockArmHz" j);
    clock_core_hz = widen (int_value "clockCoreHz" j);
    clock_v3d_hz = widen (int_value "clockV3dHz" j);
    mem_arm_mb = widen (int_value "memArmMb" j);
    mem_gpu_mb = widen (int_value "memGpuMb" j);
    throttled = widen (int_value "throttled" j);
    temp_celsius = real_value "tempCelsius" j;
    volt_core = real_value "voltCore" j;
    current_vdd_core_a = real_value "currentVddCoreA" j;
  }

  pub actor_from_json : J.Value → ActorInfo
  actor_from_json j = record {
    name = text_value "name" j;
    id = widen (int_value "id" j);
    mailbox_count = widen (int_value "mailboxCount" j);
    mailbox_capacity = widen (int_value "mailboxCapacity" j);
    state = int_value "state" j;
    essential = bool_value "essential" j;
  }

  -- `at` throws where there is no such key, and so does reading what is no array.
  pub from_json : J.Value → Option (Snapshot J)
  from_json j = do
    let timestamp = widen (int_value "timestampMs" j)
    let clients = int_value "clientCount" j
    actors ← J.find "actors" j
    infos ← J.items actors
    resources ← J.find "resources" j
    pmu ← J.find "pmu" j
    some (record {
      timestamp_ms = timestamp;
      client_count = clients;
      actors = map actor_from_json infos;
      sys_resources = system_from_json resources;
      pmu_data = pmu_from_json pmu;
    })
