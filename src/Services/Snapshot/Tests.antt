-- ===== src/Services/Snapshot/Tests.antt =====
-- A JSON library of values as they are built, and a snapshot of one actor.
use Prim.Native.String.{String}
use v2_engine.Common.{
  ℕ, ◌%◌, ◌^◌, ◌≡◌, Bool, true, false, Option, none, some, List, [], ◌∷◌, arith, refl,
  if◌then◌else◌,
}
use v2_engine.Common.Maps.{AssocMap, lookup, string_key}
use v2_engine.Services.Snapshot.{
  JsonLib, IsLawful, Snapshot, SystemResources, PmuData, to_json, from_json,
}
use v2_engine.Services.Snapshot.RoundTrip.{Fits, to_json-from_json}

mutual
  data Value : Type 0 where
    unsigned integer real : ℕ → Value
    text : String → Value
    boolean : Bool → Value
    object : Fields → Value
    array : Items → Value

  data Fields : Type 0 where
    done : Fields
    field : String → Value → Fields → Fields

  data Items : Type 0 where
    nil : Items
    cons : Value → Items → Items

fields : AssocMap String Value → Fields
fields [] = done
fields ((key, v) ∷ m) = field key v (fields m)

items : List Value → Items
items [] = nil
items (v ∷ vs) = cons v (items vs)

find_field : String → Fields → Option Value
find_field key done = none
find_field key (field k v m) =
    let rest = find_field key m in if string_key.same k key then some v else rest

list : Items → List Value
list nil = []
list (cons v vs) = v ∷ list vs

list-items : (vs : List Value) → list (items vs) ≡ vs
unfolding list items
list-items [] = refl
list-items (v ∷ vs) = λ i. v ∷ list-items vs i

find_field-fields :
    (key : String) (m : AssocMap String Value) → find_field key (fields m) ≡ lookup key m
unfolding find_field fields lookup
find_field-fields key [] = refl
find_field-fields key ((k, v) ∷ m) = ground (arith, find_field-fields key m)

get_int : Value → ℕ
get_int (unsigned n) = n % 2 ^ 32
get_int (integer w) = w
get_int _ = 0

get_real : Value → ℕ
get_real (real x) = x
get_real _ = 0

get_text : Value → String
get_text (text t) = t
get_text _ = ""

get_bool : Value → Bool
get_bool (boolean b) = b
get_bool _ = false

find : String → Value → Option Value
find key (object m) = find_field key m
find key _ = none

elements : Value → Option (List Value)
elements (array vs) = some (list vs)
elements _ = none

abbrev json : JsonLib
json = record {
  Value = Value;
  Real = ℕ;
  zero_real = 0;
  unsigned = unsigned;
  integer = integer;
  real = real;
  text = text;
  boolean = boolean;
  object = λ m. object (fields m);
  array = λ vs. array (items vs);
  get_int = get_int;
  get_real = get_real;
  get_text = get_text;
  get_bool = get_bool;
  find = find;
  items = elements;
}

json-IsLawful : IsLawful json
unfolding get_int get_real get_text get_bool find elements
json-IsLawful = record {
  get_int-unsigned = λ n. refl;
  get_int-integer = λ w h. refl;
  get_real-real = λ x. refl;
  get_text-text = λ t. refl;
  get_bool-boolean = λ b. refl;
  find-object = find_field-fields;
  items-array = λ vs i. some (list-items vs i);
}

abbrev system : SystemResources json
system = record {
  memory_rss_kb = 9000;
  memory_total_kb = 8000000;
  cpu_percent = 3;
  uptime_ms = 120000;
  thread_count = 6;
  vm_peak_kb = 0;
  vm_hwm_kb = 0;
  vm_swap_kb = 0;
  load_avg1 = 1;
  load_avg5 = 1;
  load_avg15 = 1;
  sys_mem_total_kb = 8000000;
  sys_mem_avail_kb = 7000000;
}

abbrev pmu : PmuData json
pmu = record {
  clock_arm_hz = 1500000000;
  clock_core_hz = 910000000;
  clock_v3d_hz = 960000000;
  mem_arm_mb = 1024;
  mem_gpu_mb = 4;
  throttled = 0;
  temp_celsius = 42;
  volt_core = 1;
  current_vdd_core_a = 2;
}

abbrev calm : Snapshot json
calm = record {
  timestamp_ms = 120000;
  client_count = 1;
  actors =
      record {
        name = "cmd";
        id = 2;
        mailbox_count = 0;
        mailbox_capacity = 64;
        state = 3;
        essential = true;
      }
      ∷ [];
  sys_resources = system;
  pmu_data = pmu;
}

-- The processor at 2.4 GHz.
abbrev fast : Snapshot json
fast = record calm { pmu_data = record pmu { clock_arm_hz = 2400000000 } }

calm-Fits : Fits calm
calm-Fits = record {
  timestamp_ms = omega arith;
  client_count = omega arith;
  actors = (
    record {
      id = omega arith;
      mailbox_count = omega arith;
      mailbox_capacity = omega arith;
      state = omega arith;
    },
    tt,
  );
  sys_resources = record {
    memory_rss_kb = omega arith;
    memory_total_kb = omega arith;
    uptime_ms = omega arith;
    thread_count = omega arith;
    vm_peak_kb = omega arith;
    vm_hwm_kb = omega arith;
    vm_swap_kb = omega arith;
    sys_mem_total_kb = omega arith;
    sys_mem_avail_kb = omega arith;
  };
  pmu_data = record {
    clock_arm_hz = omega arith;
    clock_core_hz = omega arith;
    clock_v3d_hz = omega arith;
    mem_arm_mb = omega arith;
    mem_gpu_mb = omega arith;
    throttled = omega arith;
  };
}

to_json-from_json_example : from_json json (to_json json calm) ≡ some calm
to_json-from_json_example = to_json-from_json json-IsLawful calm calm-Fits
