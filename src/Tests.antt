-- ===== src/Tests.antt =====
-- Concrete layers, engines and stores, on which the children try the theorems. The numbers stand for
-- the floats.
mod Graphs
mod Engines
mod Versions
mod Snapshots
mod Parts
mod Analyses
mod Regions
mod Races
mod Kernels
mod Pointers
use itt_engine.Prelude.{
  ◌^◌, ℕ, ◌+◌, ◌*◌, ◌-◌, ◌/◌, ltb, ◌==◌, Float, Str, [], ◌∷◌, List, Time, none, some, pos, Option,
  true, false, Bool, ◌≡◌, refl,
}
use itt_engine.Map.{Map}
use itt_engine.Graph.{Graph, NodeData, new}
use itt_engine.Graph.Valid.{IsValid}
use itt_engine.Immutable.WithEvent.{with_event_graph, with_event_graph-IsValid}
use itt_engine.Compact.Loops.{IsTimely, new-IsValid}
use itt_engine.Builder.{CompactionStrategy}
use itt_engine.Event.{Event}
use itt_engine.Gc.{GcConfig, new_gc}
use itt_engine.Engine.{Engine, Config, reset}
use itt_engine.Engine.Layers.{with_event_graph-IsTimely}
use itt_engine.Engine.Steps.{IsSound, new-IsTimely}
use itt_engine.Engine.Counting.{reset_lem}

instance abbrev pub nat_float : Float ℕ
nat_float = record {
  nought = 0;
  one = 1;
  add = λ x y. x + y;
  sub = λ x y. x - y;
  mul = λ x y. x * y;
  div = λ x y. x / y;
  lt = ltb;
  eq = λ x y. x == y;
  of_int = λ n. n;
  abs = λ n. n;
  neg = λ n. 0;
  sqrt = λ n. n;
  exp = λ n. n;
  log = λ n. n;
  log2 = λ n. n;
  infinity = 10 ^ 9;
  literal = λ n e. n / 10 ^ e;
}

abbrev pub ann : Str
ann = 97 ∷ []

abbrev pub bob : Str
bob = 98 ∷ []

abbrev pub call : Str
call = 99 ∷ []

-- one event of ann and bob, at a time
abbrev pub layer : Time → Graph ℕ
layer t = with_event_graph ann bob 2 call t new

pub layer-IsValid : (t : Time) → IsValid (layer t)
layer-IsValid t = with_event_graph-IsValid ann bob 2 call t new new-IsValid

pub layer-IsTimely : (t : Time) → IsTimely (layer t)
layer-IsTimely t = with_event_graph-IsTimely ann bob 2 call t new new-IsValid new-IsTimely

abbrev pub config : Config ℕ
config = record {
  weight_func = none;
  node_type_func = none;
  compaction_strategy = CompactionStrategy.compact_by_volume;
  compaction_threshold = 2;
  compaction_interval = pos 0;
}

abbrev pub event : Event ℕ
event = record { source = ann; target = bob; type = call; weight = 2; timestamp = 7 }

abbrev pub events : List (Time × Event ℕ)
events = (7, event) ∷ (8, event) ∷ (9, event) ∷ []

abbrev pub gc_config : GcConfig
gc_config = record { interval = pos 30; warning_timeout = pos 5; force_timeout = pos 10 }

abbrev pub engine : Engine ℕ
engine = reset 1 (record {
  store = [];
  controller = record { current = none };
  version_id = 0;
  gc = new_gc gc_config;
  base = layer 3;
  events_total = 0;
  overlay_count = 0;
  last_compact = 0;
  snapshots_active = 0;
})

pub engine-IsSound : IsSound new engine
engine-IsSound = (reset_lem 1 _).0
