-- ===== src/Script/Stats.antt =====
-- zscript/stats.go: `StatsCollector`. A call of `RecordCall` is a thread, and one step of it is one access of
-- an atomic value, so that calls interleave between any two accesses. An int64 counter is its 64 bits; a
-- duration is not negative; the zero time is 0. The other methods are taken whole.
use zhenyi.Prelude.{
  ℕ, zero, suc, ◌+◌, ◌-◌, ◌/◌, ◌%◌, ◌^◌, Bool, false, List, [], ◌∷◌, leb, ltb, ◌==◌, if◌then◌else◌,
}

pub record Collector : Type 0 where
  pub call_count : ℕ
  pub error_count : ℕ
  pub timeout_count : ℕ
  pub total_duration : ℕ
  pub max_duration : ℕ
  pub min_duration : ℕ
  pub reload_count : ℕ
  pub last_reload_time : ℕ

abbrev pub max_int : ℕ
max_int = 9223372036854775807

abbrev pub new_collector : Collector
new_collector = record {
  call_count = 0;
  error_count = 0;
  timeout_count = 0;
  total_duration = 0;
  max_duration = 0;
  min_duration = max_int;
  reload_count = 0;
  last_reload_time = 0;
}

-- What a call does next. A compare-and-swap has the value that was loaded.
pub data Phase : Type 0 where
  counting totalling failing loading_max loading_min returned : Phase
  swapping_max swapping_min : ℕ → Phase

pub record Thread : Type 0 where
  pub duration : ℕ
  pub failed : Bool
  pub phase : Phase

unfoldable pub move_to : Phase → Thread → Thread
move_to phase t = record t { phase = phase }

unfoldable pub advance_at : Phase → Collector → Thread → Collector × Thread
advance_at counting c t =
    (record c { call_count = (c.call_count + 1) % 2 ^ 64 }, move_to totalling t)
advance_at totalling c t =
    (record c { total_duration = (c.total_duration + t.duration) % 2 ^ 64 }, move_to failing t)
advance_at failing c t =
    let counted : Collector = record c { error_count = (c.error_count + 1) % 2 ^ 64 } in
    (if t.failed then counted else c, move_to loading_max t)
advance_at loading_max c t = (
  c,
  move_to (if leb t.duration c.max_duration then loading_min else swapping_max c.max_duration) t,
)
advance_at (swapping_max old) c t =
    let swapped : Collector = record c { max_duration = t.duration } in
    if c.max_duration == old then (swapped, move_to loading_min t) else (c, move_to loading_max t)
advance_at loading_min c t =
    (c, move_to (if leb c.min_duration t.duration then returned else swapping_min c.min_duration) t)
advance_at (swapping_min old) c t =
    let swapped : Collector = record c { min_duration = t.duration } in
    if c.min_duration == old then (swapped, move_to returned t) else (c, move_to loading_min t)
advance_at returned c t = (c, move_to returned t)

unfoldable pub advance : Collector → Thread → Collector × Thread
advance c t = advance_at t.phase c t

-- The thread at an index makes a step.
unfoldable pub step : ℕ → Collector → List Thread → Collector × List Thread
step i c [] = (c, [])
step zero c (t ∷ ts) = let r = advance c t in (r.0, r.1 ∷ ts)
step (suc i) c (t ∷ ts) = let r = step i c ts in (r.0, t ∷ r.1)

unfoldable pub run : List ℕ → Collector → List Thread → Collector × List Thread
run [] c ts = (c, ts)
run (i ∷ is) c ts = let r = step i c ts in run is r.0 r.1

unfoldable pub record_timeout : Collector → Collector
record_timeout c = record c { timeout_count = (c.timeout_count + 1) % 2 ^ 64 }

unfoldable pub record_reload : ℕ → Collector → Collector
record_reload now c = record c {
  reload_count = (c.reload_count + 1) % 2 ^ 64;
  last_reload_time = now;
}

unfoldable pub reset : Collector → Collector
reset c = new_collector

pub record EngineStats : Type 0 where
  pub call_count : ℕ
  pub error_count : ℕ
  pub timeout_count : ℕ
  pub total_duration : ℕ
  pub avg_duration : ℕ
  pub max_duration : ℕ
  pub min_duration : ℕ
  pub reload_count : ℕ
  pub last_reload_time : ℕ

-- The quotient of two int64, rounded towards zero, by a positive one.
unfoldable pub signed_div : ℕ → ℕ → ℕ
signed_div a b = if ltb a (2 ^ 63) then a / b else (2 ^ 64 - (2 ^ 64 - a) / b) % 2 ^ 64

unfoldable pub get_stats : Collector → EngineStats
get_stats c =
    let positive = if c.call_count == 0 then false else ltb c.call_count (2 ^ 63) in
    record {
      call_count = c.call_count;
      error_count = c.error_count;
      timeout_count = c.timeout_count;
      total_duration = c.total_duration;
      avg_duration = if positive then signed_div c.total_duration c.call_count else 0;
      max_duration = c.max_duration;
      min_duration = if c.min_duration == max_int then 0 else c.min_duration;
      reload_count = c.reload_count;
      last_reload_time = c.last_reload_time;
    }
