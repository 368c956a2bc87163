-- ===== src/Metrics/Histogram.antt =====
-- zmetrics/metrics.go: `Histogram`. A float64 is a parameter, with its comparison, its nanoseconds as the
-- 64 bits of an int64 and the milliseconds of these; so are the bits of the counts. `sort.SearchFloat64s` is by what it returns.
use zhenyi.Prelude.{
  ℕ, ◌+◌, ◌-◌, ◌%◌, ◌^◌, Bool, List, [], ◌∷◌, length, get_or, set, replicate, ltb, if◌then◌else◌,
}

pub record Scale : Type 1 where
  pub F : Type 0
  pub le : F → F → Bool
  pub nanos : F → ℕ
  pub millis : ℕ → F

module _ (f : Scale) where
  open f use {F, le, nanos}

  pub record Histogram : Type 0 where
    pub bounds : List F
    pub buckets : List ℕ
    pub sum : ℕ
    pub count : ℕ

  unfoldable pub new_histogram : List F → Histogram
  new_histogram bounds = record {
    bounds = bounds;
    buckets = replicate (length bounds + 1) 0;
    sum = 0;
    count = 0;
  }

  -- The first bound that is not below the value.
  unfoldable pub search_floats : List F → F → ℕ
  search_floats [] v = 0
  search_floats (b ∷ bs) v = let rest = search_floats bs v in if le v b then 0 else rest + 1

  unfoldable pub observe : F → Histogram → Histogram
  observe v h =
      let i = search_floats h.bounds v in
      let last = length h.buckets - 1 in
      let idx = if ltb last i then last else i in
      record h {
        count = (h.count + 1) % 2 ^ 64;
        sum = (h.sum + nanos v) % 2 ^ 64;
        buckets = set h.buckets idx ((get_or h.buckets idx 0 + 1) % 2 ^ 64);
      }

  unfoldable pub observe_all : List F → Histogram → Histogram
  observe_all [] h = h
  observe_all (v ∷ vs) h = observe_all vs (observe v h)

-- The loop of `Snapshot`.
unfoldable pub accumulate : ℕ → List ℕ → List ℕ
accumulate acc [] = []
accumulate acc (b ∷ bs) = let next = (acc + b) % 2 ^ 64 in next ∷ accumulate next bs

module _ (f : Scale) where
  unfoldable pub snapshot : Histogram f → List f.F × List ℕ × f.F × ℕ
  snapshot h = (h.bounds, accumulate 0 h.buckets, f.millis h.sum, h.count)
