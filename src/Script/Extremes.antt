-- ===== src/Script/Extremes.antt =====
-- zscript/stats.go: the longest and the shortest duration.
use zhenyi.Prelude.{
  ℕ, zero, suc, ◌+◌, ◌%◌, ◌^◌, ◌<◌, ◌≤◌, ◌≡◌, refl, ap, sym, subst, Bool, true, false, ◌||◌, List,
  [], ◌∷◌, All, leb, ◌==◌, ==_iff, if_elim, leb→le, lt_of_leb, arith,
}
use zhenyi.Script.Stats.{
  Collector, max_int, new_collector, Phase, counting, totalling, failing, loading_max, loading_min,
  returned, swapping_max, swapping_min, Thread, move_to, advance_at, advance, step, run,
}

-- What a call knows in each phase.
unfoldable pub Known : Collector → ℕ → Phase → Type 0
Known c d counting = Unit
Known c d totalling = Unit
Known c d failing = Unit
Known c d loading_max = Unit
Known c d (swapping_max old) = old < d
Known c d loading_min = d ≤ c.max_duration
Known c d (swapping_min old) = (d ≤ c.max_duration) × (d < old)
Known c d returned = (d ≤ c.max_duration) × (c.min_duration ≤ d)

abbrev pub Knows : Collector → Thread → Type 0
Knows c t = Known c t.duration t.phase

-- A wider range from the shortest to the longest duration, whose new ends are a thread's duration.
pub record Wider (c c' : Collector) (d : ℕ) : Type 0 where
  pub up : c.max_duration ≤ c'.max_duration
  pub down : c'.min_duration ≤ c.min_duration
  pub top : (c'.max_duration == c.max_duration || c'.max_duration == d) ≡ true
  pub bottom : (c'.min_duration == c.min_duration || c'.min_duration == d) ≡ true

Known-wider :
    (c c' : Collector) (d : ℕ) (p : Phase)
    → c.max_duration ≤ c'.max_duration
    → c'.min_duration ≤ c.min_duration
    → Known c d p
    → Known c' d p
unfolding Known
Known-wider c c' d counting up down k = _
Known-wider c c' d totalling up down k = _
Known-wider c c' d failing up down k = _
Known-wider c c' d loading_max up down k = _
Known-wider c c' d (swapping_max old) up down k = k
Known-wider c c' d loading_min up down k = omega (arith, up, k)
Known-wider c c' d (swapping_min old) up down (k, l) = (omega (arith, up, k), l)
Known-wider c c' d returned up down (k, l) = (omega (arith, up, k), omega (arith, down, l))

-- A step that leaves both ends where they are.
unmoved :
    (c c' : Collector) (d : ℕ)
    → c'.max_duration ≡ c.max_duration
    → c'.min_duration ≡ c.min_duration
    → Wider c c' d
unmoved c c' d e g = record {
  up = omega (arith, e);
  down = omega (arith, g);
  top = ground (arith, e);
  bottom = ground (arith, g);
}

-- What a step of a thread gives.
abbrev Stepped : Collector → Thread → Collector × Thread → Type 0
Stepped c t r = Wider c r.0 t.duration × Knows r.0 r.1 × (r.1.duration ≡ t.duration)

advance_at-Stepped :
    (p : Phase) (c : Collector) (t : Thread) → Known c t.duration p → Stepped c t (advance_at p c t)
unfolding advance_at move_to Known
advance_at-Stepped counting c t k = (unmoved c _ t.duration refl refl, _, refl)
advance_at-Stepped totalling c t k = (unmoved c _ t.duration refl refl, _, refl)
advance_at-Stepped failing c t k =
    let counted : Collector = record c { error_count = (c.error_count + 1) % 2 ^ 64 } in
    (
      if_elim (λ r. Wider c r t.duration) t.failed (λ _. unmoved c counted t.duration refl refl)
          (λ _. unmoved c c t.duration refl refl),
      _,
      refl,
    )
advance_at-Stepped loading_max c t k = (
  unmoved c c t.duration refl refl,
  if_elim (λ q. Known c t.duration q) (leb t.duration c.max_duration)
      (λ e. leb→le t.duration c.max_duration e) (λ e. lt_of_leb t.duration c.max_duration e),
  refl,
)
advance_at-Stepped (swapping_max old) c t k =
    let swapped : Collector = record c { max_duration = t.duration } in
    if_elim (Stepped c t) (c.max_duration == old)
      (λ e.
        let same = (==_iff c.max_duration old).0 e in
        (
          record {
            up = omega (arith, same, k);
            down = omega arith;
            top = ground arith;
            bottom = ground arith;
          },
          omega arith,
          refl,
        ))
      (λ _. (unmoved c c t.duration refl refl, _, refl))
advance_at-Stepped loading_min c t k = (
  unmoved c c t.duration refl refl,
  if_elim (λ q. Known c t.duration q) (leb c.min_duration t.duration)
      (λ e. (k, leb→le c.min_duration t.duration e))
      (λ e. (k, lt_of_leb c.min_duration t.duration e)),
  refl,
)
advance_at-Stepped (swapping_min old) c t (k, l) =
    let swapped : Collector = record c { min_duration = t.duration } in
    if_elim (Stepped c t) (c.min_duration == old)
      (λ e.
        let same = (==_iff c.min_duration old).0 e in
        (
          record {
            up = omega arith;
            down = omega (arith, same, l);
            top = ground arith;
            bottom = ground arith;
          },
          (k, omega arith),
          refl,
        ))
      (λ _. (unmoved c c t.duration refl refl, k, refl))
advance_at-Stepped returned c t k = (unmoved c c t.duration refl refl, k, refl)

unfoldable pub durations : List Thread → List ℕ
durations [] = []
durations (t ∷ ts) = t.duration ∷ durations ts

unfoldable pub among : ℕ → List ℕ → Bool
among x [] = false
among x (d ∷ ds) = x == d || among x ds

-- What a step of one thread of a list gives.
record Moved (c c' : Collector) (ds : List ℕ) : Type 0 where
  pub up : c.max_duration ≤ c'.max_duration
  pub down : c'.min_duration ≤ c.min_duration
  pub top : (c'.max_duration == c.max_duration || among c'.max_duration ds) ≡ true
  pub bottom : (c'.min_duration == c.min_duration || among c'.min_duration ds) ≡ true

All-Knows :
    (c c' : Collector) (ts : List Thread)
    → c.max_duration ≤ c'.max_duration
    → c'.min_duration ≤ c.min_duration
    → All (Knows c) ts
    → All (Knows c') ts
All-Knows c c' [] up down k = _
All-Knows c c' (t ∷ ts) up down (k, ks) =
    (Known-wider c c' t.duration t.phase up down k, All-Knows c c' ts up down ks)

step-Moved :
    (i : ℕ) (c : Collector) (ts : List Thread)
    → All (Knows c) ts
    → let r = step i c ts in
      Moved c r.0 (durations ts) × All (Knows r.0) r.1 × (durations r.1 ≡ durations ts)
unfolding step advance durations among
step-Moved i c [] k = (
  record { up = omega arith; down = omega arith; top = ground arith; bottom = ground arith },
  _,
  refl,
)
step-Moved zero c (t ∷ ts) (k, ks) =
    let (w, known, same) = advance_at-Stepped t.phase c t k in
    let r = advance_at t.phase c t in
    (
      record {
        up = w.up;
        down = w.down;
        top = ground (arith, w.top);
        bottom = ground (arith, w.bottom);
      },
      (known, All-Knows c r.0 ts w.up w.down ks),
      ap (λ d. d ∷ durations ts) same,
    )
step-Moved (suc i) c (t ∷ ts) (k, ks) =
    let (w, known, same) = step-Moved i c ts ks in
    let r = step i c ts in
    (
      record {
        up = w.up;
        down = w.down;
        top = ground (arith, w.top);
        bottom = ground (arith, w.bottom);
      },
      (Known-wider c r.0 t.duration t.phase w.up w.down k, known),
      ap (λ ds. t.duration ∷ ds) same,
    )

-- The ends of a collector: what the calls know, and each end is a duration or the one of a new collector.
pub record IsRange (c : Collector) (ts : List Thread) : Type 0 where
  pub known : All (Knows c) ts
  pub top : (c.max_duration == 0 || among c.max_duration (durations ts)) ≡ true
  pub bottom : (c.min_duration == max_int || among c.min_duration (durations ts)) ≡ true

reached :
    (x y start : ℕ) (ds : List ℕ)
    → (y == x || among y ds) ≡ true
    → (x == start || among x ds) ≡ true
    → (y == start || among y ds) ≡ true
reached x y start ds e g =
    let same : y ≡ x → among y ds ≡ among x ds = λ q. ap (λ z. among z ds) q in
    ground (arith, e, g, same)

step-IsRange :
    (i : ℕ) (c : Collector) (ts : List Thread)
    → IsRange c ts
    → let r = step i c ts in IsRange r.0 r.1
step-IsRange i c ts w =
    let r = step i c ts in
    let (m, known, same) = step-Moved i c ts w.known in
    record {
      known = known;
      top =
          subst (λ ds. (r.0.max_duration == 0 || among r.0.max_duration ds) ≡ true) (sym same)
            (reached c.max_duration r.0.max_duration 0 (durations ts) m.top w.top);
      bottom =
          subst (λ ds. (r.0.min_duration == max_int || among r.0.min_duration ds) ≡ true) (sym same)
            (reached c.min_duration r.0.min_duration max_int (durations ts) m.bottom w.bottom);
    }

run-IsRange :
    (schedule : List ℕ) (c : Collector) (ts : List Thread)
    → IsRange c ts
    → let r = run schedule c ts in IsRange r.0 r.1
unfolding run
run-IsRange [] c ts w = w
run-IsRange (i ∷ is) c ts w = let r = step i c ts in run-IsRange is r.0 r.1 (step-IsRange i c ts w)

-- Calls that have not begun.
unfoldable pub begin : List (ℕ × Bool) → List Thread
begin [] = []
begin ((d, failed) ∷ calls) =
    record { duration = d; failed = failed; phase = counting } ∷ begin calls

begin-Knows : (calls : List (ℕ × Bool)) → All (Knows new_collector) (begin calls)
unfolding begin Known
begin-Knows [] = _
begin-Knows (call ∷ calls) = (_, begin-Knows calls)

-- A returned call's duration lies between the ends, and an end is a duration or that of a new collector.
pub record IsExtreme (c : Collector) (ts : List Thread) : Type 0 where
  pub between :
      All
        (λ t. t.phase ≡ returned → (c.min_duration ≤ t.duration) × (t.duration ≤ c.max_duration))
        ts
  pub top : (c.max_duration == 0 || among c.max_duration (durations ts)) ≡ true
  pub bottom : (c.min_duration == max_int || among c.min_duration (durations ts)) ≡ true

All-between :
    (c : Collector) (ts : List Thread)
    → All (Knows c) ts
    → All
        (λ t. t.phase ≡ returned → (c.min_duration ≤ t.duration) × (t.duration ≤ c.max_duration))
        ts
unfolding Known
All-between c [] k = _
All-between c (t ∷ ts) (k, ks) =
    ((λ e. let (up, down) = subst (Known c t.duration) e k in (down, up)), All-between c ts ks)

-- However calls of `RecordCall` on a new collector interleave, between any two accesses of an atomic value,
-- the duration of every call that has returned lies between the shortest and the longest one, and each of
-- these is the duration of a call, or else is still as in a new collector.
pub run-IsExtreme :
    (schedule : List ℕ) (calls : List (ℕ × Bool))
    → let r = run schedule new_collector (begin calls) in IsExtreme r.0 r.1
run-IsExtreme schedule calls =
    let r = run schedule new_collector (begin calls) in
    let w =
      run-IsRange schedule new_collector (begin calls)
        (record { known = begin-Knows calls; top = refl; bottom = refl }) in
    record { between = All-between r.0 r.1 w.known; top = w.top; bottom = w.bottom }
