-- ===== src/Actor/Watchdog/Spacing.antt =====
-- zactor/watchdog.go: how far apart the reports on one actor are.
use zhenyi.Prelude.{
  ℕ, ◌+◌, ◌≤◌, ◌≡◌, ap, sym, ◌∙◌, false, List, [], ◌∷◌, Option, none, some, ltb, ◌==◌,
  if◌then◌else◌, if_elim, ge_of_ltb,
}
use zhenyi.Prelude.Maps.{lookup, lookup-insert}
use zhenyi.Actor.Watchdog.{Seen, Watchdog, cooling, report, scan_actor, scan, run}

-- The latest report on an actor.
unfoldable pub latest : ℕ → List (ℕ × ℕ) → Option ℕ
latest id [] = none
latest id ((other, at) ∷ reports) =
    let rest = latest id reports in if other == id then some at else rest

unfoldable pub Before : ℕ → ℕ → Option ℕ → Type 0
Before cooldown at none = Unit
Before cooldown at (some earlier) = earlier + cooldown ≤ at

-- Newest first: each comes at least the cooldown after the one before it on the same actor.
unfoldable pub Spaced : ℕ → List (ℕ × ℕ) → Type 0
Spaced cooldown [] = Unit
Spaced cooldown ((id, at) ∷ reports) =
    Before cooldown at (latest id reports) × Spaced cooldown reports

-- `last_dump` has the latest report of each actor.
pub record IsTracked (w : Watchdog) : Type 0 where
  pub last : (id : ℕ) → lookup id w.last_dump ≡ latest id w.reports
  pub spaced : Spaced w.cooldown w.reports

cooling-Before :
    (cooldown now : ℕ) (o : Option ℕ) → cooling cooldown now o ≡ false → Before cooldown now o
unfolding cooling Before
cooling-Before cooldown now none e = _
cooling-Before cooldown now (some earlier) e = ge_of_ltb now (earlier + cooldown) e

report-IsTracked :
    (now id : ℕ) (w : Watchdog)
    → cooling w.cooldown now (lookup id w.last_dump) ≡ false
    → IsTracked w
    → IsTracked (report now id w)
unfolding report latest Spaced
report-IsTracked now id w cool i = record {
  last = λ other.
      lookup-insert id other now w.last_dump
      ∙ ap (λ o. if id == other then some now else o) (i.last other);
  spaced = (
    cooling-Before w.cooldown now (latest id w.reports)
        (ap (cooling w.cooldown now) (sym (i.last id)) ∙ cool),
    i.spaced,
  );
}

scan_actor-IsTracked :
    (now : ℕ) (a : Seen) (w : Watchdog) → IsTracked w → IsTracked (scan_actor now a w)
unfolding scan_actor
scan_actor-IsTracked now a w i =
    if_elim IsTracked a.is_actor
      (λ _.
        if_elim IsTracked (a.processing_start == 0) (λ _. i)
          (λ _.
            if_elim IsTracked (ltb now (a.processing_start + w.threshold)) (λ _. i)
              (λ _.
                if_elim IsTracked (cooling w.cooldown now (lookup a.id w.last_dump)) (λ _. i)
                  (λ cool. report-IsTracked now a.id w cool i))))
      (λ _. i)

scan-IsTracked :
    (now : ℕ) (actors : List Seen) (w : Watchdog) → IsTracked w → IsTracked (scan now actors w)
unfolding scan
scan-IsTracked now [] w i = i
scan-IsTracked now (a ∷ actors) w i =
    scan-IsTracked now actors (scan_actor now a w) (scan_actor-IsTracked now a w i)

-- Over any scans, with whatever the actors are found to do and whatever the clock reads, the reports on
-- one actor stay at least the cooldown apart, and the watchdog's table has the latest report of each
-- actor, if that was so before.
pub run-IsTracked :
    (ticks : List (ℕ × List Seen)) (w : Watchdog) → IsTracked w → IsTracked (run ticks w)
unfolding run
run-IsTracked [] w i = i
run-IsTracked ((now, actors) ∷ ticks) w i =
    run-IsTracked ticks (scan now actors w) (scan-IsTracked now actors w i)
