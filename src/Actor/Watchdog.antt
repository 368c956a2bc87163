-- ===== src/Actor/Watchdog.antt =====
-- zactor/watchdog.go: `scan`, on what it reads of each actor: its id, whether the item is an `*Actor`
-- itself, and `processingStart`. Times are nanoseconds. The stack dump is left out.
pub mod Spacing
use zhenyi.Prelude.{
  ℕ, ◌+◌, ◌*◌, Bool, false, List, [], ◌∷◌, Option, none, some, ltb, ◌==◌, if◌then◌else◌,
}
use zhenyi.Prelude.Maps.{insert, lookup}

pub record Seen : Type 0 where
  pub id : ℕ
  pub is_actor : Bool
  pub processing_start : ℕ

pub record Watchdog : Type 0 where
  pub threshold : ℕ
  pub cooldown : ℕ
  pub last_dump : List (ℕ × ℕ)
  pub reports : List (ℕ × ℕ)

unfoldable pub new_watchdog : ℕ → Watchdog
new_watchdog threshold = record {
  threshold = threshold;
  cooldown = 10 * 1000000000;
  last_dump = [];
  reports = [];
}

-- Whether the last report of the actor is younger than the cooldown. `now - last` is an int64: where
-- the clock went back it is negative, and so smaller.
unfoldable pub cooling : ℕ → ℕ → Option ℕ → Bool
cooling cooldown now none = false
cooling cooldown now (some last) = ltb now (last + cooldown)

unfoldable pub report : ℕ → ℕ → Watchdog → Watchdog
report now id w = record w {
  last_dump = insert id now w.last_dump;
  reports = (id, now) ∷ w.reports;
}

unfoldable pub scan_actor : ℕ → Seen → Watchdog → Watchdog
scan_actor now a w =
    if a.is_actor
    then (if a.processing_start == 0
        then w
        else if ltb now (a.processing_start + w.threshold)
        then w
        else if cooling w.cooldown now (lookup a.id w.last_dump)
        then w
        else report now a.id w)
    else w

unfoldable pub scan : ℕ → List Seen → Watchdog → Watchdog
scan now [] w = w
scan now (a ∷ actors) w = scan now actors (scan_actor now a w)

unfoldable pub run : List (ℕ × List Seen) → Watchdog → Watchdog
run [] w = w
run ((now, actors) ∷ ticks) w = run ticks (scan now actors w)
