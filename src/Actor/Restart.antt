-- ===== src/Actor/Restart.antt =====
-- zactor/group.go: `superviseActor`. Each time that the actor's `Run` returns is an exit: how many
-- nanoseconds have passed since the last restart, and whether the context is done by then.
use zhenyi.Prelude.{
  ℕ, zero, suc, ◌+◌, ◌-◌, ◌*◌, ◌^◌, ◌≤◌, ◌<◌, ◌≡◌, refl, ap, ◌∙◌, Bool, false, List, [], ◌∷◌, ◌++◌,
  length, arith, ltb, ◌==◌, if◌then◌else◌, Bool-cases, ◌≢◌, ==_iff, subst, inl, inr, All, lt→ltb,
  ltb_of_le, replicate,
}
use zhenyi.Model.{ActorConfig}

pub record Exit : Type 0 where
  pub elapsed : ℕ
  pub is_done : Bool

-- What the loop has come to after the exits: the actor runs again, the context ended it, or the
-- restarts are used up.
pub data Verdict : Type 0 where
  running stopped exhausted : Verdict

abbrev pub default_max_restarts : ℕ
default_max_restarts = 3

unfoldable pub max_restarts_of : ActorConfig → ℕ
max_restarts_of cfg = if ltb 0 cfg.max_restarts then cfg.max_restarts else default_max_restarts

abbrev pub second : ℕ
second = 1000 * 1000 * 1000

abbrev pub restart_window : ℕ
restart_window = 30 * second

-- `time.Second << min(restarts-1, 5)`, at most 30 seconds.
unfoldable pub backoff : ℕ → ℕ
backoff restarts =
    let shift = if ltb 5 (restarts - 1) then 5 else restarts - 1 in
    let delay = second * 2 ^ shift in if ltb (30 * second) delay then 30 * second else delay

unfoldable pub counted : ℕ → Exit → ℕ
counted restarts e = (if ltb restart_window e.elapsed then 0 else restarts) + 1

-- With the times that it sleeps before each restart.
unfoldable pub supervise : ℕ → ℕ → List Exit → Verdict × List ℕ
supervise max_restarts restarts [] = (running, [])
supervise max_restarts restarts (e ∷ es) =
    let n = counted restarts e in
    let rest = supervise max_restarts n es in
    if e.is_done
    then (stopped, [])
    else if ltb max_restarts n
    then (exhausted, [])
    else (rest.0, backoff n ∷ rest.1)

-- An exit within the window of the last restart, or after it.
pub record IsQuick (e : Exit) : Type 0 where
  pub soon : e.elapsed ≤ restart_window
  pub going : e.is_done ≡ false

pub record IsLate (e : Exit) : Type 0 where
  pub late : restart_window < e.elapsed
  pub going : e.is_done ≡ false

-- The delays of `n` restarts in a row, after `from` earlier ones.
unfoldable pub delays : ℕ → ℕ → List ℕ
delays from zero = []
delays from (suc n) = backoff (from + 1) ∷ delays (from + 1) n

backoff_late : (r : ℕ) → 7 ≤ r → backoff r ≡ 30 * second
unfolding backoff
backoff_late r h = rw (lt→ltb 5 (r - 1) (omega arith))

backoff_doubles_late :
    (r : ℕ)
    → 7 ≤ r
    → (second ≤ backoff r)
      × (backoff r ≤ 30 * second)
      × (backoff (r + 1)
          ≡ (if ltb (30 * second) (2 * backoff r) then 30 * second else 2 * backoff r))
backoff_doubles_late r h =
    rw (backoff_late r h, backoff_late (r + 1) (omega arith)) (omega arith, omega arith, refl)

-- Before restart number `r`, which is at least 1, the loop sleeps for at least one second and at
-- most thirty, and before the next one twice as long, up to thirty seconds.
pub backoff_doubles :
    (r : ℕ)
    → 1 ≤ r
    → (second ≤ backoff r)
      × (backoff r ≤ 30 * second)
      × (backoff (r + 1)
          ≡ (if ltb (30 * second) (2 * backoff r) then 30 * second else 2 * backoff r))
unfolding backoff
backoff_doubles zero h = absurd (omega arith)
backoff_doubles (suc zero) h = (omega arith, omega arith, refl)
backoff_doubles (suc (suc zero)) h = (omega arith, omega arith, refl)
backoff_doubles (suc (suc (suc zero))) h = (omega arith, omega arith, refl)
backoff_doubles (suc (suc (suc (suc zero)))) h = (omega arith, omega arith, refl)
backoff_doubles (suc (suc (suc (suc (suc zero))))) h = (omega arith, omega arith, refl)
backoff_doubles (suc (suc (suc (suc (suc (suc zero)))))) h = (omega arith, omega arith, refl)
backoff_doubles (suc (suc (suc (suc (suc (suc (suc r))))))) h =
    backoff_doubles_late (suc (suc (suc (suc (suc (suc (suc r))))))) (omega arith)

supervise_step :
    (max from n : ℕ) (e : Exit) (es : List Exit) (v : Verdict) (ds : List ℕ)
    → e.is_done ≡ false
    → counted from e ≡ n
    → n ≤ max
    → supervise max n es ≡ (v, ds)
    → supervise max from (e ∷ es) ≡ (v, backoff n ∷ ds)
unfolding supervise
supervise_step max from n e es v ds going c small rest =
    rw (c, going, ltb_of_le max n small) (ap (λ r. (r.0, backoff n ∷ r.1)) rest)

quick-counted : (from : ℕ) (e : Exit) → IsQuick e → counted from e ≡ from + 1
unfolding counted
quick-counted from e q = rw (ltb_of_le restart_window e.elapsed q.soon)

late-counted : (from : ℕ) (e : Exit) → IsLate e → counted from e ≡ 1
unfolding counted
late-counted from e q = rw (lt→ltb restart_window e.elapsed q.late)

supervise_quick :
    (max from : ℕ) (es : List Exit) (e : Exit)
    → All IsQuick es
    → IsQuick e
    → from + length es ≡ max
    → supervise max from (es ++ (e ∷ [])) ≡ (exhausted, delays from (length es))
unfolding supervise delays counted
supervise_quick max from [] e quick q n =
    rw (q.going, ltb_of_le restart_window e.elapsed q.soon, lt→ltb max (from + 1) (omega arith))
supervise_quick max from (x ∷ es) e (quick, all) q n =
    supervise_step max from (from + 1) x (es ++ (e ∷ [])) exhausted (delays (from + 1) (length es))
      quick.going (quick-counted from x quick) (omega arith)
      (supervise_quick max (from + 1) es e all q (omega arith))

-- As many exits in a row within the window as the limit allows restarts are all followed by a
-- restart, after the growing delays, and one more such exit stops the actor for good.
pub supervise_exhausted :
    (max : ℕ) (es : List Exit) (e : Exit)
    → All IsQuick es
    → IsQuick e
    → length es ≡ max
    → supervise max 0 (es ++ (e ∷ [])) ≡ (exhausted, delays 0 max)
supervise_exhausted max es e quick q n =
    supervise_quick max 0 es e quick q (omega arith) ∙ ap (λ k. (exhausted, delays 0 k)) n

-- With a positive limit, an actor that always runs for longer than the window is restarted every
-- time, after one second.
pub supervise_late :
    (max from : ℕ) (es : List Exit)
    → 1 ≤ max
    → All IsLate es
    → supervise max from es ≡ (running, replicate (length es) second)
unfolding supervise backoff
supervise_late max from [] h late = refl
supervise_late max from (e ∷ es) h (late, all) =
    supervise_step max from 1 e es running (replicate (length es) second) late.going
      (late-counted from e late) h (supervise_late max 1 es h all)

-- The time since the last restart takes in the sleep before it, and some more.
unfoldable pub IsTimed : ℕ → List Exit → Type 0
IsTimed restarts [] = Unit
IsTimed restarts (e ∷ es) =
    (0 < restarts → backoff restarts < e.elapsed) × IsTimed (counted restarts e) es

counted_small :
    (from : ℕ) (e : Exit) → from ≤ 6 → (0 < from → backoff from < e.elapsed) → counted from e ≤ 6
unfolding counted backoff
counted_small from e small timed = elim (Bool-cases (from == 6)) [
  | inl six ↦
      let f : from ≡ 6 = (==_iff from 6).0 six in
      let slept : restart_window < e.elapsed =
        subst (λ r. 0 < r → backoff r < e.elapsed) f timed (omega arith) in
      rw (lt→ltb restart_window e.elapsed slept) (omega arith)
  | inr less ↦ ground arith
]

-- With a limit of six restarts or more the limit is never reached, however soon the actor fails
-- each time: the sleep before the seventh run is as long as the window, so the count starts over.
pub supervise_unlimited :
    (max from : ℕ) (es : List Exit)
    → 6 ≤ max
    → from ≤ 6
    → IsTimed from es
    → (supervise max from es).0 ≢ exhausted
unfolding supervise IsTimed counted
supervise_unlimited max from [] many small timed = λ e. cc
supervise_unlimited max from (x ∷ es) many small (slept, timed) =
    let n = counted_small from x small slept in
    let rest = supervise_unlimited max (counted from x) es many n timed in
    elim (Bool-cases x.is_done) [
      | inl e ↦ rw e (λ q. cc)
      | inr e ↦ rw (e, ltb_of_le max (counted from x) (omega arith)) rest
    ]
