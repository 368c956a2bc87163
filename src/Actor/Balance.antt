-- ===== src/Actor/Balance.antt =====
-- A task from its submission to its callback: what becomes of its message.
use zhenyi.Prelude.{
  ℕ, ◌+◌, ◌≡◌, refl, Bool, true, false, List, Option, none, some, if◌then◌else◌, arith, Bool-cases,
  inl, inr, if_elim,
}
use zhenyi.Actor.Async.{
  Work, with_msg, simple, flow, nothing, Check, holds, fails, panics, Task, Ledger, retain_msg,
  release_msg, put_task, run_checks, after_checks, invoke, async_run_with_msg, async_run,
  start_async_then, run_with_msg, run_simple, run_flow, pool_runs, rebuilt_pool_runs, run_callback,
  run_checked, run_flow_callback, called, is_simple,
}

-- What user code does in one task.
pub record Conduct : Type 0 where
  pub work_panics : Bool
  pub checks : List Check
  pub callback_panics : Bool

abbrev pub Pool : Type 0
Pool = Work → Task → Bool → Ledger → Ledger × Bool

unfoldable pub deliver : Bool → Task → Conduct → Ledger → Ledger
deliver true t c l = run_callback t.work t c.checks c.callback_panics l
deliver false t c l = l

-- The worker, and the actor if the task is pushed to it.
unfoldable pub finish : Pool → Option Task → Conduct → Ledger → Ledger
finish pool none c l = l
finish pool (some t) c l = let r = pool t.work t c.work_panics l in deliver r.1 t c r.0

-- The three ways to start a task, with what their caller passes (checks, whether the work and
-- the callback are not nil) and whether the pool accepts.
pub data Request : Type 0 where
  msg_request : List Check → Bool → Bool → Bool → Request
  plain_request : Bool → Bool → Bool → Request
  flow_request : Bool → Bool → Bool → Bool → Request

unfoldable pub submit : Request → Ledger → Ledger × Option Task
submit (msg_request checks has_work has_callback accepted) l =
    async_run_with_msg checks has_work has_callback accepted l
submit (plain_request has_work has_callback accepted) l = async_run has_work has_callback accepted l
submit (flow_request has_work has_msg has_then accepted) l =
    start_async_then has_work has_msg has_then accepted l

unfoldable pub life : Pool → Request → Conduct → Ledger → Ledger
life pool q c l = let s = submit q l in finish pool s.1 c s.0

-- The ways to lose a message: a check of `AsyncRunWithMsg` panics before the task is made, or its task is
-- accepted and its work panics or is nil.
unfoldable pub loses_after : Check → Bool → Bool → Bool → Bool
loses_after holds has_work accepted fault =
    if accepted then (if has_work then fault else true) else false
loses_after fails has_work accepted fault = false
loses_after panics has_work accepted fault = true

unfoldable pub loses : Request → Bool → Bool
loses (msg_request checks has_work has_callback accepted) fault =
    loses_after (run_checks checks) has_work accepted fault
loses (plain_request has_work has_callback accepted) fault = false
loses (flow_request has_work has_msg has_then accepted) fault = false

unfoldable pub one_if : Bool → ℕ
one_if true = 1
one_if false = 0

abbrev Settles : Bool → Ledger → Ledger → Type 0
Settles gives_back l final =
    (final.retained ≡ l.retained) × (final.released ≡ l.released + one_if gives_back)

retain_msg_counts :
    (m : Bool) (l : Ledger)
    → ((retain_msg m l).retained ≡ l.retained + one_if m) × ((retain_msg m l).released ≡ l.released)
unfolding retain_msg one_if
retain_msg_counts true l = (refl, refl)
retain_msg_counts false l = (omega arith, refl)

release_msg-Settles : (m : Bool) (l : Ledger) → Settles m l (release_msg m l)
unfolding release_msg one_if
release_msg-Settles true l = (refl, refl)
release_msg-Settles false l = (refl, omega arith)

run_checked-Settles :
    (v : Check) (t : Task) (fault : Bool) (l : Ledger)
    → Settles t.has_msg l (run_checked v t fault l)
unfolding run_checked called put_task
run_checked-Settles holds t true l = release_msg-Settles t.has_msg (called l)
run_checked-Settles holds t false l = release_msg-Settles t.has_msg (put_task (called l))
run_checked-Settles fails t fault l = release_msg-Settles t.has_msg (put_task l)
run_checked-Settles panics t fault l = release_msg-Settles t.has_msg l

run_callback-Settles :
    (work : Work) (t : Task) (checks : List Check) (fault : Bool) (l : Ledger)
    → Settles t.has_msg l (run_callback work t checks fault l)
unfolding run_callback run_flow_callback put_task
run_callback-Settles with_msg t checks fault l = run_checked-Settles (run_checks checks) t fault l
run_callback-Settles simple t checks fault l = run_checked-Settles (run_checks checks) t fault l
run_callback-Settles nothing t checks fault l = run_checked-Settles (run_checks checks) t fault l
run_callback-Settles flow t checks fault l =
    if_elim (Settles t.has_msg l) t.has_callback (λ _. run_checked-Settles holds t fault l)
      (λ _. release_msg-Settles t.has_msg (put_task l))

msg_task_lem :
    (cb fault cb_panics : Bool) (checks : List Check) (l : Ledger)
    → ◌≡◌ {A = ℕ}
        (finish pool_runs
          (some (record { work = with_msg; has_msg = true; has_callback = cb }))
          (record { work_panics = fault; checks = checks; callback_panics = cb_panics })
          l).retained
        l.retained
      × ((finish pool_runs
              (some (record { work = with_msg; has_msg = true; has_callback = cb }))
              (record { work_panics = fault; checks = checks; callback_panics = cb_panics })
              l).released
            + one_if fault
          ≡ l.released + 1)
unfolding finish pool_runs run_with_msg deliver release_msg put_task one_if
msg_task_lem cb true cb_panics checks l = (refl, refl)
msg_task_lem true false cb_panics checks l =
    let (r, s) =
      run_callback-Settles with_msg
        (record { work = with_msg; has_msg = true; has_callback = true }) checks cb_panics l in
    (r, omega (arith, s))
msg_task_lem false false cb_panics checks l = (refl, omega arith)

plain_task-Settles :
    (cb fault cb_panics : Bool) (checks : List Check) (l : Ledger)
    → Settles false l (
        finish pool_runs
          (some (record { work = simple; has_msg = false; has_callback = cb }))
          (record { work_panics = fault; checks = checks; callback_panics = cb_panics })
          l)
unfolding finish pool_runs run_simple is_simple deliver put_task one_if
plain_task-Settles cb true cb_panics checks l = (refl, omega arith)
plain_task-Settles true false cb_panics checks l = run_callback-Settles simple _ checks cb_panics l
plain_task-Settles false false cb_panics checks l = (refl, omega arith)

flow_task-Settles :
    (m cb fault cb_panics : Bool) (checks : List Check) (l : Ledger)
    → Settles m l (
        finish pool_runs
          (some (record { work = flow; has_msg = m; has_callback = cb }))
          (record { work_panics = fault; checks = checks; callback_panics = cb_panics })
          l)
unfolding finish pool_runs run_flow deliver put_task release_msg one_if
flow_task-Settles true cb true cb_panics checks l = (refl, refl)
flow_task-Settles false cb true cb_panics checks l = (refl, omega arith)
flow_task-Settles m true false cb_panics checks l = run_callback-Settles flow _ checks cb_panics l
flow_task-Settles true false false cb_panics checks l = (refl, refl)
flow_task-Settles false false false cb_panics checks l = (refl, omega arith)

-- A task of `AsyncRunWithMsg`, or one without work, after the checks.
checked-balance :
    (v : Check) (has_work cb accepted : Bool) (c : Conduct) (l : Ledger)
    → let work = if has_work then with_msg else nothing in
      let t : Task = record { work = work; has_msg = true; has_callback = cb } in
      let s = after_checks v accepted t (retain_msg true l) in
      let final = finish pool_runs s.1 c s.0 in
      final.retained + l.released
      ≡ final.released + l.retained + one_if (loses_after v has_work accepted c.work_panics)
unfolding after_checks invoke finish loses_after retain_msg release_msg put_task one_if pool_runs
    run_simple is_simple deliver
checked-balance holds true cb true c l =
    let (r, s) = msg_task_lem cb c.work_panics c.callback_panics c.checks (retain_msg true l) in
    omega (arith, r, s)
checked-balance holds false cb true c l =
    if_elim {A = Ledger × Bool}
      (λ w.
        let final =
          deliver w.1 (record { work = nothing; has_msg = true; has_callback = cb }) c w.0 in
        final.retained + l.released ≡ final.released + l.retained + 1)
      c.work_panics (λ _. omega arith) (λ _. omega arith)
checked-balance holds true cb false c l = omega arith
checked-balance holds false cb false c l = omega arith
checked-balance fails true cb accepted c l = omega arith
checked-balance fails false cb accepted c l = omega arith
checked-balance panics true cb accepted c l = omega arith
checked-balance panics false cb accepted c l = omega arith

plain_nothing-Settles :
    (cb fault cb_panics : Bool) (checks : List Check) (l : Ledger)
    → Settles false l (
        finish pool_runs
          (some (record { work = nothing; has_msg = false; has_callback = cb }))
          (record { work_panics = fault; checks = checks; callback_panics = cb_panics })
          l)
unfolding finish pool_runs run_simple is_simple deliver one_if
plain_nothing-Settles cb true cb_panics checks l = (refl, omega arith)
plain_nothing-Settles cb false cb_panics checks l = (refl, omega arith)

-- In the worker pool that `NewActor` makes: for every way to start a task, whatever the checks, the work
-- and the callback do, nil ones included, and whether or not the pool accepts, the message is released as
-- often as it was retained, except that one release is missing exactly when `AsyncRunWithMsg` retained it
-- and then a check panicked before the task was made, or the task was accepted and its work panicked or
-- was nil.
pub life-balance :
    (q : Request) (c : Conduct) (l : Ledger)
    → (life pool_runs q c l).retained + l.released
      ≡ (life pool_runs q c l).released + l.retained + one_if (loses q c.work_panics)
unfolding life submit async_run_with_msg async_run start_async_then invoke loses retain_msg
    release_msg put_task one_if finish
life-balance (msg_request checks has_work cb accepted) c l =
    checked-balance (run_checks checks) has_work cb accepted c l
life-balance (plain_request true cb true) c l =
    let (r, s) = plain_task-Settles cb c.work_panics c.callback_panics c.checks l in
    omega (arith, r, s)
life-balance (plain_request false cb true) c l =
    let (r, s) = plain_nothing-Settles cb c.work_panics c.callback_panics c.checks l in
    omega (arith, r, s)
life-balance (plain_request true cb false) c l = omega arith
life-balance (plain_request false cb false) c l = omega arith
life-balance (flow_request true m cb true) c l =
    let (r, s) = flow_task-Settles m cb c.work_panics c.callback_panics c.checks (retain_msg m l) in
    let (more, same) = retain_msg_counts m l in omega (arith, r, s, more, same)
life-balance (flow_request true true cb false) c l = omega arith
life-balance (flow_request true false cb false) c l = omega arith
life-balance (flow_request false m cb accepted) c l = omega arith

-- In the pool that `RebuildWorkerPool` makes, an accepted task of `StartAsyncThen` with a message
-- never calls its continuation, and its message is retained and never released.
pub life-rebuilt :
    (has_then : Bool) (c : Conduct) (l : Ledger)
    → ((life rebuilt_pool_runs (flow_request true true has_then true) c l).calls ≡ l.calls)
      × ((life rebuilt_pool_runs (flow_request true true has_then true) c l).released ≡ l.released)
      × ((life rebuilt_pool_runs (flow_request true true has_then true) c l).retained
          ≡ l.retained + 1)
unfolding life submit start_async_then invoke retain_msg finish rebuilt_pool_runs run_simple
    is_simple deliver
life-rebuilt has_then c l = elim (Bool-cases c.work_panics) [
  | inl e ↦ rw e (refl, refl, refl)
  | inr e ↦ rw e (refl, refl, refl)
]
