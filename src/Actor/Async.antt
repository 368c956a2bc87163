-- ===== src/Actor/Async.antt =====
-- zactor/handlemsg.go, flow.go, hotupdate.go and the pool of base.go: asynchronous tasks. A task is
-- what it runs, whether it holds a message, and whether it has a callback; what user code does (what
-- the checks do, whether the work or the callback panics) and whether the worker pool of
-- another library accepts the task are arguments.
use zhenyi.Prelude.{ℕ, ◌+◌, Bool, true, false, List, [], ◌∷◌, Option, none, some, if◌then◌else◌}

-- Which of `fMsg`, `fSimple` and `flowWork` is set, if any is not nil.
pub data Work : Type 0 where
  with_msg simple flow nothing : Work

-- What a validator does.
pub data Check : Type 0 where
  holds fails panics : Check

pub record Task : Type 0 where
  pub work : Work
  pub has_msg : Bool
  pub has_callback : Bool

-- How often the message was retained and released, a task went back to its pool, and a callback ran.
pub record Ledger : Type 0 where
  pub retained : ℕ
  pub released : ℕ
  pub pooled : ℕ
  pub calls : ℕ

unfoldable pub retain_msg : Bool → Ledger → Ledger
retain_msg true l = record l { retained = l.retained + 1 }
retain_msg false l = l

unfoldable pub release_msg : Bool → Ledger → Ledger
release_msg true l = record l { released = l.released + 1 }
release_msg false l = l

unfoldable pub put_task : Ledger → Ledger
put_task l = record l { pooled = l.pooled + 1 }

-- The loop over the validators stops at the first that does not hold.
unfoldable pub run_checks : List Check → Check
run_checks [] = holds
run_checks (holds ∷ checks) = run_checks checks
run_checks (fails ∷ checks) = fails
run_checks (panics ∷ checks) = panics

-- A task that the worker pool does not accept is given up, with its message.
unfoldable pub invoke : Bool → Task → Ledger → Ledger × Option Task
invoke true t l = (l, some t)
invoke false t l = (put_task (release_msg t.has_msg l), none)

-- A panic of a validator goes to the caller, past the release.
unfoldable pub after_checks : Check → Bool → Task → Ledger → Ledger × Option Task
after_checks holds accepted t l = invoke accepted t l
after_checks fails accepted t l = (release_msg true l, none)
after_checks panics accepted t l = (l, none)

unfoldable pub async_run_with_msg : List Check → Bool → Bool → Bool → Ledger → Ledger × Option Task
async_run_with_msg checks has_work has_callback accepted l =
    let work = if has_work then with_msg else nothing in
    let t : Task = record { work = work; has_msg = true; has_callback = has_callback } in
    after_checks (run_checks checks) accepted t (retain_msg true l)

unfoldable pub async_run : Bool → Bool → Bool → Ledger → Ledger × Option Task
async_run has_work has_callback accepted l =
    let work = if has_work then simple else nothing in
    let t : Task = record { work = work; has_msg = false; has_callback = has_callback } in
    invoke accepted t l

unfoldable pub start_async_then : Bool → Bool → Bool → Bool → Ledger → Ledger × Option Task
start_async_then has_work has_msg has_then accepted l =
    let t : Task = record { work = flow; has_msg = has_msg; has_callback = has_then } in
    if has_work then invoke accepted t (retain_msg has_msg l) else (l, none)

-- On the worker: what it leaves, and whether the task was pushed to the actor for its callback. A
-- panic is recovered.
unfoldable pub run_with_msg : Task → Bool → Ledger → Ledger × Bool
run_with_msg t fault l =
    if fault
    then (l, false)
    else if t.has_callback
    then (l, true)
    else (put_task (release_msg t.has_msg l), false)

unfoldable pub is_simple : Work → Bool
is_simple simple = true
is_simple with_msg = false
is_simple flow = false
is_simple nothing = false

-- A call of a nil `fSimple` panics too.
unfoldable pub run_simple : Task → Bool → Ledger → Ledger × Bool
run_simple t fault l =
    if fault
    then (l, false)
    else if is_simple t.work
    then (if t.has_callback then (l, true) else (put_task l, false))
    else (l, false)

unfoldable pub run_flow : Task → Bool → Ledger → Ledger × Bool
run_flow t fault l =
    if fault
    then (put_task (release_msg t.has_msg l), false)
    else if t.has_callback
    then (l, true)
    else (put_task (release_msg t.has_msg l), false)

unfoldable pub pool_runs : Work → Task → Bool → Ledger → Ledger × Bool
pool_runs flow t fault l = run_flow t fault l
pool_runs with_msg t fault l = if t.has_msg then run_with_msg t fault l else run_simple t fault l
pool_runs simple t fault l = run_simple t fault l
pool_runs nothing t fault l = run_simple t fault l

-- The same in the pool that `RebuildWorkerPool` makes.
unfoldable pub rebuilt_pool_runs : Work → Task → Bool → Ledger → Ledger × Bool
rebuilt_pool_runs flow t fault l = run_simple t fault l
rebuilt_pool_runs with_msg t fault l =
    if t.has_msg then run_with_msg t fault l else run_simple t fault l
rebuilt_pool_runs simple t fault l = run_simple t fault l
rebuilt_pool_runs nothing t fault l = run_simple t fault l

unfoldable pub called : Ledger → Ledger
called l = record l { calls = l.calls + 1 }

-- On the actor: the deferred release comes in every case, the return of the task not after a panic.
unfoldable pub run_checked : Check → Task → Bool → Ledger → Ledger
run_checked holds t fault l =
    if fault then release_msg t.has_msg (called l) else release_msg t.has_msg (put_task (called l))
run_checked fails t fault l = release_msg t.has_msg (put_task l)
run_checked panics t fault l = release_msg t.has_msg l

unfoldable pub run_flow_callback : Task → Bool → Ledger → Ledger
run_flow_callback t fault l =
    if t.has_callback then run_checked holds t fault l else release_msg t.has_msg (put_task l)

unfoldable pub run_callback : Work → Task → List Check → Bool → Ledger → Ledger
run_callback flow t checks fault l = run_flow_callback t fault l
run_callback with_msg t checks fault l = run_checked (run_checks checks) t fault l
run_callback simple t checks fault l = run_checked (run_checks checks) t fault l
run_callback nothing t checks fault l = run_checked (run_checks checks) t fault l
