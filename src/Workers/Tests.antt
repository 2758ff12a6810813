-- ===== src/Workers/Tests.antt =====
-- Runs of the pool on small inputs, and its theorems at inputs that meet their conditions.
use distributive_cache.Base.{
  ℕ, ◌+◌, ◌≤◌, ◌≡◌, refl, true, false, none, some, [], text_keyed, Text-discrete, select,
}
use distributive_cache.Base.Dict
use distributive_cache.Shared.Errors.{codes}
use distributive_cache.Workers.{
  TaskId, PendingTask, ManagedWorker, WorkerPool, update_worker, find_worker, find_idle,
  find_running, dispatch, drain_queue_to, replace_worker, spawn_worker, enqueue, submit_task,
  handle_worker_message, handle_timeout, new_pool, spawn_all, success, TaskResult,
}
use distributive_cache.Workers.Tracking.{any_runs}
use distributive_cache.Workers.Invariant.{IsValid}
use distributive_cache.Workers.Runs.{
  submits, answers, Reach, here, next, reach-IsValid, new_pool-IsValid,
}
use distributive_cache.Workers.Settling.{settlements, pending, reach-settlements}
use distributive_cache.Workers.Wedged.{timeout_leaves_queued}

program : Unit {0}
unfolding update_worker find_worker find_idle find_running dispatch drain_queue_to replace_worker
    spawn_worker enqueue submit_task handle_worker_message handle_timeout new_pool spawn_all
    Dict.get Dict.set Dict.delete Text-discrete select
program = tt

abbrev id_a : TaskId
id_a = codes "a"

abbrev id_b : TaskId
id_b = codes "b"

abbrev kind : TaskId
kind = codes "snapshot:serialize"

abbrev empty_pool : WorkerPool ℕ
unfolding program
empty_pool = (new_pool 1 1000).0

-- The only worker runs the first task, and the second one waits.
abbrev pool_a : WorkerPool ℕ
unfolding program
pool_a = (submit_task id_a kind 5 none empty_pool).0

abbrev pool_b : WorkerPool ℕ
unfolding program
pool_b = (submit_task id_b kind 6 none pool_a).0

abbrev task_b : PendingTask ℕ
task_b = record { task_id = id_b; kind = kind; payload = 6; has_timer = true }

abbrev worker : ManagedWorker
worker = record { id = 0; busy = true; current_task_id = some id_a }

abbrev answer : TaskResult ℕ
answer = success id_a 7

abbrev reach_a : Reach empty_pool (submit_task id_a kind 5 none empty_pool).1 pool_a
unfolding program
reach_a = next _ here (submits id_a kind 5 none refl) refl refl

abbrev reach_b :
    Reach pool_b (handle_worker_message 0 answer pool_b).1 (handle_worker_message 0 answer pool_b).0
unfolding program
reach_b = next _ here (answers worker answer refl refl refl) refl refl

pool_a-IsValid : IsValid pool_a
unfolding program
pool_a-IsValid = reach-IsValid empty_pool reach_a (new_pool-IsValid 1 1000)

pool_b-IsValid : IsValid pool_b
unfolding program
pool_b-IsValid =
    reach-IsValid pool_a (next _ here (submits id_b kind 6 none refl) refl refl) pool_a-IsValid

reach-IsValid_example : IsValid (handle_worker_message 0 answer pool_b).0
reach-IsValid_example = reach-IsValid pool_b reach_b pool_b-IsValid

reach-settlements_example :
    settlements id_a (handle_worker_message 0 answer pool_b).1
      + pending id_a (handle_worker_message 0 answer pool_b).0
    ≤ pending id_a pool_b
unfolding reach_b
reach-settlements_example = reach-settlements id_a pool_b reach_b (tt, tt)

timeout_leaves_queued_example :
    let q = (handle_worker_message 0 answer (handle_timeout task_b pool_b).0).0 in
    (any_runs id_b q.workers ≡ true)
    × (Dict.has id_b q.pending_by_task_id ≡ false)
    × (handle_timeout task_b q ≡ (q, []))
unfolding program
timeout_leaves_queued_example =
    timeout_leaves_queued task_b [] worker answer pool_b pool_b-IsValid refl refl refl refl
