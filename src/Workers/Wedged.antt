-- ===== src/Workers/Wedged.antt =====
-- A task whose time runs out while it waits stays in the queue.
use distributive_cache.Base.{
  ◌≡◌, refl, true, false, none, some, List, [], ◌∷◌, arith, is_some, Option-cases, inl, inr,
  text_keyed, ap,
}
use distributive_cache.Base.Dict
use distributive_cache.Workers.{
  PendingTask, ManagedWorker, WorkerPool, update_worker, find_worker, find_running, dispatch,
  drain_queue_to, forget, handle_worker_message, handle_timeout, TaskResult, result_task_id,
}
use distributive_cache.Workers.Tracking.{any_runs}
use distributive_cache.Workers.Tracking
use distributive_cache.Workers.Invariant.{IsValid}

module _ {V : Type 0} (t : PendingTask V) (ts : List (PendingTask V)) (x : ManagedWorker)
    (m : TaskResult V) (p : WorkerPool V) where
  -- The worker runs the task, though nothing waits for it.
  abbrev IsOrphaned : WorkerPool V → Type 0
  IsOrphaned q =
      (any_runs t.task_id q.workers ≡ true) × (Dict.has t.task_id q.pending_by_task_id ≡ false)

  drain-IsOrphaned :
      (q : WorkerPool V) (y : ManagedWorker)
      → q.queue ≡ t ∷ ts
      → q.disposed ≡ false
      → find_worker x.id q.workers ≡ some y
      → y.busy ≡ false
      → Dict.has t.task_id q.pending_by_task_id ≡ false
      → IsOrphaned (drain_queue_to x.id q).0
  unfolding drain_queue_to dispatch
  drain-IsOrphaned q y queued active held idle gone =
      rw (held, idle, active, queued, drain_queue_to)
        (Tracking.runs-update x.id t.task_id q.workers y held, gone)

  message-IsOrphaned :
      (q : WorkerPool V)
      → q.queue ≡ t ∷ ts
      → q.disposed ≡ false
      → find_worker x.id q.workers ≡ some x
      → Dict.has t.task_id q.pending_by_task_id ≡ false
      → IsOrphaned (handle_worker_message x.id m q).0
  unfolding handle_worker_message
  message-IsOrphaned q queued active held gone =
      let freed : WorkerPool V = record q { workers = update_worker x.id false none q.workers } in
      let idle = Tracking.find-update x.id false none q.workers x held in
      elim (Option-cases (Dict.get (result_task_id m) q.pending_by_task_id)) [
        | inl e ↦
            rw (e, handle_worker_message) (drain-IsOrphaned freed _ queued active idle refl gone)
        | inr (u, e) ↦
            rw (e, handle_worker_message)
              (drain-IsOrphaned (forget (result_task_id m) freed) _ queued active idle refl
                (ground (arith, Dict.get-delete (result_task_id m) t.task_id q.pending_by_task_id)))
      ]

  timeout_forgets :
      Dict.has t.task_id p.pending_by_task_id ≡ true
      → find_running t.task_id p.workers ≡ none
      → (handle_timeout t p).0 ≡ forget t.task_id p
  unfolding handle_timeout
  timeout_forgets h f = rw (h, f, handle_timeout) refl

  timeout_again :
      (q : WorkerPool V)
      → Dict.has t.task_id q.pending_by_task_id ≡ false
      → handle_timeout t q ≡ (q, [])
  unfolding handle_timeout
  timeout_again q h = rw (h, handle_timeout) refl

  -- If the time of the first task in the queue runs out, the task stays there and is given to the next worker
  -- `x` that answers. That worker then runs a task that is not pending, and when the task's timer fires nothing
  -- happens: if the task never ends, the worker is never replaced.
  pub timeout_leaves_queued :
      IsValid p
      → p.queue ≡ t ∷ ts
      → Dict.has t.task_id p.pending_by_task_id ≡ true
      → find_running t.task_id p.workers ≡ none
      → find_worker x.id p.workers ≡ some x
      → let late = (handle_timeout t p).0 in
        let q = (handle_worker_message x.id m late).0 in
        (any_runs t.task_id q.workers ≡ true)
        × (Dict.has t.task_id q.pending_by_task_id ≡ false)
        × (handle_timeout t q ≡ (q, []))
  timeout_leaves_queued v queued waits not_running held =
      let gone : Dict.has t.task_id (forget t.task_id p).pending_by_task_id ≡ false =
        ap is_some (Dict.get-delete_self t.task_id p.pending_by_task_id) in
      let (running, absent) = message-IsOrphaned (forget t.task_id p) queued v.active held gone in
      rw (timeout_forgets waits not_running) (running, absent, timeout_again _ absent)
