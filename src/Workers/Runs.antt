-- ===== src/Workers/Runs.antt =====
-- Sequences of callbacks: in which order submissions, answers, timers, failures and exits come is open.
use distributive_cache.Base.{
  ℕ, zero, suc, ◌+◌, max, ◌≡◌, refl, inl, true, false, Option, some, List, [], ◌∷◌, ◌++◌, arith,
  length, length-append, All, All-append, Text, text_keyed, sym, subst,
}
use distributive_cache.Base.Dict
use distributive_cache.Workers.{
  TaskId, PendingTask, ManagedWorker, WorkerPool, Effect, Outcome, find_worker, runs, spawn_worker,
  handle_worker_message, handle_timeout, handle_worker_error, handle_worker_exit, TaskResult,
  result_task_id, submit_task, spawn_all, new_pool,
}
use distributive_cache.Workers.Tracking.{IsMarked, IsBusy, IsBelow, IsUnique}
use distributive_cache.Workers.Tracking
use distributive_cache.Workers.Invariant.{IsValid}
use distributive_cache.Workers.Steps.{
  submit-IsValid, message-IsValid, timeout-IsValid, error-IsValid, exit-IsValid,
}

-- One callback. A thread answers only for the task that it was given last, and only the threads that the pool
-- holds are listened to.
pub data Step {V : Type 0} (p : WorkerPool V) (r : Outcome V) : Type 0 where
  submits :
      (id : TaskId) (kind : Text) (payload : V) (timeout_ms : Option ℕ)
      → r ≡ submit_task id kind payload timeout_ms p
      → Step p r
  answers :
      (x : ManagedWorker) (m : TaskResult V)
      → find_worker x.id p.workers ≡ some x
      → runs (result_task_id m) x ≡ true
      → r ≡ handle_worker_message x.id m p
      → Step p r
  expires : (t : PendingTask V) → r ≡ handle_timeout t p → Step p r
  fails :
      (x : ManagedWorker) (e : Text)
      → find_worker x.id p.workers ≡ some x
      → r ≡ handle_worker_error x e p
      → Step p r
  exits :
      (x : ManagedWorker) (code : ℕ) (printed : Text)
      → find_worker x.id p.workers ≡ some x
      → r ≡ handle_worker_exit x code printed p
      → Step p r

-- The effects of a sequence of callbacks, and the pool that it leads to.
pub data Reach {V : Type 0} (p : WorkerPool V) : List (Effect V) → WorkerPool V → Type 0 where
  here : Reach p [] p
  next :
      {fs gs : List (Effect V)} {q q' : WorkerPool V} (r : Outcome V)
      → Reach p fs q
      → Step q r
      → gs ≡ fs ++ r.1
      → q' ≡ r.0
      → Reach p gs q'

module _ {V : Type 0} where
  Step-IsValid : (p : WorkerPool V) (r : Outcome V) → Step p r → IsValid p → IsValid r.0
  Step-IsValid p r (submits id kind payload timeout_ms e) v =
      subst (λ o. IsValid o.0) (sym e) (submit-IsValid id kind payload timeout_ms p v)
  Step-IsValid p r (answers x m held running e) v =
      subst (λ o. IsValid o.0) (sym e) (message-IsValid x.id x m p v held running)
  Step-IsValid p r (expires t e) v = subst (λ o. IsValid o.0) (sym e) (timeout-IsValid t p v)
  Step-IsValid p r (fails x text held e) v =
      subst (λ o. IsValid o.0) (sym e) (error-IsValid x text p v held)
  Step-IsValid p r (exits x code printed held e) v =
      subst (λ o. IsValid o.0) (sym e) (exit-IsValid x code printed p v held)

  -- In any sequence of callbacks a valid pool keeps its full number of workers under distinct ids, leaves no task
  -- in the queue while a worker is idle, and has every task that is not settled in the queue or on a worker.
  pub reach-IsValid :
      (p : WorkerPool V) {fs : List (Effect V)} {q : WorkerPool V}
      → Reach p fs q
      → IsValid p
      → IsValid q
  reach-IsValid p here v = v
  reach-IsValid p (next r before step e same) v =
      subst IsValid (sym same) (Step-IsValid _ r step (reach-IsValid p before v))

  -- A pool that is being filled: it has no tasks.
  record IsFilling (n : ℕ) (p : WorkerPool V) : Type 0 where
    active : p.disposed ≡ false
    sized : length p.workers + n ≡ p.size
    below : All (IsBelow p.next_worker_id) p.workers
    unique : IsUnique p.workers
    marked : All IsMarked p.workers
    queueless : p.queue ≡ []
    taskless : p.pending_by_task_id ≡ []

  spawn_all-IsValid : (n : ℕ) (p : WorkerPool V) → IsFilling n p → IsValid (spawn_all n p).0
  unfolding spawn_all spawn_worker Dict.get
  spawn_all-IsValid zero p v = record {
    active = v.active;
    sized = omega (arith, v.sized);
    below = v.below;
    unique = v.unique;
    marked = v.marked;
    conserving = inl v.queueless;
    kept = λ id h. absurd (ground (arith, v.taskless));
  }
  spawn_all-IsValid (suc n) p v = spawn_all-IsValid n (spawn_worker p).0 (record {
    active = v.active;
    sized = omega (arith, v.sized, length-append p.workers (Tracking.fresh p.next_worker_id ∷ []));
    below = Tracking.append-IsBelow p.next_worker_id p.workers v.below;
    unique = Tracking.append-IsUnique p.next_worker_id p.workers v.below v.unique;
    marked = All-append IsMarked p.workers _ v.marked (refl, tt);
    queueless = v.queueless;
    taskless = v.taskless;
  })

  pub new_pool-IsValid : (size timeout_ms : ℕ) → IsValid (new_pool {V = V} size timeout_ms).0
  unfolding new_pool
  new_pool-IsValid size timeout_ms = spawn_all-IsValid (max 1 size) _ (record {
    active = refl;
    sized = omega arith;
    below = tt;
    unique = tt;
    marked = tt;
    queueless = refl;
    taskless = refl;
  })
