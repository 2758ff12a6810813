-- ===== src/Workers.antt =====
-- packages/worker-pool/src/WorkerPool.ts and types.ts: tasks are given to idle workers or queued, and a worker
-- that fails, exits or runs out of time is replaced. Each callback is a step on the pool's state; what it
-- does to promises, threads and listeners is a list of effects. A promise and its timer are known by the task.
-- Payloads and results are values of one type, the source's `unknown`.
pub mod Tracking
pub mod Searching
pub mod Replacing
pub mod Invariant
pub mod Steps
pub mod Runs
pub mod Settling
pub mod Wedged
mod Tests
use distributive_cache.Base.{
  ℕ, zero, suc, ◌+◌, max, ltb, ◌==◌, Bool, true, false, not, ◌||◌, ◌&&◌, Option, none, some, List,
  [], ◌∷◌, ◌++◌, map, if◌then◌else◌, ite, length, select, text_keyed, Text, Text-discrete, is_some,
}
use distributive_cache.Base.Dict
use distributive_cache.Base.Dict.{Dict}
use distributive_cache.Shared.Errors.{codes}

abbrev pub TaskId : Type 0
TaskId = Text

-- `PendingTask`; `has_timer` says that `timeoutHandle` is not null.
pub record PendingTask (V : Type 0) : Type 0 where
  pub task_id : TaskId
  pub kind : Text
  pub payload : V
  pub has_timer : Bool

-- `ManagedWorker`; the thread is known by the worker's id.
pub record ManagedWorker : Type 0 where
  pub id : ℕ
  pub busy : Bool
  pub current_task_id : Option TaskId

pub record WorkerPool (V : Type 0) : Type 0 where
  pub size : ℕ
  pub default_timeout_ms : ℕ
  pub workers : List ManagedWorker
  pub queue : List (PendingTask V)
  pub pending_by_task_id : Dict TaskId (PendingTask V)
  pub next_worker_id : ℕ
  pub disposed : Bool

pub record WorkerPoolStats : Type 0 where
  pub pool_size : ℕ
  pub busy_workers : ℕ
  pub queued_tasks : ℕ
  pub in_flight_tasks : ℕ

pub data TaskResult (V : Type 0) : Type 0 where
  success : TaskId → V → TaskResult V
  failure : TaskId → Text → TaskResult V

abbrev pub result_task_id : {V : Type 0} → TaskResult V → TaskId
result_task_id (success id r) = id
result_task_id (failure id m) = id

pub data Effect (V : Type 0) : Type 0 where
  posts : ℕ → PendingTask V → Effect V
  resolves : TaskId → V → Effect V
  rejects : TaskId → Text → Effect V
  spawns terminates : ℕ → Effect V
  emits_completed : TaskResult V → Effect V
  emits_error : ℕ → Text → Effect V
  emits_exit : ℕ → ℕ → Effect V

-- Writes to the fields of a worker.
unfoldable pub update_worker : ℕ → Bool → Option TaskId → List ManagedWorker → List ManagedWorker
update_worker w busy task [] = []
update_worker w busy task (x ∷ xs) =
    (if x.id == w then record x { busy = busy; current_task_id = task } else x)
    ∷ update_worker w busy task xs

unfoldable pub find_worker : ℕ → List ManagedWorker → Option ManagedWorker
find_worker w [] = none
find_worker w (x ∷ xs) = let rest = find_worker w xs in if x.id == w then some x else rest

-- `this.workers.find((w) => !w.busy)`
unfoldable pub find_idle : List ManagedWorker → Option ManagedWorker
find_idle [] = none
find_idle (x ∷ xs) = let rest = find_idle xs in if x.busy then rest else some x

abbrev pub runs : TaskId → ManagedWorker → Bool
runs id x = elim x.current_task_id [ none ↦ false | some j ↦ ite (Text-discrete j id) true false ]

-- `this.workers.find((w) => w.currentTaskId === pending.taskId)`
unfoldable pub find_running : TaskId → List ManagedWorker → Option ManagedWorker
find_running id [] = none
find_running id (x ∷ xs) = let rest = find_running id xs in if runs id x then some x else rest

abbrev pub is_busy : Option ManagedWorker → Bool
is_busy none = true
is_busy (some x) = x.busy

abbrev pub Outcome : Type 0 → Type 0
Outcome V = WorkerPool V × List (Effect V)

abbrev pub is_not : ℕ → ManagedWorker → Bool
is_not w x = not (x.id == w)

module _ {V : Type 0} where
  -- The worker that `spawnWorker` returns is the one of the id that was next.
  unfoldable pub spawn_worker : WorkerPool V → Outcome V
  spawn_worker p = (
    record p {
      workers =
          p.workers
          ++ (record { id = p.next_worker_id; busy = false; current_task_id = none } ∷ []);
      next_worker_id = p.next_worker_id + 1;
    },
    spawns p.next_worker_id ∷ [],
  )

  unfoldable pub dispatch : ℕ → PendingTask V → WorkerPool V → Outcome V
  unfolding update_worker
  dispatch w t p =
      (record p { workers = update_worker w true (some t.task_id) p.workers }, posts w t ∷ [])

  unfoldable pub drain_queue_to : ℕ → WorkerPool V → Outcome V
  drain_queue_to w p =
      if is_busy (find_worker w p.workers) || p.disposed
      then (p, [])
      else elim p.queue [ [] ↦ (p, []) | t ∷ ts ↦ dispatch w t (record p { queue = ts }) ]

  unfoldable pub replace_worker : ℕ → WorkerPool V → Outcome V
  replace_worker w p =
      let p' = record p { workers = select (is_not w) p.workers } in
      if p'.disposed
      then (p', terminates w ∷ [])
      else (let s = spawn_worker p' in
          let d = drain_queue_to p'.next_worker_id s.0 in (d.0, terminates w ∷ (s.1 ++ d.1)))

  -- The body of the promise in `submitTask`; `id` comes from `generateId`.
  unfoldable pub enqueue : PendingTask V → WorkerPool V → Outcome V
  enqueue t p =
      let p' = record p { pending_by_task_id = Dict.set t.task_id t p.pending_by_task_id } in
      elim (find_idle p'.workers) [
        | some x ↦ dispatch x.id t p'
        | none ↦ (record p' { queue = p'.queue ++ (t ∷ []) }, [])
      ]

  unfoldable pub submit_task : TaskId → Text → V → Option ℕ → WorkerPool V → Outcome V
  submit_task id kind payload timeout_ms p =
      let effective : ℕ = elim timeout_ms [ none ↦ p.default_timeout_ms | some ms ↦ ms ] in
      if p.disposed
      then (p, rejects id (codes "Cannot submit a task: WorkerPool has already been disposed") ∷ [])
      else enqueue
          (record { task_id = id; kind = kind; payload = payload; has_timer = ltb 0 effective }) p

  -- `pendingByTaskId.delete`, which also ends the task's timer.
  abbrev pub forget : TaskId → WorkerPool V → WorkerPool V
  forget id p = record p { pending_by_task_id = Dict.delete id p.pending_by_task_id }

  abbrev pub settlement : PendingTask V → TaskResult V → Effect V
  settlement t (success id r) = resolves id r
  settlement t (failure id m) =
      rejects id (codes "Worker task \"" ++ (t.kind ++ (codes "\" failed: " ++ m)))

  unfoldable pub handle_worker_message : ℕ → TaskResult V → WorkerPool V → Outcome V
  handle_worker_message w m p =
      let freed = record p { workers = update_worker w false none p.workers } in
      elim (Dict.get (result_task_id m) p.pending_by_task_id) [
        | none ↦ drain_queue_to w freed
        | some t ↦
            let d = drain_queue_to w (forget (result_task_id m) freed) in
            (d.0, settlement t m ∷ emits_completed m ∷ d.1)
      ]

  unfoldable pub handle_timeout : PendingTask V → WorkerPool V → Outcome V
  handle_timeout t p = elim (Dict.has t.task_id p.pending_by_task_id) [
    | false ↦ (p, [])
    | true ↦
        let p' = forget t.task_id p in
        let rejection =
          rejects t.task_id
            (codes "Task \"" ++ (t.kind ++ (codes "\" (" ++ (t.task_id ++ codes ") timed out")))) in
        elim (find_running t.task_id p'.workers) [
          | none ↦ (p', rejection ∷ [])
          | some x ↦ let r = replace_worker x.id p' in (r.0, rejection ∷ r.1)
        ]
  ]

  -- A task that a failed worker was running is rejected with a message.
  unfoldable pub reject_current : Option TaskId → (PendingTask V → Text) → WorkerPool V → Outcome V
  reject_current none f p = (p, [])
  reject_current (some id) f p = elim (Dict.get id p.pending_by_task_id) [
    | none ↦ (p, [])
    | some t ↦ (forget id p, rejects id (f t) ∷ [])
  ]

  unfoldable pub handle_worker_error : ManagedWorker → Text → WorkerPool V → Outcome V
  handle_worker_error x e p =
      let failed = reject_current x.current_task_id (λ t. e) p in
      let r = replace_worker x.id failed.0 in (r.0, emits_error x.id e ∷ (failed.1 ++ r.1))

  -- `printed` is the text of the exit code.
  unfoldable pub handle_worker_exit : ManagedWorker → ℕ → Text → WorkerPool V → Outcome V
  handle_worker_exit x code printed p =
      if p.disposed || (not (is_some (find_worker x.id p.workers)) || code == 0)
      then (p, emits_exit x.id code ∷ [])
      else (let reason : PendingTask V → Text = λ t.
            codes "Worker exited unexpectedly (code "
            ++ (printed ++ (codes ") while running task \"" ++ (t.kind ++ codes "\""))) in
          let failed = reject_current x.current_task_id reason p in
          let r = replace_worker x.id failed.0 in (r.0, emits_exit x.id code ∷ (failed.1 ++ r.1)))

  unfoldable pub reject_all : List (PendingTask V) → List (Effect V)
  reject_all [] = []
  reject_all (t ∷ ts) =
      rejects t.task_id (codes "WorkerPool was disposed before this task completed") ∷ reject_all ts

  unfoldable pub terminate_all : List ManagedWorker → List (Effect V)
  terminate_all [] = []
  terminate_all (x ∷ xs) = terminates x.id ∷ terminate_all xs

  unfoldable pub dispose : WorkerPool V → Outcome V
  unfolding reject_all terminate_all
  dispose p = (
    record p { disposed = true; queue = []; pending_by_task_id = []; workers = [] },
    reject_all (p.queue ++ Dict.values p.pending_by_task_id) ++ terminate_all p.workers,
  )

  unfoldable pub get_stats : WorkerPool V → WorkerPoolStats
  get_stats p = record {
    pool_size = length p.workers;
    busy_workers = length (select (λ x. x.busy) p.workers);
    queued_tasks = length p.queue;
    in_flight_tasks = length p.pending_by_task_id;
  }

  -- The loop of the constructor.
  unfoldable pub spawn_all : ℕ → WorkerPool V → Outcome V
  spawn_all zero p = (p, [])
  spawn_all (suc n) p =
      let s = spawn_worker p in let rest = spawn_all n s.0 in (rest.0, s.1 ++ rest.1)

  unfoldable pub new_pool : ℕ → ℕ → Outcome V
  new_pool size timeout_ms = spawn_all (max 1 size) (record {
    size = max 1 size;
    default_timeout_ms = timeout_ms;
    workers = [];
    queue = [];
    pending_by_task_id = [];
    next_worker_id = 0;
    disposed = false;
  })
