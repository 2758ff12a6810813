-- ===== src/Workers/Steps.antt =====
-- Every callback keeps the invariant of the pool.
use distributive_cache.Base.{
  ℕ, ◌≡◌, refl, ◌≢◌, inl, inr, true, false, Option, none, some, List, [], ◌∷◌, ◌++◌, arith, ◌==◌,
  is_some, Bool-cases, Option-cases, All, All-map, Text, Text-discrete, text_keyed, ap, sym, ◌∙◌,
}
use distributive_cache.Base.Dict
use distributive_cache.Workers.{
  TaskId, PendingTask, ManagedWorker, WorkerPool, find_worker, find_idle, find_running, runs,
  replace_worker, enqueue, forget, handle_worker_message, handle_timeout, reject_current,
  handle_worker_error, handle_worker_exit, TaskResult, result_task_id, submit_task,
}
use distributive_cache.Workers.Tracking.{
  IsBusy, IsBusyBut, IsMarked, IsBelow, IsUnique, any_runs, any_runs_but, fresh,
}
use distributive_cache.Workers.Tracking
use distributive_cache.Workers.Searching
use distributive_cache.Workers.Invariant.{
  in_queue, IsValid, IsOpen, drain-IsValid, dispatch-IsValid,
}
use distributive_cache.Workers.Replacing.{IsSettled, forget-IsValid, free-IsReady, replace-IsValid}

module _ {V : Type 0} where
  -- The task is entered as pending.
  abbrev noted : PendingTask V → WorkerPool V → WorkerPool V
  noted t p = record p { pending_by_task_id = Dict.set t.task_id t p.pending_by_task_id }

  noted_before :
      (t : PendingTask V) (p : WorkerPool V) (id : TaskId)
      → t.task_id ≢ id
      → Dict.has id (noted t p).pending_by_task_id ≡ true
      → Dict.has id p.pending_by_task_id ≡ true
  noted_before t p id n h =
      sym (ap is_some (Dict.get-set_ne t.task_id id t p.pending_by_task_id n)) ∙ h

  in_queue-append :
      (id : TaskId) (q : List (PendingTask V)) (t : PendingTask V)
      → in_queue id q ≡ true
      → in_queue id (q ++ (t ∷ [])) ≡ true
  in_queue-append id [] t h = cc
  in_queue-append id (x ∷ xs) t h = ground (arith, in_queue-append id xs t)

  in_queue_last :
      (q : List (PendingTask V)) (t : PendingTask V) → in_queue t.task_id (q ++ (t ∷ [])) ≡ true
  in_queue_last [] t = ground arith
  in_queue_last (x ∷ xs) t = ground (arith, in_queue_last xs t)

  queued-IsValid :
      (t : PendingTask V) (p : WorkerPool V)
      → IsValid p
      → All IsBusy p.workers
      → IsValid (record (noted t p) { queue = p.queue ++ (t ∷ []) })
  queued-IsValid t p v busy = record {
    active = v.active;
    sized = v.sized;
    below = v.below;
    unique = v.unique;
    marked = v.marked;
    conserving = inr busy;
    kept = λ id h. elim (Text-discrete t.task_id id) [
      | yes e ↦ inl (rw (← e) (in_queue_last p.queue t))
      | no n ↦ elim (v.kept id (noted_before t p id n h)) [
        | inl q ↦ inl (in_queue-append id p.queue t q)
        | inr r ↦ inr r
      ]
    ];
  }

  noted-IsOpen :
      (t : PendingTask V) (x : ManagedWorker) (p : WorkerPool V)
      → IsValid p
      → find_worker x.id p.workers ≡ some x
      → x.busy ≡ false
      → IsOpen x.id t (noted t p)
  noted-IsOpen t x p v held idle =
      let mark = Searching.find-IsMarked x.id p.workers x v.marked held in
      record {
        active = v.active;
        sized = v.sized;
        below = v.below;
        unique = v.unique;
        marked = v.marked;
        held = (x, held);
        conserving = elim v.conserving [
          | inl e ↦ inl e
          | inr a ↦ inr (All-map IsBusy (IsBusyBut x.id) p.workers (λ y b. inr b) a)
        ];
        kept = λ id h. elim (Text-discrete t.task_id id) [
          | yes e ↦ inr (inr (sym e))
          | no n ↦ elim (v.kept id (noted_before t p id n h)) [
            | inl q ↦ inl q
            | inr r ↦ elim (Tracking.any_runs_cases x.id id p.workers x v.unique held r) [
              | inl own ↦ absurd (cc (Searching.idle_runs_nothing x id mark idle))
              | inr others ↦ inr (inl others)
            ]
          ]
        ];
      }

  enqueue-IsValid : (t : PendingTask V) (p : WorkerPool V) → IsValid p → IsValid (enqueue t p).0
  unfolding enqueue
  enqueue-IsValid t p v = elim (Option-cases (find_idle p.workers)) [
    | inl f ↦ rw (f, enqueue) (queued-IsValid t p v (Searching.find_idle-none p.workers f))
    | inr (x, f) ↦
        let (held, idle) = Searching.find_idle-some x p.workers v.unique f in
        rw (f, enqueue) (dispatch-IsValid x.id t (noted t p) (noted-IsOpen t x p v held idle))
  ]

  pub submit-IsValid :
      (id : TaskId) (kind : Text) (payload : V) (timeout_ms : Option ℕ) (p : WorkerPool V)
      → IsValid p
      → IsValid (submit_task id kind payload timeout_ms p).0
  unfolding submit_task
  submit-IsValid id kind payload timeout_ms p v =
      simp (v.active, submit_task) (enqueue-IsValid _ p v)

  forgotten-IsSettled :
      (x : ManagedWorker) (id : TaskId) (p : WorkerPool V)
      → runs id x ≡ true
      → IsSettled x (forget id p)
  forgotten-IsSettled x id p h j r =
      rw (Searching.runs_same x j id r h)
        (ap is_some (Dict.get-delete_self id p.pending_by_task_id))

  -- The message is about the task that the worker runs.
  pub message-IsValid :
      (w : ℕ) (x : ManagedWorker) (m : TaskResult V) (p : WorkerPool V)
      → IsValid p
      → find_worker w p.workers ≡ some x
      → runs (result_task_id m) x ≡ true
      → IsValid (handle_worker_message w m p).0
  unfolding handle_worker_message
  message-IsValid w x m p v held running =
      let id = result_task_id m in
      elim (Option-cases (Dict.get id p.pending_by_task_id)) [
        | inl e ↦
            rw (e, handle_worker_message)
              (drain-IsValid w _ (
                free-IsReady w x p v held
                  (λ j r. rw (Searching.runs_same x j id r running) (ap is_some e))))
        | inr (t, e) ↦
            rw (e, handle_worker_message)
              (drain-IsValid w _ (
                free-IsReady w x (forget id p) (forget-IsValid id p v) held
                  (forgotten-IsSettled x id p running)))
      ]

  pub timeout-IsValid :
      (t : PendingTask V) (p : WorkerPool V) → IsValid p → IsValid (handle_timeout t p).0
  unfolding handle_timeout
  timeout-IsValid t p v =
      let v' = forget-IsValid t.task_id p v in
      elim (Bool-cases (Dict.has t.task_id p.pending_by_task_id)) [
        | inr e ↦ rw (e, handle_timeout) v
        | inl e ↦ elim (Option-cases (find_running t.task_id p.workers)) [
          | inl f ↦ rw (e, f, handle_timeout) v'
          | inr (x, f) ↦
              let (held, running) = Searching.find_running-some t.task_id x p.workers v.unique f in
              rw (e, f, handle_timeout)
                (replace-IsValid x.id x (forget t.task_id p) v' held
                  (forgotten-IsSettled x t.task_id p running))
        ]
      ]

  reject-IsValid :
      (c : Option TaskId) (f : PendingTask V → Text) (p : WorkerPool V)
      → IsValid p
      → IsValid (reject_current c f p).0
  unfolding reject_current
  reject-IsValid none f p v = v
  reject-IsValid (some id) f p v = elim (Option-cases (Dict.get id p.pending_by_task_id)) [
    | inl e ↦ rw (e, reject_current) v
    | inr (t, e) ↦ rw (e, reject_current) (forget-IsValid id p v)
  ]

  reject-workers :
      (c : Option TaskId) (f : PendingTask V → Text) (p : WorkerPool V)
      → (reject_current c f p).0.workers ≡ p.workers
  unfolding reject_current
  reject-workers none f p = refl
  reject-workers (some id) f p = ground arith

  rejected_settled :
      (c : Option TaskId) (f : PendingTask V → Text) (p : WorkerPool V) (id : TaskId)
      → c ≡ some id
      → Dict.has id (reject_current c f p).0.pending_by_task_id ≡ false
  unfolding reject_current
  rejected_settled none f p id h = cc
  rejected_settled (some j) f p id h = ground (arith, Dict.get-delete_self id p.pending_by_task_id)

  -- A worker whose task was rejected is replaced.
  pub failed-IsValid :
      (x : ManagedWorker) (f : PendingTask V → Text) (p : WorkerPool V)
      → IsValid p
      → find_worker x.id p.workers ≡ some x
      → IsValid (replace_worker x.id (reject_current x.current_task_id f p).0).0
  failed-IsValid x f p v held =
      replace-IsValid x.id x _ (reject-IsValid x.current_task_id f p v)
        (ap (find_worker x.id) (reject-workers x.current_task_id f p) ∙ held)
        (λ id r. rejected_settled x.current_task_id f p id (Searching.runs_current x id r))

  pub error-IsValid :
      (x : ManagedWorker) (e : Text) (p : WorkerPool V)
      → IsValid p
      → find_worker x.id p.workers ≡ some x
      → IsValid (handle_worker_error x e p).0
  unfolding handle_worker_error
  error-IsValid x e p v held = failed-IsValid x (λ t. e) p v held

  pub exit-IsValid :
      (x : ManagedWorker) (code : ℕ) (printed : Text) (p : WorkerPool V)
      → IsValid p
      → find_worker x.id p.workers ≡ some x
      → IsValid (handle_worker_exit x code printed p).0
  unfolding handle_worker_exit
  exit-IsValid x code printed p v held = elim (Bool-cases (code == 0)) [
    | inl e ↦ simp (e, held, v.active, handle_worker_exit) v
    | inr e ↦ simp (e, held, v.active, handle_worker_exit) (failed-IsValid x _ p v held)
  ]
