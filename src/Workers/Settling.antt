-- ===== src/Workers/Settling.antt =====
-- How often the promise of a task is settled.
use distributive_cache.Base.{
  ℕ, ◌+◌, ◌≤◌, ◌≡◌, ◌≢◌, inl, inr, Bool, true, false, ◌||◌, not, Option, none, some, List, [], ◌∷◌,
  ◌++◌, arith, ◌==◌, if◌then◌else◌, is_some, Bool-cases, Option-cases, Text, Text-discrete,
  text_keyed, ite, ap, sym, subst,
}
use distributive_cache.Base.Dict
use distributive_cache.Workers.{
  TaskId, PendingTask, ManagedWorker, WorkerPool, Effect, posts, resolves, rejects, spawns,
  terminates, emits_completed, emits_error, emits_exit, Outcome, find_worker, find_running,
  spawn_worker, dispatch, drain_queue_to, replace_worker, enqueue, forget, handle_worker_message,
  handle_timeout, reject_current, handle_worker_error, handle_worker_exit, TaskResult, success,
  failure, result_task_id, submit_task, settlement, update_worker,
}
use distributive_cache.Workers.Replacing.{replaced}
use distributive_cache.Workers.Runs.{
  Step, submits, answers, expires, fails, exits, Reach, here, next,
}

-- Calls that settle the promise of the task `id`.
abbrev pub settlements : {V : Type 0} → TaskId → List (Effect V) → ℕ
settlements id [] = 0
settlements id (resolves j v ∷ fs) = ite (Text-discrete j id) 1 0 + settlements id fs
settlements id (rejects j m ∷ fs) = ite (Text-discrete j id) 1 0 + settlements id fs
settlements id (posts w t ∷ fs) = settlements id fs
settlements id (spawns w ∷ fs) = settlements id fs
settlements id (terminates w ∷ fs) = settlements id fs
settlements id (emits_completed m ∷ fs) = settlements id fs
settlements id (emits_error w e ∷ fs) = settlements id fs
settlements id (emits_exit w c ∷ fs) = settlements id fs

abbrev pub pending : {V : Type 0} → TaskId → WorkerPool V → ℕ
pending id p = if Dict.has id p.pending_by_task_id then 1 else 0

-- The step does not submit a task under the id again.
abbrev pub Spares : {V : Type 0} → TaskId → (p : WorkerPool V) → (r : Outcome V) → Step p r → Type 0
Spares id p r (submits j kind payload timeout_ms e) = j ≢ id
Spares id p r (answers x m held running e) = Unit
Spares id p r (expires t e) = Unit
Spares id p r (fails x text held e) = Unit
Spares id p r (exits x code printed held e) = Unit

-- No step does.
abbrev pub SparesAll :
    {V : Type 0}
    → TaskId
    → (p : WorkerPool V) {fs : List (Effect V)} {q : WorkerPool V} → Reach p fs q
    → Type 0
SparesAll id p here = Unit
SparesAll id p (next {q = q} r before step e same) = SparesAll id p before × Spares id q r step

module _ {V : Type 0} (id : TaskId) where
  settlements-append :
      (fs gs : List (Effect V)) → settlements id (fs ++ gs) ≡ settlements id fs + settlements id gs
  settlements-append [] gs = omega arith
  settlements-append (resolves j v ∷ fs) gs = omega (arith, settlements-append fs gs)
  settlements-append (rejects j m ∷ fs) gs = omega (arith, settlements-append fs gs)
  settlements-append (posts w t ∷ fs) gs = settlements-append fs gs
  settlements-append (spawns w ∷ fs) gs = settlements-append fs gs
  settlements-append (terminates w ∷ fs) gs = settlements-append fs gs
  settlements-append (emits_completed m ∷ fs) gs = settlements-append fs gs
  settlements-append (emits_error w e ∷ fs) gs = settlements-append fs gs
  settlements-append (emits_exit w c ∷ fs) gs = settlements-append fs gs

  -- Settled calls and what is pending after a step are no more than what was pending.
  Settles : WorkerPool V → Outcome V → Type 0
  Settles p r = settlements id r.1 + pending id r.0 ≤ pending id p

  pending_of :
      (p q : WorkerPool V)
      → p.pending_by_task_id ≡ q.pending_by_task_id
      → pending id p ≡ pending id q
  pending_of p q e = ground arith

  drain-pending :
      (w : ℕ) (p : WorkerPool V)
      → (settlements id (drain_queue_to w p).1 ≡ 0)
        × ((drain_queue_to w p).0.pending_by_task_id ≡ p.pending_by_task_id)
  unfolding drain_queue_to dispatch
  drain-pending w p = ground arith

  replace-pending :
      (w : ℕ) (p : WorkerPool V)
      → (settlements id (replace_worker w p).1 ≡ 0)
        × ((replace_worker w p).0.pending_by_task_id ≡ p.pending_by_task_id)
  unfolding replace_worker spawn_worker
  replace-pending w p = ground (arith, drain-pending p.next_worker_id (replaced w p))

  if-Settles :
      (b : Bool) (p : WorkerPool V) (x y : Outcome V)
      → Settles p x
      → Settles p y
      → Settles p (if b then x else y)
  if-Settles true p x y h k = h
  if-Settles false p x y h k = k

  enqueue-Settles :
      (t : PendingTask V) (p : WorkerPool V) → t.task_id ≢ id → Settles p (enqueue t p)
  unfolding Settles enqueue dispatch
  enqueue-Settles t p n = ground (arith, Dict.get-set t.task_id id t p.pending_by_task_id)

  submit-Settles :
      (j : TaskId) (kind : Text) (payload : V) (timeout_ms : Option ℕ) (p : WorkerPool V)
      → j ≢ id
      → Settles p (submit_task j kind payload timeout_ms p)
  unfolding Settles submit_task
  submit-Settles j kind payload timeout_ms p n =
      if-Settles p.disposed p _ _ (ground arith) (enqueue-Settles _ p n)

  settlement-pending :
      (t : PendingTask V) (m : TaskResult V) (gs : List (Effect V)) (p : WorkerPool V)
      → Dict.get (result_task_id m) p.pending_by_task_id ≡ some t
      → settlements id (settlement t m ∷ emits_completed m ∷ gs)
          + pending id (forget (result_task_id m) p)
        ≡ pending id p + settlements id gs
  settlement-pending t (success j v) gs p h =
      ground (arith, Dict.get-delete j id p.pending_by_task_id)
  settlement-pending t (failure j e) gs p h =
      ground (arith, Dict.get-delete j id p.pending_by_task_id)

  message-Settles :
      (w : ℕ) (m : TaskResult V) (p : WorkerPool V) → Settles p (handle_worker_message w m p)
  unfolding Settles handle_worker_message
  message-Settles w m p = elim (Option-cases (Dict.get (result_task_id m) p.pending_by_task_id)) [
    | inl e ↦
        rw (e, handle_worker_message)
          (ground
            (arith, drain-pending w (record p { workers = update_worker w false none p.workers })))
    | inr (t, e) ↦
        let freed = record p { workers = update_worker w false none p.workers } in
        let d = drain_queue_to w (forget (result_task_id m) freed) in
        let (quiet, same) = drain-pending w (forget (result_task_id m) freed) in
        rw (e, handle_worker_message)
          (omega (
            arith,
            settlement-pending t m d.1 freed e,
            quiet,
            pending_of d.0 (forget (result_task_id m) freed) same,
          ))
  ]

  timeout-Settles : (t : PendingTask V) (p : WorkerPool V) → Settles p (handle_timeout t p)
  unfolding Settles handle_timeout
  timeout-Settles t p = elim (Bool-cases (Dict.has t.task_id p.pending_by_task_id)) [
    | inr e ↦ rw (e, handle_timeout) (omega arith)
    | inl e ↦ elim (Option-cases (find_running t.task_id p.workers)) [
      | inl f ↦
          rw (e, f, handle_timeout)
            (ground (arith, Dict.get-delete t.task_id id p.pending_by_task_id))
      | inr (x, f) ↦
          rw (e, f, handle_timeout)
            (ground (
              arith,
              replace-pending x.id (forget t.task_id p),
              Dict.get-delete t.task_id id p.pending_by_task_id,
            ))
    ]
  ]

  reject-Settles :
      (c : Option TaskId) (f : PendingTask V → Text) (p : WorkerPool V)
      → Settles p (reject_current c f p)
  unfolding Settles reject_current
  reject-Settles none f p = omega arith
  reject-Settles (some j) f p = ground (arith, Dict.get-delete j id p.pending_by_task_id)

  failed-Settles :
      (x : ManagedWorker) (f : PendingTask V → Text) (p : WorkerPool V)
      → let failed = reject_current x.current_task_id f p in
        let r = replace_worker x.id failed.0 in Settles p (r.0, failed.1 ++ r.1)
  unfolding Settles
  failed-Settles x f p =
      let failed : Outcome V = reject_current x.current_task_id f p in
      let (none_more, same) = replace-pending x.id failed.0 in
      let before : Settles p failed = reject-Settles x.current_task_id f p in
      rw (settlements-append failed.1 (replace_worker x.id failed.0).1, none_more)
        (omega (arith, before, pending_of (replace_worker x.id failed.0).0 failed.0 same))

  exit-Settles :
      (x : ManagedWorker) (code : ℕ) (printed : Text) (p : WorkerPool V)
      → Settles p (handle_worker_exit x code printed p)
  unfolding Settles handle_worker_exit
  exit-Settles x code printed p =
      if-Settles (p.disposed || (not (is_some (find_worker x.id p.workers)) || code == 0)) p _ _
        (omega arith) (failed-Settles x _ p)

  error-Settles :
      (x : ManagedWorker) (e : Text) (p : WorkerPool V) → Settles p (handle_worker_error x e p)
  unfolding Settles handle_worker_error
  error-Settles x e p = failed-Settles x (λ t. e) p

  Step-Settles : (p : WorkerPool V) (r : Outcome V) (st : Step p r) → Spares id p r st → Settles p r
  Step-Settles p r (submits j kind payload timeout_ms e) s =
      subst (Settles p) (sym e) (submit-Settles j kind payload timeout_ms p s)
  Step-Settles p r (answers x m held running e) s =
      subst (Settles p) (sym e) (message-Settles x.id m p)
  Step-Settles p r (expires t e) s = subst (Settles p) (sym e) (timeout-Settles t p)
  Step-Settles p r (fails x text held e) s = subst (Settles p) (sym e) (error-Settles x text p)
  Step-Settles p r (exits x code printed held e) s =
      subst (Settles p) (sym e) (exit-Settles x code printed p)

  -- Whatever the order of answers, timers, failures and exits, and of submissions under other ids, the promise of
  -- a task is settled at most once if the task is pending, and never if it is not.
  pub reach-settlements :
      (p : WorkerPool V) {fs : List (Effect V)} {q : WorkerPool V} (run : Reach p fs q)
      → SparesAll id p run
      → settlements id fs + pending id q ≤ pending id p
  unfolding Settles
  reach-settlements p here s = omega arith
  reach-settlements p (next {fs} {q = q} {q' = q'} r before step e same) s =
      let now : Settles q r = Step-Settles q r step s.1 in
      omega (
        arith,
        reach-settlements p before s.0,
        now,
        ap {B = ℕ} (settlements id) e,
        settlements-append fs r.1,
        ap {B = ℕ} (pending id) same,
      )
