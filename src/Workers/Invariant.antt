-- ===== src/Workers/Invariant.antt =====
-- What holds of a pool between two callbacks.
use distributive_cache.Base.{
  ℕ, ◌≡◌, refl, ◌⊎◌, inl, inr, Bool, true, false, some, List, [], ◌∷◌, arith, length, All,
  Text-discrete, text_keyed, ite, sym, ◌∙◌, subst,
}
use distributive_cache.Base.Dict
use distributive_cache.Workers.{
  TaskId, PendingTask, ManagedWorker, WorkerPool, update_worker, find_worker, dispatch,
  drain_queue_to,
}
use distributive_cache.Workers.Tracking.{
  IsBusy, IsBusyBut, IsMarked, IsBelow, IsUnique, any_runs, any_runs_but, fresh,
}
use distributive_cache.Workers.Tracking

abbrev pub in_queue : {V : Type 0} → TaskId → List (PendingTask V) → Bool
in_queue id [] = false
in_queue id (t ∷ ts) = ite (Text-discrete t.task_id id) true (in_queue id ts)

-- A pool in use: it has its full number of workers, nothing waits while a worker is idle, and every task that
-- is not settled waits or runs.
pub record IsValid {V : Type 0} (p : WorkerPool V) : Type 0 where
  pub active : p.disposed ≡ false
  pub sized : length p.workers ≡ p.size
  pub below : All (IsBelow p.next_worker_id) p.workers
  pub unique : IsUnique p.workers
  pub marked : All IsMarked p.workers
  pub conserving : (p.queue ≡ []) ⊎ All IsBusy p.workers
  pub kept :
      (id : TaskId)
      → Dict.has id p.pending_by_task_id ≡ true
      → (in_queue id p.queue ≡ true) ⊎ (any_runs id p.workers ≡ true)

-- The same with `w` idle: tasks may wait until it has been given one.
pub record IsReady {V : Type 0} (w : ℕ) (p : WorkerPool V) : Type 0 where
  pub active : p.disposed ≡ false
  pub sized : length p.workers ≡ p.size
  pub below : All (IsBelow p.next_worker_id) p.workers
  pub unique : IsUnique p.workers
  pub marked : All IsMarked p.workers
  pub idle : find_worker w p.workers ≡ some (fresh w)
  pub conserving : (p.queue ≡ []) ⊎ All (IsBusyBut w) p.workers
  pub kept :
      (id : TaskId)
      → Dict.has id p.pending_by_task_id ≡ true
      → (in_queue id p.queue ≡ true) ⊎ (any_runs_but w id p.workers ≡ true)

-- The same with the task `t` about to be given to `w`.
pub record IsOpen {V : Type 0} (w : ℕ) (t : PendingTask V) (p : WorkerPool V) : Type 0 where
  pub active : p.disposed ≡ false
  pub sized : length p.workers ≡ p.size
  pub below : All (IsBelow p.next_worker_id) p.workers
  pub unique : IsUnique p.workers
  pub marked : All IsMarked p.workers
  pub held : (x : ManagedWorker) × (find_worker w p.workers ≡ some x)
  pub conserving : (p.queue ≡ []) ⊎ All (IsBusyBut w) p.workers
  pub kept :
      (id : TaskId)
      → Dict.has id p.pending_by_task_id ≡ true
      → (in_queue id p.queue ≡ true) ⊎ (any_runs_but w id p.workers ≡ true) ⊎ (id ≡ t.task_id)

module _ {V : Type 0} where
  dispatch-kept :
      (w : ℕ) (t : PendingTask V) (q : List (PendingTask V)) (ws : List ManagedWorker)
      (x : ManagedWorker) (id : TaskId)
      → find_worker w ws ≡ some x
      → (in_queue id q ≡ true) ⊎ (any_runs_but w id ws ≡ true) ⊎ (id ≡ t.task_id)
      → (in_queue id q ≡ true) ⊎ (any_runs id (update_worker w true (some t.task_id) ws) ≡ true)
  dispatch-kept w t q ws x id held (inl h) = inl h
  dispatch-kept w t q ws x id held (inr (inl h)) =
      inr (
        Tracking.any_runs_of_but w id _
          (Tracking.runs_but-update w true (some t.task_id) id ws ∙ h))
  dispatch-kept w t q ws x id held (inr (inr h)) =
      inr (rw h (Tracking.runs-update w t.task_id ws x held))

  dispatch-conserving :
      (w : ℕ) (t : PendingTask V) (q : List (PendingTask V)) (ws : List ManagedWorker)
      → (q ≡ []) ⊎ All (IsBusyBut w) ws
      → (q ≡ []) ⊎ All IsBusy (update_worker w true (some t.task_id) ws)
  dispatch-conserving w t q ws (inl e) = inl e
  dispatch-conserving w t q ws (inr a) = inr (Tracking.update-IsBusy w t.task_id ws a)

  pub dispatch-IsValid :
      (w : ℕ) (t : PendingTask V) (p : WorkerPool V) → IsOpen w t p → IsValid (dispatch w t p).0
  unfolding dispatch
  dispatch-IsValid w t p v = record {
    active = v.active;
    sized = Tracking.length-update w true (some t.task_id) p.workers ∙ v.sized;
    below = Tracking.update-IsBelow w true (some t.task_id) p.next_worker_id p.workers v.below;
    unique = Tracking.update-IsUnique w true (some t.task_id) p.workers v.unique;
    marked = Tracking.update-IsMarked w true (some t.task_id) p.workers refl v.marked;
    conserving = dispatch-conserving w t p.queue p.workers v.conserving;
    kept = λ id h. dispatch-kept w t p.queue p.workers v.held.0 id v.held.1 (v.kept id h);
  }

  kept_weaken :
      (w : ℕ) (q : List (PendingTask V)) (ws : List ManagedWorker) (id : TaskId)
      → (in_queue id q ≡ true) ⊎ (any_runs_but w id ws ≡ true)
      → (in_queue id q ≡ true) ⊎ (any_runs id ws ≡ true)
  kept_weaken w q ws id (inl h) = inl h
  kept_weaken w q ws id (inr h) = inr (Tracking.any_runs_of_but w id ws h)

  kept_head :
      (w : ℕ) (t : PendingTask V) (ts : List (PendingTask V)) (ws : List ManagedWorker)
      (id : TaskId)
      → (in_queue id (t ∷ ts) ≡ true) ⊎ (any_runs_but w id ws ≡ true)
      → (in_queue id ts ≡ true) ⊎ (any_runs_but w id ws ≡ true) ⊎ (id ≡ t.task_id)
  kept_head w t ts ws id (inr h) = inr (inl h)
  kept_head w t ts ws id (inl h) = elim (Text-discrete t.task_id id) [
    | yes e ↦ inr (inr (sym e))
    | no n ↦ inl (ground arith)
  ]

  drain_cases :
      (w : ℕ) (p : WorkerPool V) (q : List (PendingTask V))
      → p.queue ≡ q
      → IsReady w p
      → IsValid (drain_queue_to w p).0
  unfolding drain_queue_to
  drain_cases w p [] e v =
      rw (v.idle, v.active, e, drain_queue_to)
        (record {
          active = v.active;
          sized = v.sized;
          below = v.below;
          unique = v.unique;
          marked = v.marked;
          conserving = inl e;
          kept = λ id h. kept_weaken w p.queue p.workers id (v.kept id h);
        })
  drain_cases w p (t ∷ ts) e v =
      rw (v.idle, v.active, e, drain_queue_to)
        (dispatch-IsValid w t (record p { queue = ts })
          (record {
            active = v.active;
            sized = v.sized;
            below = v.below;
            unique = v.unique;
            marked = v.marked;
            held = (fresh w, v.idle);
            conserving = inr (elim v.conserving [ inl none_left ↦ absurd (cc) | inr a ↦ a ]);
            kept = λ id h. kept_head w t ts p.workers id (
                subst (λ q. (in_queue id q ≡ true) ⊎ (any_runs_but w id p.workers ≡ true)) e
                  (v.kept id h));
          }))

  pub drain-IsValid : (w : ℕ) (p : WorkerPool V) → IsReady w p → IsValid (drain_queue_to w p).0
  drain-IsValid w p v = drain_cases w p p.queue refl v
