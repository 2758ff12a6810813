-- ===== src/Workers/Replacing.antt =====
-- A worker that is replaced leaves the pool as it should be.
use distributive_cache.Base.{
  ℕ, ◌+◌, ◌≡◌, refl, ◌⊎◌, inl, inr, true, false, none, some, List, [], ◌∷◌, ◌++◌, arith,
  length-append, select, All, All-append, All-select, text_keyed, ap, sym, ◌∙◌, subst,
}
use distributive_cache.Base.Dict
use distributive_cache.Workers.{
  TaskId, ManagedWorker, WorkerPool, update_worker, find_worker, runs, is_not, spawn_worker,
  drain_queue_to, replace_worker, forget,
}
use distributive_cache.Workers.Tracking.{
  IsBusy, IsBusyBut, IsMarked, IsBelow, IsUnique, any_runs, any_runs_but, fresh,
}
use distributive_cache.Workers.Tracking
use distributive_cache.Workers.Searching
use distributive_cache.Workers.Invariant.{in_queue, IsValid, IsReady, drain-IsValid}

-- What the worker runs is settled.
abbrev pub IsSettled : {V : Type 0} → ManagedWorker → WorkerPool V → Type 0
IsSettled x p = (id : TaskId) → runs id x ≡ true → Dict.has id p.pending_by_task_id ≡ false

append-IsMarked :
    (n : ℕ) (ws : List ManagedWorker) → All IsMarked ws → All IsMarked (ws ++ (fresh n ∷ []))
append-IsMarked n ws a = All-append IsMarked ws _ a (refl, tt)

module _ {V : Type 0} where
  pub forget-IsValid : (id : TaskId) (p : WorkerPool V) → IsValid p → IsValid (forget id p)
  forget-IsValid id p v = record {
    active = v.active;
    sized = v.sized;
    below = v.below;
    unique = v.unique;
    marked = v.marked;
    conserving = v.conserving;
    kept = λ j h. v.kept j (ground (arith, Dict.get-delete id j p.pending_by_task_id));
  }

  kept_free :
      (w : ℕ) (x : ManagedWorker) (p : WorkerPool V) (id : TaskId)
      → IsValid p
      → find_worker w p.workers ≡ some x
      → IsSettled x p
      → Dict.has id p.pending_by_task_id ≡ true
      → (in_queue id p.queue ≡ true) ⊎ (any_runs_but w id p.workers ≡ true)
  kept_free w x p id v held settled h = elim (v.kept id h) [
    | inl q ↦ inl q
    | inr r ↦ elim (Tracking.any_runs_cases w id p.workers x v.unique held r) [
      | inl own ↦ absurd (cc (settled id own))
      | inr others ↦ inr others
    ]
  ]

  pub free-IsReady :
      (w : ℕ) (x : ManagedWorker) (p : WorkerPool V)
      → IsValid p
      → find_worker w p.workers ≡ some x
      → IsSettled x p
      → IsReady w (record p { workers = update_worker w false none p.workers })
  free-IsReady w x p v held settled = record {
    active = v.active;
    sized = Tracking.length-update w false none p.workers ∙ v.sized;
    below = Tracking.update-IsBelow w false none p.next_worker_id p.workers v.below;
    unique = Tracking.update-IsUnique w false none p.workers v.unique;
    marked = Tracking.update-IsMarked w false none p.workers refl v.marked;
    idle =
        Tracking.find-update w false none p.workers x held
        ∙ ap (λ i. some (fresh i)) (Searching.find_worker-id w p.workers x held);
    conserving = elim v.conserving [
      | inl e ↦ inl e
      | inr a ↦ inr (Tracking.update-IsBusyBut w false none p.workers a)
    ];
    kept = λ id h. elim (kept_free w x p id v held settled h) [
      | inl q ↦ inl q
      | inr r ↦ inr (Tracking.runs_but-update w false none id p.workers ∙ r)
    ];
  }

  -- The pool without `w`, with the worker that stands in for it.
  abbrev pub replaced : ℕ → WorkerPool V → WorkerPool V
  replaced w p = record p {
    workers = select (is_not w) p.workers ++ (fresh p.next_worker_id ∷ []);
    next_worker_id = p.next_worker_id + 1;
  }

  replaced-IsReady :
      (w : ℕ) (x : ManagedWorker) (p : WorkerPool V)
      → IsValid p
      → find_worker w p.workers ≡ some x
      → IsSettled x p
      → IsReady p.next_worker_id (replaced w p)
  replaced-IsReady w x p v held settled =
      let n = p.next_worker_id in
      let ws = select (is_not w) p.workers in
      let below = All-select (IsBelow n) (is_not w) p.workers v.below in
      record {
        active = v.active;
        sized = omega (
          arith,
          v.sized,
          length-append ws (fresh n ∷ []),
          Tracking.length-select w p.workers x v.unique held,
        );
        below = Tracking.append-IsBelow n ws below;
        unique =
            Tracking.append-IsUnique n ws below (Tracking.select-IsUnique w p.workers v.unique);
        marked = append-IsMarked n ws (All-select IsMarked (is_not w) p.workers v.marked);
        idle = Tracking.find-append n ws below;
        conserving = elim v.conserving [
          | inl e ↦ inl e
          | inr a ↦ inr (Tracking.append-IsBusyBut n ws (All-select IsBusy (is_not w) p.workers a))
        ];
        kept = λ id h. elim (kept_free w x p id v held settled h) [
          | inl q ↦ inl q
          | inr r ↦
              inr (
                Tracking.runs_but-append n id ws below
                ∙ Tracking.runs_but-select w id p.workers
                ∙ r)
        ];
      }

  replace_active :
      (w : ℕ) (p : WorkerPool V)
      → p.disposed ≡ false
      → (replace_worker w p).0 ≡ (drain_queue_to p.next_worker_id (replaced w p)).0
  unfolding replace_worker spawn_worker
  replace_active w p h = ground arith

  pub replace-IsValid :
      (w : ℕ) (x : ManagedWorker) (p : WorkerPool V)
      → IsValid p
      → find_worker w p.workers ≡ some x
      → IsSettled x p
      → IsValid (replace_worker w p).0
  replace-IsValid w x p v held settled =
      subst IsValid (sym (replace_active w p v.active))
        (drain-IsValid p.next_worker_id (replaced w p) (replaced-IsReady w x p v held settled))
