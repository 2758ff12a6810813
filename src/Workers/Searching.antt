-- ===== src/Workers/Searching.antt =====
-- What the searches of the pool among its workers find.
use distributive_cache.Base.{
  ℕ, ◌≡◌, ◌≢◌, inl, inr, true, false, none, some, List, [], ◌∷◌, arith, Bool-cases, Option-cases,
  All,
}
use distributive_cache.Workers.{TaskId, ManagedWorker, find_worker, find_idle, find_running, runs}
use distributive_cache.Workers.Tracking.{IsBusy, IsMarked, IsUnique}

pub find_idle-none : (ws : List ManagedWorker) → find_idle ws ≡ none → All IsBusy ws
unfolding find_idle
find_idle-none [] h = tt
find_idle-none (x ∷ xs) h = ground (arith, find_idle-none xs)

find_idle_absent :
    (w : ℕ) (x : ManagedWorker) (ws : List ManagedWorker)
    → find_worker w ws ≡ none
    → find_idle ws ≡ some x
    → x.id ≢ w
unfolding find_idle find_worker
find_idle_absent w x [] h f = cc
find_idle_absent w x (y ∷ ys) h f = λ e. ground (arith, find_idle_absent w x ys)

pub find_idle-some :
    (x : ManagedWorker) (ws : List ManagedWorker)
    → IsUnique ws
    → find_idle ws ≡ some x
    → (find_worker x.id ws ≡ some x) × (x.busy ≡ false)
unfolding find_idle find_worker
find_idle-some x [] u f = cc
find_idle-some x (y ∷ ys) u f = ground (arith, find_idle-some x ys, find_idle_absent y.id x ys)

find_running_absent :
    (w : ℕ) (id : TaskId) (x : ManagedWorker) (ws : List ManagedWorker)
    → find_worker w ws ≡ none
    → find_running id ws ≡ some x
    → x.id ≢ w
unfolding find_running find_worker
find_running_absent w id x [] h f = cc
find_running_absent w id x (y ∷ ys) h f = λ e. ground (arith, find_running_absent w id x ys)

pub find_running-some :
    (id : TaskId) (x : ManagedWorker) (ws : List ManagedWorker)
    → IsUnique ws
    → find_running id ws ≡ some x
    → (find_worker x.id ws ≡ some x) × (runs id x ≡ true)
unfolding find_running find_worker
find_running-some id x [] u f = cc
find_running-some id x (y ∷ ys) u f = elim (Bool-cases (runs id y)) [
  | inl e ↦ ground arith
  | inr e ↦
      let f' : find_running id ys ≡ some x = rw (e, find_running) at f in
      let (held, running) = find_running-some id x ys u.1 f' in
      let ne = find_running_absent y.id id x ys u.0 f' in (ground (arith, ne), running)
]

pub find_worker-id :
    (w : ℕ) (ws : List ManagedWorker) (x : ManagedWorker) → find_worker w ws ≡ some x → x.id ≡ w
unfolding find_worker
find_worker-id w [] x h = cc
find_worker-id w (y ∷ ys) x h = ground (arith, find_worker-id w ys x)

-- A worker runs one task.
pub runs_same : (x : ManagedWorker) (i j : TaskId) → runs i x ≡ true → runs j x ≡ true → i ≡ j
runs_same x i j h k = elim (Option-cases x.current_task_id) [
  | inl e ↦ absurd (ground arith)
  | inr (c, e) ↦ ground arith
]

pub find-IsMarked :
    (w : ℕ) (ws : List ManagedWorker) (x : ManagedWorker)
    → All IsMarked ws
    → find_worker w ws ≡ some x
    → IsMarked x
unfolding find_worker
find-IsMarked w [] x a h = cc
find-IsMarked w (y ∷ ys) x a h = ground (arith, find-IsMarked w ys x)

pub idle_runs_nothing :
    (x : ManagedWorker) (id : TaskId) → IsMarked x → x.busy ≡ false → runs id x ≡ false
idle_runs_nothing x id m b = elim (Option-cases x.current_task_id) [
  | inl e ↦ ground arith
  | inr (c, e) ↦ absurd (ground arith)
]

pub runs_current :
    (x : ManagedWorker) (id : TaskId) → runs id x ≡ true → x.current_task_id ≡ some id
runs_current x id h = elim (Option-cases x.current_task_id) [
  | inl e ↦ absurd (ground arith)
  | inr (c, e) ↦ ground arith
]
