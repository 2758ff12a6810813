-- ===== src/Workers/Tracking.antt =====
-- The pool's list of workers: which of them are busy, and which tasks they run.
use distributive_cache.Base.{
  ℕ, ◌+◌, ◌<◌, ◌≡◌, refl, ◌≢◌, ◌⊎◌, inl, inr, Bool, true, false, ◌||◌, ◌&&◌, Option, none, some,
  List, [], ◌∷◌, ◌++◌, arith, length, select, is_some, All,
}
use distributive_cache.Workers.{TaskId, ManagedWorker, update_worker, find_worker, runs, is_not}

abbrev pub IsBusy : ManagedWorker → Type 0
IsBusy x = x.busy ≡ true

abbrev pub IsBusyBut : ℕ → ManagedWorker → Type 0
IsBusyBut w x = (x.id ≡ w) ⊎ (x.busy ≡ true)

-- A worker is busy exactly if it has a task.
abbrev pub IsMarked : ManagedWorker → Type 0
IsMarked x = x.busy ≡ is_some x.current_task_id

abbrev pub IsBelow : ℕ → ManagedWorker → Type 0
IsBelow n x = x.id < n

-- No id stands for two workers.
abbrev pub IsUnique : List ManagedWorker → Type 0
IsUnique [] = Unit
IsUnique (x ∷ xs) = (find_worker x.id xs ≡ none) × IsUnique xs

abbrev pub any_runs : TaskId → List ManagedWorker → Bool
any_runs id [] = false
any_runs id (x ∷ xs) = runs id x || any_runs id xs

-- A worker other than `w` runs the task.
abbrev pub any_runs_but : ℕ → TaskId → List ManagedWorker → Bool
any_runs_but w id [] = false
any_runs_but w id (x ∷ xs) = (is_not w x && runs id x) || any_runs_but w id xs

module _ (w : ℕ) (busy : Bool) (task : Option TaskId) where
  pub length-update : (ws : List ManagedWorker) → length (update_worker w busy task ws) ≡ length ws
  unfolding update_worker
  length-update [] = refl
  length-update (x ∷ xs) = omega (arith, length-update xs)

  pub find-update_ne :
      (v : ℕ) (ws : List ManagedWorker)
      → find_worker v ws ≡ none
      → find_worker v (update_worker w busy task ws) ≡ none
  unfolding update_worker find_worker
  find-update_ne v [] h = refl
  find-update_ne v (x ∷ xs) h = ground (arith, find-update_ne v xs)

  pub update-IsUnique :
      (ws : List ManagedWorker) → IsUnique ws → IsUnique (update_worker w busy task ws)
  unfolding update_worker
  update-IsUnique [] u = tt
  update-IsUnique (x ∷ xs) u = ground (arith, find-update_ne x.id xs, update-IsUnique xs)

  pub update-IsBelow :
      (n : ℕ) (ws : List ManagedWorker)
      → All (IsBelow n) ws
      → All (IsBelow n) (update_worker w busy task ws)
  unfolding update_worker
  update-IsBelow n [] a = tt
  update-IsBelow n (x ∷ xs) a = ground (arith, update-IsBelow n xs)

  pub update-IsMarked :
      (ws : List ManagedWorker)
      → busy ≡ is_some task
      → All IsMarked ws
      → All IsMarked (update_worker w busy task ws)
  unfolding update_worker
  update-IsMarked [] h a = tt
  update-IsMarked (x ∷ xs) h a = ground (arith, update-IsMarked xs)

  pub find-update :
      (ws : List ManagedWorker) (x : ManagedWorker)
      → find_worker w ws ≡ some x
      → find_worker w (update_worker w busy task ws)
        ≡ some (record { id = x.id; busy = busy; current_task_id = task })
  unfolding update_worker find_worker
  find-update [] x h = cc
  find-update (y ∷ ys) x h = ground (arith, find-update ys x)

  pub runs_but-update :
      (id : TaskId) (ws : List ManagedWorker)
      → any_runs_but w id (update_worker w busy task ws) ≡ any_runs_but w id ws
  unfolding update_worker
  runs_but-update id [] = refl
  runs_but-update id (x ∷ xs) = ground (arith, runs_but-update id xs)

  pub update-IsBusyBut :
      (ws : List ManagedWorker) → All IsBusy ws → All (IsBusyBut w) (update_worker w busy task ws)
  unfolding update_worker
  update-IsBusyBut [] a = tt
  update-IsBusyBut (x ∷ xs) a = ground (arith, update-IsBusyBut xs)

module _ (w : ℕ) (task : TaskId) where
  pub update-IsBusy :
      (ws : List ManagedWorker)
      → All (IsBusyBut w) ws
      → All IsBusy (update_worker w true (some task) ws)
  unfolding update_worker
  update-IsBusy [] a = tt
  update-IsBusy (x ∷ xs) a = ground (arith, update-IsBusy xs)

  pub runs-update :
      (ws : List ManagedWorker) (x : ManagedWorker)
      → find_worker w ws ≡ some x
      → any_runs task (update_worker w true (some task) ws) ≡ true
  unfolding update_worker find_worker
  runs-update [] x h = cc
  runs-update (y ∷ ys) x h = ground (arith, runs-update ys x)

pub any_runs_of_but :
    (w : ℕ) (id : TaskId) (ws : List ManagedWorker)
    → any_runs_but w id ws ≡ true
    → any_runs id ws ≡ true
any_runs_of_but w id [] h = cc
any_runs_of_but w id (x ∷ xs) h = ground (arith, any_runs_of_but w id xs)

runs_but_absent :
    (w : ℕ) (id : TaskId) (ws : List ManagedWorker)
    → find_worker w ws ≡ none
    → any_runs_but w id ws ≡ any_runs id ws
unfolding find_worker
runs_but_absent w id [] h = refl
runs_but_absent w id (x ∷ xs) h = ground (arith, runs_but_absent w id xs)

-- A running task is that of `w`, or another worker's.
pub any_runs_cases :
    (w : ℕ) (id : TaskId) (ws : List ManagedWorker) (x : ManagedWorker)
    → IsUnique ws
    → find_worker w ws ≡ some x
    → any_runs id ws ≡ true
    → (runs id x ≡ true) ⊎ (any_runs_but w id ws ≡ true)
unfolding find_worker
any_runs_cases w id [] x u f r = cc
any_runs_cases w id (y ∷ ys) x u f r =
    ground (arith, any_runs_cases w id ys x, runs_but_absent w id ys)

pub runs_but-select :
    (w : ℕ) (id : TaskId) (ws : List ManagedWorker)
    → any_runs id (select (is_not w) ws) ≡ any_runs_but w id ws
unfolding select
runs_but-select w id [] = refl
runs_but-select w id (x ∷ xs) = ground (arith, runs_but-select w id xs)

pub find-select :
    (w v : ℕ) (ws : List ManagedWorker)
    → find_worker v ws ≡ none
    → find_worker v (select (is_not w) ws) ≡ none
unfolding find_worker select
find-select w v [] h = refl
find-select w v (x ∷ xs) h = ground (arith, find-select w v xs)

pub select-IsUnique :
    (w : ℕ) (ws : List ManagedWorker) → IsUnique ws → IsUnique (select (is_not w) ws)
unfolding select
select-IsUnique w [] u = tt
select-IsUnique w (x ∷ xs) u = ground (arith, find-select w x.id xs, select-IsUnique w xs)

select_absent :
    (w : ℕ) (ws : List ManagedWorker) → find_worker w ws ≡ none → select (is_not w) ws ≡ ws
unfolding find_worker select
select_absent w [] h = refl
select_absent w (x ∷ xs) h = ground (arith, select_absent w xs)

pub length-select :
    (w : ℕ) (ws : List ManagedWorker) (x : ManagedWorker)
    → IsUnique ws
    → find_worker w ws ≡ some x
    → length (select (is_not w) ws) + 1 ≡ length ws
unfolding find_worker select
length-select w [] x u f = cc
length-select w (y ∷ ys) x u f = ground (arith, length-select w ys x, select_absent w ys)

-- A worker whose id is new.
pub find_below : (n : ℕ) (ws : List ManagedWorker) → All (IsBelow n) ws → find_worker n ws ≡ none
unfolding find_worker
find_below n [] a = refl
find_below n (x ∷ xs) a = ground (arith, find_below n xs)

abbrev pub fresh : ℕ → ManagedWorker
fresh n = record { id = n; busy = false; current_task_id = none }

module _ (n : ℕ) where
  pub find-append_ne :
      (v : ℕ) (ws : List ManagedWorker)
      → find_worker v ws ≡ none
      → v ≢ n
      → find_worker v (ws ++ (fresh n ∷ [])) ≡ none
  unfolding find_worker
  find-append_ne v [] h ne = ground arith
  find-append_ne v (x ∷ xs) h ne = ground (arith, find-append_ne v xs)

  pub append-IsUnique :
      (ws : List ManagedWorker) → All (IsBelow n) ws → IsUnique ws → IsUnique (ws ++ (fresh n ∷ []))
  unfolding find_worker
  append-IsUnique [] a u = (refl, tt)
  append-IsUnique (x ∷ xs) a u =
      (find-append_ne x.id xs u.0 (ground arith), append-IsUnique xs a.1 u.1)

  pub append-IsBelow :
      (ws : List ManagedWorker) → All (IsBelow n) ws → All (IsBelow (n + 1)) (ws ++ (fresh n ∷ []))
  append-IsBelow [] a = (omega arith, tt)
  append-IsBelow (x ∷ xs) a = (omega arith, append-IsBelow xs a.1)

  pub find-append :
      (ws : List ManagedWorker)
      → All (IsBelow n) ws
      → find_worker n (ws ++ (fresh n ∷ [])) ≡ some (fresh n)
  unfolding find_worker
  find-append [] a = ground arith
  find-append (x ∷ xs) a = ground (arith, find-append xs)

  pub append-IsBusyBut :
      (ws : List ManagedWorker) → All IsBusy ws → All (IsBusyBut n) (ws ++ (fresh n ∷ []))
  append-IsBusyBut [] a = (inl refl, tt)
  append-IsBusyBut (x ∷ xs) a = (inr a.0, append-IsBusyBut xs a.1)

  pub runs_but-append :
      (id : TaskId) (ws : List ManagedWorker)
      → All (IsBelow n) ws
      → any_runs_but n id (ws ++ (fresh n ∷ [])) ≡ any_runs id ws
  runs_but-append id [] a = ground arith
  runs_but-append id (x ∷ xs) a = ground (arith, runs_but-append id xs)
