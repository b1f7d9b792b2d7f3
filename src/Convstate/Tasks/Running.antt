-- ===== src/Convstate/Tasks/Running.antt =====
-- The unfinished tasks of a list, and what the changes of a list make of them.
use agentapi.Prelude.{
  ℕ, zero, suc, ◌+◌, ◌≤◌, ◌≡◌, refl, Bool, true, List, [], ◌∷◌, ◌++◌, map, none, some, arith,
  if◌then◌else◌, length, keep, modify_at, length-keep-le,
}
use agentapi.Convstate.Types.{Task, is_final}
use agentapi.Convstate.Tasks.Derive.{last_running}

abbrev pub count_running : List Task → ℕ
count_running [] = 0
count_running (task ∷ tasks) =
    let rest = count_running tasks in if is_final task then rest else suc rest

-- Changes that leave it open whether a task is final.
abbrev pub KeepsFinal : (Task → Task) → Type 0
KeepsFinal f = (task : Task) → is_final (f task) ≡ is_final task

abbrev pub Ends : (Task → Task) → Type 0
Ends f = (task : Task) → is_final (f task) ≡ true

pub last_running-eq-none :
    (n : ℕ) (tasks : List Task) → count_running tasks ≡ 0 → last_running n tasks ≡ none
unfolding last_running
last_running-eq-none n [] e = refl
last_running-eq-none n (task ∷ tasks) e = ground (arith, last_running-eq-none (suc n) tasks)

pub count_running-zero :
    (n : ℕ) (tasks : List Task) → last_running n tasks ≡ none → count_running tasks ≡ 0
unfolding last_running
count_running-zero n [] e = refl
count_running-zero n (task ∷ tasks) e = ground (arith, count_running-zero (suc n) tasks)

module _ (f : Task → Task) (keeps : KeepsFinal f) where
  pub last_running-modify :
      (n i : ℕ) (tasks : List Task) → last_running n (modify_at i f tasks) ≡ last_running n tasks
  unfolding last_running
  last_running-modify n i [] = refl
  last_running-modify n zero (task ∷ tasks) = ground (arith, keeps task)
  last_running-modify n (suc i) (task ∷ tasks) = ground (arith, last_running-modify (suc n) i tasks)

  pub count_running-modify :
      (i : ℕ) (tasks : List Task) → count_running (modify_at i f tasks) ≡ count_running tasks
  count_running-modify i [] = refl
  count_running-modify zero (task ∷ tasks) = ground (arith, keeps task)
  count_running-modify (suc i) (task ∷ tasks) = ground (arith, count_running-modify i tasks)

  pub last_running-map :
      (n : ℕ) (tasks : List Task) → last_running n (map f tasks) ≡ last_running n tasks
  unfolding last_running
  last_running-map n [] = refl
  last_running-map n (task ∷ tasks) = ground (arith, keeps task, last_running-map (suc n) tasks)

  pub count_running-map : (tasks : List Task) → count_running (map f tasks) ≡ count_running tasks
  count_running-map [] = refl
  count_running-map (task ∷ tasks) = ground (arith, keeps task, count_running-map tasks)

last_running-bound : (n : ℕ) (tasks : List Task) (i : ℕ) → last_running n tasks ≡ some i → n ≤ i
unfolding last_running
last_running-bound n [] i e = cc
last_running-bound n (task ∷ tasks) i e = ground (arith, last_running-bound (suc n) tasks i)

-- The running task, the only one, ends.
pub count_running-end :
    (f : Task → Task) (ends : Ends f) (n i : ℕ) (tasks : List Task)
    → count_running tasks ≤ 1
    → last_running n tasks ≡ some (n + i)
    → count_running (modify_at i f tasks) ≡ 0
unfolding last_running
count_running-end f ends n i [] one e = refl
count_running-end f ends n zero (task ∷ tasks) one e =
    ground (arith, ends task, count_running-zero (suc n) tasks, last_running-bound (suc n) tasks n)
count_running-end f ends n (suc i) (task ∷ tasks) one e = ground (
  arith,
  count_running-end f ends (suc n) i tasks,
  count_running-zero (suc n) tasks,
  last_running-eq-none (suc n) tasks,
)

pub last_running-append :
    (n : ℕ) (tasks : List Task) (task : Task)
    → last_running n (tasks ++ task ∷ [])
      ≡ (if is_final task then last_running n tasks else some (n + length tasks))
unfolding last_running
last_running-append n [] task = ground arith
last_running-append n (t ∷ tasks) task = ground (arith, last_running-append (suc n) tasks task)

pub count_running-append :
    (tasks : List Task) (task : Task)
    → count_running (tasks ++ task ∷ [])
      ≡ (if is_final task then count_running tasks else suc (count_running tasks))
count_running-append [] task = ground arith
count_running-append (t ∷ tasks) task = ground (arith, count_running-append tasks task)

pub count_running-keep :
    (p : Task → Bool) (tasks : List Task) → count_running (keep p tasks) ≤ count_running tasks
count_running-keep p [] = omega arith
count_running-keep p (task ∷ tasks) = ground (arith, count_running-keep p tasks)

-- A list that lost no element is the same.
pub keep_all :
    (p : Task → Bool) (tasks : List Task)
    → length (keep p tasks) ≡ length tasks
    → keep p tasks ≡ tasks
keep_all p [] e = refl
keep_all p (task ∷ tasks) e = ground (arith, keep_all p tasks, length-keep-le p tasks)
