-- ===== src/TaskStore.antt =====
-- src/state/task_store.rs: the active tasks by their id, and a bounded history, newest first.
-- Each method runs under the store's locks; the model takes it as one step from a store to a store.
-- Times and the retention are in milliseconds.
pub mod History
pub mod Invariant
pub mod Lifecycle
pub mod Cleanup
mod Tests
use xjp_deploy_agent.Prelude.{
  ltb, leb, if◌then◌else◌, map_option, unwrap_or, ◌==◌, nat_eq, string_eq, retain, find, length,
  take, ℕ, zero, suc, ◌+◌, ◌*◌, String, Bool, true, not, ◌&&◌, ◌||◌, Option, none, some, List, [],
  ◌∷◌,
}
use xjp_deploy_agent.Prelude.Int.{ℤ}
use xjp_deploy_agent.HashMap
use xjp_deploy_agent.HashMap.{HashMap}
use xjp_deploy_agent.Task.{DeployStatus, DeployTask, as_str, is_terminal}
use xjp_deploy_agent.Task.Stage.{DeployStage}

abbrev pub max_task_history : ℕ
max_task_history = 100

abbrev pub max_active_tasks : ℕ
max_active_tasks = 50

abbrev pub hour : ℕ
hour = 3600000

pub record TaskStore : Type 0 where
  pub tasks : HashMap String DeployTask
  pub history : List DeployTask
  pub max_active : ℕ
  pub max_history : ℕ
  pub retention : ℕ

-- `retention_hours` is an `i64` in the code; here it is not negative.
unfoldable pub with_config : ℕ → ℕ → ℕ → TaskStore
with_config max_active max_history retention_hours = record {
  tasks = [];
  history = [];
  max_active = max_active;
  max_history = max_history;
  retention = retention_hours * hour;
}

unfoldable pub new : TaskStore
unfolding with_config
new = with_config max_active_tasks max_task_history 24

unfoldable pub create : TaskStore → DeployTask → TaskStore
create s task = record s { tasks = HashMap.insert s.tasks task.id task }

unfoldable pub get : TaskStore → String → Option DeployTask
get s id = HashMap.get s.tasks id

unfoldable pub get_any : TaskStore → String → Option DeployTask
get_any s id = elim (get s id) [ some task ↦ some task | none ↦ find (λ t. t.id == id) s.history ]

unfoldable pub get_all : TaskStore → List DeployTask
get_all s = HashMap.values s.tasks

unfoldable pub exists : TaskStore → String → Bool
exists s id = HashMap.contains_key s.tasks id

unfoldable pub mark : DeployStatus → Option ℤ → ℕ → DeployTask → DeployTask
mark status exit_code now t =
    let marked = record t { status = status; exit_code = exit_code } in
    if is_terminal status then record marked { finished_at = some now } else marked

unfoldable pub update_status : TaskStore → String → DeployStatus → Option ℤ → ℕ → TaskStore
update_status s id status exit_code now = record s {
  tasks = HashMap.modify s.tasks id (mark status exit_code now);
}

unfoldable pub update_stages : TaskStore → String → List DeployStage → TaskStore
update_stages s id stages = record s {
  tasks = HashMap.modify s.tasks id λ t. record t { stages = stages };
}

-- `VecDeque::pop_back`
unfoldable pub pop_back : List DeployTask → List DeployTask
pop_back [] = []
pop_back (x ∷ []) = []
pop_back (x ∷ y ∷ xs) = x ∷ pop_back (y ∷ xs)

-- `while history.len() > max_history { history.pop_back(); }`, at most `fuel` rounds.
unfoldable pub trim : ℕ → ℕ → List DeployTask → List DeployTask
trim zero max_history xs = xs
trim (suc fuel) max_history xs =
    let rest = trim fuel max_history (pop_back xs) in
    if ltb max_history (length xs) then rest else xs

-- Every round takes one task off, so the length is enough fuel.
unfoldable pub add_to_history : TaskStore → DeployTask → TaskStore
add_to_history s task =
    let pushed = task ∷ s.history in
    record s { history = trim (length pushed) s.max_history pushed }

unfoldable pub finished : DeployStatus → Option ℤ → ℕ → DeployTask → DeployTask
finished status exit_code now t = record t {
  status = status;
  exit_code = exit_code;
  finished_at = some now;
}

unfoldable pub finish : TaskStore → String → DeployStatus → Option ℤ → ℕ → TaskStore
finish s id status exit_code now = elim (HashMap.get s.tasks id) [
  | none ↦ s
  | some task ↦
      add_to_history (record s { tasks = HashMap.remove s.tasks id })
        (finished status exit_code now task)
]

unfoldable pub matches : Option String → Option String → DeployTask → Bool
matches project status t =
    unwrap_or (map_option (λ p. t.project == p) project) true
    && unwrap_or (map_option (λ w. as_str t.status == w) status) true

unfoldable pub get_history : TaskStore → ℕ → Option String → Option String → List DeployTask
get_history s limit project status = take limit (retain (matches project status) s.history)

unfoldable pub history_count : TaskStore → ℕ
history_count s = length s.history

-- `t > now - retention`, with the subtraction on the other side.
unfoldable pub is_recent : ℕ → ℕ → DeployTask → Bool
is_recent retention now t = elim t.finished_at [ none ↦ true | some at ↦ ltb now (at + retention) ]

unfoldable pub is_kept : ℕ → ℕ → DeployTask → Bool
is_kept retention now t = not (is_terminal t.status) || is_recent retention now t

unfoldable pub cleanup_stale : TaskStore → ℕ → TaskStore
cleanup_stale s now = record s {
  tasks = HashMap.retain_entries (λ id t. is_kept s.retention now t) s.tasks;
  history = retain (is_recent s.retention now) s.history;
}

unfoldable pub active_count : TaskStore → ℕ
active_count s = HashMap.len s.tasks

unfoldable pub is_at_capacity : TaskStore → Bool
is_at_capacity s = leb s.max_active (active_count s)
