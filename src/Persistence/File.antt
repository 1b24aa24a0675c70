-- ===== src/Persistence/File.antt =====
-- src/services/queue_persistence.rs: the queue's file, and `QueuePersistence`, which keeps the queue
-- in memory and the file in step. serde_json and the file system are not the agent's code: the
-- first is a parameter (`Json`), and each call is given what the file system does (`Save`, flags).
use xjp_deploy_agent.Prelude.{
  if◌then◌else◌, is_some, ℕ, String, Bool, true, false, not, ◌&&◌, Option, none, some, [],
}
use xjp_deploy_agent.Persistence
use xjp_deploy_agent.Persistence.{PersistedTask, PersistedQueue}

-- Writing and reading a queue as JSON.
pub record Json : Type 1 where
  pub Text : Type 0
  pub to_string : PersistedQueue → Text
  pub from_str : Text → Option PersistedQueue

-- What becomes of one `save`: the first step that fails, and what a failed write leaves behind in
-- the temporary file.
pub data Save (Text : Type 0) : Type 0 where
  no_directory rename_fails saves : Save Text
  write_fails : Option Text → Save Text

-- `queue.json` and `queue.json.tmp`
pub record Files (Text : Type 0) : Type 0 where
  pub queue_file : Option Text
  pub temp_file : Option Text

module _ (json : Json) where
  open json use {Text, to_string, from_str}

  pub record QueuePersistence : Type 0 where
    pub queue : PersistedQueue
    pub files : Files Text

  -- Write the temporary file, then rename it over the queue's file. The flag says that it succeeded.
  unfoldable pub save : PersistedQueue → Files Text → Save Text → Files Text × Bool
  save q f no_directory = (f, false)
  save q f (write_fails left) = (record f { temp_file = left }, false)
  save q f rename_fails = (record f { temp_file = some (to_string q) }, false)
  save q f saves = (record { queue_file = some (to_string q); temp_file = none }, true)

  -- A file that is missing, cannot be read or cannot be parsed is ignored.
  unfoldable pub load_file : Files Text → Bool → Option PersistedQueue
  load_file f readable = elim f.queue_file [
    | none ↦ none
    | some text ↦ if readable then from_str text else none
  ]

  unfoldable pub load : QueuePersistence → Bool → QueuePersistence × Option PersistedQueue
  load p readable = elim (load_file p.files readable) [
    | some loaded ↦ (record p { queue = loaded }, some loaded)
    | none ↦ (p, none)
  ]

  -- Save the queue in memory; the flag is false if the call returned an error.
  unfoldable pub saved : QueuePersistence → Save Text → QueuePersistence × Bool
  saved p outcome =
      let (files, done) = save p.queue p.files outcome in (record p { files = files }, done)

  unfoldable pub add_task :
      QueuePersistence → PersistedTask → ℕ → Save Text → QueuePersistence × Bool
  add_task p task now outcome =
      saved (record p { queue = Persistence.add_task p.queue task now }) outcome

  -- The file is written only if a task was removed.
  unfoldable pub remove_task : QueuePersistence → String → ℕ → Save Text → QueuePersistence × Bool
  remove_task p id now outcome =
      let (queue, removed) = Persistence.remove_task p.queue id now in
      let p' = record p { queue = queue } in if removed then saved p' outcome else (p', true)

  unfoldable pub update_task_status :
      QueuePersistence → String → String → Option ℕ → ℕ → Save Text → QueuePersistence × Bool
  update_task_status p id status started_at now outcome =
      saved (record p { queue = Persistence.update_task_status p.queue id status started_at now })
        outcome

  unfoldable pub get_queue : QueuePersistence → PersistedQueue
  get_queue p = p.queue

  -- `removable` says whether the file, if it is there, can be removed.
  unfoldable pub clear : QueuePersistence → Bool → QueuePersistence × Bool
  clear p removable =
      let p' = record p { queue = record p.queue { tasks = [] } } in
      if is_some p.files.queue_file && not removable
      then (p', false)
      else (record p' { files = record p.files { queue_file = none } }, true)
