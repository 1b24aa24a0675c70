-- ===== src/Lib.antt =====
-- The deploy agent: an HTTP service that runs deploys of projects, one at a time for each project,
-- and tunnels public ports to agents behind a firewall. This library models its core and proves what
-- makes it correct.
--
-- The program's parts and the files that model them:
--   * Task, Task/Stage: the data of src/domain/deploy.rs.
--   * TaskStore: src/state/task_store.rs, the active tasks and the bounded history. TaskStore/Invariant,
--     Lifecycle, History and Cleanup have its theorems.
--   * LogHub: src/state/log_hub.rs, one broadcast channel for each task.
--   * Persistence: src/services/queue_persistence.rs, the queue on disk. Persistence/File has the file
--     and the failures of a save, Persistence/Durable what a restart finds.
--   * Project: src/config/project.rs, the configurations that the deploy center sends.
--   * Agent: src/state/app_state.rs; Agent/Running and Agent/Queue are its running and waiting deploys.
--   * Error: src/error.rs.
--   * Deploy/Trigger, Deploy/Queries, Deploy/Logs: src/api/deploy.rs.
--     Deploy/Execute: src/services/deploy/mod.rs and context.rs.
--     Deploy/Script: src/services/deploy/script.rs.
--     Deploy/DockerBuild: src/services/deploy/docker_build.rs.
--     Deploy/Compose: src/services/deploy/docker_compose.rs, with
--     the check of its canary in Deploy/Compose/Canary and the monitor in
--     Deploy/Compose/Monitor. Deploy/Recover: src/lib.rs.
--   * Tunnel: src/domain/tunnel.rs, with the parser of mappings in Tunnel/Mappings.
--     Tunnel/Listener and Tunnel/Manager: src/state/port_listener_manager.rs.
--     Tunnel/Server: src/state/tunnel_state.rs and src/services/tunnel/server.rs, with `run_server` in Tunnel/Server/Connect.
--     Tunnel/Client: src/services/tunnel/client.rs, with its session and its loop in Tunnel/Client/Run;
--     Tunnel/EndToEnd joins a listener and a client.
--   * Router: src/services/service_router.rs, with its priorities in Router/Priority and its cache in
--     Router/Cache.
--     Router/ServiceMap reads the maps that the environment lists.
--   * Lan: src/services/lan_discovery/mod.rs, the peers of the local network. Lan/Address has the
--     addresses, Lan/Discovery, Provider, Broadcast and Routing the theorems.
--   * Update: src/services/autoupdate.rs and src/config/autoupdate.rs. Update/Version and Update/Source
--     have versions and addresses, Update/Apply the replacement of the binary, Update/Check the check,
--     the deferral and the manual update; Update/Safety and Update/Flags have the theorems.
--   * Deploy/Xiaojincut: src/services/deploy/xiaojincut.rs. Deploy/Center: src/infra/deploy_center.rs.
--     Deploy/Strategy joins the four strategies with the end of a deploy, or with a panic of the compose
--     strategy, which cuts texts at a byte (Prelude/Text: `take_bytes`).
--   * Supervisor: what src/services/nfa.rs and src/services/frp.rs have in common. Supervisor/Nfa is the
--     first, with its alignment requests in Supervisor/Nfa/Align, Supervisor/Frp the second.
--   * LogReporter: src/services/log_reporter.rs. LogReporter/Delivery and Loss are about the lines that
--     arrive and those that do not. Mesh: src/services/mesh.rs. Restart: src/services/restart.rs.
--   * Ssh: src/services/ssh/server.rs and src/domain/ssh.rs, with the handlers of channels in
--     Ssh/Handlers.
--   * Config: src/config/env.rs; Project/Load: the projects of src/config/project.rs that the environment
--     lists. Auth: src/middleware/auth.rs. Http: the answers to requests.
--   * Prelude, HashMap: shared tests, lemmas and the association lists that stand for hash maps, with
--     the laws of their lookups. Samples and the files Tests: concrete inputs.
--
-- How they interact: a trigger looks at the running and the waiting deploys and starts, queues or
-- refuses; it writes to the task store, the log hub and the persisted queue. The end of a deploy
-- moves its task to the history, closes its log and takes the next deploy from the queue. After a
-- restart the persisted queue is read again. In the tunnel, a client's connection binds listeners,
-- which ask the client to connect and pass data on. The router asks the local
-- network's discovery, and the automatic update asks the router where to load a binary from; it waits
-- until no deploy runs. The configuration
-- names the projects, the keys and what the supervisors run; the log reporter, the mesh and the deploy
-- center client talk to the deploy center.
--
-- Reading the model: an operation is a function from the state to the state and its result; locks are
-- not modelled, and where the code gives a lock up between a check and its use, the check and the use
-- are two functions (Deploy/Trigger: `decide` and `carry_out`). Times are milliseconds and come as
-- arguments, as do fresh ids, senders and tokens. serde_json, the file system, the deploy center, git,
-- the scripts, child processes and the network are parameters. The calls of a supervisor overlap; they are
-- cut where they give up the lock of the child (Supervisor/Single). Loops: `trim` has as much fuel as the
-- history has tasks, `drain` needs more fuel than deploys wait, `bind_port` needs six rounds, and
-- `digits` five digits for a port; the wait for a canary has 602 rounds, which
-- `Deploy/Compose/Waiting` shows to be enough. Loops that a clock or a peer ends go through a list of
-- what they meet.
--
-- Not modelled: the handlers that only call the operating system, Docker or a database
-- (src/api/system.rs, health.rs, containers.rs, images.rs, database.rs) or pass a call on
-- (src/api/nfa.rs, lan.rs), the status and the proxy of src/api/tunnel.rs, the command runner
-- (src/infra/command.rs), the host key and the listener of the SSH server, the Windows service, and
-- logging.
pub mod Prelude
pub mod HashMap
pub mod Task
pub mod TaskStore
pub mod LogHub
pub mod Persistence
pub mod Project
pub mod Agent
pub mod Error
pub mod Deploy
pub mod Tunnel
pub mod Lan
pub mod Update
pub mod Router
pub mod Http
pub mod Supervisor
pub mod LogReporter
pub mod Ssh
pub mod Config
pub mod Auth
pub mod Mesh
pub mod Restart
pub mod Samples
