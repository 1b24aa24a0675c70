-- ===== src/Ssh/Handlers.antt =====
-- src/services/ssh/server.rs: the handlers of the channels, and of all calls of a client.
use xjp_deploy_agent.Prelude.{
  if◌then◌else◌, map_option, ◌==◌, nat_eq, string_eq, ℕ, ◌-◌, ◌%◌, String, Bool, true, false, not,
  Option, none, some, List, [], ◌∷◌, ◌++◌,
}
use xjp_deploy_agent.Prelude.Text.{digits}
use xjp_deploy_agent.Prelude.Int.{ℤ, pos, negsuc}
use xjp_deploy_agent.HashMap
use xjp_deploy_agent.HashMap.{HashMap}
use xjp_deploy_agent.Ssh.{
  SshSessionInfo, Child, ChannelState, Channels, Connection, Effect, opened, channel_success,
  channel_failure, channel_close, sends, sends_error, exit_status, runs, kills, auth_password,
  auth_publickey,
}

abbrev with_channels : Connection → Channels → Connection
with_channels c channels = record c { handler = record c.handler { channels = channels } }

unfoldable pub channel_open_session : Connection → (channel_id : ℕ) → Connection × List Effect
channel_open_session c channel_id =
    if not c.handler.authenticated then (c, opened false ∷ []) else (
      with_channels c (
          HashMap.insert c.handler.channels channel_id
            (record { pty = false; env = []; child = none })),
      opened true ∷ [],
    )

-- A number is `u32`, so it has at most ten digits.
unfoldable pub decimal_u32 : ℕ → String
decimal_u32 n = digits 9 n ""

unfoldable pub with_pty : (term : String) → (col_width row_height : ℕ) → ChannelState → ChannelState
with_pty term col_width row_height s = record s {
  pty = true;
  env =
      HashMap.insert
        (HashMap.insert (HashMap.insert s.env "TERM" term) "COLUMNS" (decimal_u32 col_width))
        "LINES" (decimal_u32 row_height);
}

unfoldable pub pty_request :
    Connection
    → (channel_id : ℕ) → (term : String) → (col_width row_height : ℕ) → Connection × List Effect
pty_request c channel_id term col_width row_height = (
  with_channels c
      (HashMap.modify c.handler.channels channel_id (with_pty term col_width row_height)),
  channel_success channel_id ∷ [],
)

unfoldable pub env_of : Channels → (channel_id : ℕ) → HashMap String String
env_of channels channel_id = elim (HashMap.get channels channel_id) [
  | none ↦ []
  | some state ↦ state.env
]

unfoldable pub with_child : (pid : ℕ) → ChannelState → ChannelState
with_child pid s = record s { child = some (record { pid = pid; has_stdin = true; input = [] }) }

-- The shell is started, with its number, or it is not.
unfoldable pub shell_request :
    (is_windows : Bool)
    → Connection
    → (channel_id : ℕ) → (spawned : Option ℕ) → Connection × List Effect
shell_request is_windows c channel_id spawned =
    let shell = if is_windows then "powershell.exe" else "/bin/bash" in
    if not c.handler.authenticated then (c, channel_failure channel_id ∷ []) else elim spawned [
      | none ↦ (c, channel_failure channel_id ∷ [])
      | some pid ↦ (
        with_channels c (HashMap.modify c.handler.channels channel_id (with_child pid)),
        runs shell [] (env_of c.handler.channels channel_id) ∷ channel_success channel_id ∷ [],
      )
    ]

-- What a command comes to: it cannot be run, or its output and its exit code, if it has one.
pub data Output : Type 0 where
  not_run : (message : String) → Output
  ran : (stdout stderr : String) → (code : Option ℤ) → Output

-- `code.unwrap_or(-1) as u32`
unfoldable pub exit_code : Option ℤ → ℕ
exit_code none = 4294967295
exit_code (some (pos n)) = n % 4294967296
exit_code (some (negsuc n)) = 4294967295 - n % 4294967296

abbrev sends_if : (String → Effect) → String → List Effect
sends_if send text = if text == "" then [] else send text ∷ []

unfoldable pub replies_of : (channel_id : ℕ) → Output → List Effect
replies_of channel_id (not_run message) =
    sends_error channel_id message ∷ exit_status channel_id 1 ∷ channel_close channel_id ∷ []
replies_of channel_id (ran stdout stderr code) =
    channel_success channel_id ∷ sends_if (sends channel_id) stdout
    ++ (sends_if (sends_error channel_id) stderr
        ++ exit_status channel_id (exit_code code) ∷ channel_close channel_id ∷ [])

unfoldable pub exec_request :
    (is_windows : Bool)
    → Connection
    → (channel_id : ℕ) → (command : String) → Output
    → Connection × List Effect
exec_request is_windows c channel_id command output =
    let env = env_of c.handler.channels channel_id in
    if not c.handler.authenticated
    then (c, channel_failure channel_id ∷ [])
    else if is_windows
    then (c, runs "powershell.exe" ("-Command" ∷ command ∷ []) env ∷ replies_of channel_id output)
    else (c, runs "sh" ("-c" ∷ command ∷ []) env ∷ replies_of channel_id output)

unfoldable pub env_request :
    Connection → (channel_id : ℕ) → (name value : String) → Connection × List Effect
env_request c channel_id name value = (
  with_channels c (
      HashMap.modify c.handler.channels channel_id
        (λ (s : ChannelState). record s { env = HashMap.insert s.env name value })),
  channel_success channel_id ∷ [],
)

-- The input goes to a child whose input is open; an error of the pipe is only logged.
unfoldable pub written : String → Child → Child
written text child =
    if child.has_stdin then record child { input = child.input ++ text ∷ [] } else child

unfoldable pub data_arrives :
    Connection → (channel_id : ℕ) → String → (now : ℕ) → Connection × List Effect
data_arrives c channel_id text now = (
  record (with_channels c (
      HashMap.modify c.handler.channels channel_id
        (λ (s : ChannelState). record s { child = map_option (written text) s.child }))) {
          sessions =
              HashMap.modify c.sessions c.handler.session_id
                (λ (i : SshSessionInfo). record i { last_activity = now });
        },
  [],
)

unfoldable pub kill_child : Option ChannelState → List Effect
kill_child none = []
kill_child (some s) = elim s.child [ none ↦ [] | some child ↦ kills child.pid ∷ [] ]

unfoldable pub channel_closes : Connection → (channel_id : ℕ) → Connection × List Effect
channel_closes c channel_id = (
  with_channels c (HashMap.remove c.handler.channels channel_id),
  kill_child (HashMap.get c.handler.channels channel_id),
)

unfoldable pub channel_eof : Connection → (channel_id : ℕ) → Connection × List Effect
channel_eof c channel_id = (
  with_channels c (
      HashMap.modify c.handler.channels channel_id (λ (s : ChannelState). record s {
        child = map_option (λ (k : Child). record k { has_stdin = false }) s.child;
      })),
  [],
)

-- The drop of the handler.
unfoldable pub drop_handler : Connection → HashMap String SshSessionInfo
drop_handler c = HashMap.remove c.sessions c.handler.session_id

-- A call of the library, with what it meets.
pub data Call : Type 0 where
  by_password : (user pass : String) → (now : ℕ) → Call
  by_publickey : (user : String) → Call
  opens : (channel_id : ℕ) → Call
  asks_pty : (channel_id : ℕ) → (term : String) → (col_width row_height : ℕ) → Call
  asks_shell : (channel_id : ℕ) → (spawned : Option ℕ) → Call
  asks_exec : (channel_id : ℕ) → (command : String) → Output → Call
  sets_env : (channel_id : ℕ) → (name value : String) → Call
  gives : (channel_id : ℕ) → (text : String) → (now : ℕ) → Call
  closes ends_input : (channel_id : ℕ) → Call

unfoldable pub handle : (is_windows : Bool) → Connection → Call → Connection × List Effect
handle is_windows c (by_password user pass now) = auth_password c user pass now
handle is_windows c (by_publickey user) = auth_publickey c user
handle is_windows c (opens id) = channel_open_session c id
handle is_windows c (asks_pty id term cols rows) = pty_request c id term cols rows
handle is_windows c (asks_shell id spawned) = shell_request is_windows c id spawned
handle is_windows c (asks_exec id command output) = exec_request is_windows c id command output
handle is_windows c (sets_env id name value) = env_request c id name value
handle is_windows c (gives id text now) = data_arrives c id text now
handle is_windows c (closes id) = channel_closes c id
handle is_windows c (ends_input id) = channel_eof c id

-- A client's calls, in their order.
unfoldable pub handle_all : (is_windows : Bool) → Connection → List Call → Connection × List Effect
handle_all is_windows c [] = (c, [])
handle_all is_windows c (call ∷ calls) =
    let (c', effects) = handle is_windows c call in
    let (last, later) = handle_all is_windows c' calls in (last, effects ++ later)
