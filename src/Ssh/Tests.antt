-- ===== src/Ssh/Tests.antt =====
-- The theorems on the SSH server at concrete inputs.
use xjp_deploy_agent.Prelude.{
  nat_eq, string_eq, any, ◌+◌, String, ◌≡◌, refl, true, false, none, some, List, [], ◌∷◌,
}
use xjp_deploy_agent.HashMap
use xjp_deploy_agent.Ssh.{
  SshServer, SshAuthMode, api_key, accept, is_public_key, new_client, status,
}
use xjp_deploy_agent.Ssh.Handlers.{
  Call, by_password, by_publickey, opens, asks_exec, ran, handle_all, exit_code,
}
use xjp_deploy_agent.Ssh.Access.{acts, handle_all_denied}
use xjp_deploy_agent.Ssh.Sessions.{log_in, log_in_all, active_sessions-log_in_all}
use xjp_deploy_agent.Prelude.Int.{negsuc}

abbrev server_in : SshAuthMode → SshServer
server_in mode = record {
  config = record {
    enabled = true;
    port = 2222;
    username = "deploy";
    auth_mode = mode;
    authorized_keys_file = none;
    host_key_file = none;
    session_timeout_secs = 3600;
    idle_timeout_secs = 300;
    max_sessions = 1;
  };
  api_key = "secret";
  sessions = [];
}

abbrev guesses : List Call
guesses =
    by_password "deploy" "guess" 1
    ∷ by_publickey "deploy"
    ∷ opens 0
    ∷ asks_exec 0 "id" (ran "root" "" none)
    ∷ []

exit_code_run : exit_code (some (negsuc 0)) ≡ 4294967295
unfolding exit_code
exit_code_run = refl

handle_all_denied_example :
    let (c, effects) =
      handle_all false
        (record { handler = new_client (server_in api_key) "s1" none; sessions = [] })
        guesses in
    (c.handler ≡ new_client (server_in api_key) "s1" none)
    × (HashMap.len c.sessions ≡ 0)
    × (any acts effects ≡ false)
unfolding any is_public_key
handle_all_denied_example = handle_all_denied false (server_in api_key) "s1" none [] guesses refl

active_sessions-log_in_all_example :
    let s = server_in api_key in
    ((status (log_in_all s ("a" ∷ "b" ∷ []) 1)).active_sessions ≡ (status s).active_sessions + 2)
    × ((status (log_in_all s ("a" ∷ "b" ∷ []) 1)).max_sessions ≡ 1)
    × ((id : String) → (log_in (log_in_all s ("a" ∷ "b" ∷ []) 1) id 1).1 ≡ accept ∷ [])
unfolding is_public_key HashMap.contains_key
active_sessions-log_in_all_example =
    active_sessions-log_in_all (server_in api_key) ("a" ∷ "b" ∷ []) 1 refl
      (refl, (refl, tt), (refl, tt, tt))
