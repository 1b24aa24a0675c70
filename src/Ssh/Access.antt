-- ===== src/Ssh/Access.antt =====
-- src/services/ssh/server.rs: who gets into the SSH server.
use xjp_deploy_agent.Prelude.{
  any-append, ◌==◌, nat_eq, string_eq, any, String, ◌≡◌, refl, sym, ap, ◌∙◌, subst, Bool, true,
  false, not, ◌&&◌, Option, List, [], ◌∷◌, arith,
}
use xjp_deploy_agent.HashMap
use xjp_deploy_agent.HashMap.{HashMap}
use xjp_deploy_agent.Ssh.{
  SshServer, SshSessionInfo, SshSessionHandler, Connection, Effect, runs, kills, opened,
  is_public_key, public_key, new_client, auth_password, auth_publickey,
}
use xjp_deploy_agent.Ssh.Handlers.{
  Call, by_password, by_publickey, opens, asks_pty, asks_shell, asks_exec, sets_env, gives, closes,
  ends_input, handle, handle_all, channel_open_session, pty_request, shell_request, exec_request,
  env_request, data_arrives, channel_closes, channel_eof, kill_child,
}

-- The call is a log-in with the configured user and the API key, and passwords are allowed.
abbrev pub is_right : SshServer → Call → Bool
is_right s (by_password user pass now) =
    not (is_public_key s.config.auth_mode) && user == s.config.username && pass == s.api_key
is_right s other = false

-- The effect gives access: it opens a channel, or runs or ends a process.
abbrev pub acts : Effect → Bool
acts (opened is_open) = is_open
acts (runs program args env) = true
acts (kills pid) = true
acts other = false

len-modify :
    (m : HashMap String SshSessionInfo) (k : String) (f : SshSessionInfo → SshSessionInfo)
    → HashMap.len (HashMap.modify m k f) ≡ HashMap.len m
unfolding HashMap.modify
len-modify [] k f = refl
len-modify ((j, w) ∷ m) k f = ground (arith, len-modify m k f)

module _ (is_windows : Bool) (s : SshServer) (session_id : String) (peer_addr : Option String) where
  abbrev outside : HashMap String SshSessionInfo → Connection
  outside sessions = record { handler = new_client s session_id peer_addr; sessions = sessions }

  -- A call of a client that is not let in.
  abbrev Denies : HashMap String SshSessionInfo → Connection × List Effect → Type 0
  Denies sessions (c, effects) =
      (c.handler ≡ new_client s session_id peer_addr)
      × (HashMap.len c.sessions ≡ HashMap.len sessions)
      × (any acts effects ≡ false)

  handle-Denies :
      (sessions : HashMap String SshSessionInfo) (call : Call)
      → is_right s call ≡ false
      → Denies sessions (handle is_windows (outside sessions) call)
  unfolding handle new_client any HashMap.modify HashMap.remove HashMap.get auth_password
      auth_publickey channel_open_session pty_request shell_request exec_request env_request
      data_arrives channel_closes channel_eof kill_child
  handle-Denies sessions (by_password user pass now) wrong = ground (arith, wrong)
  handle-Denies sessions (by_publickey user) wrong = ground arith
  handle-Denies sessions (opens id) wrong = (refl, refl, refl)
  handle-Denies sessions (asks_pty id term cols rows) wrong = (refl, refl, refl)
  handle-Denies sessions (asks_shell id spawned) wrong = (refl, refl, refl)
  handle-Denies sessions (asks_exec id command output) wrong = (refl, refl, refl)
  handle-Denies sessions (sets_env id name value) wrong = (refl, refl, refl)
  handle-Denies sessions (gives id text now) wrong = (refl, len-modify sessions session_id _, refl)
  handle-Denies sessions (closes id) wrong = (refl, refl, refl)
  handle-Denies sessions (ends_input id) wrong = (refl, refl, refl)

  handle_all-Denies :
      (sessions : HashMap String SshSessionInfo) (calls : List Call)
      → any (is_right s) calls ≡ false
      → Denies sessions (handle_all is_windows (outside sessions) calls)
  unfolding handle_all any
  handle_all-Denies sessions [] wrong = (refl, refl, refl)
  handle_all-Denies sessions (call ∷ calls) wrong =
      let (c, effects) = handle is_windows (outside sessions) call in
      let (same, size, quiet) = handle-Denies sessions call (ground (arith, wrong)) in
      let as_before : c ≡ outside c.sessions =
        ap
          (λ (h : SshSessionHandler).
            let c' : Connection = record { handler = h; sessions = c.sessions } in c')
          same in
      let rest = handle_all-Denies c.sessions calls (ground (arith, wrong)) in
      let later =
        subst (λ (c' : Connection). Denies c.sessions (handle_all is_windows c' calls))
          (sym as_before) rest in
      (
        later.0,
        later.1 ∙ size,
        any-append acts effects (handle_all is_windows c calls).1 ∙ rw (quiet, later.2) refl,
      )

  -- Whatever a client of the SSH server does: unless it logs in, in a mode that allows passwords, with
  -- the configured user and the API key, no channel is opened for it, no shell or command is run and
  -- no process is ended, its handler stays as it was made, and the number of sessions stays.
  pub handle_all_denied :
      (sessions : HashMap String SshSessionInfo) (calls : List Call)
      → any (is_right s) calls ≡ false
      → let (c, effects) =
          handle_all is_windows
            (record { handler = new_client s session_id peer_addr; sessions = sessions })
            calls in
        (c.handler ≡ new_client s session_id peer_addr)
        × (HashMap.len c.sessions ≡ HashMap.len sessions)
        × (any acts effects ≡ false)
  handle_all_denied = handle_all-Denies

  none_right :
      (calls : List Call) → s.config.auth_mode ≡ public_key → any (is_right s) calls ≡ false
  unfolding any is_public_key
  none_right [] mode = refl
  none_right (by_password user pass now ∷ calls) mode =
      rw (mode, is_public_key) (none_right calls mode)
  none_right (by_publickey user ∷ calls) mode = none_right calls mode
  none_right (opens id ∷ calls) mode = none_right calls mode
  none_right (asks_pty id term cols rows ∷ calls) mode = none_right calls mode
  none_right (asks_shell id spawned ∷ calls) mode = none_right calls mode
  none_right (asks_exec id command output ∷ calls) mode = none_right calls mode
  none_right (sets_env id name value ∷ calls) mode = none_right calls mode
  none_right (gives id text now ∷ calls) mode = none_right calls mode
  none_right (closes id ∷ calls) mode = none_right calls mode
  none_right (ends_input id ∷ calls) mode = none_right calls mode

  -- In the mode for public keys nobody gets in, whatever keys and passwords are tried: no client is ever
  -- authenticated, nothing is run for it and no channel is opened.
  pub public_key_denies :
      (sessions : HashMap String SshSessionInfo) (calls : List Call)
      → s.config.auth_mode ≡ public_key
      → let (c, effects) =
          handle_all is_windows
            (record { handler = new_client s session_id peer_addr; sessions = sessions })
            calls in
        (c.handler.authenticated ≡ false) × (any acts effects ≡ false)
  unfolding new_client
  public_key_denies sessions calls mode =
      let (same, size, quiet) = handle_all-Denies sessions calls (none_right calls mode) in
      (ap (λ (h : SshSessionHandler). h.authenticated) same, quiet)
