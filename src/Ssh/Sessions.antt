-- ===== src/Ssh/Sessions.antt =====
-- src/services/ssh/server.rs: the sessions that the server counts.
use xjp_deploy_agent.Prelude.{
  ◌==◌, nat_eq, string_eq, beq_refl, length, All, ℕ, ◌+◌, String, ◌≡◌, refl, sym, ap, ◌∙◌, subst,
  false, none, List, [], ◌∷◌, arith, eq_iff,
}
use xjp_deploy_agent.HashMap
use xjp_deploy_agent.HashMap.{HashMap}
use xjp_deploy_agent.Ssh.{
  SshServer, SshSessionInfo, Connection, Effect, accept, is_public_key, new_client, auth_password,
  status,
}

len-insert-new :
    (m : HashMap String SshSessionInfo) (k : String) (v : SshSessionInfo)
    → HashMap.contains_key m k ≡ false
    → HashMap.len (HashMap.insert m k v) ≡ HashMap.len m + 1
unfolding HashMap.insert HashMap.contains_key
len-insert-new [] k v h = refl
len-insert-new ((j, w) ∷ m) k v h = ground (arith, len-insert-new m k v)

contains_key-insert_other :
    (m : HashMap String SshSessionInfo) (k j : String) (v : SshSessionInfo)
    → (k == j) ≡ false
    → HashMap.contains_key (HashMap.insert m k v) j ≡ HashMap.contains_key m j
unfolding HashMap.insert HashMap.contains_key
contains_key-insert_other [] k j v h = ground (arith, h)
contains_key-insert_other ((i, w) ∷ m) k j v h =
    ground (arith, h, contains_key-insert_other m k j v, eq_iff i k, eq_iff i j, eq_iff k j)

-- A client that logs in with the configured user and the API key, and the server afterwards.
abbrev pub log_in : SshServer → (session_id : String) → (now : ℕ) → Connection × List Effect
log_in s session_id now =
    auth_password (record { handler = new_client s session_id none; sessions = s.sessions })
      s.config.username s.api_key now

abbrev pub log_in_all : SshServer → List String → (now : ℕ) → SshServer
log_in_all s [] now = s
log_in_all s (id ∷ ids) now =
    log_in_all (record s { sessions = (log_in s id now).0.sessions }) ids now

-- The ids are distinct, and none of them has a session.
abbrev pub AreNew : HashMap String SshSessionInfo → List String → Type 0
AreNew sessions [] = Unit
AreNew sessions (id ∷ ids) =
    (HashMap.contains_key sessions id ≡ false)
    × All (λ j. (id == j) ≡ false) ids
    × AreNew sessions ids

log_in_lem :
    (s : SshServer) (id : String) (now : ℕ)
    → is_public_key s.config.auth_mode ≡ false
    → let (c, effects) = log_in s id now in
      (c.sessions
        ≡ HashMap.insert s.sessions id (record {
          session_id = id;
          username = s.config.username;
          client_addr = "unknown";
          connected_at = now;
          last_activity = now;
        }))
      × (effects ≡ accept ∷ [])
unfolding auth_password new_client
log_in_lem s id now mode = rw (mode, beq_refl s.config.username, beq_refl s.api_key) (refl, refl)

AreNew-insert :
    (sessions : HashMap String SshSessionInfo) (id : String) (v : SshSessionInfo)
    (ids : List String)
    → All (λ j. (id == j) ≡ false) ids
    → AreNew sessions ids
    → AreNew (HashMap.insert sessions id v) ids
AreNew-insert sessions id v [] other new_ids = tt
AreNew-insert sessions id v (j ∷ ids) other new_ids = (
  contains_key-insert_other sessions id j v other.0 ∙ new_ids.0,
  new_ids.1,
  AreNew-insert sessions id v ids other.1 new_ids.2,
)

-- However many clients log in with sessions of their own, each is let in and counted: the number of
-- active sessions grows by one for each, whatever the configured maximum of sessions is. The mode
-- allows passwords.
pub active_sessions-log_in_all :
    (s : SshServer) (ids : List String) (now : ℕ)
    → is_public_key s.config.auth_mode ≡ false
    → AreNew s.sessions ids
    → ((status (log_in_all s ids now)).active_sessions ≡ (status s).active_sessions + length ids)
      × ((status (log_in_all s ids now)).max_sessions ≡ s.config.max_sessions)
      × ((id : String) → (log_in (log_in_all s ids now) id now).1 ≡ accept ∷ [])
unfolding status
active_sessions-log_in_all s [] now mode new_ids =
    (omega arith, refl, λ id. (log_in_lem s id now mode).1)
active_sessions-log_in_all s (id ∷ ids) now mode new_ids =
    let (sessions, accepted) = log_in_lem s id now mode in
    let s' : SshServer = record s { sessions = (log_in s id now).0.sessions } in
    let size =
      ap (λ (m : HashMap String SshSessionInfo). HashMap.len m) sessions
      ∙ len-insert-new s.sessions id _ new_ids.0 in
    let later = active_sessions-log_in_all s' ids now mode (
      subst (λ m. AreNew m ids) (sym sessions)
        (AreNew-insert s.sessions id _ ids new_ids.1 new_ids.2)) in
    (omega (arith, later.0, size), later.1, later.2)
