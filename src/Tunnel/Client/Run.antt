-- ===== src/Tunnel/Client/Run.antt =====
-- src/services/tunnel/client.rs: one run of the client, in the usual way and in the takeover of an
-- old process, and the loop that connects anew. What the WebSocket gives and whether it takes a
-- message is given from outside; `Message::Pong` answers are not modelled.
use xjp_deploy_agent.Prelude.{
  ◌≡◌, refl, ◌⊎◌, inl, inr, if◌then◌else◌, ◌==◌, nat_eq, string_eq, ℕ, ◌+◌, ◌%◌, String, ◌≡◌, refl,
  ◌⊎◌, inl, inr, Bool, true, false, Option, none, some, List, [], ◌∷◌, ◌++◌,
}
use xjp_deploy_agent.Prelude.Text.{◌⊕◌}
use xjp_deploy_agent.Tunnel
use xjp_deploy_agent.Tunnel.{PortMapping, TunnelMessage, takeover_ready}
use xjp_deploy_agent.Tunnel.Client.{
  ClientResult, disconnected, shutdown, takeover_complete, takeover_success, takeover_failed,
  TunnelClientState, Session, Action, Event, handle_server_message, on_event,
}

-- A frame with the message in it, if it can be read, or the end of the stream.
pub data Frame : Type 0 where
  text binary : Option TunnelMessage → Frame
  ping pong closes ends : Frame
  breaks : (error : String) → Frame

-- What the loop of a session selects: the shutdown, a frame, a message for the server or a heartbeat,
-- which is taken or not, or what a task does.
pub data Arm : Type 0 where
  is_shut_down : Arm
  arrives : Frame → Arm
  writes : (is_taken : Bool) → Arm
  happens : Event → Arm

-- The loop goes on, or it ends.
pub data Next : Type 0 where
  goes : Session → List Action → Next
  leaves : ClientResult → Next

abbrev pub goes_on : Session × List Action → Next
goes_on (s, actions) = goes s actions

pub Next-cases :
    (n : Next)
    → ((r : ClientResult) × (n ≡ leaves r))
      ⊎ ((s : Session) × (actions : List Action) × (n ≡ goes s actions))
Next-cases (leaves r) = inl (r, refl)
Next-cases (goes s actions) = inr (s, actions, refl)

-- The loop of a session over the arms in their order: the session, what it did, and how it ended, if
-- it has.
unfoldable pub run_session :
    (Session → Arm → Next) → Session → List Arm → Session × List Action × Option ClientResult
run_session step s [] = (s, [], none)
run_session step s (a ∷ arms) = elim (step s a) [
  | leaves result ↦ (s, [], some result)
  | goes s' actions ↦
      let (last, later, result) = run_session step s' arms in (last, actions ++ later, result)
]

module _ (mappings : List PortMapping) where
  unfoldable pub on_message : Session → Option TunnelMessage → Next
  on_message s none = goes s []
  on_message s (some msg) = goes_on (handle_server_message mappings s msg)

  -- A text that says that the takeover is complete ends the run of an old process.
  unfoldable pub on_text : Session → Option TunnelMessage → Next
  on_text s (some (Tunnel.takeover_complete new_session_id)) = leaves takeover_complete
  on_text s msg = on_message s msg

  -- `on_texts` is what the run does with a text, `result` the result of a run that is cut.
  unfoldable pub arm_with :
      (on_texts : Session → Option TunnelMessage → Next)
      → (result : ClientResult) → Session
      → Arm
      → Next
  arm_with on_texts result s is_shut_down = leaves shutdown
  arm_with on_texts result s (arrives (text msg)) = on_texts s msg
  arm_with on_texts result s (arrives (binary msg)) = on_message s msg
  arm_with on_texts result s (arrives ping) = goes s []
  arm_with on_texts result s (arrives pong) = goes s []
  arm_with on_texts result s (arrives closes) = leaves result
  arm_with on_texts result s (arrives (breaks error)) = leaves result
  arm_with on_texts result s (arrives ends) = leaves result
  arm_with on_texts result s (writes is_taken) = if is_taken then goes s [] else leaves result
  arm_with on_texts result s (happens event) = goes_on (on_event s event)

  -- The loop of `run_client`.
  unfoldable pub arm : Session → Arm → Next
  arm s a = arm_with on_text disconnected s a

  -- The loop of `run_client_takeover`.
  unfoldable pub arm_takeover : Session → Arm → Next
  arm_takeover s a = arm_with on_message takeover_success s a

-- What a frame means to the wait for a takeover: it is passed over, the ports are switched, or the
-- takeover has failed.
pub data Reply : Type 0 where
  passed switched : Reply
  fails : (error : String) → Reply

unfoldable pub reply_of : (session_id : String) → TunnelMessage → Reply
reply_of session_id (takeover_ready id) = if id == session_id then switched else passed
reply_of session_id (Tunnel.takeover_failed error) = fails error
reply_of session_id other = passed

unfoldable pub reply : (session_id : String) → Frame → Reply
reply session_id (text none) = passed
reply session_id (text (some msg)) = reply_of session_id msg
reply session_id (binary msg) = passed
reply session_id ping = passed
reply session_id pong = passed
reply session_id closes = fails "Server closed connection"
reply session_id (breaks error) = fails ("WebSocket error: " ⊕ error)
reply session_id ends = fails "WebSocket stream ended"

-- The wait for the answer to a takeover request, which gives the failure, if there is one; where the
-- list ends, thirty seconds are over.
unfoldable pub await_takeover : (session_id : String) → List Frame → Option ClientResult
await_takeover session_id [] = some (takeover_failed "Takeover timeout")
await_takeover session_id (f ∷ frames) =
    let rest = await_takeover session_id frames in
    elim (reply session_id f) [
      | passed ↦ rest
      | switched ↦ none
      | fails error ↦ some (takeover_failed error)
    ]

-- How a call of `run_client` ends: without a connection, with a connection that breaks before the
-- configuration is sent, or with a result.
pub data Ran : Type 0 where
  unconnected cut : (error : String) → Ran
  ended : ClientResult → Ran

-- A round of the loop, with the moments at which the shutdown is seen.
pub record Round : Type 0 where
  pub shut_before : Bool
  pub ran : Ran
  pub connected_at : ℕ
  pub shut_after : Bool
  pub shut_in_delay : Bool

pub data LoopEnd : Type 0 where
  stops exits : LoopEnd

unfoldable pub after_run : Ran → (now : ℕ) → TunnelClientState → TunnelClientState
after_run (unconnected error) now s = record s {
  connected = false;
  connected_at = none;
  last_error = some error;
}
after_run (cut error) now s = record s {
  connected = true;
  connected_at = some now;
  last_error = some error;
}
after_run (ended result) now s = record s {
  connected = false;
  connected_at = some now;
  last_error = none;
}

-- The result of the call makes the loop end.
unfoldable pub ends_loop : Ran → Option LoopEnd
ends_loop (ended shutdown) = some stops
ends_loop (ended takeover_complete) = some exits
ends_loop other = none

abbrev count_up : TunnelClientState → TunnelClientState
count_up s = record s { reconnect_count = (s.reconnect_count + 1) % 4294967296 }

-- The state after a round, and how the loop ends in it, if it does. The counter is `u32`, which wraps
-- around.
unfoldable pub run_round : Round → TunnelClientState → TunnelClientState × Option LoopEnd
run_round r s = if r.shut_before then (s, some stops) else elim (ends_loop r.ran) [
  | some how ↦ (after_run r.ran r.connected_at s, some how)
  | none ↦
      if r.shut_after
      then (after_run r.ran r.connected_at s, some stops)
      else if r.shut_in_delay
      then (count_up (after_run r.ran r.connected_at s), some stops)
      else (count_up (after_run r.ran r.connected_at s), none)
]

-- The loop of `start`, for as many rounds as are listed.
unfoldable pub connect_rounds : List Round → TunnelClientState → TunnelClientState × Option LoopEnd
connect_rounds [] s = (s, none)
connect_rounds (r ∷ rs) s =
    let (s', how) = run_round r s in
    let rest = connect_rounds rs s' in elim how [ none ↦ rest | some h ↦ (s', some h) ]

-- Without mappings the client does not start.
unfoldable pub start :
    List PortMapping → List Round → TunnelClientState → TunnelClientState × Option LoopEnd
start [] rs s = (s, some stops)
start (m ∷ ms) rs s = connect_rounds rs s
