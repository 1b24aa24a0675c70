-- ===== src/Tunnel/Client/Takeover.antt =====
-- src/services/tunnel/client.rs: when a takeover counts as done, and how a run after a takeover ends.
use xjp_deploy_agent.Prelude.{
  Bool-cases, ◌==◌, nat_eq, string_eq, all, All, String, ◌≡◌, refl, sym, ap, ◌∙◌, subst, ◌↔◌, ◌⊎◌,
  inl, inr, true, false, none, some, List, [], ◌∷◌, ◌++◌, arith, eq_iff,
}
use xjp_deploy_agent.Tunnel
use xjp_deploy_agent.Tunnel.{PortMapping, TunnelMessage, takeover_ready}
use xjp_deploy_agent.Tunnel.Client.{
  ClientResult, shutdown, takeover_complete, takeover_success, Session,
}
use xjp_deploy_agent.Tunnel.Client.Run.{
  Frame, text, binary, ping, pong, closes, breaks, ends, Arm, is_shut_down, arrives, writes,
  happens, Next, leaves, run_session, Next-cases, on_message, on_text, arm_with, arm, arm_takeover,
  await_takeover, Reply, passed, switched, fails, reply_of, reply,
}

-- The frame by which the server says that the ports are switched.
abbrev pub ready : (session_id : String) → Frame
ready session_id = text (some (takeover_ready session_id))

reply_of-switched :
    (session_id : String) (msg : TunnelMessage)
    → reply_of session_id msg ≡ switched
    → msg ≡ takeover_ready session_id
unfolding reply_of
reply_of-switched session_id (Tunnel.config a b) h = cc
reply_of-switched session_id (Tunnel.connect a b) h = cc
reply_of-switched session_id (Tunnel.connected a) h = cc
reply_of-switched session_id (Tunnel.connect_failed a b) h = cc
reply_of-switched session_id (Tunnel.payload a b) h = cc
reply_of-switched session_id (Tunnel.close a) h = cc
reply_of-switched session_id Tunnel.ping h = cc
reply_of-switched session_id Tunnel.pong h = cc
reply_of-switched session_id (Tunnel.http_request a b c d e) h = cc
reply_of-switched session_id (Tunnel.http_response a b c d) h = cc
reply_of-switched session_id (Tunnel.http_error a b) h = cc
reply_of-switched session_id (Tunnel.takeover a b c) h = cc
reply_of-switched session_id (Tunnel.takeover_complete a) h = cc
reply_of-switched session_id (Tunnel.takeover_failed a) h = cc
reply_of-switched session_id (takeover_ready id) h = elim (Bool-cases (id == session_id)) [
  | inl same ↦ ap takeover_ready ((eq_iff id session_id).0 same)
  | inr other ↦ absurd (ground (arith, other, h))
]

reply-switched :
    (session_id : String) (f : Frame) → reply session_id f ≡ switched → f ≡ ready session_id
unfolding reply
reply-switched session_id (text none) h = cc
reply-switched session_id (text (some msg)) h =
    ap (λ m. text (some m)) (reply_of-switched session_id msg h)
reply-switched session_id (binary msg) h = cc
reply-switched session_id ping h = cc
reply-switched session_id pong h = cc
reply-switched session_id closes h = cc
reply-switched session_id (breaks error) h = cc
reply-switched session_id ends h = cc

-- The frames are some that are passed over, then the server's word, then any.
abbrev pub IsSwitched : (session_id : String) → List Frame → Type 0
IsSwitched session_id frames =
    (before : List Frame) × (later : List Frame) × (frames ≡ before ++ ready session_id ∷ later)
    × All (λ f. reply session_id f ≡ passed) before

Reply-cases : (r : Reply) → (r ≡ passed) ⊎ ((r ≡ switched) ⊎ ((error : String) × (r ≡ fails error)))
Reply-cases passed = inl refl
Reply-cases switched = inr (inl refl)
Reply-cases (fails error) = inr (inr (error, refl))

await_takeover-IsSwitched :
    (session_id : String) (frames : List Frame)
    → await_takeover session_id frames ≡ none
    → IsSwitched session_id frames
unfolding await_takeover
await_takeover-IsSwitched session_id [] h = cc
await_takeover-IsSwitched session_id (f ∷ frames) h = elim (Reply-cases (reply session_id f)) [
  | inl e ↦
      let (before, later, split, all) =
        await_takeover-IsSwitched session_id frames (ground (arith, e, h)) in
      (f ∷ before, later, ap (◌∷◌ f) split, (e, all))
  | inr (inl e) ↦ ([], frames, ap (λ g. g ∷ frames) (reply-switched session_id f e), tt)
  | inr (inr (error, e)) ↦ absurd (ground (arith, e, h))
]

IsSwitched-await_takeover :
    (session_id : String) (before later : List Frame)
    → All (λ f. reply session_id f ≡ passed) before
    → await_takeover session_id (before ++ ready session_id ∷ later) ≡ none
unfolding await_takeover reply reply_of
IsSwitched-await_takeover session_id [] later all = ground (arith, eq_iff session_id session_id)
IsSwitched-await_takeover session_id (f ∷ before) later all =
    ground (arith, all.0, IsSwitched-await_takeover session_id before later all.1)

-- A takeover counts as done exactly if the server's word for this very session arrives, and before it
-- within the time neither the server's refusal nor the end of the connection; the word for another
-- session is passed over.
pub await_takeover_iff :
    (session_id : String) (frames : List Frame)
    → (await_takeover session_id frames ≡ none) ↔ IsSwitched session_id frames
await_takeover_iff session_id frames = (
  await_takeover-IsSwitched session_id frames,
  λ (p : IsSwitched session_id frames).
      subst (λ fs. await_takeover session_id fs ≡ none) (sym p.2)
        (IsSwitched-await_takeover session_id p.0 p.1 p.3),
)

-- A run that ends, ends with a result that passes.
module _ (step : Session → Arm → Next) (P : ClientResult → Type 0)
    (steps : (s : Session) (a : Arm) (r : ClientResult) → step s a ≡ leaves r → P r) where
  run_session-ends :
      (s : Session) (arms : List Arm) (r : ClientResult)
      → (run_session step s arms).2 ≡ some r
      → P r
  unfolding run_session
  run_session-ends s [] r h = cc
  run_session-ends s (a ∷ arms) r h = elim (Next-cases (step s a)) [
    | inl (result, e) ↦ steps s a r (e ∙ ap leaves (ground (arith, e, h)))
    | inr (s', actions, e) ↦ run_session-ends s' arms r (ground (arith, e, h))
  ]

arm_takeover-ends :
    (ms : List PortMapping) (s : Session) (a : Arm) (r : ClientResult)
    → arm_takeover ms s a ≡ leaves r
    → (r ≡ shutdown) ⊎ (r ≡ takeover_success)
unfolding arm_takeover arm_with on_message
arm_takeover-ends ms s is_shut_down r h = inl (ground arith)
arm_takeover-ends ms s (arrives (text none)) r h = cc
arm_takeover-ends ms s (arrives (text (some msg))) r h = cc
arm_takeover-ends ms s (arrives (binary none)) r h = cc
arm_takeover-ends ms s (arrives (binary (some msg))) r h = cc
arm_takeover-ends ms s (arrives ping) r h = cc
arm_takeover-ends ms s (arrives pong) r h = cc
arm_takeover-ends ms s (arrives closes) r h = inr (ground arith)
arm_takeover-ends ms s (arrives (breaks error)) r h = inr (ground arith)
arm_takeover-ends ms s (arrives ends) r h = inr (ground arith)
arm_takeover-ends ms s (writes true) r h = cc
arm_takeover-ends ms s (writes false) r h = inr (ground arith)
arm_takeover-ends ms s (happens event) r h = cc

-- A run in takeover mode ends only by a shutdown or with the result that says success, also when the
-- connection is lost and whatever the server says; so a message that another process has taken over
-- never ends it, while it ends the run of a client that was started in the usual way.
pub run_takeover_lem :
    (ms : List PortMapping) (s t : Session) (arms : List Arm) (r : ClientResult) (id : String)
    → (run_session (arm_takeover ms) s arms).2 ≡ some r
    → ((r ≡ shutdown) ⊎ (r ≡ takeover_success))
      × (arm ms t (arrives (text (some (Tunnel.takeover_complete id)))) ≡ leaves takeover_complete)
unfolding arm arm_with on_text
run_takeover_lem ms s t arms r id h = (
  run_session-ends (arm_takeover ms) (λ r'. (r' ≡ shutdown) ⊎ (r' ≡ takeover_success))
      (arm_takeover-ends ms) s arms r h,
  refl,
)
