-- ===== src/LogHub.antt =====
-- src/state/log_hub.rs: one broadcast channel for the log of each task. tokio's channel is not
-- modelled: a sender is its identity, which the caller supplies for a new channel, and the number
-- of its receivers is a function that `cleanup_expired` is given.
pub mod Channels
mod Tests
use xjp_deploy_agent.Prelude.{
  ltb, if◌then◌else◌, map_option, nat_eq, string_eq, ℕ, ◌-◌, ◌/◌, String, Bool, true, Option, none,
  some, [],
}
use xjp_deploy_agent.HashMap
use xjp_deploy_agent.HashMap.{HashMap}

pub record LogChannel : Type 0 where
  pub sender : ℕ
  pub created_at : ℕ

pub record LogHub : Type 0 where
  pub channels : HashMap String LogChannel

unfoldable pub new : LogHub
new = record { channels = [] }

-- The hub and the sender for the task: that of the existing channel, or `fresh` in a new one.
unfoldable pub create : LogHub → String → ℕ → ℕ → LogHub × ℕ
create h id fresh now = elim (HashMap.get h.channels id) [
  | some channel ↦ (h, channel.sender)
  | none ↦ (
    record {
      channels = HashMap.insert h.channels id (record { sender = fresh; created_at = now });
    },
    fresh,
  )
]

-- The sender that a new receiver of the task listens to.
unfoldable pub subscribe : LogHub → String → Option ℕ
subscribe h id = map_option (λ (c : LogChannel). c.sender) (HashMap.get h.channels id)

unfoldable pub get_sender : LogHub → String → Option ℕ
get_sender h id = map_option (λ (c : LogChannel). c.sender) (HashMap.get h.channels id)

unfoldable pub finish : LogHub → String → LogHub
finish h id = record { channels = HashMap.remove h.channels id }

unfoldable pub exists : LogHub → String → Bool
exists h id = HashMap.contains_key h.channels id

-- `age.num_hours() < max_age_hours`, for a clock that does not run backwards.
unfoldable pub is_live : (ℕ → ℕ) → ℕ → ℕ → LogChannel → Bool
is_live receiver_count max_age_hours now c =
    if ltb ((now - c.created_at) / 3600000) max_age_hours
    then true
    else ltb 0 (receiver_count c.sender)

unfoldable pub cleanup_expired : (ℕ → ℕ) → LogHub → ℕ → ℕ → LogHub
cleanup_expired receiver_count h max_age_hours now = record {
  channels = HashMap.retain_entries (λ id c. is_live receiver_count max_age_hours now c) h.channels;
}

unfoldable pub count : LogHub → ℕ
count h = HashMap.len h.channels
