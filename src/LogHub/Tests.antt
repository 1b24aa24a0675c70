-- ===== src/LogHub/Tests.antt =====
-- The theorems on the log hub at concrete inputs.
use xjp_deploy_agent.LogHub.{LogChannel}

abbrev channel : LogChannel
channel = record { sender = 7; created_at = 0 }
