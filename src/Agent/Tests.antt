-- ===== src/Agent/Tests.antt =====
-- The theorems on the queues of waiting deploys at concrete inputs.
