-- ===== src/Engine/Intent/Repair.antt =====
-- The repair of queued intents beside the aggregation.
