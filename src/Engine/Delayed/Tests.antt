-- ===== src/Engine/Delayed/Tests.antt =====
-- The theorem on the delayed queue at a poll that breaks off.
use influence_platform.Prelude.{◌≡◌, true, ◌||◌, [], ◌∷◌, any, leb, ◌+◌}
use influence_platform.Js.Text.{Text, codes, ◌===◌}
use influence_platform.Engine.Delayed.{DelayedQueues, push_delayed, due, poll_delayed_queue}
use influence_platform.Engine.Delayed.Kept.{is_delayed, is_ready, poll-push_delayed}

abbrev packet : Text
packet = codes "packet"

abbrev queues : DelayedQueues
queues = record { delayed = (packet, 7) ∷ (codes "older", 5) ∷ []; ready = [] }

poll-push_delayed_example :
    ((is_delayed packet (poll_delayed_queue 100 3 (push_delayed 10 packet 50 queues))
        || is_ready packet (poll_delayed_queue 100 3 (push_delayed 10 packet 50 queues)))
      ≡ true)
    × (any (λ t. t === packet) (due 100 (push_delayed 10 packet 50 queues)) ≡ leb (10 + 50) 100)
poll-push_delayed_example = poll-push_delayed 10 100 3 50 packet queues
