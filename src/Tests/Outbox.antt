-- ===== src/Tests/Outbox.antt =====
-- Two events of the outbox, one of them sent, and a broker that comes back.
use eventcommerce.Base.{
  ℕ, ◌≤◌, ◌≡◌, refl, String, true, none, [], ◌∷◌, map, length, drop, arith, sort_by,
}
use eventcommerce.Result.{ok}
use eventcommerce.Session.{Db}
use eventcommerce.Messaging.Events.{OutboxEvent, OutboxStatus, EventType, Payload}
use eventcommerce.Messaging.Worker.{message_of, pending_events, limited, run_once}
use eventcommerce.Messaging.Draining.{HasDistinctIds}
use eventcommerce.Messaging.Runs.{backlog, takes_all, runs, run_once-sends_oldest, runs-drain}
use eventcommerce.Messaging.Backoff.{retry_loop, failing, Connects, Overflows, retry_loop-Connects}
use eventcommerce.Orders.Domain.{confirmed}
use eventcommerce.Tests.Data.{start}

abbrev event : String → ℕ → OutboxEvent
event id created_at = record {
  id = id;
  event_type = EventType.order_confirmed;
  aggregate_id = "o";
  payload = Payload.status confirmed;
  status = OutboxStatus.pending;
  created_at = created_at;
  published_at = none;
}

-- The second row is the older one.
abbrev two_events : Db
two_events = record start { outbox_events = event "late" 9 ∷ event "early" 4 ∷ [] }

distinct_events : HasDistinctIds two_events.outbox_events
distinct_events = ((λ h. cc h, tt), (tt, tt))

run_once-sends_oldest_example :
    ((run_once takes_all 1 two_events).0
      ≡ ok (
        length (limited 1 (backlog two_events)),
        map message_of (limited 1 (backlog two_events)),
      ))
    × (backlog (run_once takes_all 1 two_events).1 ≡ drop 1 (backlog two_events))
    × HasDistinctIds (run_once takes_all 1 two_events).1.outbox_events
run_once-sends_oldest_example = run_once-sends_oldest 1 two_events distinct_events

two_pending : length (backlog two_events) ≡ 2
unfolding sort_by pending_events
two_pending = refl

runs-drain_example : pending_events (runs 2 1 two_events).outbox_events ≡ []
runs-drain_example = runs-drain 2 1 two_events distinct_events (omega (arith, two_pending))

abbrev longest : ℕ → ℕ → ℕ
longest lo hi = hi

longest_bounded : (lo hi : ℕ) → longest lo hi ≤ hi
longest_bounded lo hi = omega arith

retry_loop-Connects_example :
    Connects 3 (retry_loop longest 0 (failing 3 (true ∷ [])))
    × Overflows 1024 (retry_loop longest 0 (failing 1025 []))
retry_loop-Connects_example = retry_loop-Connects longest 3 [] longest_bounded (omega arith)
