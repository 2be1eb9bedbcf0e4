-- ===== src/Runtime/Preservation.antt =====
-- The outbox worker and the primitives of the handlers keep the announcements in step with the orders.
use mathlib.Core.List.{foldl}
use eventcommerce.Base.{
  ℕ, Bool, ◌≡◌, refl, Option, none, some, List, [], ◌∷◌, ◌==◌, string_eq, inl, inr, Bool-cases, ap,
}
use eventcommerce.Result.{Uuid, Time}
use eventcommerce.Session.Keeps.{Keeps}
use eventcommerce.Messaging.Events.{OutboxEvent}
use eventcommerce.Messaging.Worker.{mark_rows, mark_published, run_once, publish_row}
use eventcommerce.Orders.Domain.{Status}
use eventcommerce.Orders.Announcements.{observe, replay, IsAnnounced}
use eventcommerce.Orders.Consumers.{
  process_order_inventory_result, process_order_payment_result, finalize_payment_authorized,
}
use eventcommerce.Runtime.Publishing.{run_once-Keeps}
use eventcommerce.Runtime.Primitives.{Primitives}
use eventcommerce.Orders.Preservation.{
  Keeps-Changes, Keeps-uuid4, Keeps-utc_now, Keeps-mark_processed, Keeps-save_outbox,
  Keeps-save_payment, Keeps-save_notification, Keeps-reserve_item, Keeps-release_item,
}
use eventcommerce.Orders.Operations.{
  Changes-process_order_inventory_result, Changes-process_order_payment_result,
  Changes-finalize_payment_authorized,
}

-- The primitives keep the announcements in step with the orders.
pub IsAnnounced-Primitives : Primitives IsAnnounced
IsAnnounced-Primitives = record {
  uuid = Keeps-uuid4;
  now = Keeps-utc_now;
  mark = Keeps-mark_processed;
  outbox = Keeps-save_outbox;
  payment = Keeps-save_payment;
  notification = Keeps-save_notification;
  reserve = Keeps-reserve_item;
  release = Keeps-release_item;
  inventory_outcome = λ event_id order_id result.
      Keeps-Changes (process_order_inventory_result event_id order_id result)
        (Changes-process_order_inventory_result event_id order_id result);
  payment_outcome = λ event_id order_id result.
      Keeps-Changes (process_order_payment_result event_id order_id result)
        (Changes-process_order_payment_result event_id order_id result);
  finalize = λ event_id order_id.
      Keeps-Changes (finalize_payment_authorized event_id order_id)
        (Changes-finalize_payment_authorized event_id order_id);
}

-- Publishing an event changes nothing that a replay reads.
observe-publish_row :
    (k : Uuid) (s : Option (Option Status)) (now : Time) (e : OutboxEvent)
    → observe k s (publish_row now e) ≡ observe k s e
observe-publish_row k none now e = refl
observe-publish_row k (some s) now e = refl

foldl-mark_rows :
    (k : Uuid) (s : Option (Option Status)) (id : Uuid) (now : Time) (es : List OutboxEvent)
    → foldl (observe k) s (mark_rows id now es) ≡ foldl (observe k) s es
unfolding mark_rows
foldl-mark_rows k s id now [] = refl
foldl-mark_rows k s id now (e ∷ es) = elim (Bool-cases (e.id == id)) [
  | inl here ↦ rw here (ap (λ t. foldl (observe k) t es) (observe-publish_row k s now e))
  | inr elsewhere ↦ rw elsewhere (foldl-mark_rows k (observe k s e) id now es)
]

Keeps-mark_published : (id : Uuid) → Keeps IsAnnounced (mark_published id)
unfolding mark_published replay
Keeps-mark_published id = record { at = λ db h. record { at = λ k. rw foldl-mark_rows (h.at k) } }

pub Keeps-run_once :
    (publish : OutboxEvent → Bool) (batch_size : ℕ)
    → Keeps IsAnnounced (run_once publish batch_size)
Keeps-run_once = run_once-Keeps Keeps-mark_published
