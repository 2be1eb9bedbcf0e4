-- ===== src/Runtime/Publishing.antt =====
-- The outbox worker keeps what marking one event as published keeps:
-- backend/app/shared/messaging/worker.py.
use eventcommerce.Base.{ℕ, Bool, List, [], ◌∷◌}
use eventcommerce.Result.{Uuid}
use eventcommerce.Session.{Db, Action, pure, ◌>>=◌}
use eventcommerce.Session.Keeps.{Keeps, keeps_rules, Keeps-bind, Keeps-pure, Keeps-if}
use eventcommerce.Messaging.Events.{OutboxEvent}
use eventcommerce.Messaging.Worker.{
  Message, run_once, publish_all, mark_and_go_on, mark_published, count_sent,
}

module _ {P : Db → Type 0} (marks : (id : Uuid) → Keeps P (mark_published id)) where
  mark_and_go_on-Keeps :
      (e : OutboxEvent) (rest : Action (ℕ × List Message))
      → Keeps P rest
      → Keeps P (mark_and_go_on e rest)
  unfolding mark_and_go_on
  mark_and_go_on-Keeps e rest h =
      Keeps-bind (mark_published e.id) (λ _. rest >>= λ done. pure (count_sent e done)) (marks e.id)
        (λ _.
          Keeps-bind rest (λ done. pure (count_sent e done)) h
            (λ done. Keeps-pure (count_sent e done)))

  publish_all-Keeps :
      (publish : OutboxEvent → Bool) (es : List OutboxEvent) → Keeps P (publish_all publish es)
  unfolding publish_all
  publish_all-Keeps publish [] = search keeps_rules
  publish_all-Keeps publish (e ∷ es) =
      Keeps-if (publish e) (mark_and_go_on e (publish_all publish es)) (publish_all publish es)
        (λ _. mark_and_go_on-Keeps e (publish_all publish es) (publish_all-Keeps publish es))
        (λ _. publish_all-Keeps publish es)

  pub run_once-Keeps :
      (publish : OutboxEvent → Bool) (batch_size : ℕ) → Keeps P (run_once publish batch_size)
  unfolding run_once
  run_once-Keeps publish batch_size = search (keeps_rules, publish_all-Keeps)
