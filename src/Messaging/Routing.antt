-- ===== src/Messaging/Routing.antt =====
-- How the consumer finds the binding of a message: `_event_map` of
-- backend/app/shared/messaging/consumer.py.
use mathlib.Core.Option.{some-injective}
use eventcommerce.Base.{
  String, ◌≡◌, Option, none, some, List, [], ◌∷◌, All, subst, Bool-cases, inl, inr, contains,
  string_eq,
}
use eventcommerce.Messaging.Consumer.{ConsumerBinding, binding_for, keep_later}

keep_later-All :
    (P : ConsumerBinding → Type 0) (b : ConsumerBinding) (later : Option ConsumerBinding)
    → P b
    → ((c : ConsumerBinding) → later ≡ some c → P c)
    → (c : ConsumerBinding) → keep_later b later ≡ some c
    → P c
keep_later-All P b none p rest c e = subst P (some-injective b c e) p
keep_later-All P b (some later) p rest c e = rest c e

-- The binding that a message is routed to is one of the list.
pub binding_for-All :
    (P : ConsumerBinding → Type 0) (event_type : String) (bs : List ConsumerBinding)
    → All P bs
    → (c : ConsumerBinding) → binding_for event_type bs ≡ some c
    → P c
unfolding binding_for
binding_for-All P event_type [] h c e = cc
binding_for-All P event_type (b ∷ bs) h c e =
    elim (Bool-cases (contains event_type b.event_types)) [
      | inl here ↦
          keep_later-All P b (binding_for event_type bs) h.0 (binding_for-All P event_type bs h.1) c
            (rw here at e)
      | inr elsewhere ↦ binding_for-All P event_type bs h.1 c (rw elsewhere at e)
    ]
