-- ===== src/Checkout/Answers.antt =====
-- Keys of checkout requests whose response is stored: what `claim` and `fetch_cached` of
-- backend/app/shared/messaging/idempotency.py say of them.
use eventcommerce.Base.{
  ℕ, String, true, ◌≡◌, refl, Option, none, some, merged, if◌then◌else◌, ◌==◌, string_eq, pair_eq,
  Bool-cases, inl, inr, eq_iff, ap, subst, arith,
}
use eventcommerce.Result.{Result, ok}
use eventcommerce.Session.{Db}
use eventcommerce.Messaging.Events.{ProcessedEvent, ResponseBody}
use eventcommerce.Messaging.Idempotency.{
  ClaimResult, replay_match, conflict, claim_key, claim_row, claim, claim_with, is_completed,
  same_hash, complete_with_response, fetch_cached, replace_row, cached, put_row,
}
use eventcommerce.Messaging.Claims.{stored, stored_row, claim_row-stored, complete-stored}
use eventcommerce.Checkout.Execute.{CheckoutResult, checkout_consumer_name}

-- The row of the key holds the response to requests with the hash `request_hash`.
pub record Answers (key request_hash : String) (result : CheckoutResult) (db : Db) : Type 0 where
  pub row : ProcessedEvent
  pub found : claim_row key checkout_consumer_name db ≡ some row
  pub completed : is_completed row.state ≡ true
  pub hash : row.payload_hash ≡ some request_hash
  pub response :
      cached (some row) ≡ some (record { status = result.status_code; body = result.body })

module _ {key request_hash : String} {result : CheckoutResult} {db : Db} where
  -- A later claim writes nothing.
  pub Answers-claim :
      (other_hash : String)
      → Answers key request_hash result db
      → claim key checkout_consumer_name other_hash db
        ≡ (ok (if request_hash == other_hash then replay_match else conflict), db)
  unfolding claim claim_with
  Answers-claim other_hash a = rw (a.found) (rw (a.completed, a.hash))

  pub Answers-fetch_cached :
      Answers key request_hash result db
      → fetch_cached key checkout_consumer_name db
        ≡ (ok (some (record { status = result.status_code; body = result.body })), db)
  unfolding fetch_cached
  Answers-fetch_cached a = rw (a.found) (rw (a.response))

same_hash-some : (stored : Option String) (h : String) → same_hash stored h ≡ true → stored ≡ some h
same_hash-some none h e = absurd (ground (arith, e))
same_hash-some (some s) h e = ap some ((eq_iff s h).0 e)

-- Only a completed row with the same hash is replayed, and the claim writes nothing.
pub record Replayed (key request_hash : String) (db after : Db) : Type 0 where
  pub row : ProcessedEvent
  pub found : claim_row key checkout_consumer_name db ≡ some row
  pub completed : is_completed row.state ≡ true
  pub hash : row.payload_hash ≡ some request_hash
  pub unchanged : db ≡ after

module _ (key request_hash : String) where
  claim_with-Replayed :
      (found : Option ProcessedEvent) (db after : Db)
      → claim_row key checkout_consumer_name db ≡ found
      → claim_with key checkout_consumer_name request_hash found db ≡ (ok replay_match, after)
      → Replayed key request_hash db after
  unfolding claim_with put_row
  claim_with-Replayed none db after is e = cc
  claim_with-Replayed (some row) db after is e = elim (Bool-cases (is_completed row.state)) [
    | inl done ↦ elim (Bool-cases (same_hash row.payload_hash request_hash)) [
      | inl same ↦ record {
        row = row;
        found = is;
        completed = done;
        hash = same_hash-some row.payload_hash request_hash same;
        unchanged = ap (λ (r : Result ClaimResult × Db). r.1) (rw (done, same) at e);
      }
      | inr other ↦ cc (rw (done, other) at e)
    ]
    | inr pending ↦ cc (rw pending at e)
  ]

  pub claim-Replayed :
      (db after : Db)
      → claim key checkout_consumer_name request_hash db ≡ (ok replay_match, after)
      → Replayed key request_hash db after
  unfolding claim
  claim-Replayed db after e =
      claim_with-Replayed (claim_row key checkout_consumer_name db) db after refl e

  merged-response :
      (status : ℕ) (body : ResponseBody) (found : Option ProcessedEvent) (db : Db)
      → claim_row key checkout_consumer_name db
        ≡ some (
            merged claim_key replace_row
              (stored_row key checkout_consumer_name status body request_hash found)
              found)
      → Answers key request_hash (record { status_code = status; body = body }) db
  merged-response status body none db e = record {
    row = _;
    found = e;
    completed = refl;
    hash = refl;
    response = refl;
  }
  merged-response status body (some row) db e = record {
    row = _;
    found = e;
    completed = refl;
    hash = refl;
    response = refl;
  }

  -- Storing a response makes it the answer.
  pub complete_with_response-Answers :
      (response_bytes : ResponseBody → ℕ) (status : ℕ) (body : ResponseBody) (db after : Db)
      → complete_with_response response_bytes key checkout_consumer_name status body request_hash db
        ≡ (ok tt, after)
      → Answers key request_hash (record { status_code = status; body = body }) after
  complete_with_response-Answers response_bytes status body db after done =
      subst (Answers key request_hash (record { status_code = status; body = body }))
        (complete-stored key checkout_consumer_name status body request_hash response_bytes db after
          done)
        (merged-response status body (claim_row key checkout_consumer_name db)
          (stored key checkout_consumer_name status body request_hash db)
          (claim_row-stored key checkout_consumer_name status body request_hash db))
