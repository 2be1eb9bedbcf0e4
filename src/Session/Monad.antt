-- ===== src/Session/Monad.antt =====
-- The tables and the monad of methods.
use eventcommerce.Base.{String, ℕ, suc, Bool, Option, none, some, List, if◌then◌else◌, ◌≡◌, ap}
use eventcommerce.Result.{Uuid, Time, Error, Result, ok, err}
use eventcommerce.Orders.Domain.{Order}
use eventcommerce.Inventory.Domain.{Inventory}
use eventcommerce.Payments.Domain.{Payment}
use eventcommerce.Catalog.Domain.{Product}
use eventcommerce.Notifications.Domain.{Notification}
use eventcommerce.Cart.Domain.{Cart, CartLine}
use eventcommerce.Iam.Domain.{User, RefreshToken}
use eventcommerce.Messaging.Events.{OutboxEvent, DomainEvent, ProcessedEvent}

pub record Db : Type 0 where
  pub inventory : List Inventory
  pub products : List Product
  pub orders : List Order
  pub payments : List Payment
  pub notifications : List Notification
  pub processed_events : List ProcessedEvent
  pub outbox_events : List OutboxEvent
  pub domain_events : List DomainEvent
  pub carts : List Cart
  pub cart_items : List CartLine
  pub users : List User
  pub refresh_tokens : List RefreshToken
  pub collation : String → String → Bool
  pub next_secrets : ℕ → String
  pub next_uuids : ℕ → Uuid
  pub next_times : ℕ → Time

abbrev pub Action : Type 0 → Type 0
Action A = Db → Result A × Db

module _ {A : Type 0} where
  abbrev pub pure : A → Action A
  pure a db = (ok a, db)

  abbrev pub raise : Error → Action A
  raise e db = (err e, db)

  abbrev pub lift : Result A → Action A
  lift r db = (r, db)

  abbrev pub gets : (Db → A) → Action A
  gets f db = (ok (f db), db)

  abbrev pub or_raise : Option A → Error → Action A
  or_raise none e db = (err e, db)
  or_raise (some a) e db = (ok a, db)

abbrev pub modify : (Db → Db) → Action Unit
modify f db = (ok tt, f db)

abbrev pub raise_if : Bool → Error → Action Unit
raise_if c e db = (if c then err e else ok tt, db)

infixl 5 ◌>>=◌ ◌>>◌
abbrev pub ◌>>=◌ : {A B : Type 0} → Action A → (A → Action B) → Action B
◌>>=◌ m f db = let (r, db') = m db in elim r [ ok a ↦ f a db' | err e ↦ (err e, db') ]

abbrev pub ◌>>◌ : {A B : Type 0} → Action A → Action B → Action B
m >> k = m >>= λ _. k

abbrev pub uuid4 : Action Uuid
uuid4 db = (ok (db.next_uuids 0), record db { next_uuids = λ n. db.next_uuids (suc n) })

-- `secrets.token_urlsafe`
abbrev pub token_urlsafe : Action String
token_urlsafe db =
    (ok (db.next_secrets 0), record db { next_secrets = λ n. db.next_secrets (suc n) })

abbrev pub utc_now : Action Time
utc_now db = (ok (db.next_times 0), record db { next_times = λ n. db.next_times (suc n) })

-- `async with session.begin()`: an exception rolls the session back and is raised again.
abbrev pub in_transaction : {A : Type 0} → Action A → Action A
in_transaction m db = let (r, db') = m db in elim r [ ok a ↦ (ok a, db') | err e ↦ (err e, db) ]

-- To step over the first part of a block by an equation about it.
module _ {A B : Type 0} (m : Action A) (f : A → Action B) (db : Db) where
  pub >>=-eq : {r : Result A × Db} → m db ≡ r → (m >>= f) db ≡ ((λ _. r) >>= f) db
  >>=-eq e = ap (λ (r : Result A × Db). ((λ _. r) >>= f) db) e
