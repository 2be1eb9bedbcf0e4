-- ===== src/Tests/Data.antt =====
-- The concrete tables and services that the tests run on.
use Prim.Native.String.{◌++◌}
use eventcommerce.Base.{false, ℕ, zero, suc, true, none, some, [], ◌∷◌}
use eventcommerce.Base.Int.{pos}
use eventcommerce.Base.Decimal.{finite}
use eventcommerce.Result.{Uuid}
use eventcommerce.Session.{Db}
use eventcommerce.Inventory.Domain.{Inventory}
use eventcommerce.Catalog.Domain.{Product}
use eventcommerce.Orders.Domain.{OrderItem}
use eventcommerce.Runtime.Handlers.{Services}

abbrev pub ids : ℕ → Uuid
ids zero = "i"
ids (suc n) = "i" ++ ids n

abbrev pub services : Services
services = record { parse_uuid = some; approval_policy = λ _ _ _. true }

abbrev pub cup : Inventory
cup = record { product_id = "cup"; available_quantity = pos 5; reserved_quantity = pos 0 }

abbrev pub pot : Inventory
pot = record { product_id = "pot"; available_quantity = pos 1; reserved_quantity = pos 0 }

abbrev pub two_cups : OrderItem
two_cups = record { product_id = "cup"; quantity = pos 2 }

abbrev pub three_pots : OrderItem
three_pots = record { product_id = "pot"; quantity = pos 3 }

-- A cup at 4.50.
abbrev pub cup_product : Product
cup_product = record {
  id = "cup";
  name = "Cup";
  description = none;
  price = finite (pos 450) 2;
  currency = "EUR";
  active = true;
  created_at = 0;
  updated_at = 0;
}

abbrev pub start : Db
start = record {
  inventory = cup ∷ pot ∷ [];
  products = cup_product ∷ [];
  orders = [];
  payments = [];
  notifications = [];
  processed_events = [];
  outbox_events = [];
  domain_events = [];
  carts = [];
  cart_items = [];
  users = [];
  refresh_tokens = [];
  collation = λ _ _. false;
  next_secrets = ids;
  next_uuids = ids;
  next_times = λ n. n;
}
