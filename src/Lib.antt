-- ===== src/Lib.antt =====
-- Models and proofs for the order backend of eventcommerce, the Python program of backend/app.
--
-- The program takes orders over HTTP and settles them in two ways. A checkout
-- (modules/checkout) does everything in one database transaction: it claims the idempotency key,
-- projects a cart or takes inline lines, creates the order, reserves stock, authorizes a payment, and
-- confirms or cancels. An order that is created by itself is settled by events: every transition
-- writes a row of the outbox, a worker publishes the rows, and six queues deliver them to the
-- contexts (inventory, orders, payments, notifications), whose use cases answer with events of their
-- own. Each delivery is one transaction and is deduplicated by a row per message and consumer.
--
-- Files and the code they model:
--   Base/       shared helpers: tests, lists, tables under a key, sorting, integers, Python's Decimal
--   Result      identifiers, times and the exceptions of all contexts
--   Session/    the tables, and the monad of methods that read and write them or raise
--   Messaging/  Backoff is the reconnection of backend/app/messaging_runtime.py; the others are
--               backend/app/shared/messaging and shared/events: Events (rows and payloads), Outbox
--               (save and the event store), Idempotency (ProcessedEventStore), Worker (OutboxWorker
--               and the message that a publisher sends), Consumer (handle_message and its bindings);
--               Claims, Draining, Runs and Routing hold proofs
--   Orders/     backend/app/modules/orders: Domain (Order and its lifecycle), Repository, UseCases
--               (create, confirm, cancel, queries), Consumers (the three use cases behind queues);
--               Changes, Operations, Announcements and Preservation hold proofs
--   Inventory/  backend/app/modules/inventory: Domain, Repository, UseCases (reserve, release, adjust,
--               process_inventory_reservation, process_payment_rejected), Locking
--               (lock_and_check_availability); Conservation, Nonneg and Rejection hold proofs
--   Payments/   backend/app/modules/payments: Domain, UseCases (authorize_payment,
--               process_payment_failure, process_order_inventory_reserved with the total that it
--               derives from the catalog), Policy (is_payment_approved);
--               Totals holds proofs
--   Notifications/  backend/app/modules/notifications
--   Catalog/    backend/app/modules/catalog: Domain, Checks (validate_product and its parts),
--               Repository (with the constraints of the table), UseCases (CreateProduct, GetProduct,
--               ListProducts, UpdateProduct); Validation, Stored and Writes hold proofs
--   Iam/        backend/app/modules/iam: Domain, Accounts (register_user, authenticate_user and their
--               repository), Access (issue_token, verify_token), Tokens (issue_refresh_token,
--               rotate_refresh_token and their repository), RateLimit (RateLimiter and its
--               dependencies); SingleUse, Families, Credentials, Buckets, Admission and Windows hold
--               proofs
--   Operator/   backend/app/modules/operator: OrderQueue, CatalogRows, Simulation; Latest
--               holds proofs
--   Cart/       backend/app/modules/cart: Domain, Repository, View (build_cart_view), UseCases
--               (get_cart, add_item, set_item_quantity, remove_item); Ranges, Made, Bounds,
--               Counts and LineLimit hold proofs
--   Checkout/   backend/app/modules/checkout: Request (the rules of the request body), Inputs
--               (resolve_cart_inputs and the inline shape), Execute (Checkout.execute); the other
--               files hold proofs
--   Runtime/    Handlers is backend/app/messaging_runtime.py; Requests puts the use
--               cases of carts, the catalog and accounts under one type, as the routes commit them;
--               System is the program as a step relation, whose steps are those requests, the use
--               cases of orders, the stock and the checkout, deliveries, and runs of the worker; the
--               other files hold proofs
--   Web/        the routes.py of every module: Response (the answer, and the session that a route
--               commits or abandons), Access (get_current_user, require_roles), Orders (with the route
--               of the stock), Carts (with that of the checkout), Products, Identity, Operator, and
--               Requests, which puts the routes behind a token under one type, as create_app does;
--               Denials, Failures and Sessions hold proofs
--   Tests/      concrete runs, and the witnesses
--
-- A method is a function from the tables to a result and the tables after it. What was written
-- before an exception stays until the transaction is rolled back (in_transaction). One transaction
-- runs at a time, so that row locks and advisory locks read. uuid4, the clock, secrets and the
-- order in which the database sorts texts are part of the state and arbitrary. Integers are
-- unbounded and signed, as Python's; quantities in the tables have no constraint that keeps them
-- from below zero. The flush of a number that its column cannot hold (a quantity of the stock
-- beyond 32 bits, an amount of a payment beyond nine digits before the point) raises in the
-- database and is not modelled, nor is the clash of a uuid4 with a primary key that is taken.
--
-- The payload of a message is one of the shapes that the program writes, or no object; one that
-- another program has shaped otherwise (items that are no list, or that lack a key) is not
-- modelled. The reconnection loop runs until it connects or fails: the test of the stop event and
-- the cancellation of its task are left out.
--
-- The loop that creates a cart makes 5 attempts, as the code does, and raises after the last;
-- every other loop is structural. No definition runs on fuel.
--
-- A route is a function from the tables to an answer, a status with a body or a detail, and the
-- tables after it; an exception that no clause catches is a status 500. The requests are those
-- that the schema library lets through. The state of the rate limiters stands beside the tables,
-- and their clock counts in exact ticks. A float holds the powers of two below 2 ** 1024.
--
-- Parameters, for code outside the repository: SHA-256 and decimal formatting (Payments.Policy,
-- Iam.Tokens), PyJWT (Iam.Access), pwdlib and the database's lower (Iam.Accounts),
-- random.uniform, the integer of a UUID, str.strip, casefold, lower and upper, the lifetime of a
-- refresh token (a setting), the parsing of a UUID, the hash of a request, the length of a JSON
-- text, and whether the broker takes a message.
--
-- Not modelled: the schema library and the matching of paths, the health checks, settings, the
-- engine and the migrations, the broker connection, and the tasks of the runtime (their start,
-- their cancellation and the pauses of the scheduler).
pub mod Base
pub mod Result
pub mod Messaging
pub mod Session
pub mod Orders
pub mod Inventory
pub mod Payments
pub mod Catalog
pub mod Notifications
pub mod Cart
pub mod Checkout
pub mod Iam
pub mod Runtime
pub mod Operator
pub mod Web
pub mod Tests
