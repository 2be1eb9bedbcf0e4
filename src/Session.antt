-- ===== src/Session.antt =====
-- One database session: the tables as the code sees them, and the methods that read and write them
-- or raise. What was written before a raise stays written until the transaction is rolled back, so
-- the state comes back beside the error too.
--
-- `uuid4`, `datetime.now` and `secrets.token_urlsafe` are the environment's: what their next calls
-- will return is part of the state, and arbitrary. So is `collation`, the order in which the
-- database sorts texts: `collation s t` says that `s` comes before `t`.
mod Monad
pub mod Keeps
pub use Monad.*
