-- ===== src/Iam/Accounts.antt =====
-- Registration and authentication: backend/app/modules/iam/application/register_user.py,
-- authenticate_user.py and passwords.py, over `SqlAlchemyUserRepository` of
-- backend/app/modules/iam/infrastructure/sqlalchemy_repository.py.
use Prim.Native.String.{count}
use eventcommerce.Base.{
  ℕ, String, Bool, true, false, not, ◌||◌, Option, none, some, [], ◌∷◌, ◌++◌, find, ltb, string_eq,
}
use eventcommerce.Result.{value_error, duplicate_email, invalid_credentials}
use eventcommerce.Session.{
  Db, Action, pure, raise_if, or_raise, gets, modify, uuid4, utc_now, token_urlsafe, ◌>>=◌, ◌>>◌,
}
use eventcommerce.Iam.Domain.{User, shopper}

-- `strip`, `casefold` and `lower` are Python's methods of a text, `db_lower` is the database's
-- `lower`. `hash` is pwdlib's with the salt that it draws, and `verify` is `none` where it raises.
pub record AccountServices : Type 0 where
  pub strip : String → String
  pub casefold : String → String
  pub lower : String → String
  pub db_lower : String → String
  pub hash : String → String → String
  pub verify : String → String → Option Bool
  pub dummy_hash : String

abbrev pub min_password_length : ℕ
min_password_length = 8

abbrev pub max_password_length : ℕ
max_password_length = 128

abbrev pub is_user : Option User → Bool
is_user none = false
is_user (some _) = true

abbrev pub true_or_raised : Option Bool → Bool
true_or_raised none = false
true_or_raised (some verified) = verified

module _ (services : AccountServices) where
  abbrev pub normalize_email : String → String
  normalize_email email = services.casefold (services.strip email)

  -- The salt is one of the secrets that the environment gives.
  abbrev pub hash_password : String → Action String
  hash_password password = do salt ← token_urlsafe; pure (services.hash salt password)

  abbrev pub verify_password : String → String → Bool
  verify_password password password_hash = true_or_raised (services.verify password password_hash)

  abbrev pub email_key : User → String
  email_key user = services.db_lower user.email

  -- The row of a normalized email; a unique index leaves at most one.
  abbrev pub email_row : String → Db → Option User
  email_row normalized db = find email_key (services.lower normalized) db.users

  unfoldable pub get_by_email : String → Action (Option User)
  get_by_email normalized = gets (email_row normalized)

  -- The flush fails on the unique index; the session is rolled back by the caller's failure.
  unfoldable pub add_user : User → Action Unit
  add_user user = do
    taken ← gets (λ db. is_user (find email_key (services.db_lower user.email) db.users))
    raise_if taken duplicate_email
    modify (λ db. record db { users = db.users ++ user ∷ [] })

  -- The part of `register_user` after its tests.
  unfoldable pub create_user : String → String → Action User
  create_user normalized password = do
    now ← utc_now
    id ← uuid4
    password_hash ← hash_password password
    let user : User = record {
      id = id;
      email = normalized;
      password_hash = password_hash;
      role = shopper;
      created_at = now;
      updated_at = now;
    }
    add_user user
    pure user

  unfoldable pub register_user : String → String → Action User
  unfolding get_by_email
  register_user email password = do
    raise_if (ltb (count password) min_password_length || ltb max_password_length (count password))
        value_error
    found ← get_by_email (normalize_email email)
    raise_if (is_user found) duplicate_email
    create_user (normalize_email email) password

  abbrev pub candidate_hash : Option User → String
  candidate_hash none = services.dummy_hash
  candidate_hash (some user) = user.password_hash

  -- An unknown email is verified against the dummy hash.
  unfoldable pub authenticate_user : String → String → Action User
  unfolding get_by_email
  authenticate_user email password = do
    found ← get_by_email (normalize_email email)
    raise_if (not (verify_password password (candidate_hash found))) invalid_credentials
    or_raise found invalid_credentials
