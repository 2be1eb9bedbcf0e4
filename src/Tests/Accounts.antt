-- ===== src/Tests/Accounts.antt =====
-- One registration and sign-in, an access token, and a limiter of two attempts.
use eventcommerce.Base.{
  ℕ, ◌≤◌, ◌⊎◌, String, ◌≡◌, refl, Bool, true, false, Option, none, some, List, [], ◌∷◌, length,
  arith, find, upsert, ltb, leb, ◌&&◌, if◌then◌else◌, ◌==◌, string_eq,
}
use eventcommerce.Base as Base
use eventcommerce.Result.{ok, err, invalid_credentials}
use eventcommerce.Session.{Db}
use eventcommerce.Iam.Domain.{User}
use eventcommerce.Iam.Accounts.{AccountServices, register_user, authenticate_user, email_row}
use eventcommerce.Iam.Credentials.{
  registered, is_password_of, authenticate_user_lem, register_user-authenticate_user,
}
use eventcommerce.Iam.Access.{JwtServices, JwtSettings, TokenClaims}
use eventcommerce.Iam.RateLimit.{RateLimiter, live, check_and_record, pop_bucket}
use eventcommerce.Iam.Buckets.{outcomes, admitted, moments_of, in_window}
use eventcommerce.Iam.Admission.{outcomes-admitted}
use eventcommerce.Iam.Windows.{logged, logged-bounded}
use eventcommerce.Tests.Data.{start}
use eventcommerce.Tests.Tokens.{signed_in}

-- A hash is the password itself, which only it matches.
abbrev pub open_accounts : AccountServices
open_accounts = record {
  strip = λ text. text;
  casefold = λ text. text;
  lower = λ text. text;
  db_lower = λ text. text;
  hash = λ salt password. password;
  verify = λ password password_hash. some (password == password_hash);
  dummy_hash = "dummy";
}

abbrev with_ann : Db
with_ann = (register_user open_accounts "ann@example.org" "long enough" start).1

abbrev ann : User
ann = registered open_accounts "ann@example.org" "long enough" start

same_password : (salt p : String) → open_accounts.verify p (open_accounts.hash salt p) ≡ some true
same_password salt p = rw ((Base.eq_iff p p).1 refl) refl

register_user-authenticate_user_example :
    ((register_user open_accounts "ann@example.org" "long enough" start).0 ≡ ok ann)
    × (with_ann.users ≡ ann ∷ [])
    × ((authenticate_user open_accounts "ann@example.org" "long enough" with_ann).0 ≡ ok ann)
    × ((authenticate_user open_accounts "ann@example.org" "wrong" with_ann).0
        ≡ err invalid_credentials)
unfolding find
register_user-authenticate_user_example =
    register_user-authenticate_user open_accounts "ann@example.org" "long enough" "ann@example.org"
      "wrong" start same_password refl (omega arith) (omega arith) refl refl refl

authenticate_user_lem_example :
    ((user : User) × (email_row open_accounts "bob@example.org" signed_in ≡ some user)
      × (is_password_of open_accounts "x" (some user) ≡ true)
      × (authenticate_user open_accounts "bob@example.org" "x" signed_in ≡ (ok user, signed_in)))
    ⊎ ((is_password_of open_accounts "x" (email_row open_accounts "bob@example.org" signed_in)
          ≡ false)
        × (authenticate_user open_accounts "bob@example.org" "x" signed_in
            ≡ (err invalid_credentials, signed_in)))
authenticate_user_lem_example = authenticate_user_lem open_accounts "bob@example.org" "x" signed_in

abbrev pub signing : JwtSettings
signing = record {
  jwt_secret = "secret";
  jwt_issuer = "shop";
  jwt_audience = "shop";
  jwt_expires_minutes = 30;
}

abbrev pub claims_of_ann : TokenClaims
claims_of_ann = record {
  sub = some "ann";
  user_id = some "ann";
  email = some "ann@example.org";
  role = some "shopper";
  iss = "shop";
  aud = "shop";
  iat = 100;
  exp = 1900;
  purpose = some "access";
}

-- A PyJWT for one token.
abbrev pub one_token : JwtServices
one_token = record {
  encode = λ claims secret. "token";
  decode = λ token secret issuer audience now.
      if leb 100 now && ltb now 1900 then some claims_of_ann else none;
  strip = λ text. text;
  parse_uuid = some;
}

-- Five calls of one key and one of another; the window is ten ticks.
abbrev calls : List (String × ℕ)
calls = ("a", 1) ∷ ("a", 2) ∷ ("b", 3) ∷ ("a", 4) ∷ ("a", 11) ∷ ("a", 12) ∷ []

abbrev two_in_ten : RateLimiter
two_in_ten = record { max_attempts = 2; window = 10; ticks_per_second = 1; attempts = [] }

outcomes-admitted_example : outcomes calls two_in_ten ≡ admitted 2 10 calls []
outcomes-admitted_example =
    outcomes-admitted 2 10 1 calls
      (omega arith, (omega arith, (omega arith, (omega arith, (omega arith, (omega arith, tt))))))

calls_checked : outcomes calls two_in_ten ≡ true ∷ true ∷ true ∷ false ∷ true ∷ true ∷ []
unfolding outcomes check_and_record live pop_bucket find upsert
calls_checked = refl

logged-bounded_example : in_window 10 12 (moments_of "a" (logged calls two_in_ten [])) ≤ 2
logged-bounded_example =
    logged-bounded 2 10 1 calls "a" 12
      (omega arith, (omega arith, (omega arith, (omega arith, (omega arith, (omega arith, tt))))))
      (omega arith, (omega arith, (omega arith, (omega arith, (omega arith, (omega arith, tt))))))
