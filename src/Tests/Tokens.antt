-- ===== src/Tests/Tokens.antt =====
-- One refresh token, exchanged and presented again.
use eventcommerce.Base.{true, ◌≡◌, refl, some, none, [], ◌∷◌, find, All}
use eventcommerce.Result.{ok, err, invalid_token}
use eventcommerce.Session.{Db}
use eventcommerce.Iam.Domain.{User, RefreshToken, shopper}
use eventcommerce.Iam.Tokens.{TokenServices, rotate_refresh_token}
use eventcommerce.Iam.SingleUse.{rotate_refresh_token-once}
use eventcommerce.Iam.Families.{ended_in, rotate_refresh_token-replay}
use eventcommerce.Tests.Data.{start}

abbrev pub plain : TokenServices
plain = record { strip = λ s. s; hash_refresh_token = λ s. s; lifetime = 100 }

abbrev pub bob : User
bob = record {
  id = "bob";
  email = "bob@example.org";
  password_hash = "x";
  role = shopper;
  created_at = 0;
  updated_at = 0;
}

abbrev pub token : RefreshToken
token = record {
  id = "t";
  user_id = "bob";
  family_id = "f";
  token_hash = "secret";
  created_at = 0;
  expires_at = 50;
  consumed_at = none;
  revoked_at = none;
}

abbrev pub signed_in : Db
signed_in = record start { users = bob ∷ []; refresh_tokens = token ∷ [] }

abbrev rotated : Db
rotated = (rotate_refresh_token plain "secret" signed_in).1

rotation : rotate_refresh_token plain "secret" signed_in ≡ (ok (bob, "i"), rotated)
unfolding rotate_refresh_token find
rotation = refl

rotate_refresh_token-once_example :
    (rotate_refresh_token plain "secret" rotated).0 ≡ err invalid_token
rotate_refresh_token-once_example =
    rotate_refresh_token-once plain "secret" signed_in rotated (bob, "i") rotation

abbrev pub spent : RefreshToken
spent = record token { consumed_at = some 1 }

abbrev pub replayed : Db
replayed = record start { users = bob ∷ []; refresh_tokens = spent ∷ [] }

rotate_refresh_token-replay_example :
    ((rotate_refresh_token plain "secret" replayed).0 ≡ err invalid_token)
    × All
        (λ token. ended_in "f" token ≡ true)
        (rotate_refresh_token plain "secret" replayed).1.refresh_tokens
unfolding find
rotate_refresh_token-replay_example =
    rotate_refresh_token-replay plain "secret" spent replayed refl refl refl refl refl
