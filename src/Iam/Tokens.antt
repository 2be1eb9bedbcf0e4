-- ===== src/Iam/Tokens.antt =====
-- Refresh tokens: backend/app/modules/iam/application/refresh_tokens.py over
-- backend/app/modules/iam/infrastructure/sqlalchemy_refresh_repository.py. The route commits also
-- when the token is rejected, so that what a rejected rotation has written stays.
use eventcommerce.Base.{
  ◌+◌, String, Bool, true, false, not, ◌&&◌, Option, none, some, List, [], ◌∷◌, ◌++◌, find, ◌==◌,
  string_eq, leb, if◌then◌else◌,
}
use eventcommerce.Result.{Uuid, Time, invalid_token}
use eventcommerce.Session.{
  Db, Action, pure, raise, raise_if, or_raise, gets, modify, uuid4, utc_now, token_urlsafe, ◌>>=◌,
  ◌>>◌,
}
use eventcommerce.Iam.Domain.{User, RefreshToken}

-- `str.strip`, `hash_refresh_token` (SHA-256), and the setting of the lifetime, in seconds.
pub record TokenServices : Type 0 where
  pub strip : String → String
  pub hash_refresh_token : String → String
  pub lifetime : Time

abbrev pub hash_of : RefreshToken → String
hash_of token = token.token_hash

abbrev pub token_row : String → Db → Option RefreshToken
token_row token_hash db = find hash_of token_hash db.refresh_tokens

unfoldable pub get_by_hash : String → Action (Option RefreshToken)
get_by_hash token_hash = gets (token_row token_hash)

unfoldable pub add_token : RefreshToken → Action Unit
add_token token = modify (λ db. record db { refresh_tokens = db.refresh_tokens ++ token ∷ [] })

abbrev pub is_set : Option Time → Bool
is_set none = false
is_set (some _) = true

-- The `WHERE` of `consume`
abbrev pub is_spendable : Uuid → RefreshToken → Bool
is_spendable token_id token =
    token.id == token_id && (not (is_set token.consumed_at) && not (is_set token.revoked_at))

abbrev pub spend_row : Uuid → Time → RefreshToken → RefreshToken
spend_row token_id at token =
    if is_spendable token_id token then record token { consumed_at = some at } else token

unfoldable pub spend_rows : Uuid → Time → List RefreshToken → List RefreshToken
spend_rows token_id at [] = []
spend_rows token_id at (token ∷ tokens) =
    spend_row token_id at token ∷ spend_rows token_id at tokens

-- Whether `RETURNING` gives a row
unfoldable pub has_spendable : Uuid → List RefreshToken → Bool
has_spendable token_id [] = false
has_spendable token_id (token ∷ tokens) =
    let rest = has_spendable token_id tokens in if is_spendable token_id token then true else rest

unfoldable pub consume : Uuid → Time → Action Bool
unfolding has_spendable spend_rows
consume token_id at = do
  hit ← gets (λ db. has_spendable token_id db.refresh_tokens)
  modify (λ db. record db { refresh_tokens = spend_rows token_id at db.refresh_tokens })
  pure hit

abbrev pub revoke_row : Uuid → Time → RefreshToken → RefreshToken
revoke_row family_id at token =
    if token.family_id == family_id && not (is_set token.revoked_at)
    then record token { revoked_at = some at }
    else token

unfoldable pub revoke_rows : Uuid → Time → List RefreshToken → List RefreshToken
revoke_rows family_id at [] = []
revoke_rows family_id at (token ∷ tokens) =
    revoke_row family_id at token ∷ revoke_rows family_id at tokens

unfoldable pub revoke_family : Uuid → Time → Action Unit
unfolding revoke_rows
revoke_family family_id at =
    modify (λ db. record db { refresh_tokens = revoke_rows family_id at db.refresh_tokens })

-- A replay: the family is revoked before the rotation fails.
unfoldable pub revoke_and_raise : RefreshToken → Action (User × String)
unfolding revoke_family
revoke_and_raise stored = do now ← utc_now; revoke_family stored.family_id now; raise invalid_token

abbrev pub user_id_of : User → Uuid
user_id_of user = user.id

abbrev pub user_row : Uuid → Db → Option User
user_row user_id db = find user_id_of user_id db.users

module _ (services : TokenServices) where
  unfoldable pub issue_refresh_token : Uuid → Action String
  unfolding add_token
  issue_refresh_token user_id = do
    value ← token_urlsafe
    now ← utc_now
    id ← uuid4
    family_id ← uuid4
    add_token (record {
      id = id;
      user_id = user_id;
      family_id = family_id;
      token_hash = services.hash_refresh_token value;
      created_at = now;
      expires_at = now + services.lifetime;
      consumed_at = none;
      revoked_at = none;
    })
    pure value

  unfoldable pub mint_successor : RefreshToken → Time → User → Action (User × String)
  unfolding add_token
  mint_successor stored now user = do
    successor ← token_urlsafe
    id ← uuid4
    add_token (record {
      id = id;
      user_id = stored.user_id;
      family_id = stored.family_id;
      token_hash = services.hash_refresh_token successor;
      created_at = now;
      expires_at = stored.expires_at;
      consumed_at = none;
      revoked_at = none;
    })
    pure (user, successor)

  -- The exchange of a token that passed the tests.
  unfoldable pub exchange : RefreshToken → Action (User × String)
  unfolding consume mint_successor revoke_and_raise
  exchange stored = do
    found ← gets (user_row stored.user_id)
    user ← or_raise found invalid_token
    now ← utc_now
    consumed ← consume stored.id now
    if not consumed then revoke_and_raise stored else mint_successor stored now user

  -- The tests on the stored token.
  unfoldable pub rotate_stored : RefreshToken → Action (User × String)
  unfolding exchange revoke_and_raise
  rotate_stored stored = do
    raise_if (is_set stored.revoked_at) invalid_token
    now ← utc_now
    raise_if (leb stored.expires_at now) invalid_token
    if is_set stored.consumed_at then revoke_and_raise stored else exchange stored

  unfoldable pub rotate_refresh_token : String → Action (User × String)
  unfolding get_by_hash rotate_stored
  rotate_refresh_token raw_token = do
    raise_if (services.strip raw_token == "") invalid_token
    found ← get_by_hash (services.hash_refresh_token (services.strip raw_token))
    stored ← or_raise found invalid_token
    rotate_stored stored
