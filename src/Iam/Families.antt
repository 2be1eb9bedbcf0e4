-- ===== src/Iam/Families.antt =====
-- A replayed refresh token ends its family: backend/app/modules/iam/application/refresh_tokens.py.
use eventcommerce.Base.{
  String, Bool, true, false, not, ◌||◌, ◌≡◌, refl, some, List, [], ◌∷◌, ◌==◌, string_eq, leb,
  Bool-cases, inl, inr, All,
}
use eventcommerce.Result.{Uuid, Time, err, invalid_token}
use eventcommerce.Session.{Db}
use eventcommerce.Iam.Domain.{RefreshToken}
use eventcommerce.Iam.Tokens.{
  TokenServices, token_row, is_set, revoke_row, revoke_rows, revoke_family, revoke_and_raise,
  rotate_stored, get_by_hash, rotate_refresh_token,
}

-- A token of the family is revoked.
abbrev pub ended_in : Uuid → RefreshToken → Bool
ended_in family_id token = not (token.family_id == family_id) || is_set token.revoked_at

revoke_row-ended_in :
    (family_id : Uuid) (at : Time) (token : RefreshToken)
    → ended_in family_id (revoke_row family_id at token) ≡ true
revoke_row-ended_in family_id at token = elim (Bool-cases (token.family_id == family_id)) [
  | inl here ↦ elim (Bool-cases (is_set token.revoked_at)) [
    | inl before ↦ rw (here, before) (rw (here, before))
    | inr live ↦ rw (here, live) (rw here)
  ]
  | inr elsewhere ↦ rw elsewhere (rw elsewhere)
]

revoke_rows-All :
    (family_id : Uuid) (at : Time) (tokens : List RefreshToken)
    → All (λ token. ended_in family_id token ≡ true) (revoke_rows family_id at tokens)
unfolding revoke_rows
revoke_rows-All family_id at [] = tt
revoke_rows-All family_id at (token ∷ tokens) =
    (revoke_row-ended_in family_id at token, revoke_rows-All family_id at tokens)

-- When a stored token that is neither revoked nor expired, but was exchanged before, is presented
-- again, the rotation is rejected, and afterwards every token of its family is revoked.
pub rotate_refresh_token-replay :
    (services : TokenServices) (raw_token : String) (stored : RefreshToken) (db : Db)
    → (services.strip raw_token == "") ≡ false
    → token_row (services.hash_refresh_token (services.strip raw_token)) db ≡ some stored
    → is_set stored.revoked_at ≡ false
    → leb stored.expires_at (db.next_times 0) ≡ false
    → is_set stored.consumed_at ≡ true
    → ((rotate_refresh_token services raw_token db).0 ≡ err invalid_token)
      × All
          (λ token. ended_in stored.family_id token ≡ true)
          (rotate_refresh_token services raw_token db).1.refresh_tokens
unfolding rotate_refresh_token get_by_hash rotate_stored revoke_and_raise revoke_family
rotate_refresh_token-replay services raw_token stored db given found live current consumed =
    rw (given, found)
      (rw (live, current, consumed)
        (refl, revoke_rows-All stored.family_id (db.next_times 1) db.refresh_tokens))
