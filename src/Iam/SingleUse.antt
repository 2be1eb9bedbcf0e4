-- ===== src/Iam/SingleUse.antt =====
-- A refresh token is exchanged once: backend/app/modules/iam/application/refresh_tokens.py.
use eventcommerce.Base.{
  String, true, false, ◌≡◌, refl, Option, none, some, List, [], ◌∷◌, ◌++◌, find, ◌==◌, string_eq,
  leb, Bool-cases, Option-cases, inl, inr, eq_iff, ap, subst,
}
use eventcommerce.Result.{Uuid, Time, Result, ok, err, invalid_token}
use eventcommerce.Session.{Db, utc_now}
use eventcommerce.Iam.Domain.{User, RefreshToken}
use eventcommerce.Iam.Tokens.{
  TokenServices, hash_of, token_row, is_set, is_spendable, spend_row, spend_rows, has_spendable,
  consume, revoke_and_raise, user_row, mint_successor, exchange, rotate_stored, get_by_hash,
  rotate_refresh_token,
}

-- The token with this hash has been exchanged.
record Spent (token_hash : String) (db : Db) : Type 0 where
  row : RefreshToken
  found : token_row token_hash db ≡ some row
  spent : is_set row.consumed_at ≡ true

spend_row-hash :
    (id : Uuid) (at : Time) (token : RefreshToken)
    → (spend_row id at token).token_hash ≡ token.token_hash
spend_row-hash id at token = elim (Bool-cases (is_spendable id token)) [
  | inl spendable ↦ rw spendable
  | inr other ↦ rw other
]

abbrev spent_row : Uuid → Time → Option RefreshToken → Option RefreshToken
spent_row id at none = none
spent_row id at (some token) = some (spend_row id at token)

find-spend_rows :
    (h : String) (id : Uuid) (at : Time) (tokens : List RefreshToken)
    → find hash_of h (spend_rows id at tokens) ≡ spent_row id at (find hash_of h tokens)
unfolding find spend_rows
find-spend_rows h id at [] = refl
find-spend_rows h id at (token ∷ tokens) =
    rw (spend_row-hash id at token) (elim (Bool-cases (token.token_hash == h)) [
      | inl here ↦ rw here
      | inr elsewhere ↦ rw elsewhere (find-spend_rows h id at tokens)
    ])

find-append :
    (h : String) (tokens more : List RefreshToken) (stored : RefreshToken)
    → find hash_of h tokens ≡ some stored
    → find hash_of h (tokens ++ more) ≡ some stored
unfolding find
find-append h [] more stored e = cc
find-append h (token ∷ tokens) more stored e = elim (Bool-cases (token.token_hash == h)) [
  | inl here ↦ rw here (rw here at e)
  | inr elsewhere ↦ rw elsewhere (find-append h tokens more stored (rw elsewhere at e))
]

module _ (services : TokenServices) where
  -- A token that is spent is never exchanged again.
  rotate-Spent :
      (raw_token : String) (db : Db)
      → Spent (services.hash_refresh_token (services.strip raw_token)) db
      → (rotate_refresh_token services raw_token db).0 ≡ err invalid_token
  unfolding rotate_refresh_token rotate_stored get_by_hash revoke_and_raise
  rotate-Spent raw_token db s = elim (Bool-cases (services.strip raw_token == "")) [
    | inl empty ↦ rw empty
    | inr given ↦
        rw (given, s.found)
          (elim (Bool-cases (is_set (s.row.revoked_at))) [
            | inl revoked ↦ rw revoked
            | inr live ↦ rw live (elim (Bool-cases (leb (s.row.expires_at) (db.next_times 0))) [
              | inl expired ↦ rw expired
              | inr current ↦ rw (current, s.spent)
            ])
          ])
  ]

  revoke_and_raise-err :
      (stored : RefreshToken) (db db' : Db) (x : User × String)
      → revoke_and_raise stored db ≡ (ok x, db')
      → (h : String) → Spent h db'
  unfolding revoke_and_raise
  revoke_and_raise-err stored db db' x e h = cc

  -- What an exchange that returns leaves of the token that it was given.
  minted-Spent :
      (h : String) (stored : RefreshToken) (now : Time) (user : User) (db db' : Db)
      (x : User × String)
      → Spent h db
      → mint_successor services stored now user db ≡ (ok x, db')
      → Spent h db'
  unfolding mint_successor
  minted-Spent h stored now user db db' x s e =
      subst (Spent h) (ap (λ (r : Result (User × String) × Db). r.1) e) (record {
        row = s.row;
        found = find-append h db.refresh_tokens _ (s.row) s.found;
        spent = s.spent;
      })

  consumed-Spent :
      (h : String) (stored : RefreshToken) (now : Time) (db : Db)
      → token_row h db ≡ some stored
      → is_set stored.consumed_at ≡ false
      → is_set stored.revoked_at ≡ false
      → Spent h (consume stored.id now db).1
  unfolding consume
  consumed-Spent h stored now db found fresh live = record {
    row = spend_row stored.id now stored;
    found = rw find-spend_rows (rw found);
    spent = rw (fresh, live, (eq_iff stored.id stored.id).1 refl);
  }

  exchange-Spent :
      (h : String) (stored : RefreshToken) (db db' : Db) (x : User × String)
      → token_row h db ≡ some stored
      → is_set stored.consumed_at ≡ false
      → is_set stored.revoked_at ≡ false
      → exchange services stored db ≡ (ok x, db')
      → Spent h db'
  unfolding exchange consume
  exchange-Spent h stored db db' x found fresh live e =
      elim (Option-cases (user_row stored.user_id db)) [
        | inl missing ↦ cc (rw missing at e)
        | inr (user, known) ↦
            let now = db.next_times 0 in
            let spent_db = (consume stored.id now (utc_now db).1).1 in
            elim (Bool-cases (has_spendable stored.id db.refresh_tokens)) [
              | inl hit ↦
                  minted-Spent h stored now user spent_db db' x
                    (consumed-Spent h stored now (utc_now db).1 found fresh live)
                    (rw (known, hit) at e)
              | inr miss ↦ revoke_and_raise-err stored spent_db db' x (rw (known, miss) at e) h
            ]
      ]

  rotate_stored-Spent :
      (h : String) (stored : RefreshToken) (db db' : Db) (x : User × String)
      → token_row h db ≡ some stored
      → rotate_stored services stored db ≡ (ok x, db')
      → Spent h db'
  unfolding rotate_stored
  rotate_stored-Spent h stored db db' x found e = elim (Bool-cases (is_set stored.revoked_at)) [
    | inl revoked ↦ cc (rw revoked at e)
    | inr live ↦ elim (Bool-cases (leb stored.expires_at (db.next_times 0))) [
      | inl expired ↦ cc (rw (live, expired) at e)
      | inr current ↦ elim (Bool-cases (is_set stored.consumed_at)) [
        | inl consumed ↦
            revoke_and_raise-err stored (utc_now db).1 db' x (rw (live, current, consumed) at e) h
        | inr fresh ↦
            exchange-Spent h stored (utc_now db).1 db' x found fresh live
              (rw (live, current, fresh) at e)
      ]
    ]
  ]

  rotate_refresh_token-Spent :
      (raw_token : String) (db db' : Db) (x : User × String)
      → rotate_refresh_token services raw_token db ≡ (ok x, db')
      → Spent (services.hash_refresh_token (services.strip raw_token)) db'
  unfolding rotate_refresh_token get_by_hash
  rotate_refresh_token-Spent raw_token db db' x e =
      elim (Bool-cases (services.strip raw_token == "")) [
        | inl empty ↦ cc (rw empty at e)
        | inr given ↦
            let h = services.hash_refresh_token (services.strip raw_token) in
            elim (Option-cases (token_row h db)) [
              | inl missing ↦ cc (rw (given, missing) at e)
              | inr (stored, found) ↦
                  rotate_stored-Spent h stored db db' x found (rw (given, found) at e)
            ]
      ]

  -- A refresh token that was exchanged for a successor is rejected when it is presented again.
  pub rotate_refresh_token-once :
      (raw_token : String) (db db' : Db) (x : User × String)
      → rotate_refresh_token services raw_token db ≡ (ok x, db')
      → (rotate_refresh_token services raw_token db').0 ≡ err invalid_token
  rotate_refresh_token-once raw_token db db' x e =
      rotate-Spent raw_token db' (rotate_refresh_token-Spent raw_token db db' x e)
