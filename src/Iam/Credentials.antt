-- ===== src/Iam/Credentials.antt =====
-- Who may sign in, and what registration and authentication promise:
-- backend/app/modules/iam/application/register_user.py and authenticate_user.py.
use Prim.Native.String.{count}
use eventcommerce.Base.{
  ℕ, suc, ◌≤◌, ◌||◌, String, ◌≡◌, ◌∙◌, refl, Bool, true, false, not, Option, none, some, List, [],
  ◌∷◌, ◌++◌, find, ltb, string_eq, eq_iff, arith, ◌⊎◌, Bool-cases, Option-cases, inl, inr,
}
use eventcommerce.Result.{ok, err, invalid_credentials}
use eventcommerce.Session.{Db, raise_if, or_raise, pure, ◌>>◌, >>=-eq}
use eventcommerce.Iam.Domain.{User, shopper}
use eventcommerce.Iam.Accounts.{
  AccountServices, normalize_email, verify_password, email_key, email_row, get_by_email, add_user,
  create_user, register_user, authenticate_user, candidate_hash, min_password_length,
  max_password_length,
}

module _ (services : AccountServices) where
  -- Whether a password is the one of the user that was found.
  abbrev pub is_password_of : String → Option User → Bool
  is_password_of password none = false
  is_password_of password (some user) = verify_password services password user.password_hash

  authenticated :
      (email password : String) (db : Db) (o : Option User)
      → email_row services (normalize_email services email) db ≡ o
      → authenticate_user services email password db ≡ (
          (λ (found : Option User).
              raise_if
                (not (verify_password services password (candidate_hash services found)))
                invalid_credentials
              >> or_raise found invalid_credentials)
            o db)
  unfolding authenticate_user get_by_email
  authenticated email password db o h = rw h refl

  -- Authentication changes nothing. It returns the user whose email is the given one, normalized,
  -- where the password matches the stored hash; in every other case, of an unknown email (whatever
  -- the dummy hash matches) as of a wrong password, it raises one and the same error.
  pub authenticate_user_lem :
      (email password : String) (db : Db)
      → ((user : User) × (email_row services (normalize_email services email) db ≡ some user)
          × (is_password_of password (some user) ≡ true)
          × (authenticate_user services email password db ≡ (ok user, db)))
        ⊎ ((is_password_of password (email_row services (normalize_email services email) db)
              ≡ false)
            × (authenticate_user services email password db ≡ (err invalid_credentials, db)))
  authenticate_user_lem email password db =
      elim (Option-cases (email_row services (normalize_email services email) db)) [
        | inl unknown ↦ inr (
          rw unknown refl,
          authenticated email password db none unknown
              ∙ elim (Bool-cases (verify_password services password services.dummy_hash)) [
                | inl e ↦ rw e refl
                | inr e ↦ rw e refl
              ],
        )
        | inr (user, known) ↦
            elim (Bool-cases (verify_password services password user.password_hash)) [
              | inl e ↦
                  inl
                    (user, known, e, authenticated email password db (some user) known ∙ rw e refl)
              | inr e ↦
                  inr (rw known e, authenticated email password db (some user) known ∙ rw e refl)
            ]
      ]

  -- The user that a registration adds, and the tables after it.
  abbrev pub new_user : String → String → Db → User
  new_user normalized password db = record {
    id = db.next_uuids 0;
    email = normalized;
    password_hash = services.hash (db.next_secrets 0) password;
    role = shopper;
    created_at = db.next_times 0;
    updated_at = db.next_times 0;
  }

  abbrev pub registered : String → String → Db → User
  registered email password db = new_user (normalize_email services email) password db

  abbrev with_user : User → Db → Db
  with_user user db = record db {
    users = db.users ++ user ∷ [];
    next_times = λ n. db.next_times (suc n);
    next_uuids = λ n. db.next_uuids (suc n);
    next_secrets = λ n. db.next_secrets (suc n);
  }

  length_test :
      (n : ℕ) → 8 ≤ n → n ≤ 128 → (ltb n min_password_length || ltb max_password_length n) ≡ false
  length_test n low high = ground arith

  add_user_lem :
      (user : User) (db : Db)
      → find (email_key services) (services.db_lower user.email) db.users ≡ none
      → add_user services user db ≡ (ok tt, record db { users = db.users ++ user ∷ [] })
  unfolding add_user
  add_user_lem user db absent = rw absent refl

  abbrev drawn : Db → Db
  drawn db = record db {
    next_times = λ n. db.next_times (suc n);
    next_uuids = λ n. db.next_uuids (suc n);
    next_secrets = λ n. db.next_secrets (suc n);
  }

  created_tables :
      (normalized password : String) (db : Db)
      → find (email_key services) (services.db_lower normalized) db.users ≡ none
      → create_user services normalized password db
        ≡ (ok (new_user normalized password db), with_user (new_user normalized password db) db)
  unfolding create_user
  created_tables normalized password db absent =
      let user = new_user normalized password db in
      >>=-eq (add_user services user) (λ _. pure user) (drawn db)
        (add_user_lem user (drawn db) absent)

  register_tables :
      (email password : String) (db : Db)
      → 8 ≤ count password
      → count password ≤ 128
      → services.db_lower (normalize_email services email)
        ≡ services.lower (normalize_email services email)
      → email_row services (normalize_email services email) db ≡ none
      → register_user services email password db
        ≡ (ok (registered email password db), with_user (registered email password db) db)
  unfolding register_user get_by_email
  register_tables email password db low high same absent =
      let taken : find (email_key services) (services.db_lower (normalize_email services email))
            db.users
          ≡ none =
        rw same absent in
      rw (length_test (count password) low high)
        (rw absent (created_tables (normalize_email services email) password db taken))

  find-append :
      (k : String) (users : List User) (user : User)
      → find (email_key services) k users ≡ none
      → services.db_lower user.email ≡ k
      → find (email_key services) k (users ++ user ∷ []) ≡ some user
  unfolding find
  find-append k [] user absent same = ground (arith, eq_iff (services.db_lower user.email) k)
  find-append k (u ∷ users) user absent same =
      ground (arith, eq_iff (services.db_lower u.email) k, find-append k users user)

  -- A registration with a password of 8 to 128 characters and an email that no user has returns a
  -- new shopper with the normalized email, and adds that user behind the others. Afterwards whoever
  -- gives an email that normalizes to the same text is authenticated as that user by the password
  -- that was registered, and rejected by one that does not match its hash. A password matches its
  -- own hash, and the database and Python agree on the normalized email in lower case.
  pub register_user-authenticate_user :
      (email password email' password' : String) (db : Db)
      → ((salt p : String) → services.verify p (services.hash salt p) ≡ some true)
      → services.db_lower (normalize_email services email)
        ≡ services.lower (normalize_email services email)
      → 8 ≤ count password
      → count password ≤ 128
      → email_row services (normalize_email services email) db ≡ none
      → normalize_email services email' ≡ normalize_email services email
      → verify_password services password' (services.hash (db.next_secrets 0) password) ≡ false
      → ((register_user services email password db).0 ≡ ok (registered email password db))
        × ((register_user services email password db).1.users
            ≡ db.users ++ registered email password db ∷ [])
        × ((authenticate_user services email' password
              (register_user services email password db).1).0
            ≡ ok (registered email password db))
        × ((authenticate_user services email' password'
              (register_user services email password db).1).0
            ≡ err invalid_credentials)
  register_user-authenticate_user email password email' password' db verifies same low high absent
        normalized wrong =
      let user = registered email password db in
      let after = with_user user db in
      let row : email_row services (normalize_email services email') after ≡ some user =
        rw normalized (
          find-append (services.lower (normalize_email services email)) db.users user absent
            same) in
      rw (register_tables email password db low high same absent) (
        refl,
        refl,
        rw (authenticated email' password after (some user) row)
            (rw (verifies (db.next_secrets 0) password) refl),
        rw (authenticated email' password' after (some user) row) (rw wrong refl),
      )
