-- ===== src/Web/Response.antt =====
-- The answer to a request, and the session of a route: backend/app/shared/db/session.py and the
-- `session.commit()` of the routes. A session that is closed without a commit is rolled back.
use eventcommerce.Base.{ℕ, String, Option, none, some}
use eventcommerce.Result.{Error, Result, ok, err}
use eventcommerce.Session.{Db, Action}

-- The `detail` of an HTTPException: a text, or `str(exc)`.
pub data Detail : Type 0 where
  text : String → Detail
  message : Error → Detail

pub data Response (A : Type 0) : Type 0 where
  success : ℕ → A → Response A
  failure : ℕ → Detail → Response A

abbrev pub Handler : Type 0 → Type 0
Handler A = Db → Response A × Db

-- The `except` clauses of a route: the status and the detail of an error that it catches.
abbrev pub Clauses : Type 0
Clauses = Error → Option (ℕ × Detail)

abbrev pub no_clauses : Clauses
no_clauses e = none

-- An exception that nothing catches is a status 500.
abbrev pub failed : {A : Type 0} → Option (ℕ × Detail) → Response A
failed none = failure 500 (text "Internal Server Error")
failed (some (status, detail)) = failure status detail

abbrev pub committed : {A : Type 0} → Result A → Db → Db → Db
committed (ok a) before after = after
committed (err e) before after = before

module _ {A B : Type 0} where
  abbrev pub answer : Clauses → ℕ → (A → B) → Result A → Response B
  answer clauses status body (ok a) = success status (body a)
  answer clauses status body (err e) = failed (clauses e)

  -- A route that commits when its use case returns.
  unfoldable pub commits : Clauses → ℕ → (A → B) → Action A → Handler B
  commits clauses status body m db =
      let (r, db') = m db in (answer clauses status body r, committed r db db')

  -- A route that never commits.
  unfoldable pub reads : Clauses → ℕ → (A → B) → Action A → Handler B
  reads clauses status body m db = (answer clauses status body (m db).0, db)
