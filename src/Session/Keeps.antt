-- ===== src/Session/Keeps.antt =====
-- Invariants of methods: what holds of the tables before a call holds after it, whether the call
-- returns or raises. One rule for each way to build a method.
use eventcommerce.Base.{Bool, true, false, Option, none, some, ◌≡◌, refl, if◌then◌else◌}
use eventcommerce.Result.{Error, Result, ok, err}
use eventcommerce.Session.Monad.{
  Db, Action, pure, raise, lift, gets, or_raise, raise_if, in_transaction, ◌>>=◌,
}

pub record Keeps {A : Type 0} (P : Db → Type 0) (m : Action A) : Type 0 where
  pub at : (db : Db) → P db → P (m db).1

pub in_transaction-keeps :
    {A : Type 0} (P : Db → Type 0) (m : Action A) (db : Db)
    → P db
    → P (m db).1
    → P (in_transaction m db).1
in_transaction-keeps {A} P m db h h' = go (m db).0 (m db).1 h'
  where
    go : (r : Result A) (db' : Db) → P db' → P (in_transaction (λ _. (r, db')) db).1
    go (ok a) db' h' = h'
    go (err e) db' h' = h

module _ {A : Type 0} {P : Db → Type 0} where
  pub Keeps-pure : (a : A) → Keeps P (pure a)
  Keeps-pure a = record { at = λ db h. h }

  pub Keeps-raise : (e : Error) → Keeps P (raise {A = A} e)
  Keeps-raise e = record { at = λ db h. h }

  pub Keeps-lift : (r : Result A) → Keeps P (lift r)
  Keeps-lift r = record { at = λ db h. h }

  pub Keeps-gets : (f : Db → A) → Keeps P (gets f)
  Keeps-gets f = record { at = λ db h. h }

  pub Keeps-or_raise : (o : Option A) (e : Error) → Keeps P (or_raise o e)
  Keeps-or_raise none e = record { at = λ db h. h }
  Keeps-or_raise (some a) e = record { at = λ db h. h }

  -- Each branch may use that its test came out its way.
  pub Keeps-if :
      (test : Bool) (one other : Action A)
      → (test ≡ true → Keeps P one)
      → (test ≡ false → Keeps P other)
      → Keeps P (if test then one else other)
  Keeps-if true one other holds fails = holds refl
  Keeps-if false one other holds fails = fails refl

  pub Keeps-in_transaction : (m : Action A) → Keeps P m → Keeps P (in_transaction m)
  Keeps-in_transaction m k = record { at = λ db h. in_transaction-keeps P m db h (k.at db h) }

pub Keeps-raise_if : {P : Db → Type 0} (c : Bool) (e : Error) → Keeps P (raise_if c e)
Keeps-raise_if c e = record { at = λ db h. h }

module _ {A B : Type 0} {P : Db → Type 0} where
  pub bind_result :
      (r : Result A) (f : A → Action B) (db : Db)
      → P db
      → ((a : A) → Keeps P (f a))
      → P ((lift r >>= f) db).1
  bind_result (ok a) f db h kf = (kf a).at db h
  bind_result (err e) f db h kf = h

  pub Keeps-bind :
      (m : Action A) (f : A → Action B) → Keeps P m → ((a : A) → Keeps P (f a)) → Keeps P (m >>= f)
  Keeps-bind m f km kf = record { at = λ db h. bind_result (m db).0 f (m db).1 (km.at db h) kf }

pub ruleset keeps_rules = (
  Keeps-pure, Keeps-raise, Keeps-lift, Keeps-gets, Keeps-or_raise, Keeps-if, Keeps-in_transaction,
  Keeps-raise_if, Keeps-bind,
)

-- From `P` before a call to `Q` after it.
pub record Leads {A : Type 0} (P Q : Db → Type 0) (m : Action A) : Type 0 where
  pub at : (db : Db) → P db → Q (m db).1

module _ {A B : Type 0} {P Q : Db → Type 0} where
  pub Leads-then :
      (m : Action A) (f : A → Action B)
      → Leads P Q m
      → ((a : A) → Keeps Q (f a))
      → Leads P Q (m >>= f)
  Leads-then m f km kf = record { at = λ db h. bind_result (m db).0 f (m db).1 (km.at db h) kf }

  after_result :
      (r : Result A) (f : A → Action B) (db : Db)
      → P db
      → ((db : Db) → P db → Q db)
      → ((a : A) → Leads P Q (f a))
      → Q ((lift r >>= f) db).1
  after_result (ok a) f db h weaker kf = (kf a).at db h
  after_result (err e) f db h weaker kf = weaker db h

  pub Leads-after :
      (m : Action A) (f : A → Action B)
      → Keeps P m
      → ((db : Db) → P db → Q db)
      → ((a : A) → Leads P Q (f a))
      → Leads P Q (m >>= f)
  Leads-after m f km weaker kf = record {
    at = λ db h. after_result (m db).0 f (m db).1 (km.at db h) weaker kf;
  }
