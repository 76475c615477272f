-- ===== src/Db/Tx.antt =====
-- db/sqlc/exec_tx.go: a body run in a transaction. The sequences and the connection move on even where
-- the tables are put back.
use shitposter.Prelude.{
  ◌≡◌, refl, Bool, true, false, if◌then◌else◌, List, [], ◌∷◌, Option, none, some,
}
use shitposter.Db.Error.{OpError, DriverError, Error, op_error, driver, rolled_back_badly}
use shitposter.Db.Tables.{Tables, Db}
use shitposter.Db.Monad.{
  Outcome, done, failed, M, pure, statement, or_else, relabel, continue, by_weather, ◌>>=◌,
}
use shitposter.Db.Queries.{first_row}

-- One message to the database: to begin, to commit or to roll back.
abbrev pub message : M DriverError Unit
message = statement (pure tt)

abbrev pub with_tables : Tables → Db → Db
with_tables t db = record db { tables = t }

-- ROLLBACK: the server puts the tables back. Where the message does not arrive, the session is lost,
-- and the server drops its open transaction.
abbrev pub rollback : Tables → M DriverError Unit
rollback before db = message (with_tables before db)

abbrev pub rolled_back :
    {A : Type 0} → OpError → Outcome DriverError Unit × Db → Outcome Error A × Db
rolled_back e (done _, db) = (failed (op_error e), db)
rolled_back e (failed _, db) = (failed rolled_back_badly, db)

-- What an error of COMMIT leaves: nothing of the transaction, or all of it where only the answer is lost.
abbrev pub after_commit : Tables → Db → Db
after_commit before db = if db.applied then db else with_tables before db

abbrev pub committed :
    {A : Type 0} → Tables → A → Outcome DriverError Unit × Db → Outcome Error A × Db
committed before a (done _, db) = (done a, db)
committed before a (failed e, db) = (failed (driver e), after_commit before db)

abbrev pub ended : {A : Type 0} → Tables → Outcome OpError A × Db → Outcome Error A × Db
ended before (failed e, db) = rolled_back e (rollback before db)
ended before (done a, db) = committed before a (message db)

abbrev pub begun :
    {A : Type 0} → Tables → M OpError A → Outcome DriverError Unit × Db → Outcome Error A × Db
begun before fn (failed e, db) = (failed (driver e), db)
begun before fn (done _, db) = ended before (fn db)

-- `execTx`
unfoldable pub exec_tx : {A : Type 0} → M OpError A → M Error A
exec_tx fn db = begun db.tables fn (message db)

-- What holds of a result that is not an error.
abbrev pub Ensures {κ} : {E A : Type 0} → (A → Db → Type κ) → Outcome E A × Db → Type κ
Ensures P (done a, db) = P a db
Ensures P (failed e, db) = Unit

-- Everything but the way the connection will behave.
pub record IsSame (a b : Db) : Type 0 where
  pub tables : b.tables ≡ a.tables
  pub comment_seq : b.comment_seq ≡ a.comment_seq
  pub vote_seq : b.vote_seq ≡ a.vote_seq
  pub now : b.now ≡ a.now

abbrev pub with_ahead : List (Option DriverError) → Db → Db
with_ahead sky db = record db { ahead = sky }

-- A statement that succeeds has done what it does under some other weather.
pub statement-Ensures {κ} :
    {A : Type 0} (P : A → Db → Type κ) (q : M DriverError A) (db : Db)
    → ((sky : List (Option DriverError)) → Ensures P (q (with_ahead sky db)))
    → Ensures P (statement q db)
unfolding statement
statement-Ensures P q db h = by_ahead db.ahead
  where
    by_ahead : (sky : List (Option DriverError)) → Ensures P (by_weather sky q db)
    by_ahead [] = h db.ahead
    by_ahead (none ∷ later) = h later
    by_ahead (some x ∷ later) = tt

pub or_else-Ensures {κ} :
    {E F A : Type 0} (P : A → Db → Type κ) (m : M E A) (g : E → F) (db : Db)
    → Ensures P (m db)
    → Ensures P (or_else m g db)
or_else-Ensures {E = E} {F = F} {A = A} P m g db h = by_result (m db) h
  where
    by_result : (r : Outcome E A × Db) → Ensures P r → Ensures P (relabel g r)
    by_result (done a, mid) k = k
    by_result (failed e, mid) k = k

pub bind-Ensures {κ λ0} :
    {E A B : Type 0} (P : A → Db → Type κ) (Q : B → Db → Type λ0) (m : M E A) (f : A → M E B)
    (db : Db)
    → Ensures P (m db)
    → ((a : A) (mid : Db) → P a mid → Ensures Q (f a mid))
    → Ensures Q ((m >>= f) db)
bind-Ensures {E = E} {A = A} {B = B} P Q m f db h k = by_result (m db) h
  where
    by_result : (r : Outcome E A × Db) → Ensures P r → Ensures Q (continue r f)
    by_result (done a, mid) p = k a mid p
    by_result (failed e, mid) p = tt

-- A statement, whose error the caller turns into its own, and what follows it.
pub query-Ensures {κ λ0} :
    {E A B : Type 0} (P : A → Db → Type κ) (Q : B → Db → Type λ0) (q : M DriverError A)
    (g : DriverError → E) (f : A → M E B) (db : Db)
    → ((sky : List (Option DriverError)) → Ensures P (q (with_ahead sky db)))
    → ((a : A) (mid : Db) → P a mid → Ensures Q (f a mid))
    → Ensures Q ((or_else (statement q) g >>= f) db)
query-Ensures P Q q g f db h k =
    bind-Ensures P Q (or_else (statement q) g) f db
      (or_else-Ensures P (statement q) g db (statement-Ensures P q db h)) k

pub last_query-Ensures {κ} :
    {E A : Type 0} (P : A → Db → Type κ) (q : M DriverError A) (g : DriverError → E) (db : Db)
    → ((sky : List (Option DriverError)) → Ensures P (q (with_ahead sky db)))
    → Ensures P (or_else (statement q) g db)
last_query-Ensures P q g db h = or_else-Ensures P (statement q) g db (statement-Ensures P q db h)

pub if-Ensures {κ} :
    {E A : Type 0} (P : A → Db → Type κ) (b : Bool) (x y : M E A) (db : Db)
    → (b ≡ true → Ensures P (x db))
    → (b ≡ false → Ensures P (y db))
    → Ensures P ((if b then x else y) db)
if-Ensures P true x y db h k = h refl
if-Ensures P false x y db h k = k refl

pub first_row-Ensures {κ} :
    {A : Type 0} (P : A → Db → Type κ) (o : Option A) (db : Db)
    → ((a : A) → o ≡ some a → P a db)
    → Ensures P (first_row o db)
first_row-Ensures P none db h = tt
first_row-Ensures P (some a) db h = h a refl

pub with_ahead-IsSame : (sky : List (Option DriverError)) (db : Db) → IsSame db (with_ahead sky db)
with_ahead-IsSame sky db = record { tables = refl; comment_seq = refl; vote_seq = refl; now = refl }

pub weaken-Ensures {κ λ0} :
    {E A : Type 0} {P : A → Db → Type κ} (Q : A → Db → Type λ0) (r : Outcome E A × Db)
    → ((a : A) (db : Db) → P a db → Q a db)
    → Ensures P r
    → Ensures Q r
weaken-Ensures Q (done a, db) h p = h a db p
weaken-Ensures Q (failed e, db) h p = tt

-- A message changes nothing, whether it arrives or not.
pub message-sky :
    (db : Db) → (sky : List (Option DriverError)) × ((message db).1 ≡ with_ahead sky db)
unfolding statement
message-sky db = by_ahead db.ahead
  where
    by_ahead :
        (sky : List (Option DriverError))
        → (later : List (Option DriverError)) × ((by_weather sky (pure tt) db).1
            ≡ with_ahead later db)
    by_ahead [] = (db.ahead, refl)
    by_ahead (none ∷ later) = (later, refl)
    by_ahead (some x ∷ later) = (later, refl)
