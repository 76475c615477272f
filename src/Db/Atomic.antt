-- ===== src/Db/Atomic.antt =====
-- What a transaction of db/sqlc/exec_tx.go leaves behind, an error at its commit included.
use shitposter.Prelude.{
  ◌≡◌, refl, sym, ap, subst, Bool, true, false, if◌then◌else◌, List, Option, ◌⊎◌, inl, inr,
}
use shitposter.Db.Error.{OpError, DriverError, Error, driver}
use shitposter.Db.Tables.{Tables, Db}
use shitposter.Db.Monad.{Outcome, done, failed, M, pure, continue}
use shitposter.Db.Tx.{
  message, message-sky, with_tables, with_ahead, rollback, rolled_back, committed, ended, begun,
  exec_tx, Ensures,
}

abbrev pub IsDriver : Error → Type 0
IsDriver e = (x : DriverError) × (e ≡ driver x)

-- What holds of a result, and of an error too where the commit was applied and its answer lost; any
-- other error leaves the tables as they were.
abbrev pub AllOrNothing : {A : Type 0} → (A → Db → Type 0) → Tables → Outcome Error A × Db → Type 0
AllOrNothing P before (done a, db) = P a db
AllOrNothing {A = A} P before (failed e, db) =
    (db.tables ≡ before) ⊎ (IsDriver e × (db.applied ≡ true) × ((a : A) × P a db))

-- What a body has left that was run on that database, under whatever weather, and has succeeded.
abbrev pub Left : {A : Type 0} → M OpError A → Db → A → Db → Type 0
Left fn db a after =
    (sky later : List (Option DriverError)) × (mid : Db) × (fn (with_ahead sky db) ≡ (done a, mid))
    × (after ≡ with_ahead later mid)

-- A transaction is all or nothing. Where it succeeds, it returns and leaves what its body does. Where it
-- fails, the tables are as they were, or the commit was the step that failed, its answer was lost, and
-- the tables are those that the body leaves.
pub exec_tx-AllOrNothing :
    {A : Type 0} (fn : M OpError A) (db : Db) → AllOrNothing (Left fn db) db.tables (exec_tx fn db)
unfolding exec_tx
exec_tx-AllOrNothing {A = A} fn db = by_begun (message db) (message-sky db)
  where
    by_committed :
        (a : A) (mid : Db) (r : Outcome DriverError Unit × Db)
        → (later : List (Option DriverError)) × (r.1 ≡ with_ahead later mid)
        → (sky : List (Option DriverError)) × (fn (with_ahead sky db) ≡ (done a, mid))
        → AllOrNothing (Left fn db) db.tables (committed db.tables a r)
    by_committed a mid (done _, after) (later, e) (sky, ran) = (sky, later, mid, ran, e)
    by_committed a mid (failed x, after) (later, e) (sky, ran) = by_applied after.applied refl
      where
        by_applied :
            (b : Bool)
            → after.applied ≡ b
            → (((if b then after else with_tables db.tables after)).tables ≡ db.tables)
              ⊎ (IsDriver (driver x)
                  × ((if b then after else with_tables db.tables after).applied ≡ true)
                  × ((a : A) × Left fn db a (if b then after else with_tables db.tables after)))
        by_applied true p = inr ((x, refl), p, (a, (sky, later, mid, ran, e)))
        by_applied false p = inl refl

    by_rolled_back :
        (e : OpError) (r : Outcome DriverError Unit × Db)
        → r.1.tables ≡ db.tables
        → AllOrNothing (Left fn db) db.tables (rolled_back {A = A} e r)
    by_rolled_back e (done _, after) h = inl h
    by_rolled_back e (failed x, after) h = inl h

    by_ended :
        (r : Outcome OpError A × Db)
        → (sky : List (Option DriverError)) × (fn (with_ahead sky db) ≡ r)
        → AllOrNothing (Left fn db) db.tables (ended db.tables r)
    by_ended (done a, mid) ran = by_committed a mid (message mid) (message-sky mid) ran
    by_ended (failed e, mid) ran =
        let (sky, h) = message-sky (with_tables db.tables mid) in
        by_rolled_back e (rollback db.tables mid) (ap (λ d. d.tables) h)

    by_begun :
        (r : Outcome DriverError Unit × Db)
        → (sky : List (Option DriverError)) × (r.1 ≡ with_ahead sky db)
        → AllOrNothing (Left fn db) db.tables (begun db.tables fn r)
    by_begun (done _, mid) (sky, e) = by_ended (fn mid) (sky, ap fn (sym e))
    by_begun (failed x, mid) (sky, e) = inl (ap (λ d. d.tables) e)

pub weaken-AllOrNothing :
    {A : Type 0} {P : A → Db → Type 0} (Q : A → Db → Type 0) (before : Tables)
    (r : Outcome Error A × Db)
    → ((a : A) (db : Db) → P a db → Q a db)
    → AllOrNothing P before r
    → AllOrNothing Q before r
weaken-AllOrNothing Q before (done a, db) h p = h a db p
weaken-AllOrNothing Q before (failed e, db) h (inl same) = inl same
weaken-AllOrNothing Q before (failed e, db) h (inr (x, lost, (a, p))) = inr (x, lost, (a, h a db p))

-- A result that is put in another form.
pub then-AllOrNothing :
    {A B : Type 0} {P : A → Db → Type 0} (Q : B → Db → Type 0) (f : A → B) (before : Tables)
    (r : Outcome Error A × Db)
    → ((a : A) (db : Db) → P a db → Q (f a) db)
    → AllOrNothing P before r
    → AllOrNothing Q before (continue r (λ a. pure (f a)))
then-AllOrNothing Q f before (done a, db) h p = h a db p
then-AllOrNothing Q f before (failed e, db) h (inl same) = inl same
then-AllOrNothing Q f before (failed e, db) h (inr (x, lost, (a, p))) =
    inr (x, lost, (f a, h a db p))

pub AllOrNothing-Ensures :
    {A : Type 0} (P : A → Db → Type 0) (before : Tables) (r : Outcome Error A × Db)
    → AllOrNothing P before r
    → Ensures P r
AllOrNothing-Ensures P before (done a, db) p = p
AllOrNothing-Ensures P before (failed e, db) p = tt

-- What the body ensures, the transaction ensures, all or nothing.
pub exec_tx-ensured :
    {A : Type 0} (P : A → Db → Type 0) (fn : M OpError A) (db : Db)
    → ((sky : List (Option DriverError)) → Ensures P (fn (with_ahead sky db)))
    → ((a : A) (mid : Db) (sky : List (Option DriverError)) → P a mid → P a (with_ahead sky mid))
    → AllOrNothing P db.tables (exec_tx fn db)
exec_tx-ensured {A = A} P fn db h k =
    weaken-AllOrNothing P db.tables (exec_tx fn db) (λ a after v. from_left a after v)
      (exec_tx-AllOrNothing fn db)
  where
    from_left : (a : A) (after : Db) → Left fn db a after → P a after
    from_left a after (sky, later, mid, ran, e) =
        subst (P a) (sym e) (k a mid later (subst (λ r. Ensures P r) ran (h sky)))
