-- ===== src/Db/Grows.antt =====
-- The sequence of comment identifiers through statements and transactions.
use shitposter.Prelude.{
  ℕ, ◌≤◌, ◌≡◌, refl, arith, Bool, true, false, if◌then◌else◌, List, [], ◌∷◌, Option, none, some,
}
use shitposter.Db.Error.{OpError, DriverError}
use shitposter.Db.Tables.{Db}
use shitposter.Db.Monad.{
  Outcome, done, failed, M, pure, statement, or_else, relabel, continue, by_weather, ◌>>=◌,
}
use shitposter.Db.Tx.{
  exec_tx, message, with_tables, with_ahead, rolled_back, committed, ended, begun,
}

abbrev pub Grows : {E A : Type 0} → M E A → Type 0
Grows m = (db : Db) → db.comment_seq ≤ (m db).1.comment_seq

pub bind-Grows :
    {E A B : Type 0} (m : M E A) (f : A → M E B)
    → Grows m
    → ((a : A) → Grows (f a))
    → Grows (m >>= f)
bind-Grows {E = E} {A = A} {B = B} m f h k db = by_result (m db) (h db)
  where
    by_result :
        (r : Outcome E A × Db)
        → db.comment_seq ≤ r.1.comment_seq
        → db.comment_seq ≤ (continue r f).1.comment_seq
    by_result (done a, mid) le = omega (arith, le, k a mid)
    by_result (failed e, mid) le = le

pub query-Grows :
    {F A : Type 0} (q : M DriverError A) (g : DriverError → F)
    → Grows q
    → Grows (or_else (statement q) g)
unfolding statement
query-Grows {F = F} {A = A} q g h db = by_ahead db.ahead
  where
    relabelled :
        (r : Outcome DriverError A × Db)
        → db.comment_seq ≤ r.1.comment_seq
        → db.comment_seq ≤ (relabel g r).1.comment_seq
    relabelled (done a, mid) le = le
    relabelled (failed e, mid) le = le

    by_ahead :
        (sky : List (Option DriverError))
        → db.comment_seq ≤ (relabel g (by_weather sky q db)).1.comment_seq
    by_ahead [] = relabelled (q db) (h db)
    by_ahead (none ∷ later) = relabelled (q (with_ahead later db)) (h (with_ahead later db))
    by_ahead (some x ∷ later) = omega arith

pub if-Grows :
    {E A : Type 0} (b : Bool) (x y : M E A) → Grows x → Grows y → Grows (if b then x else y)
if-Grows true x y h k = h
if-Grows false x y h k = k

message-Grows : (db : Db) → (message db).1.comment_seq ≡ db.comment_seq
unfolding statement
message-Grows db = by_ahead db.ahead
  where
    by_ahead :
        (sky : List (Option DriverError))
        → (by_weather sky (pure tt) db).1.comment_seq ≡ db.comment_seq
    by_ahead [] = refl
    by_ahead (none ∷ later) = refl
    by_ahead (some x ∷ later) = refl

pub exec_tx-Grows : {A : Type 0} (fn : M OpError A) → Grows fn → Grows (exec_tx fn)
unfolding exec_tx
exec_tx-Grows {A = A} fn h db = by_begun (message db) (message-Grows db)
  where
    by_committed :
        (a : A) (n : ℕ) (r : Outcome DriverError Unit × Db)
        → r.1.comment_seq ≡ n
        → (committed db.tables a r).1.comment_seq ≡ n
    by_committed a n (done _, after) e = e
    by_committed a n (failed x, after) e = ground (arith, e)

    by_rolled_back :
        (e : OpError) (n : ℕ) (r : Outcome DriverError Unit × Db)
        → r.1.comment_seq ≡ n
        → (rolled_back {A = A} e r).1.comment_seq ≡ n
    by_rolled_back x n (done _, after) e = e
    by_rolled_back x n (failed y, after) e = e

    by_ended :
        (r : Outcome OpError A × Db)
        → db.comment_seq ≤ r.1.comment_seq
        → db.comment_seq ≤ (ended db.tables r).1.comment_seq
    by_ended (done a, mid) le =
        omega (arith, le, by_committed a mid.comment_seq (message mid) (message-Grows mid))
    by_ended (failed e, mid) le = omega (
      arith,
      le,
      by_rolled_back e mid.comment_seq (message (with_tables db.tables mid))
          (message-Grows (with_tables db.tables mid)),
    )

    by_begun :
        (r : Outcome DriverError Unit × Db)
        → r.1.comment_seq ≡ db.comment_seq
        → db.comment_seq ≤ (begun db.tables fn r).1.comment_seq
    by_begun (done _, mid) e = by_ended (fn mid) (omega (arith, e, h mid))
    by_begun (failed x, mid) e = omega (arith, e)
