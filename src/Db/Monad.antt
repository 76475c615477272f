-- ===== src/Db/Monad.antt =====
-- Methods of the store as functions that may fail and leave a database behind.
use shitposter.Prelude.{Option, none, some, List, [], ◌∷◌}
use shitposter.Db.Error.{DriverError}
use shitposter.Db.Tables.{Db}

pub data Outcome (E A : Type 0) : Type 0 where
  done : A → Outcome E A
  failed : E → Outcome E A

abbrev pub M : Type 0 → Type 0 → Type 0
M E A = Db → Outcome E A × Db

abbrev pub pure : {E A : Type 0} → A → M E A
pure a db = (done a, db)

abbrev pub fail : {E A : Type 0} → E → M E A
fail e db = (failed e, db)

abbrev pub continue : {E A B : Type 0} → Outcome E A × Db → (A → M E B) → Outcome E B × Db
continue (done a, db) f = f a db
continue (failed e, db) f = (failed e, db)

infixl 5 ◌>>=◌ ◌>>◌
abbrev pub ◌>>=◌ : {E A B : Type 0} → M E A → (A → M E B) → M E B
◌>>=◌ m f db = continue (m db) f

abbrev pub ◌>>◌ : {E B : Type 0} → M E (Unit {0}) → M E B → M E B
m >> k = m >>= λ _. k

abbrev pub relabel : {E F A : Type 0} → (E → F) → Outcome E A × Db → Outcome F A × Db
relabel g (done a, db) = (done a, db)
relabel g (failed e, db) = (failed (g e), db)

-- A statement whose error the caller turns into its own.
abbrev pub or_else : {E F A : Type 0} → M E A → (E → F) → M F A
or_else m g db = relabel g (m db)

abbrev pub by_weather : {A : Type 0} → List (Option DriverError) → M DriverError A → M DriverError A
by_weather [] q db = q db
by_weather (none ∷ later) q db = q (record db { ahead = later })
by_weather (some e ∷ later) q db = (failed e, record db { ahead = later })

-- One statement sent to the database: it fails where the connection does.
unfoldable pub statement : {A : Type 0} → M DriverError A → M DriverError A
statement q db = by_weather db.ahead q db
