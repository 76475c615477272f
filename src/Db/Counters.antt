-- ===== src/Db/Counters.antt =====
-- What a sign-in does to the counter of its passkey: db/sqlc/record_credential_use.go.
use shitposter.Prelude.{
  ◌+◌, ◌<◌, ◌≡◌, refl, ap, arith, Bool, true, false, Option, none, some, List, [], ◌∷◌,
  if◌then◌else◌, ◌⊎◌, Bytes,
}
use shitposter.Prelude.Int.{ℤ, pos, pos_part, neg_part}
use shitposter.Db.Error.{DriverError, Error}
use shitposter.Db.Tables.{WebauthnCredential, Db}
use shitposter.Db.Monad.{Outcome, done, failed, statement, continue, relabel, by_weather}
use shitposter.Db.Queries.{find_by, update_by}
use shitposter.Db.Credentials.{
  RecordCredentialUseRow, has_credential_id, is_suspicious, used, record_use_found, record_use,
  after_use, use_error, record_credential_use,
}
use shitposter.Db.Tx.{with_ahead}

infix 50 ◌<ℤ◌
-- The order of two integers, by their parts.
abbrev pub ◌<ℤ◌ : ℤ → ℤ → Type 0
a <ℤ b = pos_part a + neg_part b < pos_part b + neg_part a

abbrev pub RecordsOrFails : Bytes → ℤ → Db → Outcome Error Unit × Db → Type 0
RecordsOrFails i count db (done _, after) =
    (c : WebauthnCredential) × (find_by (has_credential_id i) db.tables.credentials ≡ some c)
    × ((c.sign_count <ℤ count) ⊎ ((c.sign_count ≡ pos 0) × (count ≡ pos 0)))
    × (after.tables ≡ record db.tables {
      credentials =
          update_by (has_credential_id i)
            (λ d. record d { sign_count = count; last_used_at = some db.now })
            db.tables.credentials;
    })
RecordsOrFails i count db (failed e, after) = after.tables ≡ db.tables

trusted :
    (count stored : ℤ)
    → is_suspicious count stored ≡ false
    → (stored <ℤ count) ⊎ ((stored ≡ pos 0) × (count ≡ pos 0))
trusted count stored h = ground (arith, h)

update_by-same :
    {A : Type 0} (t : A → Bool) (f : A → A) (xs : List A)
    → ((x : A) → f x ≡ x)
    → update_by t f xs ≡ xs
update_by-same t f [] h = refl
update_by-same t f (x ∷ xs) h = by_test (t x) (update_by-same t f xs h)
  where
    by_test :
        (b : Bool) → update_by t f xs ≡ xs → (if b then f x else x) ∷ update_by t f xs ≡ x ∷ xs
    by_test true ih = rw (h x, ih) refl
    by_test false ih = rw ih refl

-- A sign-in that is accepted has a counter above the stored one, or both are zero, and stores its
-- counter and the time; one that is refused, or fails, changes nothing.
pub record_credential_use-RecordsOrFails :
    (i : Bytes) (count : ℤ) (db : Db) → RecordsOrFails i count db (record_credential_use i count db)
unfolding record_credential_use statement
record_credential_use-RecordsOrFails i count db = by_ahead db.ahead
  where
    Goal : Outcome DriverError RecordCredentialUseRow × Db → Type 0
    Goal r = RecordsOrFails i count db (continue (relabel (use_error i) r) (after_use i))

    by_test :
        (sky : List (Option DriverError)) (c : WebauthnCredential) (b : Bool)
        → find_by (has_credential_id i) db.tables.credentials ≡ some c
        → is_suspicious count c.sign_count ≡ b
        → Goal (
          done (record { cred_exists = true; prev_count = c.sign_count; suspicious = b }),
          record db {
            ahead = sky;
            tables = record db.tables {
              credentials =
                  update_by (has_credential_id i) (used b count db.now) db.tables.credentials;
            };
          },
        )
    by_test sky c true found h =
        ap (λ cs. record db.tables { credentials = cs })
          (update_by-same (has_credential_id i) (used true count db.now) db.tables.credentials
            (λ d. refl))
    by_test sky c false found h = (c, found, trusted count c.sign_count h, refl)

    by_found :
        (sky : List (Option DriverError)) (o : Option WebauthnCredential)
        → find_by (has_credential_id i) db.tables.credentials ≡ o
        → Goal (record_use_found i count o (with_ahead sky db))
    by_found sky none e = refl
    by_found sky (some c) e = by_test sky c (is_suspicious count c.sign_count) e refl

    by_ahead : (sky : List (Option DriverError)) → Goal (by_weather sky (record_use i count) db)
    by_ahead [] = by_found db.ahead _ refl
    by_ahead (none ∷ later) = by_found later _ refl
    by_ahead (some x ∷ later) = refl
