-- ===== src/Db/Farewell.antt =====
-- What the deletion of a user does: db/sqlc/tx_soft_delete_user.go.
use shitposter.Prelude.{
  ℕ, ◌≡◌, refl, ap, ◌∙◌, Bool, true, false, Option, none, some, List, [], ◌∷◌, if◌then◌else◌, ◌⊎◌,
  inl, inr,
}
use shitposter.Db.Error.{DriverError}
use shitposter.Db.Tables.{User, Tables, Db}
use shitposter.Db.Monad.{pure}
use shitposter.Db.Queries.{find_by, update_by, remove_by, has_user}
use shitposter.Db.Users.{
  SoftDeleteUserRow, SoftDeleteUserTxResult, session_of, credential_of, user_row, as_deleted_user,
  active_user, with_users, soft_delete_found, soft_delete_user, soft_delete_body,
  soft_delete_user_tx, after_soft_delete, delete_user_sessions, delete_user_credentials,
}
use shitposter.Db.Tx.{Ensures, with_ahead, query-Ensures, weaken-Ensures}
use shitposter.Db.Atomic.{AllOrNothing, AllOrNothing-Ensures, exec_tx-ensured}

-- A user who was deleted before stays so; another is marked, hidden and given dummy names. Of the
-- user's sessions and credentials none is left, and those of others are.
pub record SoftDeleted (i : ℕ) (db : Db) (r : SoftDeleteUserTxResult) (after : Db) : Type 0 where
  pub target : User
  pub found : find_by (has_user i) db.tables.users ≡ some target
  pub users :
      ((target.is_deleted ≡ true) × (after.tables.users ≡ db.tables.users))
      ⊎ ((target.is_deleted ≡ false)
          × (after.tables.users
              ≡ update_by (active_user i) (as_deleted_user db.now) db.tables.users))
  pub tables : after.tables ≡ record db.tables {
    users = after.tables.users;
    sessions = remove_by (session_of i) db.tables.sessions;
    credentials = remove_by (credential_of i) db.tables.credentials;
  }
  pub no_session : find_by (session_of i) after.tables.sessions ≡ none
  pub no_credential : find_by (credential_of i) after.tables.credentials ≡ none
  pub answer : (r.id ≡ target.id) × (r.is_deleted ≡ true)

find-removed : {A : Type 0} (t : A → Bool) (xs : List A) → find_by t (remove_by t xs) ≡ none
find-removed t [] = refl
find-removed t (x ∷ xs) = by_test (t x) refl (find-removed t xs)
  where
    by_test :
        (b : Bool)
        → t x ≡ b
        → find_by t (remove_by t xs) ≡ none
        → find_by t (if b then remove_by t xs else x ∷ remove_by t xs) ≡ none
    by_test true e ih = ih
    by_test false e ih = rw e ih

-- The database after the sessions and the credentials are gone.
abbrev Cleared : ℕ → Db → Db → Type 0
Cleared i db mid =
    (mid.tables ≡ record db.tables {
      sessions = remove_by (session_of i) db.tables.sessions;
      credentials = remove_by (credential_of i) db.tables.credentials;
    })
    × (mid.now ≡ db.now)

abbrev LoggedOut : ℕ → Db → Db → Type 0
LoggedOut i db mid =
    (mid.tables ≡ record db.tables { sessions = remove_by (session_of i) db.tables.sessions })
    × (mid.now ≡ db.now)

row-SoftDeleted :
    (i : ℕ) (db mid : Db) (sky : List (Option DriverError))
    → Cleared i db mid
    → Ensures
        (λ row after. Ensures (SoftDeleted i db) (after_soft_delete i row after))
        (soft_delete_user i (with_ahead sky mid))
row-SoftDeleted i db mid sky (e, now) = by_found (find_by (has_user i) mid.tables.users) refl
  where
    Goal : SoftDeleteUserRow → Db → Type 0
    Goal row after = Ensures (SoftDeleted i db) (after_soft_delete i row after)

    sessions : mid.tables.sessions ≡ remove_by (session_of i) db.tables.sessions
    sessions = ap (λ (t : Tables). t.sessions) e

    credentials : mid.tables.credentials ≡ remove_by (credential_of i) db.tables.credentials
    credentials = ap (λ (t : Tables). t.credentials) e

    same : mid.tables.users ≡ db.tables.users
    same = ap (λ (t : Tables). t.users) e

    by_test :
        (u : User) (b : Bool)
        → u.is_deleted ≡ b
        → find_by (has_user i) mid.tables.users ≡ some u
        → Ensures Goal (
            if b
            then pure {E = DriverError} (user_row u) (with_ahead sky mid)
            else pure (user_row (as_deleted_user mid.now u)) (
                with_users
                  (update_by (active_user i) (as_deleted_user mid.now))
                  (with_ahead sky mid)))
    by_test u true dead found = record {
      target = u;
      found = rw same at found;
      users = inl (dead, same);
      tables = e ∙ rw same refl;
      no_session = rw sessions (find-removed (session_of i) db.tables.sessions);
      no_credential = rw credentials (find-removed (credential_of i) db.tables.credentials);
      answer = (refl, dead);
    }
    by_test u false alive found = record {
      target = u;
      found = rw same at found;
      users = inr (alive, rw (same, now) refl);
      tables =
          ap
            (λ (t : Tables). record t {
              users = update_by (active_user i) (as_deleted_user mid.now) mid.tables.users;
            })
            e;
      no_session = rw sessions (find-removed (session_of i) db.tables.sessions);
      no_credential = rw credentials (find-removed (credential_of i) db.tables.credentials);
      answer = (refl, refl);
    }

    by_found :
        (o : Option User)
        → find_by (has_user i) mid.tables.users ≡ o
        → Ensures Goal (soft_delete_found i o (with_ahead sky mid))
    by_found none found = tt
    by_found (some u) found = by_test u u.is_deleted refl found

body-SoftDeleted : (i : ℕ) (db : Db) → Ensures (SoftDeleted i db) (soft_delete_body i db)
body-SoftDeleted i db =
    query-Ensures (λ _. LoggedOut i db) (SoftDeleted i db) (delete_user_sessions i) _ _ db
      (λ sky. (refl, refl))
      (λ _ mid (e, now).
        query-Ensures (λ _. Cleared i db) (SoftDeleted i db) (delete_user_credentials i) _ _ mid
          (λ sky. (
            ap
                (λ (t : Tables). record t {
                  credentials = remove_by (credential_of i) t.credentials;
                })
                e,
            now,
          ))
          (λ _ last cleared.
            query-Ensures (λ row after. Ensures (SoftDeleted i db) (after_soft_delete i row after))
              (SoftDeleted i db) (soft_delete_user i) _ (after_soft_delete i) last
              (λ sky. row-SoftDeleted i db last sky cleared) (λ row after v. v)))

-- The same of the deletion of a user that is applied although its commit fails; any other failure changes no table.
pub soft_delete_user_tx-AllOrNothing :
    (i : ℕ) (db : Db) → AllOrNothing (SoftDeleted i db) db.tables (soft_delete_user_tx i db)
unfolding soft_delete_user_tx
soft_delete_user_tx-AllOrNothing i db =
    exec_tx-ensured (SoftDeleted i db) (soft_delete_body i) db
      (λ sky.
        weaken-Ensures (SoftDeleted i db) (soft_delete_body i (with_ahead sky db))
          (λ r mid v. record {
            target = v.target;
            found = v.found;
            users = v.users;
            tables = v.tables;
            no_session = v.no_session;
            no_credential = v.no_credential;
            answer = v.answer;
          })
          (body-SoftDeleted i (with_ahead sky db)))
      (λ r mid sky v. record {
        target = v.target;
        found = v.found;
        users = v.users;
        tables = v.tables;
        no_session = v.no_session;
        no_credential = v.no_credential;
        answer = v.answer;
      })

-- A deletion of a user that succeeds marks the user, unless that is done already, and leaves none of
-- the user's sessions and credentials and all those of others. Nothing else changes.
pub soft_delete_user_tx-SoftDeleted :
    (i : ℕ) (db : Db) → Ensures (SoftDeleted i db) (soft_delete_user_tx i db)
soft_delete_user_tx-SoftDeleted i db =
    AllOrNothing-Ensures (SoftDeleted i db) db.tables (soft_delete_user_tx i db)
      (soft_delete_user_tx-AllOrNothing i db)
