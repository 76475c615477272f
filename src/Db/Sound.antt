-- ===== src/Db/Sound.antt =====
-- What holds of the tables between two calls of the store, and how changes of the tables keep it.
use shitposter.Prelude.{
  ℕ, ◌≤◌, ◌≡◌, refl, sym, ap, subst, ◌∙◌, arith, Bool, true, false, Option, none, some, List, [],
  ◌∷◌, All, ◌==◌, if◌then◌else◌, Bool-cases, inl, inr,
}
use shitposter.Prelude.Int.{ℤ, pos, negsuc}
use shitposter.Db.Tables.{Config, Comment, CommentVote, Db}
use shitposter.Db.Queries.{
  update_by, update_first, remove_by, exists_by, replies_to, has_id, new_comment,
}
use shitposter.Db.Insert.{InsertCommentTxParams, create_params}
use shitposter.Db.Inserts.{Inserted, Attached}
use shitposter.Db.Deletes.{removed}
use shitposter.Db.Threads.{
  IsThreaded, IsThreaded-weaken, Keeps, update_by-IsThreaded, find-update_by, Hangs,
}
use shitposter.Db.Pruning.{remove_by-IsThreaded, exists-Childless, find-remove_by}
use shitposter.Db.Tallies.{tally, IsTallied, Stands, tally-remove_other, tally-fresh}

-- Comments hang in threads, every vote is for a comment that exists, and, where `K` holds, the counters
-- are the votes.
pub record IsSoundIf (K : Type 0) (cfg : Config) (db : Db) : Type 0 where
  pub threaded : IsThreaded cfg db.comment_seq db.tables.comments
  pub stands : All (Stands db.tables.comments) db.tables.votes
  pub tallied : K → All (IsTallied db.tables.votes) db.tables.comments

abbrev pub IsSound : Config → Db → Type 0
IsSound cfg db = IsSoundIf Unit cfg db

module _ {A : Type 0} {P Q : A → Type 0} where
  pub All-map : (xs : List A) → ((x : A) → P x → Q x) → All P xs → All Q xs
  All-map [] f h = tt
  All-map (x ∷ xs) f (p, h) = (f x p, All-map xs f h)

  pub All-update_by :
      (t : A → Bool) (g : A → A) (xs : List A)
      → ((x : A) → t x ≡ true → P x → Q (g x))
      → ((x : A) → t x ≡ false → P x → Q x)
      → All P xs
      → All Q (update_by t g xs)
  All-update_by t g [] hit miss h = tt
  All-update_by t g (x ∷ xs) hit miss (p, h) = (by_test (t x) refl, All-update_by t g xs hit miss h)
    where
      by_test : (b : Bool) → t x ≡ b → Q (if b then g x else x)
      by_test true e = hit x e p
      by_test false e = miss x e p

  pub All-update_first :
      (t : A → Bool) (g : A → A) (xs : List A)
      → ((x : A) → P x → Q (g x))
      → ((x : A) → P x → Q x)
      → All P xs
      → All Q (update_first t g xs)
  All-update_first t g [] hit miss h = tt
  All-update_first t g (x ∷ xs) hit miss (p, h) = by_test (t x) (All-update_first t g xs hit miss h)
    where
      by_test :
          (b : Bool)
          → All Q (update_first t g xs)
          → All Q (if b then g x ∷ xs else x ∷ update_first t g xs)
      by_test true ih = (hit x p, All-map xs miss h)
      by_test false ih = (miss x p, ih)

  pub All-remove_by :
      (t : A → Bool) (xs : List A)
      → ((x : A) → t x ≡ false → P x → Q x)
      → All P xs
      → All Q (remove_by t xs)
  All-remove_by t [] keep h = tt
  All-remove_by t (x ∷ xs) keep (p, h) = by_test (t x) refl (All-remove_by t xs keep h)
    where
      by_test :
          (b : Bool)
          → t x ≡ b
          → All Q (remove_by t xs)
          → All Q (if b then remove_by t xs else x ∷ remove_by t xs)
      by_test true e ih = ih
      by_test false e ih = (keep x e p, ih)

pub same-IsSound :
    (K : Type 0) (cfg : Config) (db after : Db)
    → after.tables ≡ db.tables
    → db.comment_seq ≤ after.comment_seq
    → IsSoundIf K cfg db
    → IsSoundIf K cfg after
same-IsSound K cfg db after e le v = record {
  threaded =
      rw e
        (IsThreaded-weaken cfg db.comment_seq after.comment_seq db.tables.comments le v.threaded);
  stands = rw e v.stands;
  tallied = λ k. rw e (v.tallied k);
}

pub Stands-update_by :
    (t : Comment → Bool) (f : Comment → Comment) (cs : List Comment) (vs : List CommentVote)
    → Keeps f
    → All (Stands cs) vs
    → All (Stands (update_by t f cs)) vs
Stands-update_by t f cs vs k h =
    All-map vs
      (λ v (c, found).
        let (d, found', _, _) = find-update_by t f v.comment_id c cs k found in (d, found'))
      h

-- An update that leaves rows in their threads and leaves their counters alone.
pub update-IsSound :
    (K : Type 0) (cfg : Config) (db after : Db) (t : Comment → Bool) (f : Comment → Comment)
    → Keeps f
    → ((c : Comment) → ((f c).upvotes ≡ c.upvotes) × ((f c).downvotes ≡ c.downvotes))
    → after.tables ≡ record db.tables { comments = update_by t f db.tables.comments }
    → after.comment_seq ≡ db.comment_seq
    → IsSoundIf K cfg db
    → IsSoundIf K cfg after
update-IsSound K cfg db after t f k same e s v = record {
  threaded =
      rw (e, s) (update_by-IsThreaded cfg db.comment_seq t f db.tables.comments k v.threaded);
  stands = rw e (Stands-update_by t f db.tables.comments db.tables.votes k v.stands);
  tallied = λ counted. rw e (
      All-update_by t f db.tables.comments
        (λ c _ (up, down). (
          (same c).0 ∙ up ∙ ap (λ i. pos (tally (pos 1) i db.tables.votes)) (sym (k.id c)),
          (same c).1 ∙ down ∙ ap (λ i. pos (tally (negsuc 0) i db.tables.votes)) (sym (k.id c)),
        ))
        (λ c _ h. h) (v.tallied counted));
}

-- A new comment starts without votes.
pub Inserted-IsSound :
    (K : Type 0) (cfg : Config) (arg : InsertCommentTxParams) (db after : Db) (c : Comment)
    → (K → (arg.upvotes ≡ pos 0) × (arg.downvotes ≡ pos 0))
    → Inserted cfg arg db c after
    → IsSoundIf K cfg db
    → IsSoundIf K cfg after
Inserted-IsSound K cfg arg db after c zero v s = record {
  threaded = rw (v.tables, (v.sequences).0) (omega (arith, drawn), hangs, rw drawn s.threaded);
  stands = rw v.tables (All-map db.tables.votes still s.stands);
  tallied = λ k. rw v.tables (
    (
      fresh (pos 1) c.upvotes (row_is (λ d. d.upvotes) (zero k).0),
      fresh (negsuc 0) c.downvotes (row_is (λ d. d.downvotes) (zero k).1),
    ),
    s.tallied k,
  );
}
  where
    drawn : c.id ≡ db.comment_seq
    drawn = ap (λ d. d.id) (v.row).1

    row_is :
        {B : Type 0} {b : B} (g : Comment → B)
        → g (new_comment (create_params arg (v.row).0) db) ≡ b
        → g c ≡ b
    row_is g e = ap g (v.row).1 ∙ e

    by_parent :
        (o : Option ℕ) → Attached cfg db.tables.comments c o → Hangs cfg c db.tables.comments o
    by_parent none h = h
    by_parent (some i) (p, found, a) = (p, found, a.same_post, a.below, a.within)

    hangs : Hangs cfg c db.tables.comments c.parent_id
    hangs =
        subst (Hangs cfg c db.tables.comments) (sym (row_is (λ d. d.parent_id) refl))
          (by_parent arg.parent_id v.attached)

    still : (w : CommentVote) → Stands db.tables.comments w → Stands (c ∷ db.tables.comments) w
    still w (d, found) = elim (Bool-cases (has_id w.comment_id c)) [
      | inl here ↦ (c, rw here refl)
      | inr other ↦ (d, rw other found)
    ]

    fresh : (side n : ℤ) → n ≡ pos 0 → n ≡ pos (tally side c.id db.tables.votes)
    fresh side n e =
        e
        ∙ ap pos (
            sym (
              tally-fresh cfg side db.comment_seq c.id db.tables.comments db.tables.votes s.threaded
                (omega (arith, drawn)) s.stands))

pub removed-IsSound :
    (K : Type 0) (cfg : Config) (i : ℕ) (db after : Db)
    → exists_by (λ c. replies_to i c) db.tables.comments ≡ false
    → after.tables ≡ removed i db.tables
    → after.comment_seq ≡ db.comment_seq
    → IsSoundIf K cfg db
    → IsSoundIf K cfg after
removed-IsSound K cfg i db after leaf e s v = record {
  threaded =
      rw (e, s)
        (remove_by-IsThreaded cfg db.comment_seq i db.tables.comments
          (exists-Childless i db.tables.comments leaf) v.threaded);
  stands = rw e (
      All-remove_by (λ w. w.comment_id == i) db.tables.votes
        (λ w other (c, found).
          (c, find-remove_by i w.comment_id c db.tables.comments (ground (arith, other)) found))
        v.stands);
  tallied = λ k. rw e (
      All-remove_by (has_id i) db.tables.comments
        (λ c other (up, down). (
          up
              ∙ ap pos
                  (sym (tally-remove_other (pos 1) i c.id db.tables.votes (ground (arith, other)))),
          down
              ∙ ap pos (
                  sym
                    (tally-remove_other (negsuc 0) i c.id db.tables.votes (ground (arith, other)))),
        ))
        (v.tallied k));
}
