-- ===== src/Db/Threads.antt =====
-- The thread structure of the comments table.
use shitposter.Prelude.{
  ℕ, suc, ◌+◌, ◌≤◌, ◌<◌, ◌≡◌, refl, sym, ap, ◌∙◌, arith, Bool, true, false, Option, none, some,
  List, [], ◌∷◌, ◌==◌, if◌then◌else◌, Bool-cases, inl, inr, subst,
}
use shitposter.Db.Tables.{Config, Comment}
use shitposter.Db.Queries.{find_by, count_by, is_root_of, update_by, has_id, as_deleted}

-- How a comment hangs under the older ones: a root is at depth zero, and its author
-- has fewer older roots under the post than the limit; a reply is one level below a
-- comment of the same post, and not deeper than the store allows.
abbrev pub Hangs : Config → Comment → List Comment → Option ℕ → Type 0
Hangs cfg c cs none =
    (c.depth ≡ 0)
    × (count_by (is_root_of c.post_id c.user_id) cs < cfg.comment_max_root_count_per_user)
Hangs cfg c cs (some i) =
    (p : Comment) × (find_by (has_id i) cs ≡ some p)
    × (p.post_id ≡ c.post_id)
    × (c.depth ≡ p.depth + 1)
    × (c.depth < cfg.comment_max_nesting_depth)

-- Comments, the newest first, with identifiers that go down from a bound.
abbrev pub IsThreaded : Config → ℕ → List Comment → Type 0
IsThreaded cfg n [] = Unit
IsThreaded cfg n (c ∷ cs) = (c.id < n) × Hangs cfg c cs c.parent_id × IsThreaded cfg c.id cs

pub IsThreaded-weaken :
    (d : Config) (m n : ℕ) (cs : List Comment) → m ≤ n → IsThreaded d m cs → IsThreaded d n cs
IsThreaded-weaken d m n [] le h = tt
IsThreaded-weaken d m n (c ∷ cs) le (lt, hangs, h) = (omega (arith, lt, le), hangs, h)

-- An update that leaves a row in its thread.
pub record Keeps (f : Comment → Comment) : Type 0 where
  pub id : (c : Comment) → (f c).id ≡ c.id
  pub user_id : (c : Comment) → (f c).user_id ≡ c.user_id
  pub post_id : (c : Comment) → (f c).post_id ≡ c.post_id
  pub parent_id : (c : Comment) → (f c).parent_id ≡ c.parent_id
  pub depth : (c : Comment) → (f c).depth ≡ c.depth

pub as_deleted-Keeps : (now : ℕ) → Keeps (as_deleted now)
as_deleted-Keeps now = record {
  id = λ c. refl;
  user_id = λ c. refl;
  post_id = λ c. refl;
  parent_id = λ c. refl;
  depth = λ c. refl;
}

-- The row that an update leaves where one was.
abbrev pub Updated : Comment → Option Comment → Type 0
Updated p o = (q : Comment) × (o ≡ some q) × (q.post_id ≡ p.post_id) × (q.depth ≡ p.depth)

pub find-has_id :
    (i : ℕ) (c : Comment) (cs : List Comment) → find_by (has_id i) cs ≡ some c → c.id ≡ i
find-has_id i c [] e = absurd (cc e)
find-has_id i c (d ∷ ds) e = elim (Bool-cases (d.id == i)) [
  | inl here ↦
      let same : d ≡ c = cc (rw here at e) in subst (λ x. x.id ≡ i) same (ground (arith, here))
  | inr other ↦ find-has_id i c ds (rw other at e)
]

-- One row under an update, and that it stays in its thread too.
abbrev touched : (Comment → Bool) → (Comment → Comment) → Comment → Comment
touched t f c = if t c then f c else c

touched-Keeps : (t : Comment → Bool) (f : Comment → Comment) → Keeps f → Keeps (touched t f)
touched-Keeps t f k = record {
  id = λ c. kept (λ x. x.id) (t c) c (k.id c);
  user_id = λ c. kept (λ x. x.user_id) (t c) c (k.user_id c);
  post_id = λ c. kept (λ x. x.post_id) (t c) c (k.post_id c);
  parent_id = λ c. kept (λ x. x.parent_id) (t c) c (k.parent_id c);
  depth = λ c. kept (λ x. x.depth) (t c) c (k.depth c);
}
  where
    kept :
        {B : Type 0} (g : Comment → B) (b : Bool) (c : Comment)
        → g (f c) ≡ g c
        → g (if b then f c else c) ≡ g c
    kept g true c e = e
    kept g false c e = refl

pub find-update_by :
    (t : Comment → Bool) (f : Comment → Comment) (i : ℕ) (p : Comment) (cs : List Comment)
    → Keeps f
    → find_by (has_id i) cs ≡ some p
    → Updated p (find_by (has_id i) (update_by t f cs))
find-update_by t f i p [] k e = absurd (cc e)
find-update_by t f i p (c ∷ cs) k e =
    by_test (has_id i c) (has_id i (touched t f c)) (ap (λ n. n == i) (g.id c)) e
      (find-update_by t f i p cs k)
  where
    g : Keeps (touched t f)
    g = touched-Keeps t f k

    by_test :
        (b b' : Bool)
        → b' ≡ b
        → (if b then some c else find_by (has_id i) cs) ≡ some p
        → (find_by (has_id i) cs ≡ some p → Updated p (find_by (has_id i) (update_by t f cs)))
        → Updated p (if b' then some (touched t f c) else find_by (has_id i) (update_by t f cs))
    by_test true true _ e ih =
        let same : c ≡ p = cc e in
        (
          touched t f c,
          refl,
          g.post_id c ∙ ap (λ x. x.post_id) same,
          g.depth c ∙ ap (λ x. x.depth) same,
        )
    by_test true false e' e ih = absurd (cc e')
    by_test false true e' e ih = absurd (cc e')
    by_test false false _ e ih = ih e

count-update_by :
    (t : Comment → Bool) (f : Comment → Comment) (p u : ℕ) (cs : List Comment)
    → Keeps f
    → count_by (is_root_of p u) (update_by t f cs) ≡ count_by (is_root_of p u) cs
count-update_by t f p u [] k = refl
count-update_by t f p u (c ∷ cs) k =
    by_test (is_root_of p u c) (is_root_of p u (touched t f c))
      (rw (g.post_id c, g.user_id c, g.parent_id c) refl) (count-update_by t f p u cs k)
  where
    g : Keeps (touched t f)
    g = touched-Keeps t f k

    by_test :
        (b b' : Bool) {m n : ℕ}
        → b' ≡ b
        → m ≡ n
        → (if b' then suc m else m) ≡ (if b then suc n else n)
    by_test b b' e h = rw (e, h) refl

Hangs-update_by :
    (d : Config) (t : Comment → Bool) (f : Comment → Comment) (c c' : Comment) (cs : List Comment)
    (o : Option ℕ)
    → Keeps f
    → c'.post_id ≡ c.post_id
    → c'.user_id ≡ c.user_id
    → c'.depth ≡ c.depth
    → Hangs d c cs o
    → Hangs d c' (update_by t f cs) o
Hangs-update_by d t f c c' cs none k e u e' (zero_depth, few) =
    (e' ∙ zero_depth, rw (e, u, count-update_by t f c.post_id c.user_id cs k) few)
Hangs-update_by d t f c c' cs (some i) k e u e' (p, found, same, below, within) =
    let (q, found', same', below') = find-update_by t f i p cs k found in
    (q, found', same' ∙ same ∙ sym e, omega (arith, e', below, below'), omega (arith, e', within))

-- Such an update keeps the threads.
pub update_by-IsThreaded :
    (d : Config) (n : ℕ) (t : Comment → Bool) (f : Comment → Comment) (cs : List Comment)
    → Keeps f
    → IsThreaded d n cs
    → IsThreaded d n (update_by t f cs)
update_by-IsThreaded d n t f [] k h = tt
update_by-IsThreaded d n t f (c ∷ cs) k (lt, hangs, h) =
    let g = touched-Keeps t f k in
    (
      omega (arith, lt, g.id c),
      subst (Hangs d (touched t f c) (update_by t f cs)) (sym (g.parent_id c)) (
          Hangs-update_by d t f c (touched t f c) cs c.parent_id k (g.post_id c) (g.user_id c)
            (g.depth c) hangs),
      subst (λ m. IsThreaded d m (update_by t f cs)) (sym (g.id c))
          (update_by-IsThreaded d c.id t f cs k h),
    )
