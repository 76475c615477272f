-- ===== src/Api/Comments/Rows.antt =====
-- Where the rows of a tree of comments hang.
use shitposter.Prelude.{
  ℕ, zero, suc, ◌+◌, ◌≤◌, ◌<◌, ◌≡◌, refl, inl, inr, sym, ap, subst, ◌∙◌, List, [], ◌∷◌, ◌++◌, ltb,
  ◌==◌, if◌then◌else◌, length, get_or, modify, take, All, All-append, append-nil, append_assoc,
  length-append, length-modify, arith, Bool-cases,
}
use shitposter.Prelude.Int.{ℤ, pos, negsuc}
use shitposter.Api.Comments.{
  Comment, CommentNode, Forest, Prepared, prepared, panics, with_reply, no_forest, place, place_at,
  then_place, prepare_from, prepare_comment_tree,
}
use shitposter.Api.Comments.Depths.{placed, place-placed, place-beyond, stopped}

-- All the rows of a forest, and how often an index stands among replies.
abbrev pub rows : List CommentNode → List Comment
rows [] = []
rows (n ∷ ns) = n.comment ∷ rows ns

abbrev pub times : ℕ → List ℕ → ℕ
times j [] = 0
times j (i ∷ is) = (if i == j then 1 else 0) + times j is

abbrev pub times_in : ℕ → List CommentNode → ℕ
times_in j [] = 0
times_in j (n ∷ ns) = times j n.replies + times_in j ns

-- What holds of a forest of those rows, whose stack holds the branch of the last row.
pub record IsForest (seen : List Comment) (f : Forest) : Type 0 where
  pub all_rows : rows f.nodes ≡ seen
  pub hanging :
      (j : ℕ) → times_in j f.nodes + times j f.roots ≡ (if ltb j (length f.nodes) then 1 else 0)
  pub branch : All (λ i. i < length f.nodes) f.stack

times-append : (j : ℕ) (is js : List ℕ) → times j (is ++ js) ≡ times j is + times j js
times-append j [] js = omega arith
times-append j (i ∷ is) js = omega (arith, times-append j is js)

rows-modify : (ns : List CommentNode) (i j : ℕ) → rows (modify ns i (with_reply j)) ≡ rows ns
rows-modify [] i j = refl
rows-modify (n ∷ ns) zero j = refl
rows-modify (n ∷ ns) (suc i) j = ap (λ xs. n.comment ∷ xs) (rows-modify ns i j)

rows-append : (ns ms : List CommentNode) → rows (ns ++ ms) ≡ rows ns ++ rows ms
rows-append [] ms = refl
rows-append (n ∷ ns) ms = ap (λ xs. n.comment ∷ xs) (rows-append ns ms)

times_in-modify :
    (ns : List CommentNode) (i j k : ℕ)
    → i < length ns
    → times_in k (modify ns i (with_reply j)) ≡ times_in k ns + times k (j ∷ [])
times_in-modify [] i j k lt = absurd (omega (arith, lt))
times_in-modify (n ∷ ns) zero j k lt = omega (arith, times-append k n.replies (j ∷ []))
times_in-modify (n ∷ ns) (suc i) j k lt =
    omega (arith, times_in-modify ns i j k (omega (arith, lt)))

times_in-append :
    (k : ℕ) (ns ms : List CommentNode) → times_in k (ns ++ ms) ≡ times_in k ns + times_in k ms
times_in-append k [] ms = omega arith
times_in-append k (n ∷ ns) ms = omega (arith, times_in-append k ns ms)

-- The next index is one more that is there.
next_index :
    (n j : ℕ) → (if ltb j n then 1 else 0) + times j (n ∷ []) ≡ (if ltb j (n + 1) then 1 else 0)
next_index n j = ground arith

All-weaken : (m n : ℕ) (xs : List ℕ) → m ≤ n → All (λ i. i < m) xs → All (λ i. i < n) xs
All-weaken m n [] le h = tt
All-weaken m n (x ∷ xs) le (p, h) = (omega (arith, p, le), All-weaken m n xs le h)

All-take : (n d : ℕ) (xs : List ℕ) → All (λ i. i < n) xs → All (λ i. i < n) (take d xs)
All-take n zero xs h = tt
All-take n (suc d) [] h = tt
All-take n (suc d) (x ∷ xs) (p, h) = (p, All-take n d xs h)

All-get_or : (n d : ℕ) (xs : List ℕ) → d < length xs → All (λ i. i < n) xs → get_or xs d 0 < n
All-get_or n d [] lt h = absurd (omega (arith, lt))
All-get_or n zero (x ∷ xs) lt (p, h) = p
All-get_or n (suc d) (x ∷ xs) lt (p, h) = All-get_or n d xs (omega (arith, lt)) h

placed-IsForest :
    (seen : List Comment) (f : Forest) (c : Comment) (d : ℕ)
    → d ≤ length f.stack
    → IsForest seen f
    → IsForest (seen ++ c ∷ []) (placed f c d)
placed-IsForest seen f c zero le v = record {
  all_rows = rows-append f.nodes _ ∙ ap (λ xs. xs ++ c ∷ []) v.all_rows;
  hanging = λ j. rw longer (
      omega (
        arith,
        v.hanging j,
        times_in-append j f.nodes (record { comment = c; replies = [] } ∷ []),
        times-append j f.roots (length f.nodes ∷ []),
        next_index (length f.nodes) j,
      ));
  branch = (omega (arith, longer), tt);
}
  where
    longer : length (f.nodes ++ record { comment = c; replies = [] } ∷ []) ≡ length f.nodes + 1
    longer = length-append f.nodes (record { comment = c; replies = [] } ∷ [])
placed-IsForest seen f c (suc d) le v =
    let fresh : CommentNode = record { comment = c; replies = [] } in
    let longer = length-append f.nodes (fresh ∷ []) in
    let inside = All-get_or (length f.nodes) d f.stack (omega (arith, le)) v.branch in
    record {
      all_rows =
          rows-modify (f.nodes ++ fresh ∷ []) (get_or f.stack d 0) (length f.nodes)
          ∙ rows-append f.nodes (fresh ∷ [])
          ∙ ap (λ xs. xs ++ c ∷ []) v.all_rows;
      hanging = λ j.
          rw (length-modify, longer)
            (omega (
              arith,
              v.hanging j,
              times_in-modify (f.nodes ++ fresh ∷ []) (get_or f.stack d 0) (length f.nodes) j
                  (omega (arith, inside, longer)),
              times_in-append j f.nodes (fresh ∷ []),
              next_index (length f.nodes) j,
            ));
      branch =
          rw (length-modify, longer)
            (All-append (λ i. i < length f.nodes + 1) (take (suc d) f.stack) (length f.nodes ∷ [])
              (All-weaken (length f.nodes) (length f.nodes + 1) (take (suc d) f.stack) (omega arith)
                (All-take (length f.nodes) (suc d) f.stack v.branch))
              (omega arith, tt));
    }

pub prepared-injective : {f g : Forest} → prepared f ≡ prepared g → f ≡ g
prepared-injective {f} {g} e = ap or_none e
  where
    or_none : Prepared → Forest
    or_none (prepared h) = h
    or_none _ = f

prepare_from-IsForest :
    (cs seen : List Comment) (f g : Forest)
    → IsForest seen f
    → prepare_from (prepared f) cs ≡ prepared g
    → IsForest (seen ++ cs) g
unfolding prepare_from then_place place_at
prepare_from-IsForest [] seen f g v e =
    rw append-nil (subst (IsForest seen) (prepared-injective e) v)
prepare_from-IsForest (c ∷ cs) seen f g v e = by_depth c.depth (prepare_from-IsForest cs) e
  where
    by_depth :
        (z : ℤ)
        → ((before : List Comment) (h k : Forest)
            → IsForest before h
            → prepare_from (prepared h) cs ≡ prepared k
            → IsForest (before ++ cs) k)
        → prepare_from (place_at f c z) cs ≡ prepared g
        → IsForest (seen ++ c ∷ cs) g
    by_depth (pos d) ih e = elim (Bool-cases (ltb (length f.stack) d)) [
      | inl beyond ↦
          absurd (
            cc
              (e, stopped (place f c d) cs (rw (place-beyond f c d (ground (arith, beyond))) refl)))
      | inr within ↦
          let le : d ≤ length f.stack = ground (arith, within) in
          subst (λ xs. IsForest xs g) (append_assoc seen (c ∷ []) cs)
            (ih (seen ++ c ∷ []) (placed f c d) g (placed-IsForest seen f c d le v)
              (rw (place-placed f c d le) at e))
    ]
    by_depth (negsuc n) ih e = absurd (cc (e, stopped panics cs refl))

-- A tree that is made holds the rows in their order, and the index of each of them stands exactly once
-- among the roots and the replies of all rows, where no other index stands.
pub prepare_comment_tree-rows :
    (cs : List Comment) (n_roots : ℤ) {g : Forest}
    → prepare_comment_tree cs n_roots ≡ prepared g
    → (rows g.nodes ≡ cs)
      × ((j : ℕ) → times_in j g.nodes + times j g.roots ≡ (if ltb j (length cs) then 1 else 0))
unfolding prepare_comment_tree
prepare_comment_tree-rows cs (negsuc n) e = absurd (cc e)
prepare_comment_tree-rows cs (pos n) {g} e =
    let v =
      prepare_from-IsForest cs [] no_forest g
        (record { all_rows = refl; hanging = λ j. ground arith; branch = tt }) e in
    (
      v.all_rows,
      λ j.
          v.hanging j
          ∙ ap (λ m. if ltb j m then 1 else 0)
              (sym (length-rows g.nodes) ∙ ap (λ (xs : List Comment). length xs) v.all_rows),
    )
  where
    length-rows : (ns : List CommentNode) → length (rows ns) ≡ length ns
    length-rows [] = refl
    length-rows (n ∷ ns) = ap suc (length-rows ns)
