-- ===== src/Api/Comments/Levels.antt =====
-- The levels at which the rows of a tree of comments hang.
use shitposter.Prelude.{
  ℕ, zero, suc, ◌+◌, ◌≤◌, ◌<◌, ◌≡◌, refl, inl, inr, sym, ap, subst, ◌∙◌, List, [], ◌∷◌, ◌++◌, ltb,
  length, get_or, modify, take, All, All-append, length-append, length-take, length-modify, arith,
  Bool-cases,
}
use shitposter.Prelude.Int.{ℤ, pos, negsuc}
use shitposter.Api.Comments.{
  Comment, CommentNode, Forest, prepared, panics, with_reply, no_forest, place, place_at,
  then_place, prepare_from, prepare_comment_tree,
}
use shitposter.Api.Comments.Rows.{prepared-injective}
use shitposter.Api.Comments.Depths.{placed, place-placed, place-beyond, stopped}

-- The depth of a row by its index.
abbrev pub depth_at : List Comment → ℕ → ℤ
depth_at [] i = negsuc 0
depth_at (c ∷ cs) zero = c.depth
depth_at (c ∷ cs) (suc i) = depth_at cs i

abbrev pub one_below : ℤ → ℤ
one_below (pos d) = pos (suc d)
one_below (negsuc n) = negsuc 0

-- The replies of a node are one level below it.
abbrev pub Hung : (ℕ → ℤ) → CommentNode → Type 0
Hung level n = All (λ j. level j ≡ one_below n.comment.depth) n.replies

placed-nodes : (f : Forest) (c : Comment) (d : ℕ) → length (placed f c d).nodes ≡ length f.nodes + 1
placed-nodes f c zero = length-append f.nodes (record { comment = c; replies = [] } ∷ [])
placed-nodes f c (suc d) =
    length-modify (f.nodes ++ record { comment = c; replies = [] } ∷ []) (get_or f.stack d 0)
      (with_reply (length f.nodes))
    ∙ length-append f.nodes (record { comment = c; replies = [] } ∷ [])

module _ (level : ℕ → ℤ) where
  -- The branch on the stack goes down by one level at a time.
  Descends : ℕ → List ℕ → Type 0
  Descends d [] = Unit
  Descends d (i ∷ is) = (level i ≡ pos d) × Descends (suc d) is

  -- The nodes are at the levels that their indices have.
  Agrees : ℕ → List CommentNode → Type 0
  Agrees k [] = Unit
  Agrees k (n ∷ ns) = (n.comment.depth ≡ level k) × Agrees (suc k) ns

  Descends-take : (d k : ℕ) (is : List ℕ) → Descends d is → Descends d (take k is)
  unfolding Descends
  Descends-take d zero is h = tt
  Descends-take d (suc k) [] h = tt
  Descends-take d (suc k) (i ∷ is) (e, h) = (e, Descends-take (suc d) k is h)

  Descends-snoc :
      (d : ℕ) (is : List ℕ) (j : ℕ)
      → level j ≡ pos (d + length is)
      → Descends d is
      → Descends d (is ++ j ∷ [])
  unfolding Descends
  Descends-snoc d [] j e h = (e ∙ ap pos (omega arith), tt)
  Descends-snoc d (i ∷ is) j e (p, h) = (p, Descends-snoc (suc d) is j (e ∙ ap pos (omega arith)) h)

  Descends-get_or :
      (d k : ℕ) (is : List ℕ) → k < length is → Descends d is → level (get_or is k 0) ≡ pos (d + k)
  unfolding Descends
  Descends-get_or d k [] lt h = absurd (omega (arith, lt))
  Descends-get_or d zero (i ∷ is) lt (p, h) = p ∙ ap pos (omega arith)
  Descends-get_or d (suc k) (i ∷ is) lt (p, h) =
      Descends-get_or (suc d) k is (omega (arith, lt)) h ∙ ap pos (omega arith)

  Agrees-snoc :
      (k : ℕ) (ns : List CommentNode) (n : CommentNode)
      → n.comment.depth ≡ level (k + length ns)
      → Agrees k ns
      → Agrees k (ns ++ n ∷ [])
  unfolding Agrees
  Agrees-snoc k [] n e h = (e ∙ ap level (omega arith), tt)
  Agrees-snoc k (m ∷ ns) n e (p, h) = (p, Agrees-snoc (suc k) ns n (e ∙ ap level (omega arith)) h)

  Agrees-modify :
      (k i j : ℕ) (ns : List CommentNode) → Agrees k ns → Agrees k (modify ns i (with_reply j))
  unfolding Agrees
  Agrees-modify k i j [] h = h
  Agrees-modify k zero j (n ∷ ns) h = h
  Agrees-modify k (suc i) j (n ∷ ns) (p, h) = (p, Agrees-modify (suc k) i j ns h)

  Hung-modify :
      (k i j d : ℕ) (ns : List CommentNode)
      → Agrees k ns
      → level (k + i) ≡ pos d
      → level j ≡ pos (suc d)
      → All (Hung level) ns
      → All (Hung level) (modify ns i (with_reply j))
  unfolding Agrees
  Hung-modify k i j d [] a e f h = h
  Hung-modify k zero j d (n ∷ ns) (p, a) e f (q, h) = (
    All-append (λ x. level x ≡ one_below n.comment.depth) n.replies (j ∷ []) q
        (f ∙ sym (ap one_below (p ∙ ap level (omega arith) ∙ e)), tt),
    h,
  )
  Hung-modify k (suc i) j d (n ∷ ns) (p, a) e f (q, h) =
      (q, Hung-modify (suc k) i j d ns a (ap level (omega arith) ∙ e) f h)

  record IsLevelled (f : Forest) : Type 0 where
    agrees : Agrees 0 f.nodes
    descends : Descends 0 f.stack
    hung : All (Hung level) f.nodes
    at_top : All (λ i. level i ≡ pos 0) f.roots

  placed-IsLevelled :
      (f : Forest) (c : Comment) (d : ℕ)
      → d ≤ length f.stack
      → c.depth ≡ pos d
      → level (length f.nodes) ≡ pos d
      → IsLevelled f
      → IsLevelled (placed f c d)
  placed-IsLevelled f c zero le z e v = record {
    agrees = Agrees-snoc 0 f.nodes _ (z ∙ sym e ∙ ap level (omega arith)) v.agrees;
    descends = unfold Descends in (e, tt);
    hung = All-append (Hung level) f.nodes _ v.hung (tt, tt);
    at_top = All-append (λ i. level i ≡ pos 0) f.roots _ v.at_top (e, tt);
  }
  placed-IsLevelled f c (suc d) le z e v =
      let fresh : CommentNode = record { comment = c; replies = [] } in
      let a = Agrees-snoc 0 f.nodes fresh (z ∙ sym e ∙ ap level (omega arith)) v.agrees in
      record {
        agrees = Agrees-modify 0 (get_or f.stack d 0) (length f.nodes) (f.nodes ++ fresh ∷ []) a;
        descends =
            Descends-snoc 0 (take (suc d) f.stack) (length f.nodes)
              (e ∙ ap pos (omega (arith, le, length-take (suc d) f.stack)))
              (Descends-take 0 (suc d) f.stack v.descends);
        hung =
            Hung-modify 0 (get_or f.stack d 0) (length f.nodes) d (f.nodes ++ fresh ∷ []) a
              (ap level (omega arith)
                ∙ Descends-get_or 0 d f.stack (omega (arith, le)) v.descends
                ∙ ap pos (omega arith))
              e (All-append (Hung level) f.nodes (fresh ∷ []) v.hung (tt, tt));
        at_top = v.at_top;
      }

  prepare_from-IsLevelled :
      (cs : List Comment) (f g : Forest)
      → ((i : ℕ) → i < length cs → level (length f.nodes + i) ≡ depth_at cs i)
      → IsLevelled f
      → prepare_from (prepared f) cs ≡ prepared g
      → IsLevelled g
  unfolding prepare_from then_place place_at
  prepare_from-IsLevelled [] f g same v e = subst IsLevelled (prepared-injective e) v
  prepare_from-IsLevelled (c ∷ cs) f g same v e =
      by_depth c.depth refl (prepare_from-IsLevelled cs) e
    where
      here : level (length f.nodes) ≡ c.depth
      here = ap level (omega arith) ∙ same 0 (omega arith)

      by_depth :
          (z : ℤ)
          → c.depth ≡ z
          → ((h k : Forest)
              → ((i : ℕ) → i < length cs → level (length h.nodes + i) ≡ depth_at cs i)
              → IsLevelled h
              → prepare_from (prepared h) cs ≡ prepared k
              → IsLevelled k)
          → prepare_from (place_at f c z) cs ≡ prepared g
          → IsLevelled g
      by_depth (pos d) z ih e = elim (Bool-cases (ltb (length f.stack) d)) [
        | inl beyond ↦ absurd (
            cc
              (e, stopped (place f c d) cs (rw (place-beyond f c d (ground (arith, beyond))) refl)))
        | inr within ↦
            let le : d ≤ length f.stack = ground (arith, within) in
            ih (placed f c d) g
              (λ i lt.
                ap level (omega (arith, placed-nodes f c d)) ∙ same (suc i) (omega (arith, lt)))
              (placed-IsLevelled f c d le z (here ∙ z) v) (rw (place-placed f c d le) at e)
      ]
      by_depth (negsuc n) z ih e = absurd (cc (e, stopped panics cs refl))

-- In a tree that is made from rows, with the depth of a row read by its index, every reply is one
-- level below the row that it replies to, and every root is at level zero.
pub prepare_comment_tree-levels :
    (cs : List Comment) (n_roots : ℤ) {g : Forest}
    → prepare_comment_tree cs n_roots ≡ prepared g
    → All (Hung (depth_at cs)) g.nodes × All (λ i. depth_at cs i ≡ pos 0) g.roots
unfolding prepare_comment_tree Agrees Descends
prepare_comment_tree-levels cs (negsuc n) e = absurd (cc e)
prepare_comment_tree-levels cs (pos n) {g} e =
    let v =
      prepare_from-IsLevelled (depth_at cs) cs no_forest g (λ i lt. ap (depth_at cs) (omega arith))
        (record { agrees = tt; descends = tt; hung = tt; at_top = tt }) e in
    (v.hung, v.at_top)
