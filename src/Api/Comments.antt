-- ===== src/Api/Comments.antt =====
-- api/comments_utils.go: the tree of comments that `PrepareCommentTree` builds from ordered rows. A
-- `*CommentNode` is an index into the nodes made so far, which are the rows in their order. Of a row
-- only the identifier and the depth are read; the others are carried along.
pub mod Depths
pub mod Rows
pub mod Levels
use shitposter.Prelude.{
  ℕ, zero, suc, ◌+◌, ◌-◌, Bool, List, [], ◌∷◌, ◌++◌, ltb, ◌==◌, if◌then◌else◌, length, get_or,
  modify, take,
}
use shitposter.Prelude.Int.{ℤ, pos, negsuc}

pub record Comment : Type 0 where
  pub id : ℤ
  pub depth : ℤ

pub record CommentNode : Type 0 where
  pub comment : Comment
  pub replies : List ℕ

-- The nodes, the roots (`result`) and the stack, which holds the branch from its root down. A pointer
-- on the stack is an address that was just taken, so the test for `nil` never succeeds.
pub record Forest : Type 0 where
  pub nodes : List CommentNode
  pub roots : List ℕ
  pub stack : List ℕ

pub data Prepared : Type 0 where
  prepared : Forest → Prepared
  -- the row, its identifier, its depth and the height of the stack
  bad_depth_jump : ℕ → ℤ → ℕ → ℕ → Prepared
  panics : Prepared

abbrev pub with_reply : ℕ → CommentNode → CommentNode
with_reply i n = record n { replies = n.replies ++ i ∷ [] }

abbrev pub no_forest : Forest
no_forest = record { nodes = []; roots = []; stack = [] }

-- A row of the depth `d`: the index `stack[d-1]` is there when the jump is not bad.
unfoldable pub place : Forest → Comment → ℕ → Prepared
place f c d =
    let i = length f.nodes in
    let nodes = f.nodes ++ record { comment = c; replies = [] } ∷ [] in
    if d == 0
    then prepared (record { nodes = nodes; roots = f.roots ++ i ∷ []; stack = i ∷ [] })
    else if ltb (length f.stack) d
    then bad_depth_jump i c.id d (length f.stack)
    else prepared (record {
      nodes = modify nodes (get_or f.stack (d - 1) 0) (with_reply i);
      roots = f.roots;
      stack = take d f.stack ++ i ∷ [];
    })

-- A negative depth is no root and no jump, and `stack[d-1]` panics.
unfoldable pub place_at : Forest → Comment → ℤ → Prepared
unfolding place
place_at f c (pos d) = place f c d
place_at f c (negsuc _) = panics

unfoldable pub then_place : Prepared → Comment → Prepared
unfolding place_at
then_place (prepared f) c = place_at f c c.depth
then_place (bad_depth_jump i id d n) c = bad_depth_jump i id d n
then_place panics c = panics

unfoldable pub prepare_from : Prepared → List Comment → Prepared
unfolding then_place
prepare_from p [] = p
prepare_from p (c ∷ cs) = prepare_from (then_place p c) cs

-- `n_roots` is the capacity of the first slice: `make` panics on a negative one.
unfoldable pub prepare_comment_tree : List Comment → ℤ → Prepared
unfolding prepare_from
prepare_comment_tree cs (pos n_roots) = prepare_from (prepared no_forest) cs
prepare_comment_tree cs (negsuc _) = panics
