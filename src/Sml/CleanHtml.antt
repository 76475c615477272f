-- ===== src/Sml/CleanHtml.antt =====
-- The HTML of a normalized tree of sml/normalize_render_tree.go and sml/html.go.
use text.Mathlib.Text.{◌==◌ as text_eq}
use text.Mathlib.TextEquality.{eq_iff}
use shitposter.Prelude.{
  ◌≡◌, refl, ap, subst, Bool, true, false, ◌||◌, Option, none, some, List, [], ◌∷◌, ◌++◌, String,
  if◌then◌else◌, All, All-append, ◌⊎◌, inl, inr, bytes_eq,
}
use shitposter.Sml.Link.{
  Issue, Strings, SerializableAttribute, href, target, title, rel, link_attributes,
}
use shitposter.Sml.SafeLinks.{IsSafe}
use shitposter.Sml.KeptLinks.{link_attributes-IsSafe}
use shitposter.Sml.Render.{
  NodeFields, SerializableNode, node, Nodes, no_nodes, and_nodes, Normalized, normalized, panics,
  with_attributes, with_children, then_node, then_nodes, is_simple, not_allowed, normalize_node,
  normalize_nodes, normalize_render_tree, Chunk, render_attributes, around, tag_around, both,
  render_node, render_nodes, html,
}

-- A chunk of HTML that text of the post cannot break: markup of the program's own, escaped text, or the
-- name of one of the attributes of a link.
abbrev pub IsClean : Strings → Chunk → Type 0
IsClean s (Chunk.markup m) = Unit
IsClean s (Chunk.escaped bs) = Unit
IsClean s (Chunk.name n) =
    (bytes_eq (s.to_lower n) href ≡ true)
    ⊎ ((bytes_eq (s.to_lower n) target ≡ true)
        ⊎ ((bytes_eq (s.to_lower n) title ≡ true) ⊎ (n ≡ rel)))

abbrev pub Renders : Strings → Option (List Chunk) → Type 0
Renders s o = (xs : List Chunk) × (o ≡ some xs) × All (IsClean s) xs

name-IsClean :
    (s : Strings) (a : SerializableAttribute) → IsSafe s a → IsClean s (Chunk.name a.name)
name-IsClean s a (inl v) = inl (by_flag a.is_flag v.plain.valued v.named)
  where
    by_flag :
        (b : Bool)
        → b ≡ false
        → bytes_eq (if b then s.to_lower a.payload else s.to_lower a.name) href ≡ true
        → bytes_eq (s.to_lower a.name) href ≡ true
    by_flag true e h = absurd (cc e)
    by_flag false e h = h
name-IsClean s a (inr (inl v)) = inr (inl (rw v.plain.valued at v.named))
name-IsClean s a (inr (inr (inl v))) = inr (inr (inl (rw v.plain.valued at v.named)))
name-IsClean s a (inr (inr (inr e))) = inr (inr (inr (ap (λ x. x.name) e)))

attributes-IsClean :
    (s : Strings) (attributes : List SerializableAttribute)
    → All (IsSafe s) attributes
    → All (IsClean s) (render_attributes attributes)
attributes-IsClean s [] h = tt
attributes-IsClean s (a ∷ rest) (p, h) =
    (tt, (name-IsClean s a p, (tt, (tt, (tt, attributes-IsClean s rest h)))))

around-Renders :
    (s : Strings) (before after : List Chunk) (o : Option (List Chunk))
    → All (IsClean s) before
    → All (IsClean s) after
    → Renders s o
    → Renders s (around before after o)
around-Renders s before after none h k (xs, e, v) = absurd (cc e)
around-Renders s before after (some ys) h k (xs, e, v) =
    let same : ys ≡ xs = cc e in
    (
      before ++ (ys ++ after),
      refl,
      All-append (IsClean s) before (ys ++ after) h (All-append (IsClean s) ys after (rw same v) k),
    )

both-Renders :
    (s : Strings) (o p : Option (List Chunk)) → Renders s o → Renders s p → Renders s (both o p)
both-Renders s none p (xs, e, v) h = absurd (cc e)
both-Renders s (some xs') none h (xs, e, v) = absurd (cc e)
both-Renders s (some as') (some bs) (xs, e, v) (ys, d, w) =
    let first : as' ≡ xs = cc e in
    let second : bs ≡ ys = cc d in
    (as' ++ bs, refl, All-append (IsClean s) as' bs (rw first v) (rw second w))

-- What a normalized node renders to, if it is one.
abbrev NodeRenders : Strings → Normalized SerializableNode → Type 0
NodeRenders s panics = Unit
NodeRenders s (normalized n issues) = Renders s (render_node n)

abbrev NodesRender : Strings → Normalized Nodes → Type 0
NodesRender s panics = Unit
NodesRender s (normalized ns issues) = Renders s (render_nodes ns)

-- A tag of the markup around clean children.
tag-Renders :
    (s : Strings) (f : NodeFields) (r : Normalized Nodes)
    → text_eq f.node_type "Tag" ≡ true
    → (is_simple f.name ≡ true)
      ⊎ ((is_simple f.name ≡ false) × (text_eq f.name "LINK" ≡ true) × All (IsSafe s) f.attributes)
    → NodesRender s r
    → NodeRenders s (with_children f r)
unfolding render_node
tag-Renders s f panics tag known h = tt
tag-Renders s f (normalized cs issues) tag known h = rw tag (
    by_names (text_eq f.name "BOLD") (text_eq f.name "ITALIC") (text_eq f.name "UNDERLINE")
      (text_eq f.name "LINK") known)
  where
    tagged : (start end : String) → Renders s (tag_around start end (render_nodes cs))
    tagged start end =
        around-Renders s (Chunk.markup "<" ∷ Chunk.markup start ∷ Chunk.markup ">" ∷ [])
          (Chunk.markup "</" ∷ Chunk.markup end ∷ Chunk.markup ">" ∷ []) (render_nodes cs)
          (tt, (tt, (tt, tt))) (tt, (tt, (tt, tt))) h

    linked :
        All (IsSafe s) f.attributes
        → Renders s (
            around
              (Chunk.markup "<a" ∷ (render_attributes f.attributes ++ Chunk.markup ">" ∷ []))
              (Chunk.markup "</a>" ∷ [])
              (render_nodes cs))
    linked safe =
        around-Renders s
          (Chunk.markup "<a" ∷ (render_attributes f.attributes ++ Chunk.markup ">" ∷ []))
          (Chunk.markup "</a>" ∷ []) (render_nodes cs)
          (
            tt,
            All-append (IsClean s) (render_attributes f.attributes) (Chunk.markup ">" ∷ [])
                (attributes-IsClean s f.attributes safe) (tt, tt),
          )
          (tt, tt) h

    by_names :
        (b i u l : Bool)
        → ((b || i || u) ≡ true)
          ⊎ (((b || i || u) ≡ false) × (l ≡ true) × All (IsSafe s) f.attributes)
        → Renders s (
            if b
            then tag_around "strong" "strong" (render_nodes cs)
            else if i
            then tag_around "em" "em" (render_nodes cs)
            else if u
            then tag_around "span class=\"sml-internal-underline\"" "span" (render_nodes cs)
            else if l
            then around
                (Chunk.markup "<a" ∷ (render_attributes f.attributes ++ Chunk.markup ">" ∷ []))
                (Chunk.markup "</a>" ∷ [])
                (render_nodes cs)
            else none)
    by_names true i u l k = tagged _ _
    by_names false true u l k = tagged _ _
    by_names false false true l k = tagged _ _
    by_names false false false true (inr (_, _, safe)) = linked safe
    by_names false false false true (inl e) = absurd (cc e)
    by_names false false false false (inl e) = absurd (cc e)
    by_names false false false false (inr (_, e, _)) = absurd (cc e)

text-Renders :
    (s : Strings) (f : NodeFields) (cs : Nodes)
    → text_eq f.node_type "Text" ≡ true
    → Renders s (render_node (node f cs))
unfolding render_node
text-Renders s f cs e =
    let same : f.node_type ≡ "Text" = (eq_iff f.node_type "Text").0 e in
    rw same (Chunk.escaped f.content ∷ [], refl, (tt, tt))

node-by_type :
    (s : Strings) (f : NodeFields) (cs : Nodes) (issues : List Issue)
    → ((later : List Issue) → NodesRender s (normalize_nodes s cs later))
    → NodeRenders s (normalize_node s (node f cs) issues)
unfolding normalize_node
node-by_type s f cs issues ih =
    by_tests (text_eq f.node_type "Text") (text_eq f.node_type "Tag") (is_simple f.name)
      (text_eq f.name "LINK") refl refl refl refl
  where
    linked : NodeFields
    linked = with_attributes (link_attributes s f.attributes issues).allowed f

    by_tests :
        (x t m l : Bool)
        → text_eq f.node_type "Text" ≡ x
        → text_eq f.node_type "Tag" ≡ t
        → is_simple f.name ≡ m
        → text_eq f.name "LINK" ≡ l
        → NodeRenders s (
            if x
            then normalized (node (with_attributes [] f) cs) (issues ++ not_allowed f.attributes)
            else if t
            then if m
              then with_children
                  (with_attributes [] f)
                  (normalize_nodes s cs (issues ++ not_allowed f.attributes))
              else if l
              then with_children linked
                  (normalize_nodes s cs (link_attributes s f.attributes issues).issues)
              else panics
            else panics)
    by_tests true t m l p q r w = text-Renders s (with_attributes [] f) cs p
    by_tests false true true l p q r w =
        tag-Renders s (with_attributes [] f)
          (normalize_nodes s cs (issues ++ not_allowed f.attributes)) q (inl r)
          (ih (issues ++ not_allowed f.attributes))
    by_tests false true false true p q r w =
        tag-Renders s linked (normalize_nodes s cs (link_attributes s f.attributes issues).issues) q
          (inr (r, w, (link_attributes-IsSafe s f.attributes issues).0))
          (ih (link_attributes s f.attributes issues).issues)
    by_tests false true false false p q r w = tt
    by_tests false false m l p q r w = tt

then-Render :
    (s : Strings) (r : Normalized SerializableNode) (g : List Issue → Normalized Nodes)
    → NodeRenders s r
    → ((later : List Issue) → NodesRender s (g later))
    → NodesRender s (then_nodes r g)
unfolding render_node
then-Render s panics g h k = tt
then-Render s (normalized n issues) g h k = by_rest (g issues) (k issues)
  where
    by_rest : (r : Normalized Nodes) → NodesRender s r → NodesRender s (then_node n r)
    by_rest panics v = tt
    by_rest (normalized ns later) v = both-Renders s (render_node n) (render_nodes ns) h v

mutual
  unfolding normalize_node render_node

  node-NodeRenders :
      (s : Strings) (n : SerializableNode) (issues : List Issue)
      → NodeRenders s (normalize_node s n issues)
  node-NodeRenders s (node f cs) issues = node-by_type s f cs issues (nodes-NodesRender s cs)

  nodes-NodesRender :
      (s : Strings) (ns : Nodes) (issues : List Issue) → NodesRender s (normalize_nodes s ns issues)
  nodes-NodesRender s no_nodes issues = ([], refl, tt)
  nodes-NodesRender s (and_nodes n ns) issues =
      then-Render s (normalize_node s n issues) (normalize_nodes s ns) (node-NodeRenders s n issues)
        (nodes-NodesRender s ns)

-- A tree that is normalized without a panic is written as HTML without a panic, in which every
-- text of the post is escaped or is the name of one of the attributes href, target, title and rel.
pub html-Renders :
    (s : Strings) (tree clean : SerializableNode) (issues all_issues : List Issue)
    → normalize_render_tree s tree issues ≡ normalized clean all_issues
    → Renders s (html clean)
unfolding normalize_render_tree html
html-Renders s (node f cs) clean issues all_issues e =
    by_children (normalize_nodes s cs issues) (nodes-NodesRender s cs issues) e
  where
    tree_of : Normalized SerializableNode → SerializableNode
    tree_of panics = clean
    tree_of (normalized n later) = n

    by_children :
        (r : Normalized Nodes)
        → NodesRender s r
        → with_children f r ≡ normalized clean all_issues
        → Renders s (html clean)
    by_children panics h e = absurd (cc e)
    by_children (normalized ns later) h e = subst (λ n. Renders s (html n)) (ap tree_of e) h
