-- ===== src/Graph/Faults.antt =====
use opiumo.Base.{
  inl, inr, ◌⊎◌, lookup, Option, not, ◌&&◌, Bool, List, Text, [], arith, false, is_some, keep_if,
  length, none, refl, some, subst, text_eq, text_eq→eq, true, ◌++◌, ◌==◌, ◌∷◌, ◌≡◌,
}
use opiumo.Graph.Running.{find_or_throw, first_match, found, matches, passes}
use opiumo.Graph.Topology.{
  or_no_edges, GraphSpec, Output, edge_problems, edges_of, edges_of_no_node, exit_problems,
  graph_problems, is_node, is_terminal, leads_nowhere, list_problems, no_edge_list, node_problems,
  start_not_node, terminal_has_edges, terminal_not_node, Edge, Problem, concat_map, is_default,
  problem_if,
}

-- What a graph that `validateGraph` accepts cannot do wrong when it runs.

append-nil {ℓ} : {A : Type ℓ} (xs ys : List A) → xs ++ ys ≡ [] → (xs ≡ []) × (ys ≡ [])
append-nil [] ys h = (refl, h)
append-nil (x ∷ xs) ys h = cc

problem_if-nil : (b : Bool) (p : Problem) → problem_if b p ≡ [] → b ≡ false
problem_if-nil b p h = ground arith

concat_map-lookup {ℓ κ} :
    {A : Type ℓ} {B : Type κ} (f : Text × A → List B) (xs : List (Text × A)) (k : Text) (v : A)
    → concat_map f xs ≡ []
    → lookup k xs ≡ some v
    → f (k, v) ≡ []
concat_map-lookup f ((k', w) ∷ xs) k v h e =
    by_key (text_eq k k') refl
      (concat_map-lookup f xs k v ((append-nil (f (k', w)) (concat_map f xs) h).1))
  where
    by_key : (b : Bool) → text_eq k k' ≡ b → (lookup k xs ≡ some v → f (k, v) ≡ []) → f (k, v) ≡ []
    by_key true t rest =
        subst (λ p. f p ≡ []) (cc (text_eq→eq k k' t, e, t))
          ((append-nil (f (k', w)) (concat_map f xs) h).0)
    by_key false t rest = rest (ground (arith, e, t))
concat_map-lookup f [] k v h e = cc

-- A property of every element of a list is one of the element that is found.
find_or_throw-nil {ℓ κ} :
    {A : Type ℓ} {B : Type κ} (test : A → Option Bool) (f : A → List B) (xs : List A) (x : A)
    → concat_map f xs ≡ []
    → find_or_throw test xs ≡ some (some x)
    → f x ≡ []
find_or_throw-nil test f [] x h k = absurd (cc k)
find_or_throw-nil test f (y ∷ ys) x h k =
    by_test (test y) k (find_or_throw-nil test f ys x (append-nil (f y) (concat_map f ys) h).1)
  where
    by_test :
        (o : Option Bool)
        → found y o (find_or_throw test ys) ≡ some (some x)
        → (find_or_throw test ys ≡ some (some x) → f x ≡ [])
        → f x ≡ []
    by_test none k rest = absurd (cc k)
    by_test (some true) k rest =
        subst (λ p. f p ≡ []) (cc k) ((append-nil (f y) (concat_map f ys) h).0)
    by_test (some false) k rest = rest k

module _ {S : Type 0} (s : S) where
  -- An edge without a predicate is taken if no other is and none throws.
  first_match-default :
      (es : List (Edge S))
      → (length (keep_if is_default es) == 0) ≡ false
      → ¬ (first_match s es ≡ some none)
  first_match-default [] h k = ground arith
  first_match-default (e ∷ es) h k = by_test e.when_holds refl k (first_match-default es)
    where
      by_test :
          (o : Option (S → Option Bool))
          → e.when_holds ≡ o
          → found e (matches s o) (first_match s es) ≡ some none
          → ((length (keep_if is_default es) == 0) ≡ false → ¬ (first_match s es ≡ some none))
          → ⊥
      by_test none same k rest = cc k
      by_test (some holds) same k rest = by_value (holds s) k
        where
          by_value : (v : Option Bool) → found e v (first_match s es) ≡ some none → ⊥
          by_value none k = cc k
          by_value (some true) k = cc k
          by_value (some false) k = rest (ground (arith, h, same)) k

module _ {S P : Type 0} (g : GraphSpec S P) where
  pub graph_checked :
      graph_problems g ≡ []
      → (is_node g g.start ≡ true)
        × (concat_map (list_problems g) g.edges ≡ [])
        × (concat_map (node_problems g) g.nodes ≡ [])
  graph_checked h =
      let (begins, rest) = append-nil (problem_if (not (is_node g g.start)) start_not_node) _ h in
      let (ends, rest₁) =
        append-nil
          (concat_map (λ t. problem_if (not (is_node g t)) (terminal_not_node t)) g.terminals) _
          rest in
      let (lists, rest₂) = append-nil (concat_map (list_problems g) g.edges) _ rest₁ in
      let (nodes, rest₃) = append-nil (concat_map (node_problems g) g.nodes) _ rest₂ in
      (ground (arith, problem_if-nil (not (is_node g g.start)) start_not_node begins), lists, nodes)

  list_checked :
      (n : Text) (es : List (Edge S))
      → list_problems g (n, es) ≡ []
      → is_terminal g n ≡ false
      → (concat_map (edge_problems g n) es ≡ []) × ((length (keep_if is_default es) == 0) ≡ false)
  list_checked n es h inner =
      let (a, rest) = append-nil (problem_if (not (is_node g n)) (edges_of_no_node n)) _ h in
      let (b, rest₁) =
        append-nil (problem_if (is_terminal g n && not (length es == 0)) (terminal_has_edges n)) _
          rest in
      let (edges, rest₂) = append-nil (concat_map (edge_problems g n) es) _ rest₁ in
      (edges, leaves es (ground (arith, rest₂, inner)))
    where
      leaves :
          (es : List (Edge S))
          → exit_problems n es ≡ []
          → (length (keep_if is_default es) == 0) ≡ false
      leaves es k = ground arith

  abbrev pub Routed : S → List (Edge S) → Type 0
  Routed s es =
      (first_match s es ≡ none)
      ⊎ ((e : Edge S) × (first_match s es ≡ some (some e)) × (is_node g e.to ≡ true))

  -- From a node that is not a terminal an edge is taken, unless a predicate throws, and it leads to a
  -- node.
  pub routed :
      graph_problems g ≡ []
      → (n : Text) (f : S → Output P) → lookup n g.nodes ≡ some f
      → is_terminal g n ≡ false
      → (s : S) → Routed s (edges_of g n)
  routed h n f known inner s = by_list (lookup n g.edges) refl
    where
      checked :
          (is_node g g.start ≡ true)
          × (concat_map (list_problems g) g.edges ≡ [])
          × (concat_map (node_problems g) g.nodes ≡ [])
      checked = graph_checked h

      by_edge :
          (es : List (Edge S)) (o : Option (Option (Edge S)))
          → first_match s es ≡ o
          → ¬ (o ≡ some none)
          → concat_map (edge_problems g n) es ≡ []
          → Routed s es
      by_edge es none k taken none_wrong = inl k
      by_edge es (some none) k taken none_wrong = absurd (taken refl)
      by_edge es (some (some e)) k taken none_wrong = inr (
        e,
        k,
        ground (
          arith,
          problem_if-nil (not (is_node g e.to)) (leads_nowhere n e.to) (
              (append-nil (problem_if (not (is_node g e.to)) (leads_nowhere n e.to)) _
                (find_or_throw-nil (passes s) (edge_problems g n) es e none_wrong k)).0),
        ),
      )

      by_list : (o : Option (List (Edge S))) → lookup n g.edges ≡ o → Routed s (or_no_edges o)
      by_list none k = absurd (
          cc (
            problem_if-nil (not (is_terminal g n) && not (is_some (lookup n g.edges)))
                (no_edge_list n) (concat_map-lookup (node_problems g) g.nodes n f checked.2 known),
            k,
            inner,
          ))
      by_list (some es) k =
          let (edges, leaves) =
            list_checked n es (concat_map-lookup (list_problems g) g.edges n es checked.1 k)
              inner in
          by_edge es (first_match s es) refl (first_match-default s es leaves) edges
