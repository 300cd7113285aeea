-- ===== src/Graph/Topology.antt =====
-- src/graph/graph.ts: the specification of a graph, and `validateGraph`. An object's keys are a list
-- of pairs in their order; names that `Object.prototype` has are left out.
use opiumo.Base.{
  contains, keys, lookup, Bool, List, Option, Text, [], false, if◌then◌else◌, is_some, keep_if,
  length, ltb, map, none, not, some, suc, zero, ℕ, ◌&&◌, ◌++◌, ◌+◌, ◌==◌, ◌∷◌,
}

-- What a call of a node gives: its update, a promise of it, an exception or a rejected promise.
pub data Output (P : Type 0) : Type 0 where
  returned : Option P → Output P
  promised : Option P → Output P
  throws rejects : Output P

-- A call of a predicate gives none if it throws.
pub record Edge (S : Type 0) : Type 0 where
  pub to : Text
  pub when_holds : Option (S → Option Bool)
  pub label : Text

pub record GraphSpec (S P : Type 0) : Type 0 where
  pub name : Text
  pub start : Text
  pub nodes : List (Text × (S → Output P))
  pub edges : List (Text × List (Edge S))
  pub terminals : List Text

-- The names are those that the message quotes.
pub data Problem : Type 0 where
  start_not_node : Problem
  terminal_not_node edges_of_no_node terminal_has_edges no_way_out only_conditional : Text → Problem
  default_not_last many_defaults no_edge_list unreachable_node : Text → Problem
  leads_nowhere unlabelled : Text → Text → Problem

pub record Validation : Type 0 where
  pub is_ok : Bool
  pub problems : List Problem
  pub node_count : ℕ
  pub edge_count : ℕ
  pub conditional_edges : ℕ
  pub unreachable : List Text

abbrev pub concat_map {ℓ κ} : {A : Type ℓ} {B : Type κ} → (A → List B) → List A → List B
concat_map f [] = []
concat_map f (x ∷ xs) = f x ++ concat_map f xs

abbrev pub problem_if : Bool → Problem → List Problem
problem_if b p = if b then p ∷ [] else []

module _ {S : Type 0} where
  abbrev pub is_default : Edge S → Bool
  is_default e = not (is_some e.when_holds)

  abbrev pub last_is_default : List (Edge S) → Bool
  last_is_default [] = false
  last_is_default (e ∷ []) = is_default e
  last_is_default (e ∷ f ∷ es) = last_is_default (f ∷ es)

  abbrev pub or_no_edges : Option (List (Edge S)) → List (Edge S)
  or_no_edges none = []
  or_no_edges (some es) = es

  -- The problems with the way out of a node that is not a terminal.
  abbrev pub exit_problems : Text → List (Edge S) → List Problem
  exit_problems from es =
      let defaults = length (keep_if is_default es) in
      (if length es == 0
        then no_way_out from ∷ []
        else (if defaults == 0
            then only_conditional from ∷ []
            else problem_if (not (last_is_default es)) (default_not_last from)))
      ++ problem_if (ltb 1 defaults) (many_defaults from)

  abbrev pub count_edges : List (Text × List (Edge S)) → ℕ
  count_edges [] = 0
  count_edges ((from, es) ∷ rest) = length es + count_edges rest

  abbrev pub count_conditional : List (Text × List (Edge S)) → ℕ
  count_conditional [] = 0
  count_conditional ((from, es) ∷ rest) =
      length (keep_if (λ e. is_some e.when_holds) es) + count_conditional rest

  abbrev pub push_unseen : List Text → List (Edge S) → List Text → List Text
  push_unseen seen [] stack = stack
  push_unseen seen (e ∷ es) stack =
      push_unseen seen es (if contains seen e.to then stack else e.to ∷ stack)

module _ {S P : Type 0} where
  abbrev pub is_node : GraphSpec S P → Text → Bool
  is_node g n = is_some (lookup n g.nodes)

  abbrev pub is_terminal : GraphSpec S P → Text → Bool
  is_terminal g n = contains g.terminals n

  -- `g.edges[n] ?? []`
  abbrev pub edges_of : GraphSpec S P → Text → List (Edge S)
  edges_of g n = or_no_edges (lookup n g.edges)

  abbrev pub edge_problems : GraphSpec S P → Text → Edge S → List Problem
  edge_problems g from e =
      problem_if (not (is_node g e.to)) (leads_nowhere from e.to)
      ++ problem_if (length e.label == 0) (unlabelled from e.to)

  -- The body of the loop over `g.edges`.
  abbrev pub list_problems : GraphSpec S P → Text × List (Edge S) → List Problem
  list_problems g (from, es) =
      problem_if (not (is_node g from)) (edges_of_no_node from)
      ++ (problem_if (is_terminal g from && not (length es == 0)) (terminal_has_edges from)
          ++ (concat_map (edge_problems g from) es
              ++ (if is_terminal g from then [] else exit_problems from es)))

  abbrev pub node_problems : GraphSpec S P → Text × (S → Output P) → List Problem
  node_problems g (n, f) =
      problem_if (not (is_terminal g n) && not (is_some (lookup n g.edges))) (no_edge_list n)

  -- The search from the start, the top of the stack first, on fuel.
  unfoldable pub explore : GraphSpec S P → ℕ → List Text → List Text → List Text
  explore g zero seen stack = seen
  explore g (suc fuel) seen [] = seen
  explore g (suc fuel) seen (n ∷ stack) =
      let skipped = explore g fuel seen stack in
      let visited = explore g fuel (n ∷ seen) (push_unseen (n ∷ seen) (edges_of g n) stack) in
      if contains seen n then skipped else visited

  -- Each edge is pushed at most once, and the start as well.
  abbrev pub search_fuel : GraphSpec S P → ℕ
  search_fuel g = suc (suc (count_edges g.edges))

  abbrev pub reached : GraphSpec S P → List Text
  reached g = explore g (search_fuel g) [] (g.start ∷ [])

  abbrev pub unreachable_nodes : GraphSpec S P → List Text
  unreachable_nodes g = keep_if (λ n. not (contains (reached g) n)) (keys g.nodes)

  abbrev pub graph_problems : GraphSpec S P → List Problem
  graph_problems g =
      problem_if (not (is_node g g.start)) start_not_node
      ++ (concat_map (λ t. problem_if (not (is_node g t)) (terminal_not_node t)) g.terminals
          ++ (concat_map (list_problems g) g.edges
              ++ (concat_map (node_problems g) g.nodes
                  ++ map unreachable_node (unreachable_nodes g))))

  unfoldable pub validate_graph : GraphSpec S P → Validation
  validate_graph g = record {
    is_ok = length (graph_problems g) == 0;
    problems = graph_problems g;
    node_count = length g.nodes;
    edge_count = count_edges g.edges;
    conditional_edges = count_conditional g.edges;
    unreachable = unreachable_nodes g;
  }
