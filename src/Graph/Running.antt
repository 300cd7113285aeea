-- ===== src/Graph/Running.antt =====
-- src/graph/graph.ts: `runGraph`.
use opiumo.Base.{
  false, lookup, Bool, List, Option, Result, Text, [], err, if◌then◌else◌, none, ok, some, suc,
  true, zero, ℕ, ◌∷◌,
}
use opiumo.Graph.Topology.{
  Edge, GraphSpec, Output, Problem, Validation, edges_of, is_terminal, promised, rejects, returned,
  throws, validate_graph,
}

pub record PathStep : Type 0 where
  pub node : Text
  pub edge : Option Text
  pub to : Option Text

pub data RunError : Type 0 where
  invalid : List Problem → RunError
  not_a_node no_edge_matched node_failed test_failed returned_promise : Text → RunError
  too_many_steps : RunError

-- `MAX_STEPS`
abbrev pub max_steps : ℕ
max_steps = 200

-- What a node gives when it is awaited.
abbrev pub awaited : {P : Type 0} → Text → Output P → Result RunError (Option P)
awaited node (returned out) = ok out
awaited node (promised out) = ok out
awaited node throws = err (node_failed node)
awaited node rejects = err (node_failed node)

-- The first element that passes a test; `none` is the exception of a test.
abbrev pub found {ℓ} : {A : Type ℓ} → A → Option Bool → Option (Option A) → Option (Option A)
found x none later = none
found x (some true) later = some (some x)
found x (some false) later = later

abbrev pub find_or_throw {ℓ} : {A : Type ℓ} → (A → Option Bool) → List A → Option (Option A)
find_or_throw test [] = some none
find_or_throw test (x ∷ xs) = found x (test x) (find_or_throw test xs)

abbrev pub matches : {S : Type 0} → S → Option (S → Option Bool) → Option Bool
matches s none = some true
matches s (some holds) = holds s

-- `!e.when || e.when(state)`
abbrev pub passes : {S : Type 0} → S → Edge S → Option Bool
passes s e = matches s e.when_holds

abbrev pub first_match : {S : Type 0} → S → List (Edge S) → Option (Option (Edge S))
first_match s = find_or_throw (passes s)

abbrev pub RunResult : Type 0 → Type 0
RunResult S = Result RunError (S × List PathStep)

abbrev pub prepend : {S : Type 0} → PathStep → RunResult S → RunResult S
prepend step (err e) = err e
prepend step (ok (s, path)) = ok (s, step ∷ path)

abbrev pub last_step : Text → PathStep
last_step n = record { node = n; edge = none; to = none }

abbrev pub step_along : {S : Type 0} → Text → Edge S → PathStep
step_along n e = record { node = n; edge = some e.label; to = some e.to }

-- `merge` is the spread of an update over the state.
module _ {S P : Type 0} (merge : S → P → S) where
  abbrev pub merged : S → Option P → S
  merged s none = s
  merged s (some out) = merge s out

  module _ (g : GraphSpec S P) where
    abbrev pub follow : (S → Text → RunResult S) → S → Text → Option (Option (Edge S)) → RunResult S
    follow rest s n none = err (test_failed n)
    follow rest s n (some none) = err (no_edge_matched n)
    follow rest s n (some (some e)) = prepend (step_along n e) (rest s e.to)

    abbrev pub leave :
        (S → Text → RunResult S) → S → Text → Result RunError (Option P) → RunResult S
    leave rest s n (err e) = err e
    leave rest s n (ok out) =
        let s' = merged s out in
        if is_terminal g n
        then ok (s', last_step n ∷ [])
        else follow rest s' n (first_match s' (edges_of g n))

    abbrev pub visit : (S → Text → RunResult S) → S → Text → Option (S → Output P) → RunResult S
    visit rest s n none = err (not_a_node n)
    visit rest s n (some f) = leave rest s n (awaited n (f s))

    -- The loop, with the steps that are left.
    unfoldable pub run_from : ℕ → S → Text → RunResult S
    run_from zero s n = err too_many_steps
    run_from (suc left) s n = visit (run_from left) s n (lookup n g.nodes)

    abbrev pub run_valid : S → Validation → RunResult S
    run_valid s v = if v.is_ok then run_from max_steps s g.start else err (invalid v.problems)

  unfoldable pub run_graph : GraphSpec S P → S → RunResult S
  run_graph g s = run_valid g s (validate_graph g)
