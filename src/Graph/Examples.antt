-- ===== src/Graph/Examples.antt =====
-- A small graph, its runs, and the theorems at it.
use opiumo.Base.{
  lookup, contains, true, ◌↔◌, Bool, List, Option, Text, [], codes, err, length, none, ok, refl,
  some, text_eq, ℕ, ◌%◌, ◌/◌, ◌==◌, ◌∷◌, ◌≡◌, ◌≤◌, ◌⊎◌,
}
use opiumo.Graph.Routes.{IsRoute, run_graph-IsRoute}
use opiumo.Graph.Running.{PathStep, invalid, max_steps, returned_promise, run_from, run_graph}
use opiumo.Graph.RunningSync.{run_graph_sync}
use opiumo.Graph.Runs.{IsAwaitFault, IsSyncFault, run_graph_faults}
use opiumo.Graph.Topology.{
  Output, is_node, Edge, GraphSpec, explore, promised, returned, validate_graph,
}
use opiumo.Graph.Unreachable.{Reached, validate_graph-unreachable}
use opiumo.Graph.Agreement.{IsPromise, run_graph_sync_agrees}

-- A number is halved while it is even; the graph ends when it is odd.
abbrev even : ℕ → Option Bool
even k = some (k % 2 == 0)

abbrev way : Text → Option (ℕ → Option Bool) → Text → Edge ℕ
way to holds label = record { to = to; when_holds = holds; label = label }

abbrev halving : GraphSpec ℕ ℕ
halving = record {
  name = codes "halving";
  start = codes "look";
  nodes =
      (codes "look", λ k. returned none)
      ∷ (codes "halve", λ k. promised (some (k / 2)))
      ∷ (codes "done", λ k. returned none)
      ∷ [];
  edges =
      (
        codes "look",
        way (codes "halve") (some even) (codes "even") ∷ way (codes "done") none (codes "odd") ∷ [],
      )
      ∷ (codes "halve", way (codes "look") none (codes "again") ∷ [])
      ∷ [];
  terminals = codes "done" ∷ [];
}

abbrev replaced : ℕ → ℕ → ℕ
replaced old new = new

abbrev adrift : GraphSpec ℕ ℕ
adrift = record halving { start = codes "nowhere" }

abbrev halved_path : List PathStep
halved_path =
    record { node = codes "look"; edge = some (codes "even"); to = some (codes "halve") }
    ∷ record { node = codes "halve"; edge = some (codes "again"); to = some (codes "look") }
    ∷ record { node = codes "look"; edge = some (codes "odd"); to = some (codes "done") }
    ∷ record { node = codes "done"; edge = none; to = none }
    ∷ []

halving_runs : run_graph replaced halving 6 ≡ ok (3, halved_path)
unfolding run_graph run_from validate_graph explore text_eq
halving_runs = refl

run_graph_faults_example :
    (run_graph replaced adrift 6 ≡ err (invalid (validate_graph adrift).problems)
      → IsAwaitFault (invalid (validate_graph adrift).problems))
    × (run_graph_sync replaced adrift 6 ≡ err (invalid (validate_graph adrift).problems)
        → IsSyncFault (invalid (validate_graph adrift).problems))
run_graph_faults_example =
    run_graph_faults replaced adrift 6 (invalid (validate_graph adrift).problems)

run_graph_sync_agrees_example :
    (run_graph_sync replaced halving 7 ≡ run_graph replaced halving 7)
    ⊎ ((m : Text) × (run_graph_sync replaced halving 7 ≡ err (returned_promise m))
        × (f : ℕ → Output ℕ) × (lookup m halving.nodes ≡ some f)
        × (t : ℕ) × IsPromise (f t))
run_graph_sync_agrees_example = run_graph_sync_agrees replaced halving 7

run_graph-IsRoute_example :
    IsRoute halving (codes "look") halved_path × (length halved_path ≤ max_steps)
run_graph-IsRoute_example = run_graph-IsRoute replaced halving 6 3 halved_path halving_runs

validate_graph-unreachable_example :
    (contains (validate_graph adrift).unreachable (codes "done") ≡ true)
    ↔ ((is_node adrift (codes "done") ≡ true) × ¬ (Reached adrift (codes "done")))
validate_graph-unreachable_example = validate_graph-unreachable adrift (codes "done")
