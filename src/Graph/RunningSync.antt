-- ===== src/Graph/RunningSync.antt =====
-- src/graph/graph.ts: `runGraphSync`, a loop of its own.
use opiumo.Base.{
  lookup, Bool, Option, Text, [], err, if◌then◌else◌, none, ok, some, suc, true, zero, ℕ, ◌∷◌,
}
use opiumo.Graph.Running.{
  RunResult, find_or_throw, invalid, last_step, max_steps, no_edge_matched, node_failed, not_a_node,
  prepend, returned_promise, step_along, test_failed, too_many_steps,
}
use opiumo.Graph.Topology.{
  Edge, GraphSpec, Output, Validation, edges_of, is_terminal, promised, rejects, returned, throws,
  validate_graph,
}

abbrev pub matches_now : {S : Type 0} → S → Option (S → Option Bool) → Option Bool
matches_now s none = some true
matches_now s (some holds) = holds s

abbrev pub passes_now : {S : Type 0} → S → Edge S → Option Bool
passes_now s e = matches_now s e.when_holds

module _ {S P : Type 0} (merge : S → P → S) where
  abbrev pub merged_now : S → Option P → S
  merged_now s none = s
  merged_now s (some out) = merge s out

  module _ (g : GraphSpec S P) where
    abbrev pub follow_now :
        (S → Text → RunResult S) → S → Text → Option (Option (Edge S)) → RunResult S
    follow_now rest s n none = err (test_failed n)
    follow_now rest s n (some none) = err (no_edge_matched n)
    follow_now rest s n (some (some e)) = prepend (step_along n e) (rest s e.to)

    abbrev pub go_on : (S → Text → RunResult S) → S → Text → RunResult S
    go_on rest s n =
        if is_terminal g n
        then ok (s, last_step n ∷ [])
        else follow_now rest s n (find_or_throw (passes_now s) (edges_of g n))

    -- A promise is refused before it is merged, one that will be rejected included.
    abbrev pub leave_now : (S → Text → RunResult S) → S → Text → Output P → RunResult S
    leave_now rest s n (returned out) = go_on rest (merged_now s out) n
    leave_now rest s n (promised out) = err (returned_promise n)
    leave_now rest s n throws = err (node_failed n)
    leave_now rest s n rejects = err (returned_promise n)

    abbrev pub visit_now : (S → Text → RunResult S) → S → Text → Option (S → Output P) → RunResult S
    visit_now rest s n none = err (not_a_node n)
    visit_now rest s n (some f) = leave_now rest s n (f s)

    -- The loop, with the steps that are left.
    unfoldable pub run_sync_from : ℕ → S → Text → RunResult S
    run_sync_from zero s n = err too_many_steps
    run_sync_from (suc left) s n = visit_now (run_sync_from left) s n (lookup n g.nodes)

    abbrev run_sync_valid : S → Validation → RunResult S
    run_sync_valid s v =
        if v.is_ok then run_sync_from max_steps s g.start else err (invalid v.problems)

  unfoldable pub run_graph_sync : GraphSpec S P → S → RunResult S
  unfolding run_sync_from
  run_graph_sync g s = run_sync_valid g s (validate_graph g)
