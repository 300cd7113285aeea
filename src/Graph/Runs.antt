-- ===== src/Graph/Runs.antt =====
-- How the runs of a graph can end: the faults that are left.
use opiumo.Base.{
  inl, inr, ◌⊎◌, lookup, arith, ap, is_some, none, subst, Bool, List, Option, Result, Text, [], err,
  false, length, ok, refl, some, suc, true, zero, ℕ, ◌==◌, ◌∷◌, ◌≡◌,
}
use opiumo.Graph.Agreement.{Refuses, run_graph_sync_agrees}
use opiumo.Graph.RunningSync.{run_graph_sync}
use opiumo.Graph.Running.{
  PathStep, RunError, RunResult, awaited, first_match, follow, invalid, leave, max_steps, merged,
  no_edge_matched, node_failed, not_a_node, prepend, returned_promise, run_from, run_graph,
  step_along, test_failed, too_many_steps, visit,
}
use opiumo.Graph.Topology.{
  promised, rejects, returned, throws, validate_graph, GraphSpec, Output, edges_of, graph_problems,
  is_node, is_terminal,
}
use opiumo.Graph.Faults.{Routed, graph_checked, routed}

-- The errors that are left when a node's output is awaited, and when it is not.
abbrev pub IsAwaitFault : RunError → Type 0
IsAwaitFault (invalid problems) = ¬ (problems ≡ [])
IsAwaitFault (node_failed n) = Unit
IsAwaitFault (test_failed n) = Unit
IsAwaitFault too_many_steps = Unit
IsAwaitFault (returned_promise n) = ⊥
IsAwaitFault (not_a_node n) = ⊥
IsAwaitFault (no_edge_matched n) = ⊥

abbrev pub IsSyncFault : RunError → Type 0
IsSyncFault (returned_promise n) = Unit
IsSyncFault (invalid problems) = ¬ (problems ≡ [])
IsSyncFault (node_failed n) = Unit
IsSyncFault (test_failed n) = Unit
IsSyncFault too_many_steps = Unit
IsSyncFault (not_a_node n) = ⊥
IsSyncFault (no_edge_matched n) = ⊥

prepend-err :
    {S : Type 0} (p : PathStep) (r : RunResult S) (e : RunError) → prepend p r ≡ err e → r ≡ err e
prepend-err p (err d) e h = h
prepend-err p (ok r) e h = cc

length-nil {ℓ} : {A : Type ℓ} (xs : List A) → (length xs == 0) ≡ true → xs ≡ []
length-nil [] h = refl
length-nil (x ∷ xs) h = ground (arith, h)

awaited_fault :
    {P : Type 0} (n : Text) (out : Output P) (e : RunError) → awaited n out ≡ err e → IsAwaitFault e
awaited_fault n (returned o) e w = absurd (cc w)
awaited_fault n (promised o) e w = absurd (cc w)
awaited_fault n throws e w = subst IsAwaitFault {x = node_failed n} (cc w) tt
awaited_fault n rejects e w = subst IsAwaitFault {x = node_failed n} (cc w) tt

await_fault-sync : (e : RunError) → IsAwaitFault e → IsSyncFault e
await_fault-sync (invalid problems) h = h
await_fault-sync (node_failed n) h = tt
await_fault-sync (test_failed n) h = tt
await_fault-sync too_many_steps h = tt
await_fault-sync (returned_promise n) h = tt
await_fault-sync (not_a_node n) h = h
await_fault-sync (no_edge_matched n) h = h

module _ {S P : Type 0} (merge : S → P → S) (g : GraphSpec S P) where
  left_err :
      graph_problems g ≡ []
      → (rest : S → Text → RunResult S)
      → ((s : S) (n : Text) (e : RunError) → is_node g n ≡ true → rest s n ≡ err e → IsAwaitFault e)
      → (s : S) (n : Text) (f : S → Output P) (e : RunError) → lookup n g.nodes ≡ some f
      → visit merge g rest s n (some f) ≡ err e
      → IsAwaitFault e
  left_err h rest ih s n f e known w = by_output (awaited n (f s)) refl w
    where
      by_route :
          (s' : S)
          → Routed g s' (edges_of g n)
          → follow merge g rest s' n (first_match s' (edges_of g n)) ≡ err e
          → IsAwaitFault e
      by_route s' (inl k) v = subst IsAwaitFault {x = test_failed n} (cc (k, v)) tt
      by_route s' (inr (d, k, known)) v =
          ih s' d.to e known (prepend-err (step_along n d) (rest s' d.to) e (cc (k, v)))

      by_terminal :
          (b : Bool) (out : Option P)
          → is_terminal g n ≡ b
          → leave merge g rest s n (ok out) ≡ err e
          → IsAwaitFault e
      by_terminal true out t v = absurd (cc (v, t))
      by_terminal false out t v =
          by_route (merged merge s out) (routed g h n f known t (merged merge s out)) (cc (t, v))

      by_output :
          (r : Result RunError (Option P))
          → awaited n (f s) ≡ r
          → leave merge g rest s n r ≡ err e
          → IsAwaitFault e
      by_output (err d) k v = awaited_fault n (f s) e (cc (k, v))
      by_output (ok out) k v = by_terminal (is_terminal g n) out refl v

  run_from-err :
      graph_problems g ≡ []
      → (left : ℕ) (s : S) (n : Text) (e : RunError) → is_node g n ≡ true
      → run_from merge g left s n ≡ err e
      → IsAwaitFault e
  unfolding run_from
  run_from-err h zero s n e node w = subst IsAwaitFault {x = too_many_steps} (cc w) tt
  run_from-err h (suc left) s n e node w =
      by_node (lookup n g.nodes) refl node w (run_from-err h left)
    where
      by_node :
          (o : Option (S → Output P))
          → lookup n g.nodes ≡ o
          → is_some o ≡ true
          → visit merge g (run_from merge g left) s n o ≡ err e
          → ((s : S) (n : Text) (e : RunError)
              → is_node g n ≡ true
              → run_from merge g left s n ≡ err e
              → IsAwaitFault e)
          → IsAwaitFault e
      by_node none k node v ih = cc
      by_node (some f) k node v ih = left_err h (run_from merge g left) ih s n f e k v

  run_graph-err : (s : S) (e : RunError) → run_graph merge g s ≡ err e → IsAwaitFault e
  unfolding run_graph validate_graph
  run_graph-err s e w = by_ok (length (graph_problems g) == 0) refl
    where
      by_ok : (b : Bool) → (length (graph_problems g) == 0) ≡ b → IsAwaitFault e
      by_ok true k =
          let sound = length-nil (graph_problems g) k in
          run_from-err sound max_steps s g.start e (graph_checked g sound).0 (cc (k, w))
      by_ok false k =
          subst IsAwaitFault {x = invalid (graph_problems g)} (cc (w, k))
            (λ none. cc (ap length none, k))

  run_graph_sync-err : (s : S) (e : RunError) → run_graph_sync merge g s ≡ err e → IsSyncFault e
  run_graph_sync-err s e w = by_agreement (run_graph_sync_agrees merge g s)
    where
      by_agreement :
          (run_graph_sync merge g s ≡ run_graph merge g s) ⊎ Refuses g (run_graph_sync merge g s)
          → IsSyncFault e
      by_agreement (inl same) = await_fault-sync e (run_graph-err s e (cc (same, w)))
      by_agreement (inr (m, refused, _, _, _, _)) =
          subst IsSyncFault {x = returned_promise m} (cc (refused, w)) tt

  -- A run that does not reach a terminal is refused for problems that `validateGraph` names, or a
  -- node or a predicate threw, or the steps are used up; the synchronous run may also refuse a
  -- promise. No run meets a state that matches no edge, or goes to a node that does not exist.
  pub run_graph_faults :
      (s : S) (e : RunError)
      → (run_graph merge g s ≡ err e → IsAwaitFault e)
        × (run_graph_sync merge g s ≡ err e → IsSyncFault e)
  run_graph_faults s e = (run_graph-err s e, run_graph_sync-err s e)
