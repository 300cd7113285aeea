-- ===== src/Graph/Agreement.antt =====
-- The agreement of the synchronous run with the awaited one.
use opiumo.Base.{
  [], ◌∷◌, subst, sym, lookup, Bool, Option, Text, ap, err, false, if◌then◌else◌, inl, inr, none,
  ok, refl, some, suc, true, zero, ℕ, ◌≡◌, ◌⊎◌,
}
use std.Path.{fun_ext}
use opiumo.Graph.RunningSync.{
  follow_now, go_on, leave_now, matches_now, merged_now, passes_now, run_graph_sync, run_sync_from,
  visit_now,
}
use opiumo.Graph.Running.{
  PathStep, RunResult, awaited, find_or_throw, first_match, follow, last_step, leave, matches,
  passes, max_steps, merged, prepend, returned_promise, run_from, run_graph, step_along, visit,
}
use opiumo.Graph.Topology.{
  Edge, GraphSpec, Output, edges_of, is_terminal, promised, rejects, returned, throws,
  validate_graph,
}

abbrev pub IsPromise : {P : Type 0} → Output P → Type 0
IsPromise (returned out) = ⊥
IsPromise (promised out) = Unit
IsPromise throws = ⊥
IsPromise rejects = Unit

module _ {S P : Type 0} (g : GraphSpec S P) where
  -- The run refuses the promise that a node gives in some state.
  abbrev pub Refuses : RunResult S → Type 0
  Refuses a =
      (m : Text) × (a ≡ err (returned_promise m))
      × (f : S → Output P) × (lookup m g.nodes ≡ some f)
      × (t : S) × IsPromise (f t)

  -- Two runs are the same, or the first refuses a promise.
  abbrev Agrees : RunResult S → RunResult S → Type 0
  Agrees a b = (a ≡ b) ⊎ Refuses a

  branches :
      (b : Bool) (x x' y y' : RunResult S)
      → Agrees x x'
      → Agrees y y'
      → Agrees (if b then x else y) (if b then x' else y')
  branches true x x' y y' h k = h
  branches false x x' y y' h k = k

-- The tests of the two loops are the same.
tests_alike : {S : Type 0} (s : S) → passes_now s ≡ passes s
tests_alike {S = S} s = fun_ext (λ e. alike e.when_holds)
  where
    alike : (o : Option (S → Option Bool)) → matches_now s o ≡ matches s o
    alike none = refl
    alike (some holds) = refl

merged_alike :
    {S P : Type 0} (merge : S → P → S) (s : S) (out : Option P)
    → merged_now merge s out ≡ merged merge s out
merged_alike merge s none = refl
merged_alike merge s (some out) = refl

module _ {S P : Type 0} (merge : S → P → S) (g : GraphSpec S P) where
  -- The synchronous loop gives what the awaited loop gives, or it refuses a node's promise.
  sync_from :
      (left : ℕ) (s : S) (n : Text)
      → (run_sync_from merge g left s n ≡ run_from merge g left s n)
        ⊎ Refuses g (run_sync_from merge g left s n)
  unfolding run_from run_sync_from
  sync_from zero s n = inl refl
  sync_from (suc left) s n = at_node (lookup n g.nodes) refl (sync_from left)
    where
      now : S → Text → RunResult S
      now = run_sync_from merge g left

      later : S → Text → RunResult S
      later = run_from merge g left

      along :
          (p : PathStep) (a b : RunResult S) → Agrees g a b → Agrees g (prepend p a) (prepend p b)
      along p a b (inl same) = inl (ap (prepend p) same)
      along p a b (inr (m, refused, f, known, t, given)) =
          inr (m, ap (prepend p) refused, f, known, t, given)

      at_edge :
          (s : S) (o : Option (Option (Edge S)))
          → ((s : S) (n : Text) → Agrees g (now s n) (later s n))
          → Agrees g (follow_now merge g now s n o) (follow merge g later s n o)
      at_edge s none ih = inl refl
      at_edge s (some none) ih = inl refl
      at_edge s (some (some e)) ih = along (step_along n e) (now s e.to) (later s e.to) (ih s e.to)

      at_state :
          (s : S)
          → ((s : S) (n : Text) → Agrees g (now s n) (later s n))
          → Agrees g (go_on merge g now s n) (
              if is_terminal g n
              then ok (s, last_step n ∷ [])
              else follow merge g later s n (first_match s (edges_of g n)))
      at_state s ih = branches g (is_terminal g n) _ _ _ _ (inl refl) (
          subst
            (λ test.
              Agrees g (follow_now merge g now s n (find_or_throw test (edges_of g n)))
                (follow merge g later s n (first_match s (edges_of g n))))
            (sym (tests_alike s)) (at_edge s (first_match s (edges_of g n)) ih))

      at_output :
          (f : S → Output P) (out : Output P)
          → lookup n g.nodes ≡ some f
          → f s ≡ out
          → ((s : S) (n : Text) → Agrees g (now s n) (later s n))
          → Agrees g (leave_now merge g now s n out) (leave merge g later s n (awaited n out))
      at_output f (returned out) known given ih =
          subst (λ t. Agrees g (go_on merge g now t n) (leave merge g later s n (ok out)))
            (sym (merged_alike merge s out)) (at_state (merged merge s out) ih)
      at_output f (promised out) known given ih =
          inr (n, refl, f, known, s, subst IsPromise (sym given) tt)
      at_output f throws known given ih = inl refl
      at_output f rejects known given ih =
          inr (n, refl, f, known, s, subst IsPromise (sym given) tt)

      at_node :
          (o : Option (S → Output P))
          → lookup n g.nodes ≡ o
          → ((s : S) (n : Text) → Agrees g (now s n) (later s n))
          → Agrees g (visit_now merge g now s n o) (visit merge g later s n o)
      at_node none known ih = inl refl
      at_node (some f) known ih = at_output f (f s) known refl ih

  -- The synchronous run gives what the awaited run gives, the same final state and path or the same
  -- error, unless it refuses a promise, and then one that the node it names gives in some state.
  pub run_graph_sync_agrees :
      (s : S)
      → (run_graph_sync merge g s ≡ run_graph merge g s)
        ⊎ ((m : Text) × (run_graph_sync merge g s ≡ err (returned_promise m))
            × (f : S → Output P) × (lookup m g.nodes ≡ some f)
            × (t : S) × IsPromise (f t))
  unfolding run_graph run_graph_sync
  run_graph_sync_agrees s =
      branches g (validate_graph g).is_ok _ _ _ _ (sync_from max_steps s g.start) (inl refl)
