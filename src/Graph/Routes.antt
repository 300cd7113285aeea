-- ===== src/Graph/Routes.antt =====
use mathlib.Core.List.{Memᴰ}
use mathlib.Core.List.Memᴰ.{head, tail}
-- The path that a run returns.
use opiumo.Base.{
  lookup, Bool, List, Option, Result, Text, [], arith, err, false, inl, inr, length, none, ok, refl,
  some, subst, suc, sym, true, zero, ℕ, ◌∷◌, ◌≡◌, ◌≤◌, ◌⊎◌,
}
use opiumo.Graph.Running.{
  PathStep, RunError, RunResult, awaited, find_or_throw, first_match, found, passes, follow,
  last_step, leave, max_steps, merged, prepend, run_from, run_graph, step_along, visit,
}
use opiumo.Graph.Topology.{Edge, GraphSpec, Output, edges_of, is_terminal, validate_graph}

prepend-ok :
    {S : Type 0} (p : PathStep) (r : RunResult S) (t : S) (path : List PathStep)
    → prepend p r ≡ ok (t, path)
    → (rest : List PathStep) × (r ≡ ok (t, rest)) × (path ≡ p ∷ rest)
prepend-ok p (err e) t path h = absurd (cc h)
prepend-ok p (ok (s, rest)) t path h = (rest, cc h, cc h)

find_or_throw-Mem :
    {A : Type 0} (test : A → Option Bool) (xs : List A) (x : A)
    → find_or_throw test xs ≡ some (some x)
    → Memᴰ x xs
find_or_throw-Mem test [] x h = absurd (cc h)
find_or_throw-Mem test (y ∷ ys) x h = by_test (test y) h (find_or_throw-Mem test ys x)
  where
    by_test :
        (o : Option Bool)
        → found y o (find_or_throw test ys) ≡ some (some x)
        → (find_or_throw test ys ≡ some (some x) → Memᴰ x ys)
        → Memᴰ x (y ∷ ys)
    by_test none k rest = absurd (cc k)
    by_test (some true) k rest = head (cc k)
    by_test (some false) k rest = tail (rest k)

module _ {S P : Type 0} (g : GraphSpec S P) where
  -- A path from a node: each step stands where the one before it leads, by an edge declared for its
  -- node, and the last step stands at a terminal.
  pub IsRoute : Text → List PathStep → Type 0
  IsRoute n [] = ⊥
  IsRoute n (p ∷ path) =
      ((p ≡ last_step n) × (is_terminal g n ≡ true) × (path ≡ []))
      ⊎ ((e : Edge S) × (p ≡ step_along n e)
          × (is_terminal g n ≡ false)
          × Memᴰ e (edges_of g n)
          × IsRoute e.to path)

module _ {S P : Type 0} (merge : S → P → S) (g : GraphSpec S P) where
  run_from-IsRoute :
      (left : ℕ) (s : S) (n : Text) (t : S) (path : List PathStep)
      → run_from merge g left s n ≡ ok (t, path)
      → IsRoute g n path × (length path ≤ left)
  unfolding run_from IsRoute
  run_from-IsRoute zero s n t path h = absurd (cc h)
  run_from-IsRoute (suc left) s n t path h = at_node (lookup n g.nodes) h (run_from-IsRoute left)
    where
      now : S → Text → RunResult S
      now = run_from merge g left

      Good : Text → ℕ → List PathStep → Type 0
      Good m k p = IsRoute g m p × (length p ≤ k)

      at_edge :
          (s' : S) (o : Option (Option (Edge S)))
          → first_match s' (edges_of g n) ≡ o
          → is_terminal g n ≡ false
          → follow merge g now s' n o ≡ ok (t, path)
          → ((s : S) (m : Text) (t : S) (p : List PathStep) → now s m ≡ ok (t, p) → Good m left p)
          → Good n (suc left) path
      at_edge s' none k b v ih = absurd (cc v)
      at_edge s' (some none) k b v ih = absurd (cc v)
      at_edge s' (some (some e)) k b v ih =
          let (rest, w, same) = prepend-ok (step_along n e) (now s' e.to) t path v in
          let (route, bound) = ih s' e.to t rest w in
          subst (Good n (suc left)) (sym same) (
            inr (e, refl, b, find_or_throw-Mem (passes s') (edges_of g n) e k, route),
            omega (arith, bound),
          )

      at_output :
          (r : Result RunError (Option P)) (b : Bool)
          → is_terminal g n ≡ b
          → leave merge g now s n r ≡ ok (t, path)
          → ((s : S) (m : Text) (t : S) (p : List PathStep) → now s m ≡ ok (t, p) → Good m left p)
          → Good n (suc left) path
      at_output (err e) b k v ih = absurd (cc v)
      at_output (ok out) true k v ih =
          subst (Good n (suc left)) {x = last_step n ∷ []} (cc (k, v))
            (inl (refl, k, refl), omega arith)
      at_output (ok out) false k v ih =
          let s' = merged merge s out in
          at_edge s' (first_match s' (edges_of g n)) refl k (cc (k, v)) ih

      at_node :
          (o : Option (S → Output P))
          → visit merge g now s n o ≡ ok (t, path)
          → ((s : S) (m : Text) (t : S) (p : List PathStep) → now s m ≡ ok (t, p) → Good m left p)
          → Good n (suc left) path
      at_node none v ih = absurd (cc v)
      at_node (some f) v ih = at_output (awaited n (f s)) (is_terminal g n) refl v ih

  -- The path of a run that returns goes from the start to a terminal, each step by an edge that is
  -- declared for its node, in at most two hundred steps.
  pub run_graph-IsRoute :
      (s t : S) (path : List PathStep)
      → run_graph merge g s ≡ ok (t, path)
      → IsRoute g g.start path × (length path ≤ max_steps)
  unfolding run_graph
  run_graph-IsRoute s t path h = by_ok (validate_graph g).is_ok refl
    where
      by_ok :
          (b : Bool)
          → (validate_graph g).is_ok ≡ b
          → IsRoute g g.start path × (length path ≤ max_steps)
      by_ok true k = run_from-IsRoute max_steps s g.start t path (cc (k, h))
      by_ok false k = absurd (cc (k, h))
