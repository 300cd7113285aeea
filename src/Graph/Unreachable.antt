-- ===== src/Graph/Unreachable.antt =====
-- The nodes that `validateGraph` calls unreachable.
use mathlib.Core.List.{Memᴰ}
use opiumo.Base.{
  contains, keys, lookup, Bool-cases, ap, text_eq→eq, ◌∙◌, is_some, keep_if, not, text_eq, Bool,
  List, Text, [], arith, false, if◌then◌else◌, inl, inr, length, refl, subst, suc, sym, true, zero,
  ℕ, ◌+◌, ◌<◌, ◌↔◌, ◌∷◌, ◌≡◌, ◌⊎◌,
}
use opiumo.Graph.Search.{
  contains-cons, contains-head, contains-tail, length-push_unseen, push_unseen-Mem,
  push_unseen-keeps, push_unseen-pushes, todo, todo-cons, todo-nil,
}
use opiumo.Graph.Topology.{
  is_node, validate_graph, Edge, GraphSpec, edges_of, explore, push_unseen, reached, search_fuel,
}

contains-keys :
    {A : Type 0} (xs : List (Text × A)) (m : Text) → contains (keys xs) m ≡ is_some (lookup m xs)
contains-keys [] m = refl
contains-keys ((n, x) ∷ xs) m = ground (arith, contains-keys xs m)

contains-keep_if :
    (p : Text → Bool) (xs : List Text) (m : Text)
    → (contains (keep_if p xs) m ≡ true) ↔ ((contains xs m ≡ true) × (p m ≡ true))
contains-keep_if p [] m = (λ h. absurd (cc h), λ (h, _). absurd (cc h))
contains-keep_if p (x ∷ xs) m = by_head (text_eq m x) refl (p x) refl (contains-keep_if p xs m)
  where
    by_head :
        (b : Bool)
        → text_eq m x ≡ b
        → (c : Bool) → p x ≡ c
        → (contains (keep_if p xs) m ≡ true) ↔ ((contains xs m ≡ true) × (p m ≡ true))
        → (contains (keep_if p (x ∷ xs)) m ≡ true) ↔ ((contains (x ∷ xs) m ≡ true) × (p m ≡ true))
    by_head true t c k (there, back) =
        let same : p m ≡ c = ap p (text_eq→eq m x t) ∙ k in
        (ground (arith, t, k, same, there), ground (arith, t, k, same, back))
    by_head false t c k (there, back) = (ground (arith, t, k, there), ground (arith, t, k, back))

module _ {S P : Type 0} (g : GraphSpec S P) where
  -- The nodes that edges lead to from the start.
  pub data Reached : Text → Type 0 where
    starts : Reached g.start
    leads : {n : Text} (e : Edge S) → Reached n → Memᴰ e (edges_of g n) → Reached e.to

  AllReached : List Text → Type 0
  AllReached names = (m : Text) → contains names m ≡ true → Reached m

  all_cons : (n : Text) (names : List Text) → Reached n → AllReached names → AllReached (n ∷ names)
  unfolding AllReached
  all_cons n names r all m h = elim (contains-cons n names m h) [
    | inl same ↦ subst Reached (sym same) r
    | inr below ↦ all m below
  ]

  explore-AllReached :
      (fuel : ℕ) (seen stack : List Text)
      → AllReached seen
      → AllReached stack
      → AllReached (explore g fuel seen stack)
  unfolding explore AllReached
  explore-AllReached zero seen stack a b = a
  explore-AllReached (suc fuel) seen [] a b = a
  explore-AllReached (suc fuel) seen (n ∷ stack) a b =
      by_seen (contains seen n) _ _
        (explore-AllReached fuel seen stack a (λ m h. b m (contains-tail n stack m h)))
        (explore-AllReached fuel (n ∷ seen) (push_unseen (n ∷ seen) (edges_of g n) stack)
          (all_cons n seen here a) pushed)
    where
      here : Reached n
      here = b n (contains-head n stack)

      pushed : AllReached (push_unseen (n ∷ seen) (edges_of g n) stack)
      pushed m h = elim (push_unseen-Mem (n ∷ seen) (edges_of g n) stack m h) [
        | inl below ↦ b m (contains-tail n stack m below)
        | inr (e, inside, same) ↦ subst Reached (sym same) (leads e here inside)
      ]

      by_seen :
          (b : Bool) (x y : List Text)
          → AllReached x
          → AllReached y
          → AllReached (if b then x else y)
      by_seen true x y hx hy = hx
      by_seen false x y hx hy = hy

  Inside : List Text → List Text → Text → Type 0
  Inside seen stack m = (contains seen m ≡ true) ⊎ (contains stack m ≡ true)

  -- Every edge of a seen node leads to one that is seen or waits.
  IsClosed : List Text → List Text → Type 0
  IsClosed seen stack =
      (m : Text) (e : Edge S)
      → contains seen m ≡ true
      → Memᴰ e (edges_of g m)
      → Inside seen stack e.to

  Completes : List Text → List Text → List Text → Type 0
  Completes seen stack result =
      ((m : Text) → Inside seen stack m → contains result m ≡ true) × IsClosed result []

  explore-Completes :
      (fuel : ℕ) (seen stack : List Text)
      → length stack + todo seen g.edges < fuel
      → IsClosed seen stack
      → Completes seen stack (explore g fuel seen stack)
  unfolding explore Completes IsClosed Inside
  explore-Completes zero seen stack enough closed = absurd (omega (arith, enough))
  explore-Completes (suc fuel) seen [] enough closed =
      (λ m h. elim h [ inl k ↦ k | inr k ↦ absurd (cc k) ], closed)
  explore-Completes (suc fuel) seen (n ∷ stack) enough closed =
      by_seen (contains seen n) refl (explore-Completes fuel seen stack)
        (explore-Completes fuel (n ∷ seen) stack')
    where
      stack' : List Text
      stack' = push_unseen (n ∷ seen) (edges_of g n) stack

      Goal : List Text → Type 0
      Goal result = Completes seen (n ∷ stack) result

      skip :
          (k : contains seen n ≡ true) (m : Text) → Inside seen (n ∷ stack) m → Inside seen stack m
      skip k m (inl h) = inl h
      skip k m (inr h) = elim (contains-cons n stack m h) [
        | inl same ↦ inl (subst (λ x. contains seen x ≡ true) (sym same) k)
        | inr below ↦ inr below
      ]

      visit_keeps : (m : Text) → Inside seen (n ∷ stack) m → Inside (n ∷ seen) stack' m
      visit_keeps m (inl h) = inl (contains-tail n seen m h)
      visit_keeps m (inr h) = elim (contains-cons n stack m h) [
        | inl same ↦
            inl (subst (λ x. contains (n ∷ seen) x ≡ true) (sym same) (contains-head n seen))
        | inr below ↦ inr (push_unseen-keeps (n ∷ seen) (edges_of g n) stack m below)
      ]

      visit_closed : IsClosed (n ∷ seen) stack'
      visit_closed m e h inside = elim (contains-cons n seen m h) [
        | inl same ↦
            push_unseen-pushes (n ∷ seen) (edges_of g n) stack e
              (subst (λ x. Memᴰ e (edges_of g x)) same inside)
        | inr below ↦ visit_keeps e.to (closed m e below inside)
      ]

      by_seen :
          (b : Bool)
          → contains seen n ≡ b
          → (length stack + todo seen g.edges < fuel
              → IsClosed seen stack
              → Completes seen stack (explore g fuel seen stack))
          → (length stack' + todo (n ∷ seen) g.edges < fuel
              → IsClosed (n ∷ seen) stack'
              → Completes (n ∷ seen) stack' (explore g fuel (n ∷ seen) stack'))
          → Goal (if b then explore g fuel seen stack else explore g fuel (n ∷ seen) stack')
      by_seen true k skipped visited =
          let (kept, shut) =
            skipped (omega (arith, enough)) (λ m e h inside. skip k e.to (closed m e h inside)) in
          (λ m h. kept m (skip k m h), shut)
      by_seen false k skipped visited =
          let (kept, shut) =
            visited
              (omega (
                arith,
                enough,
                todo-cons n seen g.edges k,
                length-push_unseen (n ∷ seen) (edges_of g n) stack,
              ))
              visit_closed in
          (λ m h. kept m (visit_keeps m h), shut)

  -- The search finds the nodes that edges lead to from the start, and no others.
  reached_iff : (m : Text) → (contains (reached g) m ≡ true) ↔ Reached m
  unfolding AllReached Completes IsClosed Inside
  reached_iff m = (
    explore-AllReached (search_fuel g) [] (g.start ∷ []) (λ x h. absurd (cc h))
        (all_cons g.start [] starts (λ x h. absurd (cc h))) m,
    within m,
  )
    where
      complete : Completes [] (g.start ∷ []) (reached g)
      complete =
          explore-Completes (search_fuel g) [] (g.start ∷ []) (omega (arith, todo-nil g.edges))
            (λ x e h inside. absurd (cc h))

      within : (x : Text) → Reached x → contains (reached g) x ≡ true
      within x starts = complete.0 g.start (inr (contains-head g.start []))
      within x (leads {n = n} e r inside) = elim (complete.1 n e (within n r) inside) [
        | inl k ↦ k
        | inr k ↦ absurd (cc k)
      ]

  -- The validation calls unreachable exactly the nodes to which no edges lead from the start.
  pub validate_graph-unreachable :
      (m : Text)
      → (contains (validate_graph g).unreachable m ≡ true) ↔ ((is_node g m ≡ true) × ¬ (Reached m))
  unfolding validate_graph
  validate_graph-unreachable m =
      let (there, back) = contains-keep_if (λ n. not (contains (reached g) n)) (keys g.nodes) m in
      let (found, finds) = reached_iff m in
      (
        λ h.
            let (node, missed) = there h in
            (cc (node, contains-keys g.nodes m), λ r. absurd (ground (arith, missed, finds r))),
        λ (node, apart). back (
          cc (node, contains-keys g.nodes m),
          elim (Bool-cases (contains (reached g) m)) [
            | inl k ↦ absurd (apart (found k))
            | inr k ↦ cc k
          ],
        ),
      )
