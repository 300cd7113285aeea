-- ===== src/Graph/Search.antt =====
-- The search of `validateGraph`: it ends within its fuel, closed under the edges.
use mathlib.Core.List.{Memᴰ}
use mathlib.Core.List.Memᴰ.{head, tail}
use opiumo.Base.{
  contains, lookup, text_eq_sym, Bool, Bool-cases, List, Text, [], arith, false, if◌then◌else◌, inl,
  inr, length, refl, subst, sym, text_eq, text_eq_refl, text_eq→eq, true, ℕ, ◌+◌, ◌∷◌, ◌≡◌, ◌≤◌,
  ◌⊎◌,
}
use opiumo.Graph.Topology.{Edge, count_edges, or_no_edges, push_unseen}

pub contains-cons :
    (n : Text) (seen : List Text) (m : Text)
    → contains (n ∷ seen) m ≡ true
    → (m ≡ n) ⊎ (contains seen m ≡ true)
contains-cons n seen m h = elim (Bool-cases (text_eq m n)) [
  | inl same ↦ inl (text_eq→eq m n same)
  | inr apart ↦ inr (ground (arith, h, apart))
]

pub contains-tail :
    (n : Text) (seen : List Text) (m : Text) → contains seen m ≡ true → contains (n ∷ seen) m ≡ true
contains-tail n seen m h = ground (arith, h)

pub contains-head : (n : Text) (seen : List Text) → contains (n ∷ seen) n ≡ true
contains-head n seen = ground (arith, text_eq_refl n)

module _ {S : Type 0} where
  -- The edges of the nodes that are not seen yet.
  pub todo : List Text → List (Text × List (Edge S)) → ℕ
  todo seen [] = 0
  todo seen ((n, es) ∷ rest) = (if contains seen n then 0 else length es) + todo seen rest

  pub todo-nil : (xs : List (Text × List (Edge S))) → todo [] xs ≡ count_edges xs
  unfolding todo
  todo-nil [] = refl
  todo-nil ((n, es) ∷ rest) = omega (arith, todo-nil rest)

  todo-cons-le :
      (n : Text) (seen : List Text) (xs : List (Text × List (Edge S)))
      → todo (n ∷ seen) xs ≤ todo seen xs
  unfolding todo
  todo-cons-le n seen [] = omega arith
  todo-cons-le n seen ((k, es) ∷ rest) = ground (arith, todo-cons-le n seen rest)

  -- Seeing a node takes its edges off the rest.
  pub todo-cons :
      (n : Text) (seen : List Text) (xs : List (Text × List (Edge S)))
      → contains seen n ≡ false
      → todo (n ∷ seen) xs + length (or_no_edges (lookup n xs)) ≤ todo seen xs
  unfolding todo
  todo-cons n seen [] new = omega arith
  todo-cons n seen ((k, es) ∷ rest) new = by_key (text_eq n k) refl (todo-cons n seen rest new)
    where
      by_key :
          (b : Bool)
          → text_eq n k ≡ b
          → todo (n ∷ seen) rest + length (or_no_edges (lookup n rest)) ≤ todo seen rest
          → todo (n ∷ seen) ((k, es) ∷ rest) + length (or_no_edges (lookup n ((k, es) ∷ rest)))
            ≤ todo seen ((k, es) ∷ rest)
      by_key true t ih =
          let same : n ≡ k = text_eq→eq n k t in
          let seen_now : contains (n ∷ seen) k ≡ true =
            subst (λ x. contains (n ∷ seen) x ≡ true) same (contains-head n seen) in
          let new_key : contains seen k ≡ false = subst (λ x. contains seen x ≡ false) same new in
          ground (arith, t, seen_now, new_key, todo-cons-le n seen rest)
      by_key false t ih = let apart = text_eq_sym n k t in ground (arith, t, apart, ih)

  pub push_unseen-Mem :
      (seen : List Text) (es : List (Edge S)) (stack : List Text) (m : Text)
      → contains (push_unseen seen es stack) m ≡ true
      → (contains stack m ≡ true) ⊎ ((e : Edge S) × Memᴰ e es × (m ≡ e.to))
  push_unseen-Mem seen [] stack m h = inl h
  push_unseen-Mem seen (e ∷ es) stack m h =
      widen (contains seen e.to)
        (push_unseen-Mem seen es (if contains seen e.to then stack else e.to ∷ stack) m h)
    where
      Pushed : List (Edge S) → Type 0
      Pushed es = (d : Edge S) × Memᴰ d es × (m ≡ d.to)

      widen :
          (b : Bool)
          → (contains (if b then stack else e.to ∷ stack) m ≡ true) ⊎ Pushed es
          → (contains stack m ≡ true) ⊎ Pushed (e ∷ es)
      widen true (inl h) = inl h
      widen false (inl h) = elim (contains-cons e.to stack m h) [
        | inl same ↦ inr (e, head refl, same)
        | inr below ↦ inl below
      ]
      widen b (inr (d, inside, same)) = inr (d, tail inside, same)

  pub push_unseen-keeps :
      (seen : List Text) (es : List (Edge S)) (stack : List Text) (m : Text)
      → contains stack m ≡ true
      → contains (push_unseen seen es stack) m ≡ true
  push_unseen-keeps seen [] stack m h = h
  push_unseen-keeps seen (e ∷ es) stack m h =
      push_unseen-keeps seen es (if contains seen e.to then stack else e.to ∷ stack) m
        (ground (arith, h))

  pub push_unseen-pushes :
      (seen : List Text) (es : List (Edge S)) (stack : List Text) (e : Edge S)
      → Memᴰ e es
      → (contains seen e.to ≡ true) ⊎ (contains (push_unseen seen es stack) e.to ≡ true)
  push_unseen-pushes seen [] stack e h = elim h [ ]
  push_unseen-pushes seen (d ∷ es) stack e (head same) =
      subst
        (λ x.
          (contains seen x.to ≡ true)
          ⊎ (contains (push_unseen seen es (if contains seen d.to then stack else d.to ∷ stack))
                x.to
              ≡ true))
        (sym same) (by_seen (contains seen d.to) refl)
    where
      by_seen :
          (b : Bool)
          → contains seen d.to ≡ b
          → (contains seen d.to ≡ true)
            ⊎ (contains
                  (push_unseen seen es (if contains seen d.to then stack else d.to ∷ stack))
                  d.to
                ≡ true)
      by_seen true k = inl k
      by_seen false k = inr (
          push_unseen-keeps seen es (if contains seen d.to then stack else d.to ∷ stack) d.to
            (ground (arith, k, text_eq_refl d.to)))
  push_unseen-pushes seen (d ∷ es) stack e (tail h) =
      push_unseen-pushes seen es (if contains seen d.to then stack else d.to ∷ stack) e h

  pub length-push_unseen :
      (seen : List Text) (es : List (Edge S)) (stack : List Text)
      → length (push_unseen seen es stack) ≤ length es + length stack
  length-push_unseen seen [] stack = omega arith
  length-push_unseen seen (e ∷ es) stack =
      ground (arith, length-push_unseen seen es stack, length-push_unseen seen es (e.to ∷ stack))
