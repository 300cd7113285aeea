-- ===== src/Graph/Listing.antt =====
-- src/graph/graph.ts: `listEdges`.
use opiumo.Base.{
  length-keep_if-append, Bool, List, Text, [], arith, is_some, keep_if, length, length-append, refl,
  ◌++◌, ◌∷◌, ◌≡◌,
}
use opiumo.Graph.Topology.{Edge, GraphSpec, count_conditional, count_edges, validate_graph}

pub record ListedEdge : Type 0 where
  pub origin : Text
  pub to : Text
  pub label : Text
  pub conditional : Bool

module _ {S : Type 0} where
  abbrev pub listed_from : Text → List (Edge S) → List ListedEdge
  listed_from from [] = []
  listed_from from (e ∷ es) =
      record { origin = from; to = e.to; label = e.label; conditional = is_some e.when_holds }
      ∷ listed_from from es

  abbrev pub listed : List (Text × List (Edge S)) → List ListedEdge
  listed [] = []
  listed ((from, es) ∷ rest) = listed_from from es ++ listed rest

  counted_from :
      (n : Text) (es : List (Edge S))
      → (length (listed_from n es) ≡ length es)
        × (length (keep_if (λ l. l.conditional) (listed_from n es))
            ≡ length (keep_if (λ e. is_some e.when_holds) es))
  counted_from n [] = (refl, refl)
  counted_from n (e ∷ es) =
      (omega (arith, (counted_from n es).0), ground (arith, (counted_from n es).1))

  counted :
      (lists : List (Text × List (Edge S)))
      → (length (listed lists) ≡ count_edges lists)
        × (length (keep_if (λ l. l.conditional) (listed lists)) ≡ count_conditional lists)
  counted [] = (refl, refl)
  counted ((n, es) ∷ rest) = (
    omega (
      arith,
      length-append (listed_from n es) (listed rest),
      (counted_from n es).0,
      (counted rest).0,
    ),
    omega (
      arith,
      length-keep_if-append (λ l. l.conditional) (listed_from n es) (listed rest),
      (counted_from n es).1,
      (counted rest).1,
    ),
  )

module _ {S P : Type 0} where
  unfoldable pub list_edges : GraphSpec S P → List ListedEdge
  list_edges g = listed g.edges

  -- The list has as many edges as the validation counts, and as many conditional ones.
  pub list_edges_counts :
      (g : GraphSpec S P)
      → (length (list_edges g) ≡ (validate_graph g).edge_count)
        × (length (keep_if (λ l. l.conditional) (list_edges g))
            ≡ (validate_graph g).conditional_edges)
  unfolding list_edges validate_graph
  list_edges_counts g = counted g.edges
