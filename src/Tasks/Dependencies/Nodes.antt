-- ===== src/Tasks/Dependencies/Nodes.antt =====
-- The set of nodes that `_would_create_cycle` collects is that of a graph.
use apex_ai.Prelude.{
  ℕ, ◌+◌, ◌≤◌, ◌<◌, ◌≡◌, not, ◌&&◌, List, [], ◌∷◌, nat_eq, ◌==◌, ==_iff, if◌then◌else◌, contains,
  count, count-append, contains-count, not-contains, inl, inr, arith, Bool-cases,
}
use apex_ai.Kahn.Degrees.{edge_count}
use apex_ai.Kahn.Invariant.{IsGraph}
use apex_ai.Tasks.Dependencies.{add_node, collect_nodes}

count-add_node :
    (node n : ℕ) (nodes : List ℕ)
    → count n (add_node node nodes)
      ≡ count n nodes + (if node == n && not (contains nodes n) then 1 else 0)
count-add_node node n nodes = ground (arith, ==_iff node n, count-append n nodes (node ∷ []))

add_node-keeps : (node n : ℕ) (nodes : List ℕ) → count n nodes ≤ count n (add_node node nodes)
add_node-keeps node n nodes = omega (arith, count-add_node node n nodes)

add_node-has : (node : ℕ) (nodes : List ℕ) → 0 < count node (add_node node nodes)
add_node-has node nodes =
    ground (arith, ==_iff node node, count-add_node node node nodes, contains-count node nodes)

add_node-distinct :
    (node n : ℕ) (nodes : List ℕ) → count n nodes ≤ 1 → count n (add_node node nodes) ≤ 1
add_node-distinct node n nodes h =
    ground (arith, ==_iff node n, count-add_node node n nodes, not-contains n nodes)

collect_nodes-keeps :
    (es : List (ℕ × ℕ)) (nodes : List ℕ) (n : ℕ) → count n nodes ≤ count n (collect_nodes nodes es)
unfolding collect_nodes
collect_nodes-keeps [] nodes n = omega arith
collect_nodes-keeps ((blk, bld) ∷ es) nodes n =
    let one = add_node blk nodes in
    omega (
      arith,
      add_node-keeps blk n nodes,
      add_node-keeps bld n one,
      collect_nodes-keeps es (add_node bld one) n,
    )

collect_nodes-distinct :
    (es : List (ℕ × ℕ)) (nodes : List ℕ) (n : ℕ)
    → count n nodes ≤ 1
    → count n (collect_nodes nodes es) ≤ 1
unfolding collect_nodes
collect_nodes-distinct [] nodes n h = h
collect_nodes-distinct ((blk, bld) ∷ es) nodes n h =
    collect_nodes-distinct es (add_node bld (add_node blk nodes)) n
      (add_node-distinct bld n (add_node blk nodes) (add_node-distinct blk n nodes h))

collect_nodes-ends :
    (es : List (ℕ × ℕ)) (nodes : List ℕ) (u v : ℕ)
    → 0 < edge_count es u v
    → (0 < count u (collect_nodes nodes es)) × (0 < count v (collect_nodes nodes es))
unfolding collect_nodes
collect_nodes-ends [] nodes u v h = absurd (omega arith)
collect_nodes-ends ((blk, bld) ∷ es) nodes u v h =
    let one = add_node blk nodes in
    let two = add_node bld one in
    elim (Bool-cases (blk == u && bld == v)) [
      | inl here ↦
          let src : blk ≡ u = ground (arith, ==_iff blk u) in
          let dst : bld ≡ v = ground (arith, ==_iff bld v) in
          rw (← src, ← dst)
            (
              omega (
                arith,
                add_node-has blk nodes,
                add_node-keeps bld blk one,
                collect_nodes-keeps es two blk,
              ),
              omega (arith, add_node-has bld one, collect_nodes-keeps es two bld),
            )
      | inr past ↦ collect_nodes-ends es two u v (ground arith)
    ]

-- The collected nodes, in any order of the set, hold both ends of every edge and no node twice.
pub collect_nodes-IsGraph :
    (set_order : List ℕ → List ℕ)
    → ((xs : List ℕ) (n : ℕ) → count n (set_order xs) ≡ count n xs)
    → (es : List (ℕ × ℕ)) → IsGraph (set_order (collect_nodes [] es)) es
collect_nodes-IsGraph set_order same es =
    let nodes = collect_nodes [] es in
    let once = λ (n : ℕ). collect_nodes-distinct es [] n (omega arith) in
    record {
      distinct = λ n. omega (arith, same nodes n, once n);
      closed = λ u v p.
          let ends = collect_nodes-ends es [] u v p in
          (
            omega (arith, same nodes u, once u, ends.0),
            omega (arith, same nodes v, once v, ends.1),
          );
    }
