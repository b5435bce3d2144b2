-- ===== src/Http/Totals.antt =====
-- What the answers for the whole cluster add up to.
use dmqtt.Base.{
  ℕ, ◌+◌, ◌≡◌, refl, List, [], ◌∷◌, ◌++◌, Option, none, some, arith, inl, inr, Bool-cases,
  Option-cases,
}
use dmqtt.Http.{NodeInfo, BrokerApi, ClusterApi, Server}
use dmqtt.Http.Devices.{is_asked}
use dmqtt.Http.ClusterViews.{
  NodeStats, ClusterTotals, fetch_remote_stats, add_stats, remote_stats, local_stats, local_totals,
  cluster_totals, handle_cluster_stats,
}

abbrev pub sum_connections : List NodeStats → ℕ
sum_connections [] = 0
sum_connections (n ∷ ns) = n.connections + sum_connections ns

abbrev pub sum_subs : List NodeStats → ℕ
sum_subs [] = 0
sum_subs (n ∷ ns) = n.subs + sum_subs ns

-- The totals are those of the listed nodes.
unfoldable pub IsTotal : ClusterTotals → Type 0
IsTotal t =
    (t.total_connections ≡ sum_connections t.nodes) × (t.total_subscriptions ≡ sum_subs t.nodes)

sum_connections-append :
    (ns : List NodeStats) (n : NodeStats)
    → sum_connections (ns ++ (n ∷ [])) ≡ sum_connections ns + n.connections
sum_connections-append [] n = omega arith
sum_connections-append (m ∷ ns) n = omega (arith, sum_connections-append ns n)

sum_subs-append :
    (ns : List NodeStats) (n : NodeStats) → sum_subs (ns ++ (n ∷ [])) ≡ sum_subs ns + n.subs
sum_subs-append [] n = omega arith
sum_subs-append (m ∷ ns) n = omega (arith, sum_subs-append ns n)

add_stats-IsTotal :
    (t : ClusterTotals) (ns : Option NodeStats) → IsTotal t → IsTotal (add_stats t ns)
unfolding IsTotal add_stats
add_stats-IsTotal t none h = h
add_stats-IsTotal t (some n) (h, k) =
    (omega (arith, sum_connections-append t.nodes n), omega (arith, sum_subs-append t.nodes n))

remote_stats-IsTotal :
    (c : ClusterApi) (answer : NodeInfo → Option NodeStats) (members : List NodeInfo)
    (t : ClusterTotals)
    → IsTotal t
    → IsTotal (remote_stats c answer members t)
unfolding remote_stats
remote_stats-IsTotal c answer [] t h = h
remote_stats-IsTotal c answer (node ∷ rest) t h = elim (Bool-cases (is_asked c node)) [
  | inl e ↦ rw e (
      remote_stats-IsTotal c answer rest (add_stats t (fetch_remote_stats answer node))
        (add_stats-IsTotal t (fetch_remote_stats answer node) h))
  | inr e ↦ rw e (remote_stats-IsTotal c answer rest t h)
]

cluster_totals-IsTotal :
    (s : Server) (answer : NodeInfo → Option NodeStats) (t : ClusterTotals)
    → IsTotal t
    → IsTotal (cluster_totals s answer t)
unfolding cluster_totals
cluster_totals-IsTotal s answer t h = elim (Option-cases s.cluster_api) [
  | inl e ↦ rw e h
  | inr (c, e) ↦ rw e (remote_stats-IsTotal c answer c.members t h)
]

local_totals-IsTotal : (s : Server) (local : NodeStats) → IsTotal (local_totals s local)
unfolding IsTotal local_totals
local_totals-IsTotal s local = (omega arith, omega arith)

-- Whatever the other nodes answer, a node with a broker reports totals for the cluster, and they are the
-- sums over the nodes that it lists.
pub handle_cluster_stats-IsTotal :
    (s : Server) (api : BrokerApi) (answer : NodeInfo → Option NodeStats)
    → s.broker_api ≡ some api
    → (t : ClusterTotals) × (handle_cluster_stats s answer ≡ some t) × IsTotal t
unfolding handle_cluster_stats
handle_cluster_stats-IsTotal s api answer h = (
  cluster_totals s answer (local_totals s (local_stats s api)),
  rw h refl,
  cluster_totals-IsTotal s answer _ (local_totals-IsTotal s (local_stats s api)),
)
