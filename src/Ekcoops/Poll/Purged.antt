-- ===== src/Ekcoops/Poll/Purged.antt =====
-- pkg/ekcoops/poll.go: which Node objects are deleted while the operator runs.
use mathlib.Core.Path.{subst}
use ekco.Prelude.{ℕ, String, sym, List, [], ◌∷◌, arith, All}
use ekco.Errors.{Result, ok, err}
use ekco.Kube.{Node, Call, Trace, Env}
use ekco.Util.Node.{node_ready_counts}
use ekco.Cluster.PurgeNode.Order.{deletions, Quiet}
use ekco.Ekcoops.Config.{Config, Services}
use ekco.Ekcoops.Nodes.Purging.{MayPurge}
use ekco.Ekcoops.Operator.Quiet.{QuietServices, rotate_certs-Quiet}
use ekco.Ekcoops.Operator.Limits.{reconcile-deletions}
use ekco.Ekcoops.Poll.{
  Event, tick, cancelled, is_full, next_round, reconcile_listed, poll_tick, poll_from, on_launch,
  poll,
}

-- The predicate holds of the name of each node of a list that the limits allow to purge.
abbrev pub HoldsWhereAllowed : Config → (String → Type 0) → Result (List Node) → Type 0
HoldsWhereAllowed cfg P (ok nodes) =
    All (λ node. MayPurge cfg node (node_ready_counts nodes) → P node.name) nodes
HoldsWhereAllowed cfg P (err e) = Unit {0}

module _ (cfg : Config) (services : Services) (env : Env) where
  -- The moments at which the ticks list the nodes.
  abbrev pub listings : ℕ → List Event → Trace → List Trace
  listings i [] t = []
  listings i (cancelled ∷ events) t = []
  listings i (tick ∷ events) t =
      let (r, u) = poll_tick cfg services i env t in t ∷ listings (next_round i r) events u

  module _ (P : String → Type 0) (quiet : QuietServices services) where
    tick-deletions :
        (i : ℕ) (r : Result (List Node)) (t : Trace)
        → HoldsWhereAllowed cfg P r
        → All P (deletions t)
        → All P
            (deletions (reconcile_listed cfg services (is_full i) r env (Call.list_nodes ∷ t)).1)
    tick-deletions i (ok nodes) t may before =
        reconcile-deletions cfg services P env nodes (is_full i) (Call.list_nodes ∷ t) quiet may
          before
    tick-deletions i (err e) t may before = before

    poll_from-deletions :
        (i : ℕ) (events : List Event) (t : Trace)
        → All (λ v. HoldsWhereAllowed cfg P (env.answer Call.list_nodes v)) (listings i events t)
        → All P (deletions t)
        → All P (deletions (poll_from cfg services i events env t).1)
    unfolding poll_from poll_tick
    poll_from-deletions i [] t may before = before
    poll_from-deletions i (cancelled ∷ events) t may before = before
    poll_from-deletions i (tick ∷ events) t (first, rest) before =
        let (r, u) = poll_tick cfg services i env t in
        poll_from-deletions (next_round i r) events u rest
          (tick-deletions i (env.answer Call.list_nodes t) t first before)

    on_launch-Quiet : Quiet (on_launch cfg services)
    unfolding on_launch
    on_launch-Quiet env' t = grind (arith, rotate_certs-Quiet cfg services quiet)

    -- Whatever the cluster answers and however the ticks come until the context ends, and if the services
    -- delete no Node object: what holds of the name of every node that some tick lists and that the limits
    -- allow to purge then, and of every Node object deleted before, holds of every Node object that is
    -- deleted when the loop ends.
    pub poll-All :
        (events : List Event) (t : Trace)
        → All
            (λ v. HoldsWhereAllowed cfg P (env.answer Call.list_nodes v))
            (listings 0 events (on_launch cfg services env t).1)
        → All P (deletions t)
        → All P (deletions (poll cfg services events env t).1)
    unfolding poll
    poll-All events t may before =
        poll_from-deletions 0 events (on_launch cfg services env t).1 may
          (subst (All P) (sym (on_launch-Quiet env t)) before)
