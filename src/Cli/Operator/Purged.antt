-- ===== src/Cli/Operator/Purged.antt =====
-- cmd/ekco/cli/operator.go: which Node objects a run of the command deletes.
use mathlib.Core.List.{Memᴰ}
use mathlib.Core.List.Memᴰ.{head, tail}
use mathlib.Core.Path.{subst}
use ekco.Prelude.{
  ℕ, ◌≤◌, String, ◌≡◌, refl, sym, ◌⊎◌, inl, inr, true, Option, List, [], ◌∷◌, arith, All,
}
use ekco.Errors.{Error, Result, ok, err}
use ekco.Kube.{Node, Call, Trace, lift, ◌>>=◌, Env}
use ekco.Ekcoops.Controller.Quiet.{controller_services-Quiet}
use ekco.Util.Node.{node_ready_counts, node_is_master}
use ekco.Cluster.PurgeNode.Order.{deletions}
use ekco.Ekcoops.Config.{Config}
use ekco.Ekcoops.Controller.{controller_services}
use ekco.Ekcoops.Nodes.Purging.{MayPurge}
use ekco.Ekcoops.Poll.{Event, on_launch, poll}
use ekco.Ekcoops.Poll.Purged.{HoldsWhereAllowed, listings, poll-All}
use ekco.Webhook.Install.{WebhookServer, start_webhooks}
use ekco.Cli.Operator.{run_operator, operator_cmd}
use ekco.Webhook.Install.Quiet.{start_webhooks-Quiet}
use ekco.Cli.Init.Accepted.{initialize-cases}
use ekco.Cli.Init.{EkcoConfig, Viper, Host, init_ekco_config}

module _ (config : EkcoConfig) (events : List Event) (env : Env) where
  -- The moments at which a run of the operator, with its webhooks, lists the nodes.
  abbrev pub moments : List Trace
  moments =
      let services = controller_services config.controller in
      let started =
        (start_webhooks config.operator.rook_priority_class config.pod_image_overrides env []).1 in
      listings config.operator services env 0 events
        (on_launch config.operator services env started).1

-- A node of this name was listed at one of the moments, with limits that allowed to purge it, and a
-- control-plane node only where one was ready.
abbrev pub AllowedAt : Config → Env → List Trace → String → Type 0
AllowedAt cfg env times name =
    (v : Trace) × (nodes : List Node) × (node : Node) × Memᴰ v times
    × (env.answer Call.list_nodes v ≡ ok nodes)
    × Memᴰ node nodes
    × (node.name ≡ name)
    × MayPurge cfg node (node_ready_counts nodes)
    × (node_is_master node ≡ true → 1 ≤ (node_ready_counts nodes).0)

at_least_one : (a b : ℕ) → 1 ≤ a → a ≤ b → 1 ≤ b
at_least_one a b one more = omega arith

All-each : {A : Type 0} (P : A → Type 0) (xs : List A) → ((x : A) → Memᴰ x xs → P x) → All P xs
All-each P [] each = tt
All-each P (x ∷ xs) each = (each x (head refl), All-each P xs (λ y m. each y (tail m)))

module _ (cfg : Config) (env : Env) (times : List Trace)
    (enough : 1 ≤ cfg.min_ready_master_nodes) where
  listed-AllowedAt :
      (v : Trace) (r : Result (List Node))
      → Memᴰ v times
      → env.answer Call.list_nodes v ≡ r
      → HoldsWhereAllowed cfg (AllowedAt cfg env times) r
  listed-AllowedAt v (ok nodes) m listed =
      All-each
        (λ node. MayPurge cfg node (node_ready_counts nodes) → AllowedAt cfg env times node.name)
        nodes
        (λ node n may. (
          v,
          nodes,
          node,
          m,
          listed,
          n,
          refl,
          may,
          λ master.
              at_least_one cfg.min_ready_master_nodes (node_ready_counts nodes).0 enough
                (may.2 master),
        ))
  listed-AllowedAt v (err e) m listed = tt

module _ (config : EkcoConfig) (events : List Event) (env : Env)
    (enough : 1 ≤ config.operator.min_ready_master_nodes) where
  after_start :
      (r : Result (Option WebhookServer)) (u : Trace) (P : String → Type 0)
      → let services = controller_services config.controller in
        All
          (λ v. HoldsWhereAllowed config.operator P (env.answer Call.list_nodes v))
          (listings config.operator services env 0 events
            (on_launch config.operator services env u).1)
        → All P (deletions u)
        → All P (deletions ((lift r >>= λ server. poll config.operator services events) env u).1)
  after_start (ok server) u P may before =
      poll-All config.operator (controller_services config.controller) env P
        (controller_services-Quiet config.controller) events u may before
  after_start (err e) u P may before = before

  run_operator-AllowedAt :
      All
        (AllowedAt config.operator env (moments config events env))
        (deletions (run_operator config events env []).1)
  unfolding run_operator
  run_operator-AllowedAt =
      let class = config.operator.rook_priority_class in
      let (r, u) = start_webhooks class config.pod_image_overrides env [] in
      let times = moments config events env in
      let P = AllowedAt config.operator env times in
      after_start r u P
        (All-each (λ v. HoldsWhereAllowed config.operator P (env.answer Call.list_nodes v)) times
          (λ v m.
            listed-AllowedAt config.operator env times enough v (env.answer Call.list_nodes v) m
              refl))
        (subst (All P) (sym (start_webhooks-Quiet class config.pod_image_overrides env [])) tt)

All-weaken :
    {P Q : String → Type 0} (names : List String)
    → ((name : String) → P name → Q name)
    → All P names
    → All Q names
All-weaken [] each held = tt
All-weaken (name ∷ names) each (first, rest) = (each name first, All-weaken names each rest)

-- The command runs with settings that it accepts, or has called nothing.
operator_cmd-cases :
    (v : Viper) (host : Host) (events : List Event) (env : Env) (t : Trace)
    → ((config : EkcoConfig) × (init_ekco_config v env t ≡ (ok config, t))
        × (1 ≤ config.operator.min_ready_master_nodes)
        × (operator_cmd v host events env t ≡ run_operator config events env t))
      ⊎ ((e : Error) × (operator_cmd v host events env t ≡ (err e, t)))
unfolding operator_cmd
operator_cmd-cases v host events env t = elim (initialize-cases v host env t) [
  | inr (e, stopped) ↦ inr (e, ground (arith, stopped))
  | inl (config, begun, read, enough) ↦ inl (config, read, enough, ground (arith, begun))
]

-- Under the settings that the command accepts, at one of the moments of its run.
abbrev pub DeletedBy : Viper → List Event → Env → String → Type 0
DeletedBy v events env name =
    (config : EkcoConfig) × (init_ekco_config v env [] ≡ (ok config, []))
    × AllowedAt config.operator env (moments config events env) name

-- Whatever the settings, the host and the cluster answer, and however the ticks come: every Node object
-- that the command which runs the operator deletes is one that a tick of that run listed, not ready, while
-- the limits of the accepted settings allowed to purge it; and if it was a control-plane node, at least one
-- control-plane node of that list was ready.
pub operator_cmd-deletions :
    (v : Viper) (host : Host) (events : List Event) (env : Env)
    → All (DeletedBy v events env) (deletions (operator_cmd v host events env []).1)
operator_cmd-deletions v host events env = elim (operator_cmd-cases v host events env []) [
  | inr (e, stopped) ↦ subst (λ r. All (DeletedBy v events env) (deletions r.1)) (sym stopped) tt
  | inl (config, read, enough, runs) ↦
      subst (λ r. All (DeletedBy v events env) (deletions r.1)) (sym runs)
        (All-weaken (deletions (run_operator config events env []).1)
          (λ name allowed. (config, read, allowed))
          (run_operator-AllowedAt config events env enough))
]
