-- ===== src/Cli/PurgeCommand/Accepted.antt =====
-- cmd/ekco/cli/purge_node.go: what a whole run of the command deletes.
use ekco.Prelude.{
  ℕ, ◌+◌, ◌≤◌, String, ◌≡◌, refl, ap, ◌∙◌, ◌⊎◌, inl, inr, Bool, false, List, [], ◌∷◌, arith, any,
}
use ekco.Errors.{Result, ok, err}
use ekco.Kube.{Node, Call, Env}
use ekco.Util.Node.Counts.{count_if, ready_master, ready_worker}
use ekco.Cluster.PurgeNode.Order.{deletions}
use ekco.Ekcoops.Config.{Config}
use ekco.Cli.Init.{EkcoConfig, Viper, Host, init_ekco_config}
use ekco.Cli.Init.Accepted.{initialize-cases}
use ekco.Cli.PurgeCommand.{
  is_ready_master_named, is_ready_worker_named, purge_node_command, purge_node_cmd,
}
use ekco.Cli.PurgeCommand.Limits.{purge_node_command-deletions}

-- What allows to purge the node of a name: the nodes were listed, a ready control-plane node of that name
-- is not the only one, and a ready worker is one of more than the limit.
abbrev pub AllowedByCommand : Config → String → Env → Type 0
AllowedByCommand cfg name env =
    (nodes : List Node) × (env.answer Call.list_nodes [] ≡ ok nodes)
    × ((any (is_ready_master_named name) nodes ≡ false) ⊎ (2 ≤ count_if ready_master nodes))
    × ((any (is_ready_worker_named name) nodes ≡ false)
        ⊎ (cfg.min_ready_worker_nodes + 1 ≤ count_if ready_worker nodes))

two_masters :
    (limit count : ℕ) (b : Bool)
    → 1 ≤ limit
    → (b ≡ false) ⊎ (limit + 1 ≤ count)
    → (b ≡ false) ⊎ (2 ≤ count)
two_masters limit count b enough (inl missing) = inl missing
two_masters limit count b enough (inr more) = inr (omega arith)

module _ (cfg : Config) (name : String) (env : Env) where
  abbrev Outcome : List String → Type 0
  Outcome names = (names ≡ []) ⊎ (names ≡ name ∷ []) × AllowedByCommand cfg name env

  run-Outcome :
      (r : Result (List Node))
      → env.answer Call.list_nodes [] ≡ r
      → 1 ≤ cfg.min_ready_master_nodes
      → Outcome (deletions (purge_node_command cfg name env []).1)
  unfolding purge_node_command
  run-Outcome (err e) unlisted enough = inl (ground (arith, unlisted))
  run-Outcome (ok nodes) listed enough =
      elim (purge_node_command-deletions cfg name env nodes [] listed) [
        | inl kept ↦ inl kept
        | inr (one, masters, workers) ↦
            let others =
              two_masters cfg.min_ready_master_nodes (count_if ready_master nodes)
                (any (is_ready_master_named name) nodes) enough masters in
            inr (one, (nodes, listed, others, workers))
      ]

-- Whatever the settings, the host and the cluster answer, the purge-node command deletes no Node object or
-- one of the given name; and then its settings were accepted and it listed the nodes, where a ready
-- control-plane node of that name was one of at least two, and a ready worker of that name one of more
-- than the limit.
pub purge_node_cmd-deletions :
    (v : Viper) (host : Host) (name : String) (env : Env)
    → let names = deletions (purge_node_cmd v host name env []).1 in
      (names ≡ [])
      ⊎ (names ≡ name ∷ [])
        × (config : EkcoConfig) × (init_ekco_config v env [] ≡ (ok config, []))
        × AllowedByCommand config.operator name env
unfolding purge_node_cmd
purge_node_cmd-deletions v host name env = elim (initialize-cases v host env []) [
  | inr (e, stopped) ↦ inl (ground (arith, stopped))
  | inl (config, begun, read, enough) ↦
      let runs : purge_node_cmd v host name env []
          ≡ purge_node_command config.operator name env [] =
        ground (arith, begun) in
      elim (run-Outcome config.operator name env (env.answer Call.list_nodes []) refl enough) [
        | inl kept ↦ inl (ap (λ r. deletions r.1) runs ∙ kept)
        | inr (one, allowed) ↦ inr (ap (λ r. deletions r.1) runs ∙ one, config, read, allowed)
      ]
]
