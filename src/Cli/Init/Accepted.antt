-- ===== src/Cli/Init/Accepted.antt =====
-- The settings that the commands accept, and that they call nothing without.
use ekco.Prelude.{◌≤◌, ◌≡◌, refl, ◌⊎◌, inl, inr, arith, ltb, Bool-cases}
use ekco.Errors.{Error, Result, failure, wrapped, ok, err}
use ekco.Kube.{Result-cases, Trace, Action, lift, wrap, ◌>>=◌, Env}
use ekco.Cli.Init.{
  initialize, EkcoConfig, Viper, Host, init_ekco_config, init_cluster_controller, checked_config,
  with_contour_namespace,
}

-- The settings, checked once they are read.
abbrev read : Viper → Result EkcoConfig → Action EkcoConfig
read v r = wrap "failed to unmarshal config" (lift r) >>= checked_config v

read-cases :
    (v : Viper) (r : Result EkcoConfig) (env : Env) (t : Trace)
    → ((config : EkcoConfig) × (read v r env t ≡ (ok config, t))
        × (1 ≤ config.operator.min_ready_master_nodes))
      ⊎ ((e : Error) × (read v r env t ≡ (err e, t)))
read-cases v (err e) env t = inr (wrapped "failed to unmarshal config" e, refl)
read-cases v (ok config) env t = elim (Bool-cases (ltb config.operator.min_ready_master_nodes 1)) [
  | inl few ↦ inr (failure "min_ready_master_nodes must be at least 1", ground arith)
  | inr enough ↦ inl (with_contour_namespace v config, ground arith, ground arith)
]

init_ekco_config-cases :
    (v : Viper) (env : Env) (t : Trace)
    → ((config : EkcoConfig) × (init_ekco_config v env t ≡ (ok config, t))
        × (1 ≤ config.operator.min_ready_master_nodes))
      ⊎ ((e : Error) × (init_ekco_config v env t ≡ (err e, t)))
unfolding init_ekco_config
init_ekco_config-cases v env t = read-cases v v.unmarshal env t

init_cluster_controller-cases :
    (host : Host) (config : EkcoConfig) (env : Env) (t : Trace)
    → (init_cluster_controller host config env t ≡ (ok config.controller, t))
      ⊎ ((e : Error) × (init_cluster_controller host config env t ≡ (err e, t)))
unfolding init_cluster_controller
init_cluster_controller-cases host config env t = elim (Result-cases host.in_cluster_config) [
  | inr (e, f) ↦ inr (wrapped "load kubernetes config" e, ground (arith, f))
  | inl a ↦ elim (Result-cases host.kubernetes_client) [
    | inr (e, f) ↦ inr (wrapped "initialize kubernetes client" e, ground (arith, a, f))
    | inl b ↦ elim (Result-cases host.controller_runtime_client) [
      | inr (e, f) ↦ inr (wrapped "initialize controller runtime client" e, ground (arith, a, b, f))
      | inl c ↦ elim (Result-cases host.ceph_client) [
        | inr (e, f) ↦ inr (wrapped "initialize ceph client" e, ground (arith, a, b, c, f))
        | inl d ↦ elim (Result-cases host.dynamic_client) [
          | inr (e, f) ↦
              inr (wrapped "failed creating Kubernetes client." e, ground (arith, a, b, c, d, f))
          | inl g ↦ inl (ground (arith, a, b, c, d, g))
        ]
      ]
    ]
  ]
]

-- The commands begin with settings that are accepted, or end without a call.
pub initialize-cases :
    (v : Viper) (host : Host) (env : Env) (t : Trace)
    → ((config : EkcoConfig) × (initialize v host env t ≡ (ok config, t))
        × (init_ekco_config v env t ≡ (ok config, t))
        × (1 ≤ config.operator.min_ready_master_nodes))
      ⊎ ((e : Error) × (initialize v host env t ≡ (err e, t)))
unfolding initialize
initialize-cases v host env t = elim (init_ekco_config-cases v env t) [
  | inr (e, broken) ↦ inr (wrapped "failed to initialize config" e, ground (arith, broken))
  | inl (config, read, enough) ↦ elim (Result-cases host.logger) [
    | inr (e, broken) ↦ inr (wrapped "failed to initialize logger" e, ground (arith, read, broken))
    | inl logs ↦ elim (init_cluster_controller-cases host config env t) [
      | inr (e, broken) ↦
          inr (
            wrapped "failed to initialize cluster controller" e,
            ground (arith, read, logs, broken),
          )
      | inl made ↦ inl (config, ground (arith, read, logs, made), read, enough)
    ]
  ]
]
