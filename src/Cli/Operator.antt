-- ===== src/Cli/Operator.antt =====
-- cmd/ekco/cli/operator.go: the command that runs the operator. What the server of migrations does beside
-- the loop reaches it as answers of the environment.
pub mod Purged
use ekco.Prelude.{ℕ, List}
use ekco.Kube.{Action, ◌>>=◌, ◌>>◌}
use ekco.Ekcoops.Controller.{controller_services}
use ekco.Ekcoops.Poll.{Event, poll}
use ekco.Webhook.Install.{start_webhooks}
use ekco.Cli.Init.{EkcoConfig, Viper, Host, initialize}

-- What follows the webhooks is the loop, until a signal or the end of the server ends the context.
unfoldable pub run_operator : EkcoConfig → List Event → Action ℕ
run_operator config events = do
  start_webhooks config.operator.rook_priority_class config.pod_image_overrides
  poll config.operator (controller_services config.controller) events

unfoldable pub operator_cmd : Viper → Host → List Event → Action ℕ
operator_cmd v host events = do config ← initialize v host; run_operator config events
