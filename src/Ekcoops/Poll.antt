-- ===== src/Ekcoops/Poll.antt =====
-- pkg/ekcoops/poll.go: the loop that reconciles on every tick.
pub mod Steps
pub mod Purged
use ekco.Prelude.{ℕ, ◌+◌, ◌%◌, Bool, true, List, [], ◌∷◌, eqb}
use ekco.Errors.{Result, failure, ok, err}
use ekco.Kube.{Node, number, Call, Action, pure, raise, attempt, wrap, send, ◌>>=◌, ◌>>◌, when}
use ekco.Ekcoops.Config.{Config, Services}
use ekco.Ekcoops.Operator.{reconcile, rotate_certs}

-- What the `select` yields: a tick, or the end of the context.
pub data Event : Type 0 where
  tick cancelled : Event

-- `doFullReconcile`
abbrev pub is_full : ℕ → Bool
is_full i = eqb (i % 60) 0

-- `i++` runs unless `continue` was reached.
abbrev pub next_round : ℕ → Result (Unit {0}) → ℕ
next_round i (ok _) = i + 1
next_round i (err e) = i

abbrev reconcile_listed : Config → Services → Bool → Result (List Node) → Action (Unit {0})
reconcile_listed cfg services full (ok nodes) = reconcile cfg services nodes full
reconcile_listed cfg services full (err e) = raise e

-- One tick in round `i`, as far as an error that is logged.
unfoldable pub poll_tick : Config → Services → ℕ → Action (Unit {0})
poll_tick cfg services i = do
  nodes ← send Call.list_nodes
  reconcile_listed cfg services (is_full i) nodes

-- The rounds that follow the events, with the number of the next one.
unfoldable pub poll_from : Config → Services → ℕ → List Event → Action ℕ
poll_from cfg services i [] = pure i
poll_from cfg services i (cancelled ∷ events) = pure i
poll_from cfg services i (tick ∷ events) = do
  r ← attempt (poll_tick cfg services i)
  poll_from cfg services (next_round i r) events

-- `onLaunch`
unfoldable pub on_launch : Config → Services → Action (Unit {0})
on_launch cfg services = when cfg.rotate_certs (wrap "rotate certs" (rotate_certs services true))

-- `Poll`: a failure on launch is only logged.
unfoldable pub poll : Config → Services → List Event → Action ℕ
poll cfg services events = do attempt (on_launch cfg services); poll_from cfg services 0 events
