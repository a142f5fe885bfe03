-- ===== src/Ekcoops/Poll/Steps.antt =====
-- pkg/ekcoops/poll.go: the loop as a relation between rounds.
use ekco.Prelude.{ℕ, ◌+◌, ◌%◌, ◌≡◌, refl, ◌↔◌, Bool, true, List, [], ◌∷◌, arith}
use ekco.Errors.{Error, Result, ok, err}
use ekco.Kube.{Node, Call, Trace, Env}
use ekco.Ekcoops.Config.{Config, Services}
use ekco.Ekcoops.Operator.{reconcile}
use ekco.Ekcoops.Poll.{
  Event, tick, cancelled, is_full, next_round, reconcile_listed, poll_tick, poll_from,
}

module _ (cfg : Config) (services : Services) (env : Env) where
  -- Full exactly in every sixtieth round.
  abbrev pub IsFullIn : Bool → ℕ → Type 0
  IsFullIn full i = (full ≡ true) ↔ ◌≡◌ {A = ℕ} (i % 60) 0

  -- A run from round `i`: a tick that lists the nodes and reconciles them without an error goes on to the
  -- next round; after one that fails, the same round is tried again; the end of the context ends the run.
  pub data Run : ℕ → List Event → Trace → Result ℕ × Trace → Type 0 where
    waiting : {i : ℕ} {t : Trace} → Run i [] t (ok i, t)
    ended : {i : ℕ} {events : List Event} {t : Trace} → Run i (cancelled ∷ events) t (ok i, t)
    reconciled :
        {i : ℕ} {events : List Event} {t u : Trace} {end : Result ℕ × Trace} {nodes : List Node}
        {full : Bool}
        → env.answer Call.list_nodes t ≡ ok nodes
        → IsFullIn full i
        → reconcile cfg services nodes full env (Call.list_nodes ∷ t) ≡ (ok tt, u)
        → Run (i + 1) events u end
        → Run i (tick ∷ events) t end
    not_reconciled :
        {i : ℕ} {events : List Event} {t u : Trace} {end : Result ℕ × Trace} {nodes : List Node}
        {full : Bool} {e : Error}
        → env.answer Call.list_nodes t ≡ ok nodes
        → IsFullIn full i
        → reconcile cfg services nodes full env (Call.list_nodes ∷ t) ≡ (err e, u)
        → Run i events u end
        → Run i (tick ∷ events) t end
    not_listed :
        {i : ℕ} {events : List Event} {t : Trace} {end : Result ℕ × Trace} {e : Error}
        → env.answer Call.list_nodes t ≡ err e
        → Run i events (Call.list_nodes ∷ t) end
        → Run i (tick ∷ events) t end

  is_full-in : (i : ℕ) → IsFullIn (is_full i) i
  is_full-in i = (λ h. ground arith, λ h. ground arith)

  after_reconcile :
      (i : ℕ) (events : List Event) (t : Trace) (nodes : List Node) (r : Result (Unit {0}))
      (u : Trace)
      → env.answer Call.list_nodes t ≡ ok nodes
      → reconcile cfg services nodes (is_full i) env (Call.list_nodes ∷ t) ≡ (r, u)
      → Run (next_round i r) events u (poll_from cfg services (next_round i r) events env u)
      → Run i (tick ∷ events) t (poll_from cfg services (next_round i r) events env u)
  after_reconcile i events t nodes (ok _) u listed run rest =
      reconciled listed (is_full-in i) run rest
  after_reconcile i events t nodes (err e) u listed run rest =
      not_reconciled listed (is_full-in i) run rest

  after_list :
      (i : ℕ) (events : List Event) (t : Trace) (r : Result (List Node))
      → env.answer Call.list_nodes t ≡ r
      → ((j : ℕ) (u : Trace) → Run j events u (poll_from cfg services j events env u))
      → let run = reconcile_listed cfg services (is_full i) r env (Call.list_nodes ∷ t) in
        Run i (tick ∷ events) t (poll_from cfg services (next_round i run.0) events env run.1)
  after_list i events t (err e) listed rest = not_listed listed (rest i (Call.list_nodes ∷ t))
  after_list i events t (ok nodes) listed rest =
      let run = reconcile cfg services nodes (is_full i) env (Call.list_nodes ∷ t) in
      after_reconcile i events t nodes run.0 run.1 listed refl (rest (next_round i run.0) run.1)

  -- Whatever the cluster answers and however the ticks come, the loop is a run of these rounds: every tick
  -- lists the nodes and, if that works, reconciles all of them, in full exactly if the number of the round
  -- is a multiple of 60; the number goes up by one if all of this works, and stays otherwise, so that the
  -- next tick tries the same round again; and the run ends with the context.
  pub poll_from-Run :
      (i : ℕ) (events : List Event) (t : Trace)
      → Run i events t (poll_from cfg services i events env t)
  unfolding poll_from poll_tick
  poll_from-Run i [] t = waiting
  poll_from-Run i (cancelled ∷ events) t = ended
  poll_from-Run i (tick ∷ events) t =
      after_list i events t (env.answer Call.list_nodes t) refl (λ j u. poll_from-Run j events u)
