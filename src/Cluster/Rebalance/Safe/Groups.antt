-- ===== src/Cluster/Rebalance/Safe/Groups.antt =====
-- pkg/cluster/minio.go: the loops over the nodes, which move a pod of the list or none.
use ekco.Prelude.{
  ℕ, String, ◌≡◌, refl, sym, ◌∙◌, ◌⊎◌, inl, inr, Bool, true, false, Option, none, some, List, [],
  ◌∷◌, ◌++◌, ◌==◌, if◌then◌else◌, length, All, lookup, insert,
}
use ekco.Errors.{Result, ok, err}
use ekco.Kube.{Keeps, Pod, Call, Trace, Action, pure, lift, ◌>>=◌, ◌>>◌, done, Env}
use ekco.Cluster.Rebalance.{
  reschedule_one_pod, safe_to_reschedule, is_safe, move_one, candidate, group_pods, add_pod,
}
use ekco.Cluster.Rebalance.Safe.{losses, OneMove, no_move, reschedule_one_pod-Moves}
use mathlib.Core.Path.{subst}
use mathlib.Core.Bool.{true≢false}

is_safe-Keeps : (o : Option Pod) → Keeps losses (is_safe o)
unfolding is_safe safe_to_reschedule
is_safe-Keeps none env t = refl
is_safe-Keeps (some pod) env t = refl

-- A loop that goes on has moved no pod.
abbrev stopped : Result Bool → Bool
stopped (ok b) = b
stopped (err e) = true

module _ (P : Pod → Type 0) where
  abbrev pub OfOption : Option Pod → Type 0
  OfOption none = Unit {0}
  OfOption (some pod) = P pod

  abbrev AllOf : Option (List Pod) → Type 0
  AllOf none = Unit {0}
  AllOf (some pods) = All P pods

  abbrev pub InGroups : List (String × List Pod) → Type 0
  InGroups [] = Unit {0}
  InGroups ((host, pods) ∷ groups) = All P pods × InGroups groups

  if-AllOf : (b : Bool) (o p : Option (List Pod)) → AllOf o → AllOf p → AllOf (if b then o else p)
  if-AllOf true o p first second = first
  if-AllOf false o p first second = second

  lookup-AllOf :
      (host : String) (groups : List (String × List Pod))
      → InGroups groups
      → AllOf (lookup host groups)
  lookup-AllOf host [] all = tt
  lookup-AllOf host ((other_host, pods) ∷ groups) (here, rest) =
      if-AllOf (other_host == host) (some pods) (lookup host groups) here
        (lookup-AllOf host groups rest)

  if-InGroups :
      (b : Bool) (g h : List (String × List Pod))
      → InGroups g
      → InGroups h
      → InGroups (if b then g else h)
  if-InGroups true g h first second = first
  if-InGroups false g h first second = second

  insert-InGroups :
      (host : String) (pods : List Pod) (groups : List (String × List Pod))
      → All P pods
      → InGroups groups
      → InGroups (insert host pods groups)
  insert-InGroups host pods [] all rest = (all, tt)
  insert-InGroups host pods ((other_host, others) ∷ groups) all (here, rest) =
      if-InGroups (other_host == host) ((host, pods) ∷ groups)
        ((other_host, others) ∷ insert host pods groups) (all, rest)
        (here, insert-InGroups host pods groups all rest)

  append-All : (pods : List Pod) (pod : Pod) → All P pods → P pod → All P (pods ++ pod ∷ [])
  append-All [] pod all p = (p, tt)
  append-All (q ∷ pods) pod (here, rest) p = (here, append-All pods pod rest p)

  add-InGroups :
      (pod : Pod) (groups : List (String × List Pod)) (o : Option (List Pod))
      → AllOf o
      → P pod
      → InGroups groups
      → InGroups (elim o [
        | none ↦ insert pod.status.host_ip (pod ∷ []) groups
        | some pods ↦ insert pod.status.host_ip (pods ++ pod ∷ []) groups
      ])
  add-InGroups pod groups none all p rest =
      insert-InGroups pod.status.host_ip (pod ∷ []) groups (p, tt) rest
  add-InGroups pod groups (some pods) all p rest =
      insert-InGroups pod.status.host_ip (pods ++ pod ∷ []) groups (append-All pods pod all p) rest

  -- The groups hold pods of the list only.
  pub group_pods-InGroups :
      (groups : List (String × List Pod)) (pods : List Pod)
      → InGroups groups
      → All P pods
      → InGroups (group_pods groups pods)
  unfolding group_pods
  group_pods-InGroups groups [] all none_left = all
  group_pods-InGroups groups (pod ∷ pods) all (p, rest) =
      group_pods-InGroups (add_pod pod groups) pods
        (add-InGroups pod groups (lookup pod.status.host_ip groups)
          (lookup-AllOf pod.status.host_ip groups all) p all)
        rest

  candidate-OfOption :
      (chosen : ℕ → Bool) (o : Option (List Pod)) → AllOf o → OfOption (candidate chosen o)
  candidate-OfOption chosen none all = tt
  candidate-OfOption chosen (some []) all = tt
  candidate-OfOption chosen (some (pod ∷ pods)) (p, rest) = of_if (chosen (length (pod ∷ pods)))
    where
      of_if : (b : Bool) → OfOption (if b then some pod else none)
      of_if true = p
      of_if false = tt

  abbrev pub Tries : List Call → Result Bool × Trace → Type 0
  Tries before (r, u) = (losses u ≡ before) ⊎ ((stopped r ≡ true) × OneMove P before (losses u))

  moved-Tries :
      (before : List Call) (r : Result (Unit {0})) (env : Env) (u : Trace)
      → OneMove P before (losses u)
      → Tries before ((lift r >>= λ _. pure true) env u)
  moved-Tries before (ok _) env u one = inr (refl, one)
  moved-Tries before (err e) env u one = inr (refl, one)

  module _ (chosen : ℕ → Bool) (groups : List (String × List Pod)) (env : Env)
      (before : List Call) where
    after_safe :
        (o : Option Pod)
        → OfOption o
        → (safe : Result Bool) (rest : Action Bool) (u : Trace) → losses u ≡ before
        → Tries before (rest env u)
        → Tries before (
            (lift safe >>= λ safe. elim o [
              | none ↦ rest
              | some pod ↦ if safe then (do reschedule_one_pod pod; pure true) else rest
            ])
              env u)
    after_safe o p (err e) rest u same later = inl same
    after_safe none p (ok safe) rest u same later = later
    after_safe (some pod) p (ok false) rest u same later = later
    after_safe (some pod) p (ok true) rest u same later =
        moved-Tries before (reschedule_one_pod pod env u).0 env (reschedule_one_pod pod env u).1 (
          subst (λ l. OneMove P l (losses (reschedule_one_pod pod env u).1)) same
            (reschedule_one_pod-Moves P pod p env u))

    pub move_one-Tries :
        (hosts : List String) (u : Trace)
        → InGroups groups
        → losses u ≡ before
        → Tries before (move_one chosen groups hosts env u)
    unfolding move_one
    move_one-Tries [] u all same = inl same
    move_one-Tries (host ∷ hosts) u all same =
        let found = candidate chosen (lookup host groups) in
        let kept = is_safe-Keeps found env u ∙ same in
        after_safe found
          (candidate-OfOption chosen (lookup host groups) (lookup-AllOf host groups all))
          (is_safe found env u).0 (move_one chosen groups hosts) (is_safe found env u).1 kept
          (move_one-Tries hosts (is_safe found env u).1 all kept)

  -- A loop, and if it moved no pod what follows.
  pub or_else :
      (before : List Call) (run : Result Bool × Trace) (k : Action (Unit {0})) (env : Env)
      → Tries before run
      → ((u : Trace) → losses u ≡ before → OneMove P before (losses (k env u).1))
      → OneMove P before (losses ((lift run.0 >>= λ moved. if moved then done else k) env run.1).1)
  or_else before (err e, u) k env (inl same) later =
      subst (λ l. OneMove P before l) (sym same) no_move
  or_else before (err e, u) k env (inr (stop, one)) later = one
  or_else before (ok true, u) k env (inl same) later =
      subst (λ l. OneMove P before l) (sym same) no_move
  or_else before (ok true, u) k env (inr (stop, one)) later = one
  or_else before (ok false, u) k env (inl same) later = later u same
  or_else before (ok false, u) k env (inr (stop, one)) later = absurd (true≢false (sym stop))

  pub last_loop :
      (before : List Call) (run : Result Bool × Trace) (env : Env)
      → Tries before run
      → OneMove P before (losses ((lift run.0 >>= λ moved. done) env run.1).1)
  last_loop before (err e, u) env (inl same) = subst (λ l. OneMove P before l) (sym same) no_move
  last_loop before (ok b, u) env (inl same) = subst (λ l. OneMove P before l) (sym same) no_move
  last_loop before (err e, u) env (inr (stop, one)) = one
  last_loop before (ok b, u) env (inr (stop, one)) = one
