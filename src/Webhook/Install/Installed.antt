-- ===== src/Webhook/Install/Installed.antt =====
-- pkg/webhook/server.go: which webhooks a start of the server leaves in the cluster.
use mathlib.Core.List.{append-nil, append_assoc}
use ekco.Prelude.{String, ◌≡◌, ap, ◌∙◌, List, [], ◌∷◌, ◌++◌, arith, ◌==◌, if◌then◌else◌, is_empty}
use ekco.Errors.{ok}
use ekco.Kube.{
  bind-inv, MutatingWebhook, Call, Trace, Action, pure, ◌>>=◌, ◌>>◌, Env, accepted, KeepsAccepted,
}
use ekco.Webhook.Install.{
  WebhookServer, ensure_service, make_certificate, ensure_priority_class, ensure_hook,
  install_priority, install_overrides, new_server, rook_priority_hook, pod_image_overrides_hook,
  priority_webhook, overrides_webhook,
}

abbrev hooks_in : Call → List MutatingWebhook
hooks_in (Call.create_hook_config config) = config.webhooks
hooks_in (Call.update_hook_config config) = config.webhooks
hooks_in _ = []

abbrev hooks_of : Trace → List MutatingWebhook
hooks_of [] = []
hooks_of (c ∷ t) = hooks_of t ++ hooks_in c

-- The webhooks that were written, by calls that the server accepted, the oldest first.
abbrev pub written : Env → Trace → List MutatingWebhook
written env t = hooks_of (accepted env t)

abbrev removal_in : Call → List String
removal_in (Call.delete_hook_config name) = name ∷ []
removal_in _ = []

abbrev removals_of : Trace → List String
removals_of [] = []
removals_of (c ∷ t) = removals_of t ++ removal_in c

-- The configurations that were removed, or found to be gone, the oldest first.
abbrev pub removed : Env → Trace → List String
removed env t = removals_of (accepted env t)

abbrev pub hooks_for : String → String → List (String × String) → String → List MutatingWebhook
hooks_for ns class overrides ca =
    (if class == "" then [] else priority_webhook ns ca ∷ [])
    ++ (if is_empty overrides then [] else overrides_webhook ns ca ∷ [])

ensure_service-written : (ns : String) → KeepsAccepted written (ensure_service ns)
unfolding ensure_service
ensure_service-written ns env t = grind (arith, append-nil)

make_certificate-written : (ns : String) → KeepsAccepted written (make_certificate ns)
unfolding make_certificate
make_certificate-written ns env t = grind (arith, append-nil)

ensure_priority_class-written : (name : String) → KeepsAccepted written (ensure_priority_class name)
unfolding ensure_priority_class
ensure_priority_class-written name env t = grind (arith, append-nil)

ensure_hook-written :
    (name : String) (webhook : MutatingWebhook) (env : Env) (t : Trace)
    → (ensure_hook name webhook env t).0 ≡ ok tt
    → written env (ensure_hook name webhook env t).1 ≡ written env t ++ webhook ∷ []
unfolding ensure_hook
ensure_hook-written name webhook env t worked = grind (arith, append-nil)

module _ (ns class ca : String) (env : Env) (t : Trace) where
  install_priority-written :
      (install_priority ns class ca env t).0 ≡ ok tt
      → written env (install_priority ns class ca env t).1
        ≡ written env t ++ (if class == "" then [] else priority_webhook ns ca ∷ [])
  unfolding install_priority
  install_priority-written worked =
      let classed = (ensure_priority_class class env t).1 in
      grind (
        arith,
        append-nil (written env t),
        ensure_priority_class-written class env t,
        ensure_hook-written rook_priority_hook (priority_webhook ns ca) env classed,
      )

  install_overrides-written :
      (overrides : List (String × String))
      → (install_overrides ns overrides ca env t).0 ≡ ok tt
      → written env (install_overrides ns overrides ca env t).1
        ≡ written env t ++ (if is_empty overrides then [] else overrides_webhook ns ca ∷ [])
  unfolding install_overrides
  install_overrides-written overrides worked = grind (
    arith,
    append-nil (written env t),
    ensure_hook-written pod_image_overrides_hook (overrides_webhook ns ca) env t,
  )

module _ (ns class : String) (overrides : List (String × String)) where
  abbrev made_with : String × String → WebhookServer
  made_with pair = record {
    certificate = pair.0;
    key = pair.1;
    rook_priority_class = class;
    overrides = overrides;
  }

  -- The end of `NewServer`, after the certificate is made.
  abbrev with_pair : String × String → Action WebhookServer
  with_pair pair = do
    install_priority ns class pair.0
    install_overrides ns overrides pair.0
    pure (made_with pair)

  with_pair-written :
      (pair : String × String) (server : WebhookServer) (env : Env) (t u : Trace)
      → with_pair pair env t ≡ (ok server, u)
      → (written env u ≡ written env t ++ hooks_for ns class overrides server.certificate)
        × (server.rook_priority_class ≡ class)
        × (server.overrides ≡ overrides)
  with_pair-written pair server env t u worked =
      let t₁ = (install_priority ns class pair.0 env t).1 in
      let (_, first, next) =
        bind-inv (install_priority ns class pair.0)
          (λ _. install_overrides ns overrides pair.0 >> pure (made_with pair)) env t u server
          worked in
      let (_, second, last) =
        bind-inv (install_overrides ns overrides pair.0) (λ _. pure (made_with pair)) env t₁ u
          server next in
      let one = install_priority-written ns class pair.0 env t (ap (λ r. r.0) first) in
      let two = install_overrides-written ns class pair.0 env t₁ overrides (ap (λ r. r.0) second) in
      grind (arith, one, two, last, append_assoc)

  pub new_server-written :
      (server : WebhookServer) (env : Env) (t u : Trace)
      → new_server ns class overrides env t ≡ (ok server, u)
      → (written env u ≡ written env t ++ hooks_for ns class overrides server.certificate)
        × (server.rook_priority_class ≡ class)
        × (server.overrides ≡ overrides)
  unfolding new_server
  new_server-written server env t u worked =
      let t₁ = (ensure_service ns env t).1 in
      let t₂ = (make_certificate ns env t₁).1 in
      let (_, first, next) =
        bind-inv (ensure_service ns) (λ _. make_certificate ns >>= with_pair) env t u server
          worked in
      let (pair, second, last) = bind-inv (make_certificate ns) with_pair env t₁ u server next in
      let (all, class_kept, overrides_kept) = with_pair-written pair server env t₂ u last in
      (
        all
            ∙ ap (λ l. l ++ hooks_for ns class overrides server.certificate)
                (make_certificate-written ns env t₁ ∙ ensure_service-written ns env t),
        class_kept,
        overrides_kept,
      )
