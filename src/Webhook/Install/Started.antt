-- ===== src/Webhook/Install/Started.antt =====
-- cmd/ekco/cli/operator.go: after the start, the cluster has the webhooks that are served and no others.
use mathlib.Core.Path.{subst}
use mathlib.Core.List.{append-nil, append_assoc}
use ekco.Prelude.{
  String, ◌≡◌, refl, sym, ap, ◌∙◌, inl, inr, Bool, true, false, ◌&&◌, Option, none, some, List, [],
  ◌∷◌, ◌++◌, map, arith, ◌==◌, if◌then◌else◌, Bool-cases, Option-cases, is_empty, All, insert,
}
use ekco.Errors.{Result, ok, err}
use ekco.Kube.{bind-inv, wrap-inv, MutatingWebhook, Trace, Action, pure, wrap, ◌>>◌, when, Env}
use ekco.Webhook.Install.{
  WebhookServer, routes, new_server, rook_priority_hook, pod_image_overrides_hook, priority_webhook,
  overrides_webhook, override_of, remove_hook, parse_overrides, server_of, start_server,
  start_webhooks,
}
use ekco.Prelude.Text.{split}
use ekco.Webhook.Install.Installed.{written, removed, hooks_for, new_server-written}
use ekco.Webhook.Install.Removed.{remove_hook-written, remove_hook-removed, new_server-removed}

insert-nonempty : (k v : String) (m : List (String × String)) → is_empty (insert k v m) ≡ false
insert-nonempty k v [] = refl
insert-nonempty k v ((j, w) ∷ m) = ground arith

-- What is parsed is no map without entries, unless there is nothing to parse.
parse_overrides-empty :
    (parsed m : List (String × String)) (texts : List String)
    → parse_overrides parsed texts ≡ some m
    → is_empty m ≡ (is_empty parsed && is_empty texts)
unfolding parse_overrides
parse_overrides-empty parsed m [] parses = ground arith
parse_overrides-empty parsed m (text ∷ texts) parses =
    elim (Option-cases (override_of (split b'=' text))) [
      | inl bad ↦ grind (arith, bad)
      | inr ((image, new), good) ↦ grind (
        arith,
        good,
        insert-nonempty image new parsed,
        parse_overrides-empty (insert image new parsed) m texts,
      )
    ]

abbrev pub unserved : WebhookServer → List String
unserved s =
    (if s.rook_priority_class == "" then rook_priority_hook ∷ [] else [])
    ++ (if is_empty s.overrides then pod_image_overrides_hook ∷ [] else [])

-- What a start leaves: the webhooks at the routes of the server, which trust its certificate, and the
-- removal of the others.
abbrev pub Started : String → List String → Option WebhookServer → Env → Trace → Trace → Type 0
Started class texts none env t u =
    ((class == "") ≡ true)
    × (is_empty texts ≡ true)
    × (written env u ≡ written env t)
    × (removed env u ≡ removed env t ++ (rook_priority_hook ∷ pod_image_overrides_hook ∷ []))
Started class texts (some server) env t u =
    (server.rook_priority_class ≡ class)
    × (is_empty server.overrides ≡ is_empty texts)
    × ((hooks : List MutatingWebhook) × (written env u ≡ written env t ++ hooks)
        × (map (λ (h : MutatingWebhook). h.path) hooks ≡ routes server)
        × All (λ (h : MutatingWebhook). h.ca_bundle ≡ server.certificate) hooks)
    × (removed env u ≡ removed env t ++ unserved server)

hooks_at-routes :
    (b c : Bool) (ns ca : String)
    → let hooks =
        (if b then [] else priority_webhook ns ca ∷ [])
        ++ (if c then [] else overrides_webhook ns ca ∷ []) in
      (map (λ (h : MutatingWebhook). h.path) hooks
        ≡ (if b then [] else "/rook-priority" ∷ [])
          ++ (if c then [] else "/pod-image-overrides" ∷ []))
      × All (λ (h : MutatingWebhook). h.ca_bundle ≡ ca) hooks
hooks_at-routes true true ns ca = (refl, tt)
hooks_at-routes true false ns ca = (refl, (refl, tt))
hooks_at-routes false true ns ca = (refl, (refl, tt))
hooks_at-routes false false ns ca = (refl, (refl, (refl, tt)))

module _ (class : String) (texts : List String) where
  -- The two removals, each only of what is not configured.
  abbrev remove_unserved : Option WebhookServer → Action (Option WebhookServer)
  remove_unserved server = do
    when (class == "") (wrap "delete webhook config" (remove_hook rook_priority_hook))
    when (is_empty texts) (wrap "delete webhook config" (remove_hook pod_image_overrides_hook))
    pure server

  remove_unserved-removed :
      (before server : Option WebhookServer) (env : Env) (t u : Trace)
      → remove_unserved before env t ≡ (ok server, u)
      → (before ≡ server)
        × (written env u ≡ written env t)
        × (removed env u
            ≡ removed env t
              ++ ((if class == "" then rook_priority_hook ∷ [] else [])
                  ++ (if is_empty texts then pod_image_overrides_hook ∷ [] else [])))
  remove_unserved-removed before server env t u worked =
      grind (arith, remove_hook-removed, remove_hook-written, append_assoc, append-nil)

  -- What is known once the server is there, before the removals.
  abbrev Began : Option WebhookServer → Env → Trace → Trace → Type 0
  Began none env t u =
      ((class == "") ≡ true)
      × (is_empty texts ≡ true)
      × (written env u ≡ written env t)
      × (removed env u ≡ removed env t)
  Began (some server) env t u =
      (server.rook_priority_class ≡ class)
      × (is_empty server.overrides ≡ is_empty texts)
      × (written env u
          ≡ written env t ++ hooks_for "kurl" class server.overrides server.certificate)
      × (removed env u ≡ removed env t)

  abbrev BeganAt : Env → Trace → Result (Option WebhookServer) × Trace → Type 0
  BeganAt env t (ok server, u) = Began server env t u
  BeganAt env t (err e, u) = Unit {0}

  server_of-Began :
      (parsed : Option (List (String × String))) (server : Option WebhookServer) (env : Env)
      (t u : Trace)
      → parse_overrides [] texts ≡ parsed
      → server_of class parsed env t ≡ (ok server, u)
      → Began server env t u
  server_of-Began none server env t u parses worked = cc
  server_of-Began (some overrides) server env t u parses worked =
      let (made, first, last) =
        bind-inv (wrap "initialize webhook server" (new_server "kurl" class overrides))
          (λ s. pure (some s)) env t u server worked in
      let t₁ = (new_server "kurl" class overrides env t).1 in
      let inner =
        wrap-inv "initialize webhook server" (new_server "kurl" class overrides) env t t₁ made
          first in
      let (all, class_kept, overrides_kept) =
        new_server-written "kurl" class overrides made env t t₁ inner in
      subst (λ p. BeganAt env t p) last
        (
          class_kept,
          ap is_empty overrides_kept ∙ parse_overrides-empty [] overrides texts parses,
          all
              ∙ ap (λ o. written env t ++ hooks_for "kurl" class o made.certificate)
                  (sym overrides_kept),
          ap (λ p. removed env p.1) (sym inner) ∙ new_server-removed "kurl" class overrides env t,
        )

  start_server-Began :
      (server : Option WebhookServer) (env : Env) (t u : Trace)
      → start_server class texts env t ≡ (ok server, u)
      → Began server env t u
  unfolding start_server
  start_server-Began server env t u worked = elim (Bool-cases (class == "" && is_empty texts)) [
    | inl idle ↦
        let same : ◌≡◌ {A = Result (Option WebhookServer) × Trace} (ok none, t) (ok server, u) =
          grind (arith, idle, worked) in
        subst (λ p. BeganAt env t p) same (ground arith, ground arith, refl, refl)
    | inr busy ↦
        server_of-Began (parse_overrides [] texts) server env t u refl (grind (arith, busy, worked))
  ]

  Began-Started :
      (server : Option WebhookServer) (env : Env) (t u v : Trace)
      → Began server env t u
      → written env v ≡ written env u
      → removed env v
        ≡ removed env u
          ++ ((if class == "" then rook_priority_hook ∷ [] else [])
              ++ (if is_empty texts then pod_image_overrides_hook ∷ [] else []))
      → Started class texts server env t v
  Began-Started none env t u v (no_class, no_texts, w, r) w' r' =
      (no_class, no_texts, w' ∙ w, grind (arith, r', r, no_class, no_texts))
  Began-Started (some server) env t u v (class_kept, overrides_kept, w, r) w' r' =
      let (paths, trusted) =
        hooks_at-routes (server.rook_priority_class == "") (is_empty server.overrides) "kurl"
          server.certificate in
      (
        class_kept,
        overrides_kept,
        (
          hooks_for "kurl" server.rook_priority_class server.overrides server.certificate,
          w'
              ∙ w
              ∙ ap (λ c. written env t ++ hooks_for "kurl" c server.overrides server.certificate)
                  (sym class_kept),
          paths,
          trusted,
        ),
        r' ∙ rw (r, class_kept, overrides_kept),
      )

-- If the start of the operator gets past the webhooks, with a server to run: the server has the settings; the
-- webhooks that were written, by calls that were answered without an error, are one for each route that it
-- serves, in their order, and they trust its certificate; and exactly the configurations of the routes that
-- it does not serve were removed without an error or found to be gone. Without one, nothing was written, both
-- configurations were removed or gone, and the settings ask for neither.
pub start_webhooks-Started :
    (class : String) (texts : List String) (server : Option WebhookServer) (env : Env) (t u : Trace)
    → start_webhooks class texts env t ≡ (ok server, u)
    → Started class texts server env t u
unfolding start_webhooks
start_webhooks-Started class texts server env t u worked =
    let (before, first, last) =
      bind-inv (start_server class texts) (remove_unserved class texts) env t u server worked in
    let t₁ = (start_server class texts env t).1 in
    let (same, w, r) = remove_unserved-removed class texts before server env t₁ u last in
    Began-Started class texts server env t t₁ u
      (subst (λ s. Began class texts s env t t₁) same
        (start_server-Began class texts before env t t₁ first))
      w r
