-- ===== src/Cli/SetKubeconfigServer/Writes.antt =====
-- pkg/kubeconfig/kubeconfig.go and cmd/ekco/cli/set-kubeconfig-server.go: what is written, and when.
use ekco.Prelude.{
  String, ◌≡◌, refl, sym, ap, ◌∙◌, ◌⊎◌, inl, inr, Bool, true, false, Option, none, some, List, [],
  ◌∷◌, map, arith, Option-cases, select, All,
}
use ekco.Errors.{Error, Result, failure, ok, err}
use ekco.Kube.{
  Result-cases, bind-inv, plain-inv, KubeConfig, Call, Trace, Action, send, ◌>>◌, plain,
  expect_plain, when, Env, accepted,
}
use ekco.Cli.SetKubeconfigServer.{
  at_server, with_server, overwrite, set_server, kubelet_conf, admin_conf,
  set_kubeconfig_server_command,
}

abbrev is_change : Call → Bool
is_change (Call.truncate_file file) = true
is_change (Call.seek_start file) = true
is_change (Call.write_opened file text) = true
is_change Call.restart_kubelet = true
is_change _ = false

-- What was done to files and to the kubelet, by calls that were answered without an error, the newest first.
abbrev pub changes : Env → Trace → Trace
changes env t = select is_change (accepted env t)

-- A configuration with the server in every cluster, and nothing else changed.
abbrev pub HasServer : String → KubeConfig → KubeConfig → Type 0
HasServer server old new =
    All (λ (c : String × String). c.1 ≡ server) new.clusters
    × (map (λ (c : String × String). c.0) new.clusters
        ≡ map (λ (c : String × String). c.0) old.clusters)
    × (new.others ≡ old.others)

at_server-HasServer :
    (server : String) (clusters : List (String × String))
    → All (λ (c : String × String). c.1 ≡ server) (map (at_server server) clusters)
      × (map (λ (c : String × String). c.0) (map (at_server server) clusters)
          ≡ map (λ (c : String × String). c.0) clusters)
at_server-HasServer server [] = (tt, refl)
at_server-HasServer server ((key, old) ∷ clusters) =
    let (all, keys) = at_server-HasServer server clusters in ((refl, all), ap (λ l. key ∷ l) keys)

-- The text that a file is overwritten with: what is printed of the configuration that was read from it,
-- with the server in it.
abbrev pub Updated : Env → String → String → String → Type 0
Updated env file server updated =
    (v : Trace) × (text : String) × (old : KubeConfig) × (new : KubeConfig) × (env.answer
        (Call.read_file file) v
      ≡ ok text)
    × (env.load_kubeconfig text ≡ some old)
    × HasServer server old new
    × (env.print_kubeconfig new ≡ some updated)

-- The file was emptied, rewound and written, in this order.
abbrev pub overwritten : String → String → Trace → Trace
overwritten file updated t =
    Call.write_opened file updated ∷ Call.seek_start file ∷ Call.truncate_file file ∷ t

module _ (file server : String) (env : Env) (t : Trace) where
  abbrev read_trace : Trace
  read_trace = Call.read_file file ∷ Call.open_file file ∷ t

  abbrev SetOutcome : Type 0
  SetOutcome =
      ((e : Error) × ((set_server file server env t).0 ≡ err e)
        × (changes env (set_server file server env t).1 ≡ changes env t))
      ⊎ ((updated : String) × Updated env file server updated
          × (set_server file server env t ≡ overwrite file updated env read_trace))

  after_load :
      (text : String) (o : Option KubeConfig)
      → env.answer (Call.open_file file) t ≡ ok tt
      → env.answer (Call.read_file file) (Call.open_file file ∷ t) ≡ ok text
      → env.load_kubeconfig text ≡ o
      → SetOutcome
  unfolding set_server
  after_load text none opened found read = inl (
    failure "load kubeconfig",
    grind (arith, opened, found, read),
    grind (arith, opened, found, read),
  )
  after_load text (some config) opened found read =
      elim (Option-cases (env.print_kubeconfig (with_server server config))) [
        | inl unprinted ↦ inl (
          failure "write kubeconfig",
          grind (arith, opened, found, read, unprinted),
          grind (arith, opened, found, read, unprinted),
        )
        | inr (updated, shown) ↦ inr (
          updated,
          (
            Call.open_file file ∷ t,
            text,
            config,
            with_server server config,
            found,
            read,
            (
              (at_server-HasServer server config.clusters).0,
              (at_server-HasServer server config.clusters).1,
              refl,
            ),
            shown,
          ),
          grind (arith, opened, found, read, shown),
        )
      ]

  after_read :
      (r : Result String)
      → env.answer (Call.open_file file) t ≡ ok tt
      → env.answer (Call.read_file file) (Call.open_file file ∷ t) ≡ r
      → SetOutcome
  unfolding set_server
  after_read (err e) opened found =
      inl (e, grind (arith, opened, found), grind (arith, opened, found))
  after_read (ok text) opened found = after_load text (env.load_kubeconfig text) opened found refl

  -- An update of a file fails and leaves it alone, or overwrites it with what is printed of the
  -- configuration that was read, with the new server in every cluster.
  pub set_server-Outcome : SetOutcome
  unfolding set_server
  set_server-Outcome = elim (Result-cases (env.answer (Call.open_file file) t)) [
    | inl opened ↦
        after_read (env.answer (Call.read_file file) (Call.open_file file ∷ t)) opened refl
    | inr (e, closed) ↦ inl (e, grind (arith, closed), grind (arith, closed))
  ]

  set_server-written :
      (set_server file server env t).0 ≡ ok tt
      → (updated : String) × Updated env file server updated
        × (changes env (set_server file server env t).1 ≡ overwritten file updated (changes env t))
  unfolding overwrite
  set_server-written worked = elim set_server-Outcome [
    | inl (e, broken, same) ↦ grind (arith, worked, broken)
    | inr (updated, known, all) ↦ (updated, known, grind (arith, worked, all))
  ]

module _ (etc_dir server : String) (env : Env) where
  -- The part for admin.conf: the file has its new text, or it is left alone.
  abbrev pub AdminPart : Bool → Trace → Trace → Type 0
  AdminPart true t u =
      (updated : String) × Updated env (admin_conf etc_dir) server updated
      × (changes env u ≡ overwritten (admin_conf etc_dir) updated (changes env t))
  AdminPart false t u = changes env u ≡ changes env t

  abbrev update : String → String → Action (Unit {0})
  update note file = plain note (set_server file server)

  update-written :
      (note file : String) (t u : Trace)
      → update note file env t ≡ (ok tt, u)
      → (updated : String) × Updated env file server updated
        × (changes env u ≡ overwritten file updated (changes env t))
  update-written note file t u worked =
      let inner = plain-inv note (set_server file server) env t u tt worked in
      let (updated, known, all) = set_server-written file server env t (ap (λ p. p.0) inner) in
      (updated, known, ap (λ p. changes env p.1) (sym inner) ∙ all)

  update_admin-AdminPart :
      (admin : Bool) (t u : Trace)
      → when admin (update "update admin.conf" (admin_conf etc_dir)) env t ≡ (ok tt, u)
      → AdminPart admin t u
  update_admin-AdminPart true t u worked =
      update-written "update admin.conf" (admin_conf etc_dir) t u worked
  update_admin-AdminPart false t u worked = ap (λ p. changes env p.1) (sym worked)

  abbrev restart : Action (Unit {0})
  restart = expect_plain "restart kubelet" (send Call.restart_kubelet)

  restart-changes :
      (t u : Trace)
      → restart env t ≡ (ok tt, u)
      → changes env u ≡ Call.restart_kubelet ∷ changes env t
  restart-changes t u worked = ground arith

  -- If the command works, then, by calls that were answered without an error and no others: kubelet.conf was
  -- emptied, rewound and overwritten with what was read from it, with the server in every cluster and nothing
  -- else changed; then so was admin.conf, if it was asked for; and only then was the kubelet restarted, once.
  pub set_kubeconfig_server_command-Updates :
      (admin : Bool) (t u : Trace)
      → set_kubeconfig_server_command etc_dir server admin env t ≡ (ok tt, u)
      → (updated : String) × (v : Trace) × (w : Trace) × Updated env
          (kubelet_conf etc_dir)
          server
          updated
        × (changes env v ≡ overwritten (kubelet_conf etc_dir) updated (changes env t))
        × AdminPart admin v w
        × (changes env u ≡ Call.restart_kubelet ∷ changes env w)
  unfolding set_kubeconfig_server_command
  set_kubeconfig_server_command-Updates admin t u worked =
      let first = update "update kubelet.conf" (kubelet_conf etc_dir) in
      let second = when admin (update "update admin.conf" (admin_conf etc_dir)) in
      let v = (first env t).1 in
      let w = (second env v).1 in
      let (_, one, next) = bind-inv first (λ _. second >> restart) env t u tt worked in
      let (_, two, last) = bind-inv second (λ _. restart) env v u tt next in
      let (updated, known, all) =
        update-written "update kubelet.conf" (kubelet_conf etc_dir) t v one in
      (updated, v, w, known, all, update_admin-AdminPart admin v w two, restart-changes w u last)
