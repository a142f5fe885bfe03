-- ===== src/Cluster/EnsureCeph/Installs.antt =====
-- pkg/cluster/rook_ceph.go and pkg/helm/manager.go: when the chart of the CephCluster is installed.
use ekco.Prelude.{String, ◌≡◌, refl, sym, ap, ◌∙◌, ◌⊎◌, inl, inr, true, arith, ◌==◌, Bool-cases}
use ekco.Errors.{Result, ok, err}
use ekco.Kube.{
  Fields, bind-inv, wrap-inv, CephCluster, Call, Trace, Action, lift, attempt, wrap, send, ◌>>=◌,
  ◌>>◌, expect, Env,
}
use ekco.Cluster.Config.{ControllerConfig}
use ekco.Cluster.Daemons.{get_ceph_cluster}
use ekco.Cluster.EnsureCeph.Values.{HasImage, with_ceph_image-HasImage}
use ekco.Helm.{new_helm_manager, install_chart_archive}
use ekco.Cluster.EnsureCeph.Releases.{
  installs, KeepsInstalls, latest_chart-installs, new_helm_manager-installs, InstalledOnce,
  install_chart_archive-once, InstalledOnce-later,
}
use ekco.Cluster.EnsureCeph.Charts.{Opened, find_chart, find_chart-Opened}
use ekco.Cluster.EnsureCeph.{
  with_ceph_image, ensure_ceph_cluster_helm, ensure_ceph_cluster, unless_missing, unless_existing,
}

-- The values are left as they are without an image, and hold it otherwise.
abbrev pub ImageIn : String → Fields → Fields → Type 0
ImageIn image values changed =
    ((image == "") ≡ true) × (changed ≡ values) ⊎ HasImage image values changed

with_ceph_image-ImageIn :
    (image : String) (values changed : Fields)
    → with_ceph_image image values ≡ ok changed
    → ImageIn image values changed
unfolding with_ceph_image
with_ceph_image-ImageIn image values changed worked = elim (Bool-cases (image == "")) [
  | inl unset ↦ inl (unset, grind (arith, unset, worked))
  | inr set ↦ inr (with_ceph_image-HasImage image values changed set worked)
]

module _ (cfg : ControllerConfig) where
  -- The chart that was opened is installed, with the values that were read, changed for the image of the
  -- settings.
  abbrev pub Installed : Env → Trace → Trace → Type 0
  Installed env t u =
      (file : String) × (content : String) × (values : Fields) × (changed : Fields) × Opened env
        file content
      × ((v : Trace) × (env.answer Call.chart_values v ≡ ok values))
      × ImageIn cfg.rook_ceph_image values changed
      × InstalledOnce env content changed t u

  -- The steps of `ensureCephClusterHelm`, from its end.
  abbrev apply_chart : String → Fields → Action (Unit {0})
  apply_chart archive changed =
      wrap "unable to apply chart" (install_chart_archive archive changed "" "rook-ceph")

  abbrev with_values : String → Fields → Action (Unit {0})
  with_values archive values =
      lift (with_ceph_image cfg.rook_ceph_image values) >>= apply_chart archive

  abbrev read_values : Action Fields
  read_values = expect "failed to get rook-ceph chart values" (send Call.chart_values)

  abbrev init_manager : Action (Unit {0})
  init_manager = wrap "failed to initialize Helm Manager" (new_helm_manager "rook-ceph")

  with_values-Installed :
      (archive : String) (values : Fields) (env : Env) (t u : Trace)
      → with_values archive values env t ≡ (ok tt, u)
      → (changed : Fields) × ImageIn cfg.rook_ceph_image values changed
        × InstalledOnce env archive changed t u
  with_values-Installed archive values env t u worked =
      let (changed, made, last) =
        bind-inv (lift (with_ceph_image cfg.rook_ceph_image values)) (apply_chart archive) env t u
          tt worked in
      (
        changed,
        with_ceph_image-ImageIn cfg.rook_ceph_image values changed (ap (λ r. r.0) made),
        install_chart_archive-once archive "rook-ceph" changed env t u (
            wrap-inv "unable to apply chart" (install_chart_archive archive changed "" "rook-ceph")
              env t u tt last),
      )

  read_values-installs : KeepsInstalls read_values
  read_values-installs env t = ground arith

  read_values-answer :
      (r : Result Fields) (values : Fields) (env : Env) (t u : Trace)
      → env.answer Call.chart_values t ≡ r
      → read_values env t ≡ (ok values, u)
      → env.answer Call.chart_values t ≡ ok values
  read_values-answer (ok read) values env t u given worked = grind (arith, given, worked)
  read_values-answer (err e) values env t u given worked = grind (arith, given, worked)

  helm-Installed :
      (env : Env) (t u : Trace)
      → ensure_ceph_cluster_helm cfg env t ≡ (ok tt, u)
      → Installed env t u
  unfolding ensure_ceph_cluster_helm
  helm-Installed env t u worked =
      let t₁ = (find_chart env t).1 in
      let t₂ = (init_manager env t₁).1 in
      let t₃ = (read_values env t₂).1 in
      let ((archive, file), first, next) =
        bind-inv find_chart (λ p. init_manager >> (read_values >>= with_values p.0)) env t u tt
          worked in
      let (_, second, more) =
        bind-inv init_manager (λ _. read_values >>= with_values archive) env t₁ u tt next in
      let (values, third, last) = bind-inv read_values (with_values archive) env t₂ u tt more in
      let (changed, made, once) = with_values-Installed archive values env t₃ u last in
      (
        file,
        archive,
        values,
        changed,
        find_chart-Opened (env.answer Call.chart_files t) archive file env t t₁ refl first,
        (t₂, read_values-answer (env.answer Call.chart_values t₂) values env t₂ t₃ refl third),
        made,
        InstalledOnce-later env archive changed t₃ t u
            (read_values-installs env t₂
              ∙ new_helm_manager-installs "rook-ceph" env t₁
              ∙ latest_chart-installs "rook-ceph-cluster" env t)
            once,
      )

  abbrev make_user : Action (Unit {0})
  make_user = do
    created ← send (Call.create_object_store_user "kurl" "rook-ceph-store")
    unless_existing created

  make_user-installs : KeepsInstalls make_user
  make_user-installs env t = ground arith

  unless_missing-installs : (found : Result CephCluster) → KeepsInstalls (unless_missing found)
  unless_missing-installs found env t = ground arith

  -- If `EnsureCephCluster` works, then the first of the chart files, in their order, was opened and loaded,
  -- the values of the chart were read, and a release of the chart's name was installed, without an error, with
  -- these values and the image of the settings in them; unless such a release was deployed already. Nothing
  -- else was installed.
  pub ensure_ceph_cluster-Installed :
      (env : Env) (t u : Trace) → ensure_ceph_cluster cfg env t ≡ (ok tt, u) → Installed env t u
  unfolding ensure_ceph_cluster
  ensure_ceph_cluster-Installed env t u worked =
      let t₁ = (attempt get_ceph_cluster env t).1 in
      let (found, first, next) =
        bind-inv (attempt get_ceph_cluster)
          (λ r. unless_missing r >> (ensure_ceph_cluster_helm cfg >> make_user)) env t u tt
          worked in
      let t₂ = (unless_missing found env t₁).1 in
      let (_, second, more) =
        bind-inv (unless_missing found) (λ _. ensure_ceph_cluster_helm cfg >> make_user) env t₁ u tt
          next in
      let (_, third, last) =
        bind-inv (ensure_ceph_cluster_helm cfg) (λ _. make_user) env t₂ u tt more in
      let t₃ = (ensure_ceph_cluster_helm cfg env t₂).1 in
      let (file, content, values, changed, opened, read, made, once) =
        helm-Installed env t₂ t₃ third in
      let (chart, releases, v, loaded, listed, all) =
        InstalledOnce-later env content changed t₂ t t₃ (unless_missing-installs found env t₁)
          once in
      (
        file,
        content,
        values,
        changed,
        opened,
        read,
        made,
        (
          chart,
          releases,
          v,
          loaded,
          listed,
          ap (λ p. installs env p.1) (sym last) ∙ make_user-installs env t₃ ∙ all,
        ),
      )
