-- ===== src/Cluster/EnsureCeph/Releases.antt =====
-- pkg/helm/manager.go: the releases that are installed.
use ekco.Prelude.{String, ◌≡◌, refl, ap, ◌∙◌, List, [], ◌∷◌, ◌++◌, arith, if◌then◌else◌, contains}
use ekco.Errors.{Result, ok, err}
use ekco.Kube.{Fields, Call, Trace, Action, Env, accepted}
use ekco.Helm.{latest_chart_by_name, new_helm_manager, get_release, install_chart_archive}

abbrev install_in : Call → List (String × Fields)
install_in (Call.install_release name ns chart values) = (name, values) ∷ []
install_in _ = []

-- The releases that a trace of calls installs, with their values, the newest first.
abbrev installs_in : Trace → List (String × Fields)
installs_in [] = []
installs_in (c ∷ t) = install_in c ++ installs_in t

-- The releases whose installation the server accepted.
abbrev pub installs : Env → Trace → List (String × Fields)
installs env t = installs_in (accepted env t)

abbrev pub KeepsInstalls {ℓ} : {A : Type ℓ} → Action A → Type 0
KeepsInstalls m = (env : Env) (t : Trace) → installs env (m env t).1 ≡ installs env t

pub latest_chart-installs : (name : String) → KeepsInstalls (latest_chart_by_name name)
unfolding latest_chart_by_name
latest_chart-installs name env t = ground arith

pub new_helm_manager-installs : (ns : String) → KeepsInstalls (new_helm_manager ns)
unfolding new_helm_manager
new_helm_manager-installs ns env t = ground arith

-- The archive is loaded as a chart and the deployed releases are listed right after that; the chart is
-- installed if none has its name.
abbrev pub InstalledOnce : Env → String → Fields → Trace → Trace → Type 0
InstalledOnce env content changed t u =
    (chart : String) × (releases : List String) × (v : Trace) × (env.answer
        (Call.load_archive content) v
      ≡ ok chart)
    × (env.answer Call.list_releases (Call.load_archive content ∷ v) ≡ ok releases)
    × (installs env u
        ≡ (if contains releases chart then [] else (chart, changed) ∷ []) ++ installs env t)

module _ (content ns : String) (changed : Fields) (env : Env) (t u : Trace)
    (worked : install_chart_archive content changed "" ns env t ≡ (ok tt, u)) where
  after_list :
      (chart : String) (r : Result (List String))
      → env.answer (Call.load_archive content) t ≡ ok chart
      → env.answer Call.list_releases (Call.load_archive content ∷ t) ≡ r
      → InstalledOnce env content changed t u
  unfolding install_chart_archive get_release
  after_list chart (err e) loaded listed = grind (arith, worked, loaded, listed)
  after_list chart (ok releases) loaded listed =
      (chart, releases, t, loaded, listed, grind (arith, worked, loaded, listed))

  after_load :
      (r : Result String)
      → env.answer (Call.load_archive content) t ≡ r
      → InstalledOnce env content changed t u
  unfolding install_chart_archive
  after_load (err e) loaded = grind (arith, worked, loaded)
  after_load (ok chart) loaded =
      after_list chart (env.answer Call.list_releases (Call.load_archive content ∷ t)) loaded refl

  pub install_chart_archive-once : InstalledOnce env content changed t u
  install_chart_archive-once = after_load (env.answer (Call.load_archive content) t) refl

pub InstalledOnce-later :
    (env : Env) (content : String) (changed : Fields) (s t u : Trace)
    → installs env s ≡ installs env t
    → InstalledOnce env content changed s u
    → InstalledOnce env content changed t u
InstalledOnce-later env content changed s t u same (chart, releases, v, loaded, listed, all) = (
  chart,
  releases,
  v,
  loaded,
  listed,
  all ∙ ap (λ l. (if contains releases chart then [] else (chart, changed) ∷ []) ++ l) same,
)
