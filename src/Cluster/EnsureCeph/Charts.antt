-- ===== src/Cluster/EnsureCeph/Charts.antt =====
-- pkg/helm/charts/name.go: the chart file that is opened.
use mathlib.Core.Path.{subst}
use ekco.Prelude.{String, ◌≡◌, refl, sym, ap, ◌∙◌, List, [], ◌∷◌, arith}
use ekco.Errors.{Result, ok, err}
use ekco.Kube.{Call, Trace, Action, wrap, Env}
use ekco.Helm.{chart_options, latest_chart_by_name}

-- The first of the chart files in their order, as it was opened.
abbrev pub Opened : Env → String → String → Type 0
Opened env file content =
    (v : Trace) × (files : List String) × (rest : List String) × (env.answer Call.chart_files v
      ≡ ok files)
    × (chart_options "rook-ceph-cluster" files ≡ file ∷ rest)
    × (env.answer (Call.open_chart file) (Call.chart_files ∷ v) ≡ ok content)

abbrev pub find_chart : Action (String × String)
find_chart =
    wrap "unable to get rook-ceph-cluster chartfile" (latest_chart_by_name "rook-ceph-cluster")

opened_first :
    (files rest : List String) (archive file name : String) (r : Result String) (env : Env)
    (t u : Trace)
    → env.answer Call.chart_files t ≡ ok files
    → chart_options "rook-ceph-cluster" files ≡ name ∷ rest
    → env.answer (Call.open_chart name) (Call.chart_files ∷ t) ≡ r
    → find_chart env t ≡ (ok (archive, file), u)
    → (file ≡ name) × (r ≡ ok archive)
unfolding latest_chart_by_name
opened_first files rest archive file name (ok content) env t u listed ordered read worked =
    (grind (arith, listed, ordered, read, worked), grind (arith, listed, ordered, read, worked))
opened_first files rest archive file name (err e) env t u listed ordered read worked =
    grind (arith, listed, ordered, read, worked)

in_order :
    (files sorted : List String) (archive file : String) (env : Env) (t u : Trace)
    → env.answer Call.chart_files t ≡ ok files
    → chart_options "rook-ceph-cluster" files ≡ sorted
    → find_chart env t ≡ (ok (archive, file), u)
    → Opened env file archive
unfolding latest_chart_by_name
in_order files [] archive file env t u listed ordered worked =
    grind (arith, listed, ordered, worked)
in_order files (name ∷ rest) archive file env t u listed ordered worked =
    let (same, read) =
      opened_first files rest archive file name
        (env.answer (Call.open_chart name) (Call.chart_files ∷ t)) env t u listed ordered refl
        worked in
    (
      t,
      files,
      rest,
      listed,
      ordered ∙ ap (λ n. n ∷ rest) (sym same),
      subst (λ n. env.answer (Call.open_chart n) (Call.chart_files ∷ t) ≡ ok archive) (sym same)
          read,
    )

pub find_chart-Opened :
    (r : Result (List String)) (archive file : String) (env : Env) (t u : Trace)
    → env.answer Call.chart_files t ≡ r
    → find_chart env t ≡ (ok (archive, file), u)
    → Opened env file archive
unfolding latest_chart_by_name
find_chart-Opened (err e) archive file env t u listed worked = grind (arith, listed, worked)
find_chart-Opened (ok files) archive file env t u listed worked =
    in_order files (chart_options "rook-ceph-cluster" files) archive file env t u listed refl worked
