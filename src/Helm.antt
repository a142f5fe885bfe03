-- ===== src/Helm.antt =====
-- pkg/helm: the choice of a chart that is built in (charts/name.go), and its installation (manager.go).
pub mod Latest
use Prim.Native.String.{compare}
use text.Mathlib.Text.{starts_with, is_le}
use ekco.Prelude.{String, Bool, List, [], ◌∷◌, ◌==◌, if◌then◌else◌, select, contains}
use ekco.Errors.{failure}
use ekco.Kube.{Fields, Call, Action, pure, raise, lift, wrap, send, ◌>>=◌, ◌>>◌, expect, done}

-- The order of `sort.Slice` with `>`: every sort gives the same on texts.
unfoldable pub place_down : String → List String → List String
place_down s [] = s ∷ []
place_down s (x ∷ xs) =
    let rest = place_down s xs in if is_le (compare x s) then s ∷ x ∷ xs else x ∷ rest

unfoldable pub sort_down : List String → List String
sort_down [] = []
sort_down (s ∷ texts) = place_down s (sort_down texts)

abbrev pub chart_options : String → List String → List String
chart_options name files = sort_down (select (λ file. starts_with file name) files)

-- The archive that is opened, and its name.
abbrev open_first : List String → Action (String × String)
open_first [] = raise (failure "no chartfiles found")
open_first (file ∷ files) = do
  content ← expect "failed to open chartfile" (send (Call.open_chart file))
  pure (content, file)

unfoldable pub latest_chart_by_name : String → Action (String × String)
latest_chart_by_name name = do
  files ← expect "failed to read chartfiles" (send Call.chart_files)
  open_first (chart_options name files)

unfoldable pub new_helm_manager : String → Action (Unit {0})
new_helm_manager ns =
    if ns == ""
    then raise (failure "error initializing Helm Manager: namespace must be set")
    else expect "failed to initialize helm configuration" (send (Call.init_helm ns))

-- Whether a release of that name is deployed.
unfoldable pub get_release : String → Action Bool
get_release name = do
  releases ← expect "failed to list installed releases" (send Call.list_releases)
  pure (contains releases name)

unfoldable pub install_chart_archive : String → Fields → String → String → Action (Unit {0})
install_chart_archive content values release_name ns = do
  chart ← lift (← send (Call.load_archive content))
  let name = if release_name == "" then chart else release_name
  installed ← wrap "failed to check if release is installed" (get_release name)
  if installed
      then done
      else expect "failed to install chart" (send (Call.install_release name ns chart values))
