-- ===== src/Helm/Latest.antt =====
-- pkg/helm/charts/name.go: which chart is opened, and pkg/helm/manager.go: when it is installed.
use mathlib.Core.Path.{subst}
use Prim.Native.String.{compare}
use text.Mathlib.Text.{starts_with, is_le}
use ekco.Prelude.{
  String, ◌≡◌, refl, inl, inr, Bool, true, false, List, [], ◌∷◌, arith, eq_refl, if◌then◌else◌,
  Bool-cases, select, is_empty, All, contains,
}
use ekco.Errors.{ok}
use ekco.Kube.{Call, Trace, Env}
use ekco.Prelude.TextOrder.{le_total, le_trans}
use ekco.Helm.{place_down, sort_down, open_first, latest_chart_by_name}

abbrev le : String → String → Bool
le s t = is_le (compare s t)

-- A text of the list that no text of the list is above.
abbrev pub Greatest : String → List String → Type 0
Greatest x l = (contains l x ≡ true) × All (λ f. le f x ≡ true) l

All-le :
    (x y : String) (l : List String)
    → le x y ≡ true
    → All (λ f. le f x ≡ true) l
    → All (λ f. le f y ≡ true) l
All-le x y [] h all = tt
All-le x y (f ∷ l) h (first, rest) = (le_trans f x y first h, All-le x y l h rest)

le_refl : (s : String) → le s s ≡ true
le_refl s = elim (Bool-cases (le s s)) [ inl h ↦ h | inr h ↦ le_total s s h ]

-- The same of the first text of a sorted list.
abbrev Top : List String → List String → Type 0
Top [] l = is_empty l ≡ true
Top (x ∷ xs) l = Greatest x l

chosen-Top :
    (b : Bool) (s y : String) (ys zs l : List String)
    → le y s ≡ b
    → Greatest y l
    → Top (if b then s ∷ zs else y ∷ ys) (s ∷ l)
chosen-Top true s y ys zs l low (member, above) =
    (ground (arith, eq_refl s), (le_refl s, All-le y s l low above))
chosen-Top false s y ys zs l high (member, above) = (ground arith, (le_total y s high, above))

place_down-Top :
    (s : String) (sorted l : List String) → Top sorted l → Top (place_down s sorted) (s ∷ l)
unfolding place_down
place_down-Top s [] [] top = (ground (arith, eq_refl s), (le_refl s, tt))
place_down-Top s [] (t ∷ l) top = cc
place_down-Top s (y ∷ ys) l top = chosen-Top (le y s) s y (place_down s ys) (y ∷ ys) l refl top

sort_down-Top : (l : List String) → Top (sort_down l) l
unfolding sort_down
sort_down-Top [] = refl
sort_down-Top (s ∷ l) = place_down-Top s (sort_down l) l (sort_down-Top l)

opened-Greatest :
    (name content file : String) (env : Env) (options l : List String) (t u : Trace)
    → open_first options env t ≡ (ok (content, file), u)
    → Top options l
    → Greatest file l
opened-Greatest name content file env [] l t u worked top = cc
opened-Greatest name content file env (x ∷ options) l t u worked top =
    let same : x ≡ file = ground arith in subst (λ z. Greatest z l) same top

-- A chart that is opened is one of those whose names begin with the given one, and none of these is
-- above it as a text.
pub latest_chart_by_name-Greatest :
    (name content file : String) (env : Env) (files : List String) (t u : Trace)
    → env.answer Call.chart_files t ≡ ok files
    → latest_chart_by_name name env t ≡ (ok (content, file), u)
    → Greatest file (select (λ f. starts_with f name) files)
unfolding latest_chart_by_name
latest_chart_by_name-Greatest name content file env files t u found worked =
    let options = select (λ (f : String). starts_with f name) files in
    opened-Greatest name content file env (sort_down options) options (Call.chart_files ∷ t) u
      (grind (arith, found, worked)) (sort_down-Top options)
