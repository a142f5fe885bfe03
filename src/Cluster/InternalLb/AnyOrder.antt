-- ===== src/Cluster/InternalLb/AnyOrder.antt =====
-- pkg/cluster/internallb.go: what is recorded does not depend on the order in which the nodes are listed.
use Prim.Native.String.{compare}
use text.Mathlib.Text.{is_le}
use mathlib.Core.List.{Permᴰ}
use mathlib.Core.List.Permᴰ.{nil, cons, swap, trans}
use ekco.Prelude.{
  String, ◌≡◌, refl, sym, ap, ◌∙◌, Bool, true, false, List, [], ◌∷◌, map, arith, ◌==◌, eq_iff,
  lookup, lookup-insert,
}
use ekco.Errors.{ok}
use ekco.Kube.{Node, ConfigMap, Call, Trace, Env}
use ekco.Prelude.Text.{join_all}
use ekco.Cluster.Config.{ControllerConfig}
use ekco.Cluster.Storage.{value_or_empty}
use ekco.Cluster.InternalLb.{
  place, sort_strings, node_prop, next_internal_lb, noted, update_internal_lb_value,
  reconcile_internal_lb,
}
use ekco.Prelude.TextOrder.{le_total, le_antisym, le_trans}

abbrev le : String → String → Bool
le s t = is_le (compare s t)

place_first : (s x : String) (xs : List String) → le s x ≡ true → place s (x ∷ xs) ≡ s ∷ x ∷ xs
unfolding place
place_first s x xs h = rw (h)

place_later : (s x : String) (xs : List String) → le s x ≡ false → place s (x ∷ xs) ≡ x ∷ place s xs
unfolding place
place_later s x xs h = rw (h)

place_none : (s : String) → place s [] ≡ s ∷ []
unfolding place
place_none s = refl

place_swap : (s t : String) (xs : List String) → place s (place t xs) ≡ place t (place s xs)
place_swap s t [] = grind (arith, le_total, le_antisym, place_first, place_later, place_none)
place_swap s t (x ∷ xs) =
    grind (arith, le_total, le_antisym, le_trans, place_first, place_later, place_swap s t xs)

sort_strings-perm : (l m : List String) → Permᴰ l m → sort_strings l ≡ sort_strings m
unfolding sort_strings
sort_strings-perm [] [] nil = refl
sort_strings-perm l m (cons {a = a} {b = b} {l₁ = l₁} {l₂ = l₂} same rest) =
    ap (λ x. place x (sort_strings l₁)) same ∙ ap (place b) (sort_strings-perm l₁ l₂ rest)
sort_strings-perm l m (swap {a = a} {b = b} {a' = a'} {b' = b'} {l = l'} first second) =
    place_swap a b (sort_strings l')
    ∙ ap (λ x. place x (place a (sort_strings l'))) second
    ∙ ap (λ x. place a' (place x (sort_strings l'))) first
sort_strings-perm l m (trans {l₂ = k} first second) =
    sort_strings-perm l k first ∙ sort_strings-perm k m second

map-perm : (l m : List Node) → Permᴰ l m → Permᴰ (map node_prop l) (map node_prop m)
map-perm l m nil = nil
map-perm l m (cons {l₁ = l₁} {l₂ = l₂} same rest) = cons (ap node_prop same) (map-perm l₁ l₂ rest)
map-perm l m (swap first second) = swap (ap node_prop first) (ap node_prop second)
map-perm l m (trans {l₂ = k} first second) = trans (map-perm l k first) (map-perm k m second)

next_internal_lb-perm : (l m : List Node) → Permᴰ l m → next_internal_lb l ≡ next_internal_lb m
next_internal_lb-perm l m perm =
    ap (λ texts. join_all texts ",")
      (sort_strings-perm (map node_prop l) (map node_prop m) (map-perm l m perm))

is_recorded :
    (l m : List Node) (cm : ConfigMap)
    → Permᴰ l m
    → (next_internal_lb m
        == value_or_empty
            (lookup update_internal_lb_value (noted (next_internal_lb l) cm).contents))
      ≡ true
is_recorded l m cm perm =
    (eq_iff (next_internal_lb m) (
        value_or_empty
          (lookup update_internal_lb_value (noted (next_internal_lb l) cm).contents))).1
      (sym (next_internal_lb-perm l m perm)
        ∙ ap value_or_empty
            (sym (lookup-insert update_internal_lb_value (next_internal_lb l) cm.contents)))

-- Once the ConfigMap has what a reconcile records for a list of nodes, a reconcile of the same nodes,
-- listed in any order, reads it and does nothing.
pub reconcile_internal_lb-settled :
    (cfg : ControllerConfig) (l m : List Node) (cm : ConfigMap) (env : Env) (t : Trace)
    → Permᴰ l m
    → env.answer (Call.get_config_map cfg.host_task_namespace update_internal_lb_value) t
      ≡ ok (noted (next_internal_lb l) cm)
    → reconcile_internal_lb cfg m env t
      ≡ (ok tt, Call.get_config_map cfg.host_task_namespace update_internal_lb_value ∷ t)
unfolding reconcile_internal_lb
reconcile_internal_lb-settled cfg l m cm env t perm found =
    grind (arith, found, is_recorded l m cm perm)
