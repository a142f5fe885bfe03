-- ===== src/Prelude/TextOrder.antt =====
-- The order of strings, as `sort.Strings` and `<` have it.
use mathlib.Core.Bool.{false≢true}
use Prim.Native.Nat.{Ordering, compare as compare_numbers}
use Prim.Native.Char.{code}
use Prim.Native.String.compare
use Prim.Native.String.{compare, then as first_of}
use text.Mathlib.Text.{is_le}
use text.Mathlib.TextEquality.{path_by_compare}
use ekco.Prelude.{ℕ, String, ◌≡◌, refl, sym, ap, ◌∙◌, true, false, arith}

abbrev flip : Ordering → Ordering
flip Ordering.lt = Ordering.gt
flip Ordering.eq = Ordering.eq
flip Ordering.gt = Ordering.lt

flip_numbers : (m n : ℕ) → compare_numbers n m ≡ flip (compare_numbers m n)
flip_numbers m n = ground arith

flip_then : (a b : Ordering) → first_of (flip a) (flip b) ≡ flip (first_of a b)
flip_then Ordering.lt b = refl
flip_then Ordering.eq b = refl
flip_then Ordering.gt b = refl

flip_text : (s t : String) → compare t s ≡ flip (compare s t)
flip_text String.[] String.[] = compare.nil-nil ∙ ap flip (sym compare.nil-nil)
flip_text String.[] (String.◌∷◌ d t) = compare.cons-nil d t ∙ ap flip (sym (compare.nil-cons d t))
flip_text (String.◌∷◌ c s) String.[] = compare.nil-cons c s ∙ ap flip (sym (compare.cons-nil c s))
flip_text (String.◌∷◌ c s) (String.◌∷◌ d t) =
    compare.cons-cons d c t s
    ∙ ap (λ o. first_of o (compare t s)) (flip_numbers (code c) (code d))
    ∙ ap (first_of (flip (compare_numbers (code c) (code d)))) (flip_text s t)
    ∙ flip_then (compare_numbers (code c) (code d)) (compare s t)
    ∙ ap flip (sym (compare.cons-cons c d s t))

le_flip : (o : Ordering) → is_le o ≡ false → is_le (flip o) ≡ true
le_flip o h = ground arith

pub le_total : (s t : String) → is_le (compare s t) ≡ false → is_le (compare t s) ≡ true
le_total s t h = ap is_le (flip_text s t) ∙ le_flip (compare s t) h

both_le : (o : Ordering) → is_le o ≡ true → is_le (flip o) ≡ true → o ≡ Ordering.eq
both_le o h k = ground arith

pub le_antisym : (s t : String) → is_le (compare s t) ≡ true → is_le (compare t s) ≡ true → s ≡ t
le_antisym s t h k =
    path_by_compare s t (both_le (compare s t) h (ap is_le (sym (flip_text s t)) ∙ k))

then_le :
    (l m n : ℕ) (x y z : Ordering)
    → (is_le x ≡ true → is_le y ≡ true → is_le z ≡ true)
    → is_le (first_of (compare_numbers l m) x) ≡ true
    → is_le (first_of (compare_numbers m n) y) ≡ true
    → is_le (first_of (compare_numbers l n) z) ≡ true
then_le l m n x y z step h k = ground arith

pub le_trans :
    (s t u : String)
    → is_le (compare s t) ≡ true
    → is_le (compare t u) ≡ true
    → is_le (compare s u) ≡ true
le_trans String.[] t String.[] h k = ap is_le compare.nil-nil
le_trans String.[] t (String.◌∷◌ e u) h k = ap is_le (compare.nil-cons e u)
le_trans (String.◌∷◌ c s) String.[] u h k =
    absurd (false≢true (sym (ap is_le (compare.cons-nil c s)) ∙ h))
le_trans (String.◌∷◌ c s) (String.◌∷◌ d t) String.[] h k =
    absurd (false≢true (sym (ap is_le (compare.cons-nil d t)) ∙ k))
le_trans (String.◌∷◌ c s) (String.◌∷◌ d t) (String.◌∷◌ e u) h k =
    ap is_le (compare.cons-cons c e s u)
    ∙ then_le (code c) (code d) (code e) (compare s t) (compare t u) (compare s u) (le_trans s t u)
        (ap is_le (sym (compare.cons-cons c d s t)) ∙ h)
        (ap is_le (sym (compare.cons-cons d e t u)) ∙ k)
