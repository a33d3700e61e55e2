-- ===== src/Prelude/Distinct.antt =====
-- Lists of texts in which none stands twice.
use Prim.Native.String.{String}
use mathlib.Core.Path.{◌≡◌, refl}
use mathlib.Core.Bool.{Bool, false, ◌||◌}
use mathlib.Core.List.{List, [], ◌∷◌, ◌++◌}
use native.Mathlib.Omega.{arith}
use text.Mathlib.Text.{◌==◌ as str_eq}
use text.Mathlib.TextEquality.{eq_iff}
use fiscal_mind_agent.Prelude.Lists.{any}

-- No text stands twice in the list.
abbrev pub Distinct : List String → Type 0
Distinct [] = Unit
Distinct (x ∷ xs) = (any (str_eq x) xs ≡ false) × Distinct xs

pub any-append :
    (p : String → Bool) (xs ys : List String) → any p (xs ++ ys) ≡ (any p xs || any p ys)
any-append p [] ys = refl
any-append p (x ∷ xs) ys = ground (arith, any-append p xs ys)

pub Distinct-append :
    (xs : List String) (y : String)
    → Distinct xs
    → any (str_eq y) xs ≡ false
    → Distinct (xs ++ y ∷ [])
Distinct-append [] y h new = (refl, tt)
Distinct-append (x ∷ xs) y h new = (
  ground (arith, any-append (str_eq x) xs (y ∷ []), eq_iff x y, eq_iff y x),
  Distinct-append xs y h.1 (ground arith),
)
