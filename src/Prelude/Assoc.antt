-- ===== src/Prelude/Assoc.antt =====
-- Go's `map[string]V` as an association list: `m[k]`, `m[k] = v` and `delete(m, k)`.
use Prim.Native.String.{String}
use mathlib.Core.Path.{◌≡◌}
use mathlib.Core.Option.{Option, none, some}
use mathlib.Core.List.{List, [], ◌∷◌}
use native.Mathlib.Omega.{arith}
use text.Mathlib.TextEquality.{eq_iff}
use text.Mathlib.TextPositions.{eq_refl}
use oooi.Prelude.Tests.{◌===◌, if◌then◌else◌}

abbrev pub Assoc {ℓ} : Type ℓ → Type ℓ
Assoc Val = List (String × Val)

module _ {ℓ} {Val : Type ℓ} where
  unfoldable pub delete : String → Assoc Val → Assoc Val
  delete gone [] = []
  delete gone ((key, val) ∷ tail) =
      let kept = delete gone tail in if key === gone then kept else (key, val) ∷ kept

  -- The value of a key is overwritten where it stands, and a new key goes to the end.
  unfoldable pub insert : String → Val → Assoc Val → Assoc Val
  insert new val [] = (new, val) ∷ []
  insert new val ((key, old) ∷ tail) =
      if key === new then (new, val) ∷ tail else (key, old) ∷ insert new val tail

  unfoldable pub lookup : String → Assoc Val → Option Val
  lookup wanted [] = none
  lookup wanted ((key, val) ∷ tail) = if key === wanted then some val else lookup wanted tail

  pub lookup-delete :
      (gone wanted : String) (entries : Assoc Val)
      → lookup wanted (delete gone entries)
        ≡ (if gone === wanted then none else lookup wanted entries)
  unfolding delete lookup
  lookup-delete gone wanted [] = ground arith
  lookup-delete gone wanted ((key, val) ∷ tail) = ground (
    arith,
    eq_iff gone wanted,
    eq_iff key gone,
    eq_iff key wanted,
    lookup-delete gone wanted tail,
  )

  pub lookup-insert :
      (new wanted : String) (val : Val) (entries : Assoc Val)
      → lookup wanted (insert new val entries)
        ≡ (if new === wanted then some val else lookup wanted entries)
  unfolding insert lookup
  lookup-insert new wanted val [] = ground arith
  lookup-insert new wanted val ((key, old) ∷ tail) = ground (
    arith,
    eq_iff key wanted,
    eq_iff key new,
    lookup-insert new wanted val tail,
    eq_iff new wanted,
  )

  pub lookup-insert_self :
      (new : String) (val : Val) (entries : Assoc Val)
      → lookup new (insert new val entries) ≡ some val
  lookup-insert_self new val entries =
      ground (arith, eq_refl new, lookup-insert new new val entries)
