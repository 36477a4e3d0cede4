-- ===== src/Prelude/Permutations.antt =====
-- Membership and repetition under maps and permutations.
use mathlib.Core.Path.{◌≡◌, refl, sym, ap, ◌∙◌, subst}
use mathlib.Core.List.{List, [], ◌∷◌, ◌++◌, map, Permᴰ}
use mathlib.Core.List.Permᴰ
use mathlib.Core.Logic.{◌⊎◌, inl, inr}
use oooi.Prelude.Lists.{All, Has}

module _ {A : Type 0} where
  pub Has-perm : (a : A) {xs ys : List A} → Permᴰ xs ys → Has a xs → Has a ys
  Has-perm a Permᴰ.nil h = h
  Has-perm a (Permᴰ.cons e d) (inl same) = inl (sym e ∙ same)
  Has-perm a (Permᴰ.cons e d) (inr there) = inr (Has-perm a d there)
  Has-perm a (Permᴰ.swap e f) (inl same) = inr (inl (sym e ∙ same))
  Has-perm a (Permᴰ.swap e f) (inr (inl same)) = inl (sym f ∙ same)
  Has-perm a (Permᴰ.swap e f) (inr (inr there)) = inr (inr there)
  Has-perm a (Permᴰ.trans d e) h = Has-perm a e (Has-perm a d h)

  -- No entry of the list occurs again behind it.
  abbrev pub NoRepeat : List A → Type 0
  NoRepeat [] = Unit {0}
  NoRepeat (x ∷ xs) = (Has x xs → ⊥) × NoRepeat xs

  pub NoRepeat-perm : {xs ys : List A} → Permᴰ xs ys → NoRepeat xs → NoRepeat ys
  NoRepeat-perm Permᴰ.nil n = n
  NoRepeat-perm (Permᴰ.cons {b = b} {l₁ = l} e d) (n, ns) =
      ((λ h. n (subst (λ x. Has x l) (sym e) (Has-perm b (Permᴰ.symm d) h))), NoRepeat-perm d ns)
  NoRepeat-perm (Permᴰ.swap {l = l} e f) (n, (n', ns)) = (
    (λ h. elim h [
      | inl same ↦ n (inl (f ∙ sym same ∙ sym e))
      | inr there ↦ n' (subst (λ x. Has x l) (sym f) there)
    ]),
    ((λ h. n (inr (subst (λ x. Has x l) (sym e) h))), ns),
  )
  NoRepeat-perm (Permᴰ.trans d e) n = NoRepeat-perm e (NoRepeat-perm d n)

  pub Has-append : (a : A) (xs ys : List A) → Has a (xs ++ ys) → Has a xs ⊎ Has a ys
  Has-append a [] ys h = inr h
  Has-append a (x ∷ xs) ys (inl same) = inl (inl same)
  Has-append a (x ∷ xs) ys (inr there) = elim (Has-append a xs ys there) [
    | inl left ↦ inl (inr left)
    | inr right ↦ inr right
  ]

  -- One more entry at the end.
  pub NoRepeat-snoc : (xs : List A) (a : A) → NoRepeat xs → (Has a xs → ⊥) → NoRepeat (xs ++ a ∷ [])
  NoRepeat-snoc [] a n new = ((λ h. h), tt)
  NoRepeat-snoc (x ∷ xs) a (n, ns) new = (
    (λ h. elim (Has-append x xs (a ∷ []) h) [
      | inl inside ↦ n inside
      | inr (inl same) ↦ new (inl (sym same))
      | inr (inr nowhere) ↦ nowhere
    ]),
    NoRepeat-snoc xs a ns (λ h. new (inr h)),
  )

pub All-at : {A : Type 0} (P : A → Type 0) (a : A) (xs : List A) → Has a xs → All P xs → P a
All-at P a [] here all = absurd here
All-at P a (x ∷ xs) (inl same) (holds, all) = subst P same holds
All-at P a (x ∷ xs) (inr there) (holds, all) = All-at P a xs there all

module _ {A B : Type 0} (f : A → B) where
  pub Has-map : (x : A) (xs : List A) → Has x xs → Has (f x) (map f xs)
  Has-map x [] here = absurd here
  Has-map x (y ∷ xs) (inl same) = inl (ap f same)
  Has-map x (y ∷ xs) (inr there) = inr (Has-map x xs there)

  -- Where an entry of the mapped list comes from.
  pub Has-map_from : (b : B) (xs : List A) → Has b (map f xs) → (x : A) × Has x xs × (f x ≡ b)
  Has-map_from b [] here = absurd here
  Has-map_from b (y ∷ xs) (inl same) = (y, inl refl, same)
  Has-map_from b (y ∷ xs) (inr there) =
      let (x, inside, same) = Has-map_from b xs there in (x, inr inside, same)

  pub NoRepeat-map :
      ((x y : A) → f x ≡ f y → x ≡ y) → (xs : List A) → NoRepeat xs → NoRepeat (map f xs)
  NoRepeat-map inj [] n = tt
  NoRepeat-map inj (x ∷ xs) (n, ns) = (
    (λ h.
        let (y, inside, same) = Has-map_from (f x) xs h in
        n (subst (λ z. Has z xs) (inj y x same) inside)),
    NoRepeat-map inj xs ns,
  )
