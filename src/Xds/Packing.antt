-- ===== src/Xds/Packing.antt =====
-- Steps of the build that fail only where a message does not pack.
use oooi.Prelude.{
  Bool, true, false, Outcome, ok, err, ◌>>=◌, ◌≡◌, ◌⊎◌, inl, inr, refl, arith, Bool-cases,
}
use oooi.Xds.Envoy.{Message}
use oooi.Xds.Build.{BuildError, pack}

module _ (packs : Message → Bool) where
  -- The step gives `a`, or an error because of a message that does not pack.
  abbrev pub Gives : {A : Type 0} → Outcome BuildError A → A → Type 0
  Gives r a = (r ≡ ok a) ⊎ ((e : BuildError) × (r ≡ err e) × (m : Message) × (packs m ≡ false))

  pub Gives-pack : (e : BuildError) (m : Message) → Gives (pack packs e m) m
  Gives-pack e m = elim (Bool-cases (packs m)) [
    | inl good ↦ inl (ground arith)
    | inr bad ↦ inr (e, ground arith, m, bad)
  ]

  pub Gives-bind :
      {A B : Type 0} (r : Outcome BuildError A) (a : A) (f : A → Outcome BuildError B) (b : B)
      → Gives r a
      → Gives (f a) b
      → Gives (r >>= f) b
  Gives-bind r a f b (inl done) (inl next) = inl (rw done next)
  Gives-bind r a f b (inl done) (inr (e, fails, m, bad)) = inr (e, rw done fails, m, bad)
  Gives-bind r a f b (inr (e, fails, m, bad)) next = inr (e, rw fails refl, m, bad)

  -- A result that is there is the expected one.
  pub Gives-unique :
      {A : Type 0} (r : Outcome BuildError A) (a b : A) → Gives r a → r ≡ ok b → b ≡ a
  Gives-unique r a b (inl done) e = cc
  Gives-unique r a b (inr (x, fails, m, bad)) e = absurd (ground arith)

  -- Where every message packs, the result is there.
  pub Gives-total :
      {A : Type 0} (r : Outcome BuildError A) (a : A)
      → Gives r a
      → ((m : Message) → packs m ≡ true)
      → r ≡ ok a
  Gives-total r a (inl done) good = done
  Gives-total r a (inr (x, fails, m, bad)) good = absurd (ground (arith, good m))
