-- ===== src/Common/Members.antt =====
-- Membership in a list.
use mathlib.Core.Path.{◌≡◌, ap}
use mathlib.Core.Logic.{◌⊎◌, inl, inr}
use mathlib.Core.List.{List, [], ◌∷◌, ◌++◌, map}

pub data Among {A : Type 0} (x : A) : List A → Type 0 where
  here : {y : A} {ys : List A} → y ≡ x → Among x (y ∷ ys)
  there : {y : A} {ys : List A} → Among x ys → Among x (y ∷ ys)

module _ {A : Type 0} where
  pub Among-swap : {x y z : A} {ys : List A} → Among x (y ∷ (z ∷ ys)) → Among x (z ∷ (y ∷ ys))
  Among-swap (here e) = there (here e)
  Among-swap (there (here e)) = here e
  Among-swap (there (there h)) = there (there h)

  pub Among-cases : {x y : A} {ys : List A} → Among x (y ∷ ys) → (y ≡ x) ⊎ Among x ys
  Among-cases (here e) = inl e
  Among-cases (there h) = inr h

  pub Among-left : {x : A} (xs ys : List A) → Among x xs → Among x (xs ++ ys)
  Among-left [] ys h = elim h [ ]
  Among-left (z ∷ xs) ys (here e) = here e
  Among-left (z ∷ xs) ys (there h) = there (Among-left xs ys h)

  pub Among-right : {x : A} (xs ys : List A) → Among x ys → Among x (xs ++ ys)
  Among-right [] ys h = h
  Among-right (z ∷ xs) ys h = there (Among-right xs ys h)

pub Among-map :
    {A B : Type 0} (f : A → B) {x : A} (xs : List A) → Among x xs → Among (f x) (map f xs)
Among-map f [] h = elim h [ ]
Among-map f (y ∷ xs) (here e) = here (ap f e)
Among-map f (y ∷ xs) (there h) = there (Among-map f xs h)
