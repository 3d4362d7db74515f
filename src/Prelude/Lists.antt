-- ===== src/Prelude/Lists.antt =====
-- Lists measured by native numbers, and the predicates over lists that the components share.
use Prim.Native.Nat.{ℕ, zero, suc, ◌<◌}
use mathlib.Core.Path.{◌≡◌, refl, sym, ap, ◌∙◌, subst}
use mathlib.Core.Logic.{◌⊎◌, inl, inr}
use mathlib.Core.Option.{Option, none, some}
use native.Mathlib.Omega.{arith}
use mathlib.Core.List.{List, [], ◌∷◌, ◌++◌, map}

module _ {ℓ} {A : Type ℓ} where
  abbrev pub length : List A → ℕ
  length [] = 0
  length (x ∷ xs) = suc (length xs)

  abbrev pub get_elem? : List A → ℕ → Option A
  get_elem? [] i = none
  get_elem? (x ∷ xs) zero = some x
  get_elem? (x ∷ xs) (suc i) = get_elem? xs i

  -- A write out of bounds changes nothing.
  abbrev pub set : List A → ℕ → A → List A
  set [] i v = []
  set (x ∷ xs) zero v = v ∷ xs
  set (x ∷ xs) (suc i) v = x ∷ set xs i v

  abbrev pub take : ℕ → List A → List A
  take zero xs = []
  take (suc n) [] = []
  take (suc n) (x ∷ xs) = x ∷ take n xs

  abbrev pub replicate : ℕ → A → List A
  replicate zero a = []
  replicate (suc n) a = a ∷ replicate n a

module _ {ℓ} {A : Type ℓ} where
  pub length-set : (xs : List A) (i : ℕ) (v : A) → length (set xs i v) ≡ length xs
  length-set [] i v = refl
  length-set (x ∷ xs) zero v = refl
  length-set (x ∷ xs) (suc i) v = ap suc (length-set xs i v)

  pub length-replicate : (n : ℕ) (a : A) → length (replicate n a) ≡ n
  length-replicate zero a = refl
  length-replicate (suc n) a = ap suc (length-replicate n a)

  -- Inside the list there is an element.
  pub get_elem?-some : (xs : List A) (i : ℕ) → i < length xs → (a : A) × (get_elem? xs i ≡ some a)
  get_elem?-some [] i h = absurd (omega arith)
  get_elem?-some (x ∷ xs) zero h = (x, refl)
  get_elem?-some (x ∷ xs) (suc i) h = get_elem?-some xs i (omega arith)

  -- A write at the end of a prefix makes the prefix longer.
  pub take-set :
      (xs : List A) (i : ℕ) (v : A)
      → i < length xs
      → take (suc i) (set xs i v) ≡ take i xs ++ (v ∷ [])
  take-set [] i v h = absurd (omega arith)
  take-set (x ∷ xs) zero v h = refl
  take-set (x ∷ xs) (suc i) v h = ap (λ ys. x ∷ ys) (take-set xs i v (omega arith))

module _ {A : Type 0} where
  -- `Among x xs`: `x` is an element of `xs`, with its place kept.
  abbrev pub Among : A → List A → Type 0
  Among x [] = ⊥
  Among x (y ∷ ys) = (x ≡ y) ⊎ Among x ys

  pub Among-append_right : (x : A) (xs ys : List A) → Among x ys → Among x (xs ++ ys)
  Among-append_right x [] ys h = h
  Among-append_right x (y ∷ xs) ys h = inr (Among-append_right x xs ys h)

-- No element of the list stands in it twice.
abbrev pub IsDistinct : {A : Type 0} → List A → Type 0
IsDistinct [] = Unit
IsDistinct (x ∷ xs) = ¬ Among x xs × IsDistinct xs

abbrev pub Each {ℓ κ} : {A : Type ℓ} → (A → Type κ) → List A → Type κ
Each P [] = Unit
Each P (x ∷ xs) = P x × Each P xs

module _ {ℓ κ} {A : Type ℓ} (P : A → Type κ) where
  pub Each-at : (front : List A) (x : A) (back : List A) → Each P (front ++ (x ∷ back)) → P x
  Each-at [] x back h = h.0
  Each-at (y ∷ front) x back h = Each-at front x back h.1

  pub Each-put :
      (front : List A) (x y : A) (back : List A)
      → P y
      → Each P (front ++ (x ∷ back))
      → Each P (front ++ (y ∷ back))
  Each-put [] x y back new h = (new, h.1)
  Each-put (z ∷ front) x y back new h = (h.0, Each-put front x y back new h.1)

  pub Each-map : {Q : A → Type 0} → ((x : A) → P x → Q x) → (xs : List A) → Each P xs → Each Q xs
  Each-map f [] h = tt
  Each-map f (x ∷ xs) h = (f x h.0, Each-map f xs h.1)

-- What holds of each element, by its place.
module _ {ℓ} {A : Type 0} (P : A → Type ℓ) where
  pub Each-Among : (xs : List A) (x : A) → Each P xs → Among x xs → P x
  Each-Among [] x h there = absurd there
  Each-Among (y ∷ ys) x h (inl is) = subst P (sym is) h.0
  Each-Among (y ∷ ys) x h (inr there) = Each-Among ys x h.1 there

  pub Each-all : (xs : List A) → ((x : A) → Among x xs → P x) → Each P xs
  Each-all [] f = tt
  Each-all (x ∷ xs) f = (f x (inl refl), Each-all xs (λ y there. f y (inr there)))

module _ {A B : Type 0} (f : A → B) where
  pub Among-map : (x : A) (xs : List A) → Among x xs → Among (f x) (map f xs)
  Among-map x [] there = absurd there
  Among-map x (y ∷ ys) (inl is) = inl (ap f is)
  Among-map x (y ∷ ys) (inr there) = inr (Among-map x ys there)

  pub Among-map_back : (b : B) (xs : List A) → Among b (map f xs) → (x : A) × Among x xs × (b ≡ f x)
  Among-map_back b [] there = absurd there
  Among-map_back b (x ∷ xs) (inl is) = (x, inl refl, is)
  Among-map_back b (x ∷ xs) (inr there) =
      let (y, found, is) = Among-map_back b xs there in (y, inr found, is)

  -- Where no image stands twice, an element is known by its image.
  pub IsDistinct-map :
      (xs : List A) (x y : A) → IsDistinct (map f xs) → Among x xs → Among y xs → f x ≡ f y → x ≡ y
  IsDistinct-map [] x y once at_x at_y same = absurd at_x
  IsDistinct-map (z ∷ zs) x y once (inl is) (inl is') same = is ∙ sym is'
  IsDistinct-map (z ∷ zs) x y once (inl is) (inr there) same =
      absurd (once.0 (subst (λ b. Among b (map f zs)) (sym same ∙ ap f is) (Among-map y zs there)))
  IsDistinct-map (z ∷ zs) x y once (inr there) (inl is) same =
      absurd (once.0 (subst (λ b. Among b (map f zs)) (same ∙ ap f is) (Among-map x zs there)))
  IsDistinct-map (z ∷ zs) x y once (inr at_x) (inr at_y) same =
      IsDistinct-map zs x y once.1 at_x at_y same
