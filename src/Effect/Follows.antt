-- ===== src/Effect/Follows.antt =====
-- Calls that keep a variable of the caller beside the world do what the calls without it do.
use cliros.Prelude.{◌≡◌, refl, ap, ◌∙◌}
use cliros.Effect.{Result, ok, err, Io, ◌>>=◌, deferring}

-- `m'` answers as `m` does and leaves its world, whatever it keeps.
pub record Follows {K W A : Type 0} (m' : Io (K × W) A) (m : Io W A) : Type 0 where
  pub same : (k : K) (w : W) → ((m' (k, w)).0, (m' (k, w)).1.1) ≡ m w

module _ {K W A B : Type 0} where
  split_follow :
      (g : A → Io (K × W) B) (f : A → Io W B)
      → ((a : A) → Follows (g a) (f a))
      → (r : Result A) (k : K) (w : W)
      → ((((λ _. (r, (k, w))) >>= g) (k, w)).0, (((λ _. (r, (k, w))) >>= g) (k, w)).1.1)
        ≡ ((λ _. (r, w)) >>= f) w
  unfolding ◌>>=◌
  split_follow g f h (ok a) k w = (h a).same k w
  split_follow g f h (err e) k w = refl

  pub Follows-bind :
      {m' : Io (K × W) A} {m : Io W A} {g : A → Io (K × W) B} {f : A → Io W B}
      → Follows m' m
      → ((a : A) → Follows (g a) (f a))
      → Follows (m' >>= g) (m >>= f)
  unfolding ◌>>=◌
  Follows-bind {m'} {m} {g} {f} h rest = record {
    same = λ k w.
        let (r, (k', w')) = m' (k, w) in
        split_follow g f rest r k' w' ∙ ap (λ (p : Result A × W). ((λ _. p) >>= f) w) (h.same k w);
  }

module _ {K W A : Type 0} where
  pub Follows-deferring :
      (g' : K × W → K × W) (g : W → W) {m' : Io (K × W) A} {m : Io W A}
      → ((k : K) (w : W) → (g' (k, w)).1 ≡ g w)
      → Follows m' m
      → Follows (deferring g' m') (deferring g m)
  unfolding deferring
  Follows-deferring g' g {m'} {m} undo h = record {
    same = λ k w.
        let (r, (k', w')) = m' (k, w) in
        ap (λ (v : W). (r, v)) (undo k' w') ∙ ap (λ (p : Result A × W). (p.0, g p.1)) (h.same k w);
  }
