-- ===== src/Prelude/Steps.antt =====
-- The states that the steps of a relation reach.

module _ {A : Type 0} (R : A → A → Type 0) where
  pub data Run (s : A) : A → Type 0 where
    stays : Run s s
    moves : {t u : A} → Run s t → R t u → Run s u

module _ {A : Type 0} {R : A → A → Type 0} where
  pub Run-trans : {s t u : A} → Run R s t → Run R t u → Run R s u
  Run-trans before stays = before
  Run-trans before (moves after step) = moves (Run-trans before after) step

  -- What each step keeps.
  pub Run-keeps {ℓ} :
      {s t : A} (P : A → Type ℓ) → ((u v : A) → R u v → P u → P v) → Run R s t → P s → P t
  Run-keeps P keep stays h = h
  Run-keeps P keep (moves before step) h = keep _ _ step (Run-keeps P keep before h)
