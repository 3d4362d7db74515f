-- ===== src/Outbox/Progress.antt =====
-- internal/outbox/reader.go: what publishing and marking a batch does to the rows of the outbox.
use cliros.Prelude.{
  ℕ, ◌≤◌, String, ◌≡◌, refl, ◌∙◌, sym, subst, ◌⊎◌, inl, inr, List, [], ◌∷◌, Each, Among, arith,
}
use cliros.Store.{OutboxRow, Store, row_key}
use cliros.Store.Queue.{Pointwise, Updates, Marks, Delays}

module _ {U B : Type 0} where
  -- What may happen to a row: only rows whose key is in `T` change, their key and their contents
  -- stay, an attempt is not forgotten, and only a row whose key is in `P` is marked as processed.
  pub record RowMoves (T P : U × String × String → Type 0) (row row' : OutboxRow U B) : Type 0 where
    pub key : row_key row' ≡ row_key row
    pub same_payload : row'.payload ≡ row.payload
    pub same_metadata : row'.metadata ≡ row.metadata
    pub same_step : row'.step_name ≡ row.step_name
    pub attempts : row.attempts_counter ≤ row'.attempts_counter
    pub touched : (row' ≡ row) ⊎ T (row_key row)
    pub marked : (row'.processed_at ≡ row.processed_at) ⊎ P (row_key row)

  module _ {T P : U × String × String → Type 0} where
    RowMoves-refl : {row row' : OutboxRow U B} → row' ≡ row → RowMoves T P row row'
    RowMoves-refl {row} same =
        subst (λ (r : OutboxRow U B). RowMoves T P row r) (sym same)
          record {
            key = refl;
            same_payload = refl;
            same_metadata = refl;
            same_step = refl;
            attempts = omega arith;
            touched = inl refl;
            marked = inl refl;
          }

    RowMoves-trans :
        {row row' row'' : OutboxRow U B}
        → RowMoves T P row row'
        → RowMoves T P row' row''
        → RowMoves T P row row''
    RowMoves-trans {row} {row'} {row''} a b = record {
      key = b.key ∙ a.key;
      same_payload = b.same_payload ∙ a.same_payload;
      same_metadata = b.same_metadata ∙ a.same_metadata;
      same_step = b.same_step ∙ a.same_step;
      attempts = omega (arith, a.attempts, b.attempts);
      touched = elim b.touched [
        | inl same ↦ elim a.touched [ inl first ↦ inl (same ∙ first) | inr t ↦ inr t ]
        | inr t ↦ inr (subst T a.key t)
      ];
      marked = elim b.marked [
        | inl same ↦ elim a.marked [ inl first ↦ inl (same ∙ first) | inr p ↦ inr p ]
        | inr p ↦ inr (subst P a.key p)
      ];
    }

    Marks-RowMoves :
        {k : U × String × String} (at : ℕ) {row row' : OutboxRow U B}
        → T k
        → P k
        → Marks k at row row'
        → RowMoves T P row row'
    Marks-RowMoves at t p (inr same) = RowMoves-refl same
    Marks-RowMoves {k} at {row} t p (inl (is, made)) =
        subst (λ (r : OutboxRow U B). RowMoves T P row r) (sym made)
          record {
            key = refl;
            same_payload = refl;
            same_metadata = refl;
            same_step = refl;
            attempts = omega arith;
            touched = inr (subst T (sym is) t);
            marked = inr (subst P (sym is) p);
          }

    Delays-RowMoves :
        {k : U × String × String} (last next : ℕ) {row row' : OutboxRow U B}
        → T k
        → Delays k last next row row'
        → RowMoves T P row row'
    Delays-RowMoves last next t (inr same) = RowMoves-refl same
    Delays-RowMoves {k} last next {row} t (inl (is, made)) =
        subst (λ (r : OutboxRow U B). RowMoves T P row r) (sym made)
          record {
            key = refl;
            same_payload = refl;
            same_metadata = refl;
            same_step = refl;
            attempts = omega arith;
            touched = inr (subst T (sym is) t);
            marked = inl refl;
          }

module _ {A : Type 0} where
  Pointwise-map :
      {R S : A → A → Type 0}
      → ((x y : A) → R x y → S x y)
      → (xs ys : List A) → Pointwise R xs ys
      → Pointwise S xs ys
  Pointwise-map f [] [] h = tt
  Pointwise-map f [] (y ∷ ys) h = absurd h
  Pointwise-map f (x ∷ xs) [] h = absurd h
  Pointwise-map f (x ∷ xs) (y ∷ ys) h = (f x y h.0, Pointwise-map f xs ys h.1)

  -- What a change makes of each element's property.
  pub Pointwise-Each :
      {R : A → A → Type 0} {P Q : A → Type 0}
      → ((x y : A) → R x y → P x → Q y)
      → (xs ys : List A) → Pointwise R xs ys
      → Each P xs
      → Each Q ys
  Pointwise-Each f [] [] h all = tt
  Pointwise-Each f [] (y ∷ ys) h all = absurd h
  Pointwise-Each f (x ∷ xs) [] h all = absurd h
  Pointwise-Each f (x ∷ xs) (y ∷ ys) h all = (f x y h.0 all.0, Pointwise-Each f xs ys h.1 all.1)

  -- What is known of a change of the elements of a list.
  pub Pointwise-Among :
      {R S : A → A → Type 0} (xs ys : List A)
      → ((x y : A) → Among x xs → R x y → S x y)
      → Pointwise R xs ys
      → Pointwise S xs ys
  Pointwise-Among [] [] f h = tt
  Pointwise-Among [] (y ∷ ys) f h = absurd h
  Pointwise-Among (x ∷ xs) [] f h = absurd h
  Pointwise-Among (x ∷ xs) (y ∷ ys) f h =
      (f x y (inl refl) h.0, Pointwise-Among xs ys (λ z k there. f z k (inr there)) h.1)

  Pointwise-refl : (R : A → A → Type 0) → ((x : A) → R x x) → (xs : List A) → Pointwise R xs xs
  Pointwise-refl R f [] = tt
  Pointwise-refl R f (x ∷ xs) = (f x, Pointwise-refl R f xs)

  Pointwise-trans :
      {R : A → A → Type 0}
      → ((x y z : A) → R x y → R y z → R x z)
      → (xs ys zs : List A) → Pointwise R xs ys
      → Pointwise R ys zs
      → Pointwise R xs zs
  Pointwise-trans f [] [] zs a b = b
  Pointwise-trans f [] (y ∷ ys) zs a b = absurd a
  Pointwise-trans f (x ∷ xs) [] zs a b = absurd a
  Pointwise-trans f (x ∷ xs) (y ∷ ys) [] a b = absurd b
  Pointwise-trans f (x ∷ xs) (y ∷ ys) (z ∷ zs) a b =
      (f x y z a.0 b.0, Pointwise-trans f xs ys zs a.1 b.1)

module _ {U B D : Type 0} where
  -- What may happen to the tables.
  abbrev pub Moves : (T P : U × String × String → Type 0) → Store U B D → Store U B D → Type 0
  Moves T P = Updates (RowMoves T P)

  pub Moves-mono :
      {T P T' P' : U × String × String → Type 0} {s t : Store U B D}
      → ((k : U × String × String) → T k → T' k)
      → ((k : U × String × String) → P k → P' k)
      → Moves T P s t
      → Moves T' P' s t
  Moves-mono {s} {t} f g h = record {
    rows =
        Pointwise-map
          (λ row row' m. record {
            key = m.key;
            same_payload = m.same_payload;
            same_metadata = m.same_metadata;
            same_step = m.same_step;
            attempts = m.attempts;
            touched = elim m.touched [ inl same ↦ inl same | inr h ↦ inr (f (row_key row) h) ];
            marked = elim m.marked [ inl same ↦ inl same | inr h ↦ inr (g (row_key row) h) ];
          })
          s.outbox t.outbox h.rows;
    same_inbox = h.same_inbox;
    same_other = h.same_other;
  }

  module _ {T P : U × String × String → Type 0} where
    pub Moves-refl : {s t : Store U B D} → t ≡ s → Moves T P s t
    Moves-refl {s} same =
        subst (λ (t : Store U B D). Moves T P s t) (sym same)
          record {
            rows = Pointwise-refl (RowMoves T P) (λ row. RowMoves-refl refl) s.outbox;
            same_inbox = refl;
            same_other = refl;
          }

    pub Moves-trans : {s t u : Store U B D} → Moves T P s t → Moves T P t u → Moves T P s u
    Moves-trans {s} {t} {u} a b = record {
      rows = Pointwise-trans (λ x y z. RowMoves-trans) s.outbox t.outbox u.outbox a.rows b.rows;
      same_inbox = b.same_inbox ∙ a.same_inbox;
      same_other = b.same_other ∙ a.same_other;
    }

    pub Marks-Moves :
        {s t : Store U B D} (k : U × String × String) (at : ℕ)
        → T k
        → P k
        → Updates (Marks k at) s t
        → Moves T P s t
    Marks-Moves {s} {t} k at touch mark h = record {
      rows = Pointwise-map (λ row row'. Marks-RowMoves at touch mark) s.outbox t.outbox h.rows;
      same_inbox = h.same_inbox;
      same_other = h.same_other;
    }

    pub Delays-Moves :
        {s t : Store U B D} (k : U × String × String) (last next : ℕ)
        → T k
        → Updates (Delays k last next) s t
        → Moves T P s t
    Delays-Moves {s} {t} k last next touch h = record {
      rows = Pointwise-map (λ row row'. Delays-RowMoves last next touch) s.outbox t.outbox h.rows;
      same_inbox = h.same_inbox;
      same_other = h.same_other;
    }
