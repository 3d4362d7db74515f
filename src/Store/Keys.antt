-- ===== src/Store/Keys.antt =====
-- The primary keys of the two tables.
use mathlib.Core.List.{append_assoc, append-nil, map-append}
use cliros.Prelude.{String, ◌≡◌, sym, subst, List, [], ◌∷◌, ◌++◌, map, Among, IsDistinct, inl, inr}
use cliros.Store.{OutboxRow, Store, row_key}
use cliros.Outbox.Rows.{AreFresh}

module _ {A : Type 0} where
  Among-snoc : (x y : A) (xs : List A) → Among y (xs ++ (x ∷ [])) → ¬ (y ≡ x) → Among y xs
  Among-snoc x y [] (inl e) other = absurd (other e)
  Among-snoc x y [] (inr no_place) other = no_place
  Among-snoc x y (z ∷ xs) (inl e) other = inl e
  Among-snoc x y (z ∷ xs) (inr h) other = inr (Among-snoc x y xs h other)

  IsDistinct-snoc :
      (xs : List A) (x : A) → IsDistinct xs → ¬ Among x xs → IsDistinct (xs ++ (x ∷ []))
  IsDistinct-snoc [] x h fresh = (λ no_place. no_place, tt)
  IsDistinct-snoc (y ∷ xs) x (first, rest) fresh = (
    λ there. first (Among-snoc x y xs there λ e. fresh (inl (sym e))),
    IsDistinct-snoc xs x rest (λ there. fresh (inr there)),
  )

module _ {U B : Type 0} where
  -- Rows whose keys are new may be appended.
  pub IsDistinct-rows :
      (rows table : List (OutboxRow U B))
      → IsDistinct (map row_key table)
      → AreFresh rows table
      → IsDistinct (map row_key (table ++ rows))
  IsDistinct-rows [] table h _ = subst (λ t. IsDistinct (map row_key t)) (sym (append-nil table)) h
  IsDistinct-rows (row ∷ rows) table h (fresh, more) =
      subst (λ t. IsDistinct (map row_key t)) (append_assoc table (row ∷ []) rows)
        (IsDistinct-rows rows (table ++ (row ∷ []))
          (subst IsDistinct (sym (map-append row_key table (row ∷ [])))
            (IsDistinct-snoc (map row_key table) (row_key row) h fresh))
          more)

  pub Among-rows :
      (k : U × String × String) (table rows : List (OutboxRow U B))
      → Among k (map row_key table)
      → Among k (map row_key (table ++ rows))
  Among-rows k [] rows there = absurd there
  Among-rows k (row ∷ table) rows (inl e) = inl e
  Among-rows k (row ∷ table) rows (inr there) = inr (Among-rows k table rows there)

module _ {U B D : Type 0} where
  -- PRIMARY KEY (saga_id, from_step) and PRIMARY KEY (saga_id, topic, saga_type).
  pub record HasKeys (s : Store U B D) : Type 0 where
    pub inbox_keys : IsDistinct s.inbox
    pub outbox_keys : IsDistinct (map row_key s.outbox)

  -- The keys stay primary, and no claim and no row's key is lost.
  pub record Keeps (s t : Store U B D) : Type 0 where
    pub keys : HasKeys s → HasKeys t
    pub claims : (k : U × String) → Among k s.inbox → Among k t.inbox
    pub rows :
        (k : U × String × String) → Among k (map row_key s.outbox) → Among k (map row_key t.outbox)

  pub Keeps-refl : {s t : Store U B D} → t ≡ s → Keeps s t
  Keeps-refl {s} same =
      subst (λ t. Keeps s t) (sym same)
        (record { keys = λ h. h; claims = λ k h. h; rows = λ row h. h })

  pub Keeps-trans : {s t u : Store U B D} → Keeps s t → Keeps t u → Keeps s u
  Keeps-trans a b = record {
    keys = λ h. b.keys (a.keys h);
    claims = λ k h. b.claims k (a.claims k h);
    rows = λ row h. b.rows row (a.rows row h);
  }
