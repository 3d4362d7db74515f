-- ===== src/Metrics/Registered.antt =====
-- internal/observability/metrics/metrics.go: what `New` leaves in the registry.
use cliros.Prelude.{String, ◌≡◌, Bool, true, Option, none, some, List, [], ◌∷◌, ◌++◌}
use cliros.Errors.{Error}
use cliros.Effect.{Result, ok, err}
use cliros.Metrics.{Collector, collectors}

module _ {W : Type 0} (register : Collector → W → Option Error × W) where
  -- A registry keeps the collectors that it has accepted.
  pub record Registry : Type 0 where
    pub accepted : W → List Collector
    pub accepts :
        (c : Collector) (w : W)
        → (register c w).0 ≡ none
        → accepted (register c w).1 ≡ accepted w ++ (c ∷ [])
    pub refuses :
        (c : Collector) (w : W) (x : Error)
        → (register c w).0 ≡ some x
        → accepted (register c w).1 ≡ accepted w

  module _ (registry : Registry) where
    open registry use {accepted}

    -- All of the collectors have been registered, or those before the first that was refused, with
    -- the error `x`.
    abbrev pub Adds : List Collector → List Collector → Option Error → List Collector → Type 0
    Adds cs before none after = after ≡ before ++ cs
    Adds cs before (some x) after =
        (front : List Collector) × (refused : Collector) × (back : List Collector) × (cs
          ≡ front ++ (refused ∷ back))
        × (after ≡ before ++ front)
        × (w : W) × (accepted w ≡ after)
        × ((register refused w).0 ≡ some x)

    -- What `New` does with a registry.
    abbrev pub Registers : String → List Collector → Result Bool → List Collector → Type 0
    Registers subsystem before (ok made) after =
        (made ≡ true) × Adds (collectors subsystem) before none after
    Registers subsystem before (err x) after = Adds (collectors subsystem) before (some x) after
