-- ===== src/Metrics/Tests.antt =====
-- A registry that has a collector already.
use cliros.Prelude.{
  Bool, false, Option, none, some, List, [], ◌∷◌, ◌++◌, ◌||◌, str_eq, if◌then◌else◌, arith,
}
use cliros.Errors.{Error, leaf}
use cliros.Metrics.{Collector}
use cliros.Metrics.Registered.{Registry}

abbrev has : Collector → List Collector → Bool
has c [] = false
has c (d ∷ ds) = str_eq c.name d.name || has c ds

abbrev register : Collector → List Collector → Option Error × List Collector
register c cs =
    if has c cs
    then (some (leaf "duplicate metrics collector registration attempted"), cs)
    else (none, cs ++ (c ∷ []))

registry : Registry register
registry = record {
  accepted = λ cs. cs;
  accepts = λ c cs e. ground arith;
  refuses = λ c cs x e. ground arith;
}

abbrev started_total : Collector
started_total = record { subsystem = "saga"; name = "started_total"; help = ""; labels = [] }
