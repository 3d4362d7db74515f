-- ===== src/Tracing/Carrier.antt =====
-- What a propagator can do to a message through the carrier.
use cliros.Prelude.{String, ◌≡◌, refl, some, List, [], ◌∷◌, arith}
use cliros.Message.{Message}
use cliros.Env.{Env}
use cliros.Tracing.{carried, carrier_get, carrier_set, set_field, set_all, inject_trace_context}

-- Everything but the two trace fields.
pub record SameContent {A : Type 0} (m m' : Message A) : Type 0 where
  pub same_type : m'.message_type ≡ m.message_type
  pub same_step : m'.from_step ≡ m.from_step
  pub same_saga : m'.saga_id ≡ m.saga_id
  pub same_payload : m'.payload ≡ m.payload

module _ {A : Type 0} where
  -- On a carrier with a message, `Get` after `Set` gives the value that was set, for each of the
  -- two keys, and the other key reads as before.
  pub carrier_get-carrier_set :
      (m : Message A) (key other value : String)
      → key ≡ "traceparent"
      → other ≡ "tracestate"
      → (carrier_get (carrier_set (some m) key value) key ≡ value)
        × (carrier_get (carrier_set (some m) key value) other ≡ carrier_get (some m) other)
        × (carrier_get (carrier_set (some m) other value) other ≡ value)
        × (carrier_get (carrier_set (some m) other value) key ≡ carrier_get (some m) key)
  unfolding carrier_get carrier_set
  carrier_get-carrier_set m key other value k o = rw (k, o) (refl, refl, refl, refl)

  set_field-SameContent :
      (m m' : Message A) (key value : String)
      → SameContent m m'
      → SameContent m (set_field m' key value)
  unfolding set_field
  set_field-SameContent m m' key value h = ground arith

  set_all-SameContent :
      (m m' : Message A) (pairs : List (String × String))
      → SameContent m m'
      → SameContent m (carried m (set_all (some m') pairs))
  unfolding set_all
  set_all-SameContent m m' [] h = h
  set_all-SameContent m m' ((k, v) ∷ ps) h =
      set_all-SameContent m (set_field m' k v) ps (set_field-SameContent m m' k v h)

-- `InjectTraceContext` leaves the type, the origin, the saga id and the payload of the message as
-- they are, whatever pairs the propagator sets.
pub inject_trace_context-SameContent :
    (env : Env) (ctx : env.Ctx) (m : Message env.Any)
    → SameContent m (inject_trace_context env ctx m)
unfolding inject_trace_context
inject_trace_context-SameContent env ctx m =
    set_all-SameContent m m (env.inject_pairs ctx)
      (record { same_type = refl; same_step = refl; same_saga = refl; same_payload = refl })
