-- ===== src/Outbox/Polling.antt =====
-- internal/outbox/reader.go: the loop of `polling`.
use cliros.Prelude.{◌≡◌, refl, sym, ap, ◌∙◌, Option, none, some, List, [], ◌∷◌, length}
use cliros.Env.{Env}
use cliros.Outbox.Reader.{Reader, tick, polling}
use cliros.Outbox.Scan.{HasRoom, RespectsLimit, tick-HasRoom}

module _ (env : Env) (ctx : env.Ctx) where
  open env use {World}

  -- The goroutine has not panicked, and the buffer has the size of the first one.
  abbrev Survives : Reader env → Option (Reader env) → Type 0
  Survives first o = (r : Reader env) × (o ≡ some r) × (length r.buffer ≡ length first.buffer)

  pub polling-next :
      (r r' : Reader env) (pause : World → World) (pauses : List (World → World)) (w w' : World)
      → tick env r ctx (pause w) ≡ (some r', w')
      → polling env r ctx (pause ∷ pauses) w ≡ polling env r' ctx pauses w'
  unfolding polling
  polling-next r r' pause pauses w w' e =
      ap
        (λ (out : Option (Reader env) × World). elim out.0 as (λ _. Option (Reader env) × World) [
          | none ↦ (none, out.1)
          | some next ↦ polling env next ctx pauses out.1
        ])
        e

  pub polling-HasRoom :
      ((r : Reader env) (w : World) → RespectsLimit env r ctx w)
      → (pauses : List (World → World)) (r : Reader env) (w : World) → HasRoom env r
      → Survives r (polling env r ctx pauses w).0
  unfolding polling
  polling-HasRoom limit [] r w room = (r, refl, refl)
  polling-HasRoom limit (pause ∷ pauses) r w room =
      let (buffer, error, ticked, stays) =
        tick-HasRoom env r ctx (pause w) room (limit r (pause w)) in
      let next = record r { buffer = buffer } in
      let rest = polling-HasRoom limit pauses next (tick env r ctx (pause w)).1 stays in
      (
        rest.0,
        ap (λ (out : Option (Reader env) × World). out.0)
              (polling-next r next pause pauses w (tick env r ctx (pause w)).1 (rw ticked refl))
            ∙ rest.1,
        rest.2 ∙ stays ∙ sym room,
      )
