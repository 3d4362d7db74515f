-- ===== src/Nats/Transport.antt =====
-- pubsub/nats/nats.go with controller/controller.go: a message on its way from `Publish` to the
-- handler of a step.
use cliros.Prelude.{String, ◌≡◌, refl, subst, Option, none, some, inl, inr, ◌⊎◌, Bool-cases}
use cliros.Errors.{Error}
use cliros.Effect.{Result, ok, err}
use cliros.Effect.Rules.{Result-cases}
use cliros.Message.{Message}
use cliros.Env.{Env}
use cliros.Store.{Postgres}
use cliros.Step.{Step}
use cliros.Controller.{Controller, receive}
use cliros.Controller.Deliveries.{IsServed, Delivers, receive-Delivers}
use cliros.Nats.{Nats, Handler, Client, publish, publish_data, sent, on_message, subscribe}

module _ {env : Env} (nats : Nats env) where
  open env use {World, Ctx, Any, Bytes}
  open nats use {background, conn_publish, marshal, unmarshal}

  -- `Register` of a controller whose broker is the client.
  unfoldable pub register :
      Controller env → Client nats → String → Step env → World → Option Error × Client nats × World
  unfolding subscribe receive
  register c client topic stp w = subscribe nats client background topic (receive env c stp) w

  -- The connection sent bytes that the callback of `Subscribe` reads as the message.
  abbrev pub Transports :
      Client nats → String → Message Any → Handler env → World → Option Error → World → Type 0
  Transports client topic m handler w none w' =
      (bytes : Bytes) × (marshal m ≡ ok bytes)
      × (conn_publish client.conn topic bytes w ≡ (none, w'))
      × ((w₁ : World) → on_message nats handler bytes w₁ ≡ (handler background m w₁).1)
  Transports client topic m handler w (some x) w' = Unit

  sent-Transports :
      (client : Client nats) (topic : String) (m : Message Any) (handler : Handler env) (w : World)
      (bytes : Bytes) (reply : Option Error × World)
      → marshal m ≡ ok bytes
      → unmarshal bytes ≡ ok m
      → conn_publish client.conn topic bytes w ≡ reply
      → let (failed, w') = sent nats reply in Transports client topic m handler w failed w'
  unfolding on_message
  sent-Transports client topic m handler w bytes (none, w') written read is =
      (bytes, written, is, λ w₁. simp read refl)
  sent-Transports client topic m handler w bytes (some x, w') written read is = tt

  publish_data-Transports :
      (client : Client nats) (topic : String) (m : Message Any) (handler : Handler env)
      (encoded : Result Bytes) (w : World)
      → marshal m ≡ encoded
      → ((bytes : Bytes) → marshal m ≡ ok bytes → unmarshal bytes ≡ ok m)
      → let (failed, w') = publish_data nats client.conn topic encoded w in
        Transports client topic m handler w failed w'
  publish_data-Transports client topic m handler (err x) w is decodes = tt
  publish_data-Transports client topic m handler (ok bytes) w is decodes =
      sent-Transports client topic m handler w bytes (conn_publish client.conn topic bytes w) is
        (decodes bytes is) refl

  publish-Transports :
      (client : Client nats) (ctx : Ctx) (topic : String) (m : Message Any) (handler : Handler env)
      (w : World)
      → ((bytes : Bytes) → marshal m ≡ ok bytes → unmarshal bytes ≡ ok m)
      → let (failed, w') = publish nats client ctx topic m w in
        Transports client topic m handler w failed w'
  unfolding publish
  publish-Transports client ctx topic m handler w decodes = elim (Bool-cases client.closed) [
    | inl shut ↦ simp shut tt
    | inr opened ↦
        simp opened (publish_data-Transports client topic m handler (marshal m) w refl decodes)
  ]

  -- Where `Publish` of a NATS client succeeds, the bytes that it has handed to the connection
  -- make the callback of a subscription run its handler on that message, with the background
  -- context. JSON decodes the bytes of the message to it.
  pub on_message-publish :
      (client : Client nats) (ctx : Ctx) (topic : String) (m : Message Any) (handler : Handler env)
      (w w' : World)
      → ((bytes : Bytes) → marshal m ≡ ok bytes → unmarshal bytes ≡ ok m)
      → publish nats client ctx topic m w ≡ (none, w')
      → (bytes : Bytes) × (conn_publish client.conn topic bytes w ≡ (none, w'))
        × ((w₁ : World) → on_message nats handler bytes w₁ ≡ (handler background m w₁).1)
  on_message-publish client ctx topic m handler w w' decodes e =
      let (bytes, _, called, handled) =
        subst (λ (out : Option Error × World). Transports client topic m handler w out.0 out.1) e
          (publish-Transports client ctx topic m handler w decodes) in
      (bytes, called, handled)

  -- What the callback does to the tables, with a controller's handler.
  abbrev pub Received : Postgres env → Controller env → Step env → Bytes → World → World → Type 0
  Received pg c stp bytes w w' =
      ((x : Error) × (unmarshal bytes ≡ err x) × (w' ≡ w))
      ⊎ ((m : Message Any) × (unmarshal bytes ≡ ok m)
          × Delivers pg c stp m (pg.committed w) (pg.committed w')
              (receive env c stp background m w).0)

  -- What the callback of a NATS subscription does with a controller's handler: bytes that do not
  -- decode to a message change nothing, and bytes that do make a `Delivers` step from the
  -- committed tables, with that message and the answer of the handler to it. The message that the
  -- bytes hold meets the conditions of the record `IsServed`.
  pub on_message-Delivers :
      (pg : Postgres env) (c : Controller env) (stp : Step env) (bytes : Bytes) (w : World)
      → ((m : Message Any) → unmarshal bytes ≡ ok m → IsServed pg c stp m)
      → Received pg c stp bytes w (on_message nats (receive env c stp) bytes w)
  unfolding on_message
  on_message-Delivers pg c stp bytes w served = elim (Result-cases (unmarshal bytes)) [
    | inl (m, e) ↦
        rw (on_message, e) (inr (m, refl, receive-Delivers pg c stp background m w (served m e)))
    | inr (x, e) ↦ rw (on_message, e) (inl (x, refl, refl))
  ]
