-- ===== src/Nats/Calls.antt =====
-- pubsub/nats/nats.go: any sequence of calls of the client's methods.
use cliros.Prelude.{
  String, ◌≡◌, refl, sym, subst, ap, ◌∙◌, true, false, Bool-cases, Option, none, some, List, [],
  ◌∷◌, inl, inr, Among, IsDistinct, str_eq_iff, arith,
}
use cliros.Errors.{Error, leaf}
use cliros.Effect.{Result, ok, err}
use cliros.Message.{Message}
use cliros.Env.{Env}
use cliros.Nats.{
  Nats, Handler, Client, has_topic, subscribed, on_message, publish, subscribe, close_subs, close,
}
use cliros.Nats.Closing.{
  topics, VisitsAll, IsDistinct-delete_all, delete_all-VisitsAll, Closes, close_subs-Closes,
}

module _ {env : Env} (nats : Nats env) where
  open env use {World, Ctx, Any}
  open nats use {Conn, Subscription, conn_subscribe}

  -- A call of a method that may change the client.
  pub data Call : Type 0 where
    publishing : Ctx → String → Message Any → Call
    subscribing : Ctx → String → Handler env → Call
    closing : List (String × Subscription) → Call

  abbrev pub call : Call → Client nats → World → Option Error × Client nats × World
  call (publishing ctx topic m) c w =
      let (failed, w') = publish nats c ctx topic m w in (failed, c, w')
  call (subscribing ctx topic handler) c w = subscribe nats c ctx topic handler w
  call (closing order) c w = close nats order c w

  -- `range` visits the whole map.
  abbrev pub IsCall : Call → Client nats → Type 0
  IsCall (publishing ctx topic m) c = Unit
  IsCall (subscribing ctx topic handler) c = Unit
  IsCall (closing order) c = VisitsAll nats order c.subs

  -- The clients that calls make of `first`, each in whatever state the world has then.
  pub data Uses (first : Client nats) : Client nats → Type 0 where
    unused : Uses first first
    after :
        {c : Client nats} (made : Call) (w : World)
        → IsCall made c
        → Uses first c
        → Uses first (call made c w).1

  -- The keys of a map, and none of them once the client is closed.
  pub record IsClient (c : Client nats) : Type 0 where
    pub keys : IsDistinct (topics nats c.subs)
    pub emptied : c.closed ≡ true → c.subs ≡ []

  not-has_topic :
      (topic : String) (subs : List (String × Subscription))
      → has_topic nats topic subs ≡ false
      → ¬ Among topic (topics nats subs)
  not-has_topic topic [] h there = there
  not-has_topic topic ((t, s) ∷ subs) h (inl e) = ground (arith, h, e, str_eq_iff t topic)
  not-has_topic topic ((t, s) ∷ subs) h (inr there) =
      not-has_topic topic subs (ground (arith, h)) there

  subscribed-IsClient :
      (c : Client nats) (topic : String) (reply : Result Subscription × World)
      → has_topic nats topic c.subs ≡ false
      → c.closed ≡ false
      → IsClient c
      → IsClient (subscribed nats c topic reply).1
  subscribed-IsClient c topic (err x, w) new opened h = h
  subscribed-IsClient c topic (ok s, w) new opened h = record {
    keys = (not-has_topic topic c.subs new, h.keys);
    emptied = λ shut. cc;
  }

  subscribe-IsClient :
      (c : Client nats) (ctx : Ctx) (topic : String) (handler : Handler env) (w : World)
      → IsClient c
      → IsClient (subscribe nats c ctx topic handler w).1
  unfolding subscribe
  subscribe-IsClient c ctx topic handler w h = elim (Bool-cases c.closed) [
    | inl shut ↦ simp shut h
    | inr opened ↦ elim (Bool-cases (has_topic nats topic c.subs)) [
      | inl there ↦ simp (opened, there) h
      | inr new ↦
          simp (opened, new)
            (subscribed-IsClient c topic (conn_subscribe c.conn topic (on_message nats handler) w)
              new opened h)
    ]
  ]

  Closes-IsClient :
      (order : List (String × Subscription)) (c c' : Client nats) (w w' : World)
      (failed : Option Error)
      → c.closed ≡ false
      → VisitsAll nats order c.subs
      → IsClient c
      → Closes nats order c w failed c' w'
      → IsClient c'
  Closes-IsClient order c c' w w' none opened all h (is, _) = subst IsClient (sym is) record {
    keys = IsDistinct-delete_all nats order c.subs h.keys;
    emptied = λ shut. delete_all-VisitsAll nats order c.subs all;
  }
  Closes-IsClient order c c' w w' (some x) opened all h (front, entry, back, split, is, _) =
      subst IsClient (sym is)
        record { keys = IsDistinct-delete_all nats front c.subs h.keys; emptied = λ shut. cc }

  close-IsClient :
      (order : List (String × Subscription)) (c : Client nats) (w : World)
      → VisitsAll nats order c.subs
      → IsClient c
      → IsClient (close nats order c w).1
  unfolding close
  close-IsClient order c w all h = elim (Bool-cases c.closed) [
    | inl shut ↦ simp shut h
    | inr opened ↦
        let run = close_subs nats order c w in
        simp opened (
          Closes-IsClient order c run.1 w run.2 run.0 opened all h
            (close_subs-Closes nats order c w))
  ]

  call-IsClient :
      (made : Call) (c : Client nats) (w : World)
      → IsCall made c
      → IsClient c
      → IsClient (call made c w).1
  call-IsClient (publishing ctx topic m) c w all h = h
  call-IsClient (subscribing ctx topic handler) c w all h =
      subscribe-IsClient c ctx topic handler w h
  call-IsClient (closing order) c w all h = close-IsClient order c w all h

  -- However the methods of a NATS client are called, each topic has at most one subscription and
  -- a closed client has none. The client had both properties, and the loop of each `Close` visits
  -- every topic of the map.
  pub Uses-IsClient : {first c : Client nats} → Uses first c → IsClient first → IsClient c
  Uses-IsClient unused h = h
  Uses-IsClient (after {c} made w all before) h =
      call-IsClient made c w all (Uses-IsClient before h)

  -- The answer of a closed client.
  abbrev pub refusal : Call → Option Error
  refusal (publishing ctx topic m) = some (leaf "client is closed")
  refusal (subscribing ctx topic handler) = some (leaf "client is closed")
  refusal (closing order) = none

  call-closed :
      (made : Call) (c : Client nats) (w : World)
      → c.closed ≡ true
      → call made c w ≡ (refusal made, c, w)
  unfolding publish subscribe close
  call-closed (publishing ctx topic m) c w shut = simp shut refl
  call-closed (subscribing ctx topic handler) c w shut = simp shut refl
  call-closed (closing order) c w shut = simp shut refl

  stays_closed : {first c : Client nats} → Uses first c → first.closed ≡ true → c ≡ first
  stays_closed unused shut = refl
  stays_closed (after {c} made w all before) shut =
      let same = stays_closed before shut in
      ap (λ (out : Option Error × Client nats × World). out.1)
        (call-closed made c w (subst (λ (k : Client nats). k.closed ≡ true) (sym same) shut))
      ∙ same

  -- After a NATS client has been closed, no call changes it or the world, whatever calls came
  -- before: `Publish` and `Subscribe` answer an error and `Close` answers nil.
  pub closed_for_good :
      {first c : Client nats} (made : Call) (w : World)
      → first.closed ≡ true
      → Uses first c
      → call made c w ≡ (refusal made, first, w)
  closed_for_good {first} {c} made w shut uses =
      subst (λ (k : Client nats). call made k w ≡ (refusal made, first, w))
        (sym (stays_closed uses shut)) (call-closed made first w shut)
