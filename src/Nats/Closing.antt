-- ===== src/Nats/Closing.antt =====
-- pubsub/nats/nats.go: what `Close` leaves of the client.
use Prim.Native.String.{◌++◌ as ◌++ₛ◌}
use cliros.Prelude.{
  String, ◌≡◌, refl, subst, ap, ◌∙◌, Bool, true, false, Bool-cases, Option-cases, Option, none,
  some, List, [], ◌∷◌, ◌++◌, map, inl, inr, Among, IsDistinct, str_eq, str_eq_iff, arith,
  if◌then◌else◌,
}
use cliros.Errors.{Error, wrap}
use cliros.Env.{Env}
use cliros.Nats.{Nats, Client, delete, close_subs, close}

module _ {env : Env} (nats : Nats env) where
  open env use {World}
  open nats use {Conn, Subscription, unsubscribe, conn_close}

  abbrev pub topics : List (String × Subscription) → List String
  topics = map (λ entry. entry.0)

  -- `range` visits each entry of the map.
  abbrev pub VisitsAll : List (String × Subscription) → List (String × Subscription) → Type 0
  VisitsAll order subs = (topic : String) → Among topic (topics subs) → Among topic (topics order)

  delete-Among :
      (topic t : String) (subs : List (String × Subscription))
      → Among t (topics (delete nats topic subs))
      → Among t (topics subs) × ¬ (t ≡ topic)
  delete-Among topic t [] h = absurd h
  delete-Among topic t ((u, s) ∷ subs) h =
      let found = λ (b : Bool).
        Among t (topics (if b then delete nats topic subs else (u, s) ∷ delete nats topic subs)) in
      elim (Bool-cases (str_eq u topic)) [
        | inl e ↦
            let (there, other) = delete-Among topic t subs (subst found e h) in (inr there, other)
        | inr e ↦ elim (subst found e h) [
          | inl same ↦ (inl same, λ is. ground (arith, e, same, is, str_eq_iff u topic))
          | inr more ↦ let (there, other) = delete-Among topic t subs more in (inr there, other)
        ]
      ]

  IsDistinct-delete :
      (topic : String) (subs : List (String × Subscription))
      → IsDistinct (topics subs)
      → IsDistinct (topics (delete nats topic subs))
  IsDistinct-delete topic [] h = tt
  IsDistinct-delete topic ((u, s) ∷ subs) h = elim (Bool-cases (str_eq u topic)) [
    | inl e ↦ simp e (IsDistinct-delete topic subs h.1)
    | inr e ↦
        simp e
          ((λ there. h.0 (delete-Among topic u subs there).0, IsDistinct-delete topic subs h.1))
  ]

  -- The map without the topics of the entries.
  abbrev pub delete_all :
      List (String × Subscription) → List (String × Subscription) → List (String × Subscription)
  delete_all [] subs = subs
  delete_all ((topic, sub) ∷ order) subs = delete_all order (delete nats topic subs)

  pub IsDistinct-delete_all :
      (order subs : List (String × Subscription))
      → IsDistinct (topics subs)
      → IsDistinct (topics (delete_all order subs))
  IsDistinct-delete_all [] subs h = h
  IsDistinct-delete_all ((topic, sub) ∷ order) subs h =
      IsDistinct-delete_all order (delete nats topic subs) (IsDistinct-delete topic subs h)

  pub delete_all-Among :
      (order subs : List (String × Subscription)) (t : String)
      → Among t (topics (delete_all order subs))
      → Among t (topics subs) × ¬ Among t (topics order)
  delete_all-Among [] subs t h = (h, λ there. there)
  delete_all-Among ((topic, sub) ∷ order) subs t h =
      let (there, not_later) = delete_all-Among order (delete nats topic subs) t h in
      let (first, other) = delete-Among topic t subs there in
      (first, λ visited. elim visited [ inl e ↦ other e | inr later ↦ not_later later ])

  no_topics :
      (subs : List (String × Subscription)) → ((t : String) → ¬ Among t (topics subs)) → subs ≡ []
  no_topics [] h = refl
  no_topics ((t, s) ∷ subs) h = absurd (h t (inl refl))

  pub delete_all-VisitsAll :
      (order subs : List (String × Subscription))
      → VisitsAll order subs
      → delete_all order subs ≡ []
  delete_all-VisitsAll order subs all =
      no_topics (delete_all order subs) λ t h.
        let (there, not_visited) = delete_all-Among order subs t h in not_visited (all t there)

  -- The subscriptions of the entries have been ended, in order.
  abbrev pub Unsubscribes : List (String × Subscription) → World → World → Type 0
  Unsubscribes [] w w' = w' ≡ w
  Unsubscribes ((topic, sub) ∷ order) w w' =
      ((unsubscribe sub w).0 ≡ none) × Unsubscribes order (unsubscribe sub w).1 w'

  -- The subscription could not be ended, and `x` wraps the error.
  abbrev pub Refuses : String × Subscription → Error → World → World → Type 0
  Refuses (topic, sub) x w w' =
      (y : Error) × (unsubscribe sub w ≡ (some y, w'))
      × (x ≡ wrap ("failed to unsubscribe from topic " ++ₛ topic) y)

  -- The client after the loop: all the entries were ended and are gone, the connection was closed
  -- and so is the client; or the loop stopped at an entry that could not be ended, and exactly the
  -- entries before it were ended and are gone.
  abbrev pub Closes :
      List (String × Subscription)
      → Client nats
      → World
      → Option Error
      → Client nats
      → World
      → Type 0
  Closes order c w none c' w' =
      (c' ≡ record c { subs = delete_all order c.subs; closed = true })
      × ((w₁ : World) × Unsubscribes order w w₁ × (w' ≡ conn_close c.conn w₁))
  Closes order c w (some x) c' w' =
      (front : List (String × Subscription)) × (entry : String × Subscription) × (back : List
        (String × Subscription))
      × (order ≡ front ++ (entry ∷ back))
      × (c' ≡ record c { subs = delete_all front c.subs })
      × ((w₁ : World) × Unsubscribes front w w₁ × Refuses entry x w₁ w')

  Closes-later :
      (entry : String × Subscription) (order : List (String × Subscription)) (c c' : Client nats)
      (w w' : World) (failed : Option Error)
      → (unsubscribe entry.1 w).0 ≡ none
      → Closes order
          (record c { subs = delete nats entry.0 c.subs })
          (unsubscribe entry.1 w).1
          failed
          c'
          w'
      → Closes (entry ∷ order) c w failed c' w'
  Closes-later entry order c c' w w' none ended (is, (w₁, before, shut)) =
      (is, (w₁, (ended, before), shut))
  Closes-later entry order c c' w w' (some x) ended
        (front, at, back, split, is, (w₁, before, last)) =
      (entry ∷ front, at, back, ap (λ l. entry ∷ l) split, is, (w₁, (ended, before), last))

  pub close_subs-Closes :
      (order : List (String × Subscription)) (c : Client nats) (w : World)
      → let (failed, c', w') = close_subs nats order c w in Closes order c w failed c' w'
  unfolding close_subs
  close_subs-Closes [] c w = (refl, (w, refl, refl))
  close_subs-Closes ((topic, sub) ∷ order) c w = elim (Option-cases (unsubscribe sub w).0) [
    | inl e ↦
        let c₁ = record c { subs = delete nats topic c.subs } in
        let run = close_subs nats order c₁ (unsubscribe sub w).1 in
        let rest = close_subs-Closes order c₁ (unsubscribe sub w).1 in
        rw (close_subs, e) (Closes-later (topic, sub) order c run.1 w run.2 run.0 e rest)
    | inr (x, e) ↦
        let refused : unsubscribe sub w ≡ (some x, (unsubscribe sub w).1) =
          ap (λ (o : Option Error). (o, (unsubscribe sub w).1)) e in
        rw (close_subs, e) ([], (topic, sub), order, refl, refl, (w, refl, (x, refused, refl)))
  ]

  -- What `Close` leaves of an open client: nothing but the closed flag, each of the subscriptions
  -- ended and then the connection closed; or an open client with some of its subscriptions, the
  -- one whose end failed with the error of the answer among them, and those before it ended.
  abbrev pub Leaves :
      List (String × Subscription)
      → Client nats
      → World
      → Option Error
      → Client nats
      → World
      → Type 0
  Leaves order c w none c' w' =
      (c' ≡ record c { subs = []; closed = true })
      × ((w₁ : World) × Unsubscribes order w w₁ × (w' ≡ conn_close c.conn w₁))
  Leaves order c w (some x) c' w' =
      (c'.closed ≡ false)
      × (c'.conn ≡ c.conn)
      × (front : List (String × Subscription)) × (entry : String × Subscription) × (back : List
          (String × Subscription))
      × (order ≡ front ++ (entry ∷ back))
      × (c'.subs ≡ delete_all front c.subs)
      × ((w₁ : World) × Unsubscribes front w w₁ × Refuses entry x w₁ w')

  Closes-Leaves :
      (order : List (String × Subscription)) (c c' : Client nats) (w w' : World)
      (failed : Option Error)
      → c.closed ≡ false
      → VisitsAll order c.subs
      → Closes order c w failed c' w'
      → Leaves order c w failed c' w'
  Closes-Leaves order c c' w w' none opened all (is, ended) = (
    is ∙ ap (λ l. record c { subs = l; closed = true }) (delete_all-VisitsAll order c.subs all),
    ended,
  )
  Closes-Leaves order c c' w w' (some x) opened all (front, entry, back, split, is, ended) = (
    ap (λ (k : Client nats). k.closed) is ∙ opened,
    ap (λ (k : Client nats). k.conn) is,
    front,
    entry,
    back,
    split,
    ap (λ (k : Client nats). k.subs) is,
    ended,
  )

  -- `Close` of an open NATS client either ends every subscription, in the order of the loop, then
  -- closes the connection and answers nil, and the client is closed and has no subscriptions; or
  -- it stops at the first subscription that cannot be ended and answers the error of that: then
  -- those before it have been ended, the client is open, has the same connection, and has lost
  -- exactly the topics that the loop visited before, so that it can be called again. The loop
  -- visits every topic of the map.
  pub close-Leaves :
      (order : List (String × Subscription)) (c : Client nats) (w : World)
      → c.closed ≡ false
      → VisitsAll order c.subs
      → let (failed, c', w') = close nats order c w in Leaves order c w failed c' w'
  unfolding close
  close-Leaves order c w opened all =
      let run = close_subs nats order c w in
      simp opened
        (Closes-Leaves order c run.1 w run.2 run.0 opened all (close_subs-Closes order c w))
