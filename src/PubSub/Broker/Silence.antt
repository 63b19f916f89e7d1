-- ===== src/PubSub/Broker/Silence.antt =====
-- A subscriber that has been closed receives nothing more, whatever the broker does.
use gocc.Prelude.{
  ℕ, zero, suc, ◌+◌, ◌≡◌, ◌∙◌, refl, ap, subst, Bool, true, List, [], ◌∷◌, ◌++◌, Option, none, some,
  drop, get_elem?, modify, at_some, get_elem?-modify_self, get_elem?-modify_ne, get_elem?-append_lt,
  arith, if_cases, ℕ_discrete,
}
use gocc.Prelude.Int.{ℤ}
use gocc.Prelude.Dict.{Dict, lookup}
use gocc.PubSub.Broker.{
  Message, Subscriber, Broker, rest_of, new_subscriber, close_subscriber, send, receive, send_at,
  deliver, close_all, close, subscribe_topic, unsubscribe_topic, subscribe_at, subscribe,
  unsubscribe_at, unsubscribe, fan_out, publish, or_empty, remove_at, remove_subscriber,
}

-- What the clients of a broker do.
pub data Event (S T P : Type 0) : Type 0 where
  makes : S → ℤ → Event S T P
  subscribes unsubscribes : ℕ → T → Event S T P
  publishes : T → P → Event S T P
  receives closes_subscriber removes : ℕ → Event S T P
  closes : Event S T P

module _ {S T P : Type 0} (dec : Discrete S) (dec_topic : Discrete T) where
  unfoldable pub step : Broker S T P → Event S T P → Broker S T P
  unfolding new_subscriber subscribe unsubscribe publish receive close_subscriber remove_subscriber
      close
  step b (makes id size) = record b { store = b.store ++ new_subscriber id size ∷ [] }
  step b (subscribes a topic) = subscribe dec dec_topic b a topic
  step b (unsubscribes a topic) = unsubscribe dec dec_topic b a topic
  step b (publishes topic payload) = (publish dec dec_topic b topic payload).0
  step b (receives a) = record b { store = modify b.store a receive }
  step b (closes_subscriber a) = record b { store = modify b.store a close_subscriber }
  step b (removes a) = remove_subscriber dec dec_topic b a
  step b closes = close b

  unfoldable pub run : Broker S T P → List (Event S T P) → Broker S T P
  unfolding step
  run b [] = b
  run b (e ∷ es) = run (step b e) es

rest_of-drop : {A : Type 0} (n : ℕ) (xs : List A) → rest_of (drop n xs) ≡ drop (suc n) xs
rest_of-drop zero [] = refl
rest_of-drop zero (x ∷ xs) = refl
rest_of-drop (suc n) [] = refl
rest_of-drop (suc n) (x ∷ xs) = rest_of-drop n xs

module _ {S T P : Type 0} (a : ℕ) (ms : List (Message T P)) where
  -- Closed, with nothing in its channel but a rest of `ms`.
  Quiet : Subscriber S T P → Type 0
  Quiet s = (s.closed ≡ true) × ((n : ℕ) × (s.messages ≡ drop n ms))

  Holds : List (Subscriber S T P) → Type 0
  Holds store = (s : Subscriber S T P) × (get_elem? store a ≡ some s) × Quiet s

  modify-Holds :
      (store : List (Subscriber S T P)) (c : ℕ) (f : Subscriber S T P → Subscriber S T P)
      → ((s : Subscriber S T P) → Quiet s → Quiet (f s))
      → Holds store
      → Holds (modify store c f)
  unfolding Holds
  modify-Holds store c f keep (s, here, quiet) = elim (ℕ_discrete c a) [
    | yes e ↦ (
      f s,
      subst (λ i. get_elem? (modify store c f) i ≡ some (f s)) e
          (get_elem?-modify_self store c f ∙ ap (at_some f) (ap (get_elem? store) e ∙ here)),
      keep s quiet,
    )
    | no ne ↦ (s, get_elem?-modify_ne store c a f ne ∙ here, quiet)
  ]

  close-Quiet : (s : Subscriber S T P) → Quiet s → Quiet (close_subscriber s)
  unfolding close_subscriber Quiet
  close-Quiet s (c, e) = if_cases Quiet s.closed _ _ (λ _. (c, e)) (λ _. (refl, e))

  send-Quiet : (msg : Message T P) (s : Subscriber S T P) → Quiet s → Quiet (send msg s).0
  unfolding send Quiet
  send-Quiet msg s (c, e) =
      if_cases (λ (x : Subscriber S T P × Bool). Quiet x.0) s.closed _ _ (λ _. (c, e))
        (λ f. absurd (ground (arith, c, f)))

  receive-Quiet : (s : Subscriber S T P) → Quiet s → Quiet (receive s)
  unfolding receive Quiet
  receive-Quiet s (c, (n, e)) = (c, (suc n, ap rest_of e ∙ rest_of-drop n ms))

  deliver-Holds :
      (msg : Message T P) (store : List (Subscriber S T P)) (o : Option ℕ)
      → Holds store
      → Holds (deliver msg store o).0
  unfolding deliver
  deliver-Holds msg store none h = h
  deliver-Holds msg store (some c) h = go (get_elem? store c)
    where
      go : (o : Option (Subscriber S T P)) → Holds (send_at msg c store o).0
      go none = h
      go (some s) = modify-Holds store c (λ u. (send msg u).0) (send-Quiet msg) h

  close_all-Holds :
      (m : Dict S ℕ) (store : List (Subscriber S T P)) → Holds store → Holds (close_all m store)
  unfolding close_all
  close_all-Holds [] store h = h
  close_all-Holds ((id, c) ∷ m) store h =
      close_all-Holds m (modify store c close_subscriber)
        (modify-Holds store c close_subscriber close-Quiet h)

  module _ (dec : Discrete S) (dec_topic : Discrete T) where
    fan_out-Holds :
        (subs : Dict S ℕ) (msg : Message T P) (ids : List S) (store : List (Subscriber S T P))
        (d : ℕ)
        → Holds store
        → Holds (fan_out dec dec_topic subs msg ids store d).0
    unfolding fan_out
    fan_out-Holds subs msg [] store d h = h
    fan_out-Holds subs msg (id ∷ ids) store d h =
        let x = deliver msg store (lookup dec id subs) in
        fan_out-Holds subs msg ids x.0 (d + x.1) (deliver-Holds msg store (lookup dec id subs) h)

    at-Holds :
        (b : Broker S T P) (c : ℕ) (topic : T) (o : Option (Subscriber S T P))
        → Holds b.store
        → Holds (subscribe_at dec dec_topic b c topic o).store
          × Holds (unsubscribe_at dec dec_topic b c topic o).store
    unfolding subscribe_at unsubscribe_at subscribe_topic unsubscribe_topic Quiet
    at-Holds b c topic none h = (h, h)
    at-Holds b c topic (some s) h = (
      modify-Holds b.store c (subscribe_topic dec dec_topic topic) (λ _ q. q) h,
      modify-Holds b.store c (unsubscribe_topic dec dec_topic topic) (λ _ q. q) h,
    )

    remove-Holds :
        (b : Broker S T P) (c : ℕ) (o : Option (Subscriber S T P))
        → Holds b.store
        → Holds (remove_at dec dec_topic b c o).store
    unfolding remove_at
    remove-Holds b c none h = h
    remove-Holds b c (some s) h = modify-Holds b.store c close_subscriber close-Quiet h

    step-Holds :
        (b : Broker S T P) (e : Event S T P) → Holds b.store → Holds (step dec dec_topic b e).store
    unfolding step subscribe unsubscribe publish remove_subscriber close Holds
    step-Holds b (makes id size) (s, here, quiet) =
        (s, get_elem?-append_lt b.store _ a s here, quiet)
    step-Holds b (subscribes c topic) h = (at-Holds b c topic (get_elem? b.store c) h).0
    step-Holds b (unsubscribes c topic) h = (at-Holds b c topic (get_elem? b.store c) h).1
    step-Holds b (publishes topic payload) h =
        if_cases (λ (x : Broker S T P × ℕ). Holds x.0.store) b.closed _ _ (λ _. h)
          (λ _.
            fan_out-Holds b.subscribers _ (or_empty (lookup dec_topic topic b.topics)) b.store 0 h)
    step-Holds b (receives c) h = modify-Holds b.store c receive receive-Quiet h
    step-Holds b (closes_subscriber c) h = modify-Holds b.store c close_subscriber close-Quiet h
    step-Holds b (removes c) h = remove-Holds b c (get_elem? b.store c) h
    step-Holds b closes h = close_all-Holds b.subscribers b.store h

    run-Holds :
        (es : List (Event S T P)) (b : Broker S T P)
        → Holds b.store
        → Holds (run dec dec_topic b es).store
    unfolding run
    run-Holds [] b h = h
    run-Holds (e ∷ es) b h = run-Holds es (step dec dec_topic b e) (step-Holds b e h)

module _ {S T P : Type 0} (dec : Discrete S) (dec_topic : Discrete T) where
  -- After RemoveSubscriber, whatever the clients of the broker do, the removed subscriber stays closed
  -- and its channel holds nothing but what is left of the messages that were in it.
  pub removed-silent :
      (b : Broker S T P) (a : ℕ) (s : Subscriber S T P) (es : List (Event S T P))
      → get_elem? b.store a ≡ some s
      → (s' : Subscriber S T P) × (n : ℕ) × (get_elem?
            (run dec dec_topic (remove_subscriber dec dec_topic b a) es).store
            a
          ≡ some s')
        × (s'.closed ≡ true)
        × (s'.messages ≡ drop n s.messages)
  unfolding remove_subscriber remove_at Holds Quiet
  removed-silent b a s es here =
      let b' = remove_subscriber dec dec_topic b a in
      let (s', at, (c, (n, e))) =
        run-Holds a s.messages dec dec_topic es b'
          (close_subscriber s, closing (get_elem? b.store a) refl, (closed_now s, (0, kept s))) in
      (s', n, at, c, e)
    where
      closing :
          (o : Option (Subscriber S T P))
          → get_elem? b.store a ≡ o
          → get_elem? (remove_at dec dec_topic b a o).store a ≡ some (close_subscriber s)
      closing none e = ground (arith, e, here)
      closing (some t) e =
          get_elem?-modify_self b.store a close_subscriber ∙ ap (at_some close_subscriber) here

      closed_now : (s : Subscriber S T P) → (close_subscriber s).closed ≡ true
      closed_now s =
          if_cases (λ (u : Subscriber S T P). u.closed ≡ true) s.closed _ _ (λ c. c) (λ _. refl)

      kept : (s : Subscriber S T P) → (close_subscriber s).messages ≡ s.messages
      kept s =
          if_cases (λ (u : Subscriber S T P). u.messages ≡ s.messages) s.closed _ _ (λ _. refl)
            (λ _. refl)
