-- ===== src/PubSub/Broker/Leaving.antt =====
-- What a subscriber still receives after it has left a topic or the broker.
use Prim.Native.Nat.{min}
use gocc.Prelude.{
  ℕ, suc, ◌+◌, ◌-◌, ◌≤◌, ◌<◌, ◌≡◌, ◌⊎◌, ◌∙◌, refl, sym, ap, subst, false, List, [], ◌∷◌, ◌++◌,
  Option, none, some, is_yes, length, replicate, get_elem?, at_some, get_elem?-modify_self, arith,
  if_cases, inl, inr,
}
use gocc.Prelude.Dict.{Dict, lookup, lookup-insert_self, lookup-delete_self}
use gocc.PubSub.Broker.{
  Message, Subscriber, Broker, publish, or_empty, or_false, registered, remove_first, remove_topic,
  subscribe_topic, unsubscribe_topic, is_subscribed, subscribe_at, subscribe, unsubscribe_at,
  unsubscribe,
}
use gocc.PubSub.Broker.Publishing.{stands_for, occurrences, filled, fill, publish-fill}

module _ {S : Type 0} (dec : Discrete S) (a : ℕ) (subs : Dict S ℕ) where
  occurrences-append :
      (xs ys : List S)
      → occurrences dec a subs (xs ++ ys) ≡ occurrences dec a subs xs + occurrences dec a subs ys
  unfolding occurrences
  occurrences-append [] ys = omega arith
  occurrences-append (x ∷ xs) ys = omega (arith, occurrences-append xs ys)

  -- At most one of them goes.
  occurrences-remove_first :
      (id : S) (ids : List S)
      → occurrences dec a subs ids ≤ suc (occurrences dec a subs (remove_first dec id ids))
  unfolding occurrences remove_first
  occurrences-remove_first id [] = omega arith
  occurrences-remove_first id (j ∷ ids) =
      let one : stands_for a (lookup dec j subs) ≤ 1 = stands_for_le (lookup dec j subs) in
      if_cases
        (λ (l : List S).
          stands_for a (lookup dec j subs) + occurrences dec a subs ids
          ≤ suc (occurrences dec a subs l))
        (is_yes (dec j id)) _ _ (λ _. omega (arith, one))
        (λ _. omega (arith, occurrences-remove_first id ids))
    where
      stands_for_le : (o : Option ℕ) → stands_for a o ≤ 1
      stands_for_le none = omega arith
      stands_for_le (some c) = ground arith

  -- A list that names the subscriber twice more names it after one removal.
  still_named :
      (id : S) (ids : List S)
      → lookup dec id subs ≡ some a
      → 0 < occurrences dec a subs (remove_first dec id ((ids ++ id ∷ []) ++ id ∷ []))
  unfolding occurrences
  still_named id ids own =
      let one : stands_for a (lookup dec id subs) ≡ 1 = ap (stands_for a) own ∙ ground arith in
      omega (
        arith,
        one,
        occurrences-remove_first id ((ids ++ id ∷ []) ++ id ∷ []),
        occurrences-append (ids ++ id ∷ []) (id ∷ []),
        occurrences-append ids (id ∷ []),
      )

module _ {S T P : Type 0} (dec : Discrete S) (dec_topic : Discrete T) (a : ℕ) (topic : T) where
  -- The subscriber `s` at `a`, under its own identifier, and the topic's list.
  record Stands (b : Broker S T P) (s : Subscriber S T P) (ids : List S) : Type 0 where
    unclosed : b.closed ≡ false
    here : get_elem? b.store a ≡ some s
    own : lookup dec s.id b.subscribers ≡ some a
    listed : or_empty (lookup dec_topic topic b.topics) ≡ ids

  subscribe-Stands :
      (b : Broker S T P) (s : Subscriber S T P)
      → b.closed ≡ false
      → get_elem? b.store a ≡ some s
      → (lookup dec s.id b.subscribers ≡ none) ⊎ (lookup dec s.id b.subscribers ≡ some a)
      → Stands
          (subscribe dec dec_topic b a topic)
          (subscribe_topic dec dec_topic topic s)
          (or_empty (lookup dec_topic topic b.topics) ++ s.id ∷ [])
  unfolding subscribe subscribe_at subscribe_topic
  subscribe-Stands b s unclosed here known =
      subst
        (λ b'.
          Stands b' (subscribe_topic dec dec_topic topic s)
            (or_empty (lookup dec_topic topic b.topics) ++ s.id ∷ []))
        (sym (ap (subscribe_at dec dec_topic b a topic) here))
        (record {
          unclosed = unclosed;
          here =
              get_elem?-modify_self b.store a (subscribe_topic dec dec_topic topic)
              ∙ ap (at_some (subscribe_topic dec dec_topic topic)) here;
          own = registers known;
          listed = ap or_empty (lookup-insert_self dec_topic topic _ b.topics);
        })
    where
      registers :
          (lookup dec s.id b.subscribers ≡ none) ⊎ (lookup dec s.id b.subscribers ≡ some a)
          → lookup dec s.id (registered dec a s.id b.subscribers (lookup dec s.id b.subscribers))
            ≡ some a
      registers (inl e) =
          ap (λ o. lookup dec s.id (registered dec a s.id b.subscribers o)) e
          ∙ lookup-insert_self dec s.id a b.subscribers
      registers (inr e) = ap (λ o. lookup dec s.id (registered dec a s.id b.subscribers o)) e ∙ e

  unsubscribe-Stands :
      (b : Broker S T P) (s : Subscriber S T P) (ids : List S)
      → Stands b s ids
      → Stands
          (unsubscribe dec dec_topic b a topic)
          (unsubscribe_topic dec dec_topic topic s)
          (remove_first dec s.id ids)
  unfolding unsubscribe unsubscribe_at unsubscribe_topic remove_topic remove_first
  unsubscribe-Stands b s ids h =
      subst (λ b'. Stands b' (unsubscribe_topic dec dec_topic topic s) (remove_first dec s.id ids))
        (sym (ap (unsubscribe_at dec dec_topic b a topic) h.here))
        (record {
          unclosed = h.unclosed;
          here =
              get_elem?-modify_self b.store a (unsubscribe_topic dec dec_topic topic)
              ∙ ap (at_some (unsubscribe_topic dec dec_topic topic)) h.here;
          own = h.own;
          listed =
              removes (lookup dec_topic topic b.topics) refl ∙ ap (remove_first dec s.id) h.listed;
        })
    where
      removes :
          (o : Option (List S))
          → lookup dec_topic topic b.topics ≡ o
          → or_empty (lookup dec_topic topic (remove_topic dec dec_topic topic s.id b.topics o))
            ≡ remove_first dec s.id (or_empty o)
      removes none e = ap or_empty e
      removes (some l) e = ap or_empty (lookup-insert_self dec_topic topic _ b.topics)

  unsubscribed :
      (s : Subscriber S T P)
      → is_subscribed dec dec_topic (unsubscribe_topic dec dec_topic topic s) topic ≡ false
  unfolding is_subscribed unsubscribe_topic
  unsubscribed s = ap (or_false) (lookup-delete_self dec_topic topic s.topics)

  -- A copy goes to an open subscriber with room that its topic's list names.
  Stands-receives :
      (b : Broker S T P) (s : Subscriber S T P) (ids : List S) (payload : P)
      → Stands b s ids
      → s.closed ≡ false
      → length s.messages < s.capacity
      → 0 < occurrences dec a b.subscribers ids
      → (n : ℕ) × (0 < n)
        × (get_elem? (publish dec dec_topic b topic payload).0.store a
            ≡ some (record s {
              messages = s.messages ++ replicate n (record { topic = topic; payload = payload });
            }))
  unfolding fill
  Stands-receives b s ids payload h open_sub room named =
      let msg : Message T P = record { topic = topic; payload = payload } in
      let occ = occurrences dec a b.subscribers (or_empty (lookup dec_topic topic b.topics)) in
      let same : occ ≡ occurrences dec a b.subscribers ids =
        ap (occurrences dec a b.subscribers) h.listed in
      let (each, grown) = publish-fill dec dec_topic b topic payload h.unclosed in
      (
        min occ (s.capacity - length s.messages),
        omega (arith, same, named, room),
        each a ∙ ap (at_some (fill msg occ)) h.here ∙ ap (λ c. some (filled msg occ s c)) open_sub,
      )

  -- A subscriber that subscribes twice to a topic and then unsubscribes from it is not subscribed any
  -- more, and still receives: if the broker and the subscriber are open, its channel has room and no
  -- other subscriber is registered under its identifier, then the next message published on the topic
  -- goes into its channel, at least once.
  pub resubscribed-receives :
      (b : Broker S T P) (s : Subscriber S T P) (payload : P)
      → b.closed ≡ false
      → get_elem? b.store a ≡ some s
      → (lookup dec s.id b.subscribers ≡ none) ⊎ (lookup dec s.id b.subscribers ≡ some a)
      → s.closed ≡ false
      → length s.messages < s.capacity
      → (s' : Subscriber S T P) × (n : ℕ) × (get_elem?
            (unsubscribe dec dec_topic
              (subscribe dec dec_topic (subscribe dec dec_topic b a topic) a topic)
              a
              topic).store
            a
          ≡ some s')
        × (is_subscribed dec dec_topic s' topic ≡ false)
        × (0 < n)
        × (get_elem?
              (publish dec dec_topic
                (unsubscribe dec dec_topic
                  (subscribe dec dec_topic (subscribe dec dec_topic b a topic) a topic)
                  a
                  topic)
                topic
                payload).0.store
              a
            ≡ some (record s' {
              messages = s.messages ++ replicate n (record { topic = topic; payload = payload });
            }))
  unfolding subscribe_topic unsubscribe_topic
  resubscribed-receives b s payload unclosed here known open_sub room =
      let h1 = subscribe-Stands b s unclosed here known in
      let h2 =
        subscribe-Stands (subscribe dec dec_topic b a topic) (subscribe_topic dec dec_topic topic s)
          h1.unclosed h1.here (inr h1.own) in
      let b3 =
        unsubscribe dec dec_topic
          (subscribe dec dec_topic (subscribe dec dec_topic b a topic) a topic) a topic in
      let h3 = unsubscribe-Stands _ _ _ h2 in
      let named = still_named dec a _ s.id (or_empty (lookup dec_topic topic b.topics)) h3.own in
      let again = subscribe_topic dec dec_topic topic (subscribe_topic dec dec_topic topic s) in
      let (n, some_copy, arrives) = Stands-receives _ _ _ payload h3 open_sub room (
        subst
          (λ ids. 0 < occurrences dec a b3.subscribers (remove_first dec s.id (ids ++ s.id ∷ [])))
          (sym h1.listed) named) in
      (
        unsubscribe_topic dec dec_topic topic again,
        n,
        h3.here,
        unsubscribed again,
        some_copy,
        arrives,
      )
