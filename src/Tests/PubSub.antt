-- ===== src/Tests/PubSub.antt =====
-- A broker with one subscriber, 5, whose channel has room for two messages.
use gocc.Prelude.{
  ℕ, ◌+◌, ◌<◌, ◌≡◌, inl, refl, true, false, List, [], ◌∷◌, ◌++◌, some, replicate, drop, get_elem?,
  total, at_some, arith, ℕ_discrete,
}
use gocc.Prelude.Int.{pos}
use gocc.Prelude.Dict.{lookup, insert, delete}
use gocc.PubSub.Broker.{
  Subscriber, Broker, new_subscriber, new_broker, send, receive, send_at, deliver, subscribe_topic,
  is_subscribed, subscribe_at, subscribe, unsubscribe, fan_out, publish, or_empty,
  remove_subscriber,
}
use gocc.PubSub.Broker.Publishing.{occurrences, fill, held, publish-fill}
use gocc.PubSub.Broker.Leaving.{resubscribed-receives}
use gocc.PubSub.Broker.Silence.{Event, subscribes, publishes, receives, step, run, removed-silent}

abbrev one : Broker ℕ ℕ ℕ
unfolding new_broker new_subscriber
one = record new_broker { store = new_subscriber 5 (pos 2) ∷ [] }

-- Three messages on topic 8, of which the first is received: the third finds no room.
abbrev three_messages : List (Event ℕ ℕ ℕ)
three_messages =
    subscribes 0 8
    ∷ publishes 8 20
    ∷ publishes 9 21
    ∷ publishes 8 22
    ∷ publishes 8 23
    ∷ receives 0
    ∷ []

three_messages_left :
    get_elem? (run ℕ_discrete ℕ_discrete one three_messages).store 0
    ≡ some (record {
      id = 5;
      capacity = 2;
      messages = record { topic = 8; payload = 22 } ∷ [];
      topics = (8, true) ∷ [];
      closed = false;
    })
unfolding one new_subscriber new_broker run step subscribe subscribe_at subscribe_topic publish
    fan_out deliver send_at send receive lookup insert delete ℕ_discrete
three_messages_left = refl

publish-fill_example :
    ((a : ℕ)
      → get_elem? (publish ℕ_discrete ℕ_discrete one 8 20).0.store a
        ≡ at_some
            (fill
              (record { topic = 8; payload = 20 })
              (occurrences ℕ_discrete a one.subscribers
                (or_empty (lookup ℕ_discrete 8 one.topics))))
            (get_elem? one.store a))
    × (total held (publish ℕ_discrete ℕ_discrete one 8 20).0.store
        ≡ total held one.store + (publish ℕ_discrete ℕ_discrete one 8 20).1)
unfolding one
publish-fill_example = publish-fill ℕ_discrete ℕ_discrete one 8 20 refl

abbrev alone : Subscriber ℕ ℕ ℕ
unfolding new_subscriber
alone = new_subscriber 5 (pos 2)

resubscribed-receives_example :
    (s' : Subscriber ℕ ℕ ℕ) × (n : ℕ) × (get_elem?
        (unsubscribe ℕ_discrete ℕ_discrete
          (subscribe ℕ_discrete ℕ_discrete (subscribe ℕ_discrete ℕ_discrete one 0 8) 0 8)
          0
          8).store
        0
      ≡ some s')
    × (is_subscribed ℕ_discrete ℕ_discrete s' 8 ≡ false)
    × (0 < n)
    × (get_elem?
          (publish ℕ_discrete ℕ_discrete
            (unsubscribe ℕ_discrete ℕ_discrete
              (subscribe ℕ_discrete ℕ_discrete (subscribe ℕ_discrete ℕ_discrete one 0 8) 0 8)
              0
              8)
            8
            20).0.store
          0
        ≡ some (record s' {
          messages = alone.messages ++ replicate n (record { topic = 8; payload = 20 });
        }))
unfolding one alone lookup
resubscribed-receives_example =
    resubscribed-receives ℕ_discrete ℕ_discrete 0 8 one alone 20 refl refl (inl refl) refl
      (omega arith)

removed-silent_example :
    (s' : Subscriber ℕ ℕ ℕ) × (n : ℕ) × (get_elem?
        (run ℕ_discrete ℕ_discrete
          (remove_subscriber ℕ_discrete ℕ_discrete one 0)
          three_messages).store
        0
      ≡ some s')
    × (s'.closed ≡ true)
    × (s'.messages ≡ drop n alone.messages)
unfolding one alone
removed-silent_example = removed-silent ℕ_discrete ℕ_discrete one 0 alone three_messages refl
