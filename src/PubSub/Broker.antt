-- ===== src/PubSub/Broker.antt =====
-- pubsub/broker.go: Subscriber and Broker. The subscribers that were made are a list, and one is its
-- place in it; its channel is the list of the messages in it. A method is one step, send included,
-- which in the code tests `closed` under the subscriber's lock and sends after it.
pub mod Publishing
pub mod Leaving
pub mod Silence
use gocc.Prelude.{
  ℕ, zero, suc, ◌+◌, Bool, true, false, List, [], ◌∷◌, ◌++◌, Option, none, some, ltb, if◌then◌else◌,
  is_yes, length, map, get_elem?, modify,
}
use gocc.Prelude.Int.{ℤ, pos_part, is_pos}
use gocc.Prelude.Dict.{Dict, lookup, insert, delete}

pub record Message (T P : Type 0) : Type 0 where
  pub topic : T
  pub payload : P

pub record Subscriber (S T P : Type 0) : Type 0 where
  pub id : S
  pub capacity : ℕ
  pub messages : List (Message T P)
  pub topics : Dict T Bool
  pub closed : Bool

pub record Broker (S T P : Type 0) : Type 0 where
  pub subscribers : Dict S ℕ
  pub topics : Dict T (List S)
  pub closed : Bool
  pub store : List (Subscriber S T P)

abbrev pub rest_of : {A : Type 0} → List A → List A
rest_of [] = []
rest_of (x ∷ xs) = xs

abbrev pub or_empty : {S : Type 0} → Option (List S) → List S
or_empty none = []
or_empty (some ids) = ids

abbrev pub or_false : Option Bool → Bool
or_false none = false
or_false (some b) = b

module _ {S : Type 0} (dec : Discrete S) where
  abbrev pub registered : ℕ → S → Dict S ℕ → Option ℕ → Dict S ℕ
  registered a id m none = insert dec id a m
  registered a id m (some c) = m

  -- `append(subs[:i], subs[i+1:]...)` at the first place of the identifier.
  unfoldable pub remove_first : S → List S → List S
  remove_first id [] = []
  remove_first id (j ∷ ids) =
      let rest = remove_first id ids in if is_yes (dec j id) then ids else j ∷ rest

unfoldable pub remove_topic :
    {S T : Type 0}
    → Discrete S
    → Discrete T
    → T
    → S
    → Dict T (List S)
    → Option (List S)
    → Dict T (List S)
unfolding remove_first
remove_topic dec dec_topic topic id m none = m
remove_topic dec dec_topic topic id m (some ids) =
    insert dec_topic topic (remove_first dec id ids) m

module _ {S T P : Type 0} where
  unfoldable pub new_subscriber : S → ℤ → Subscriber S T P
  new_subscriber id buffer_size = record {
    id = id;
    capacity = if is_pos buffer_size then pos_part buffer_size else 100;
    messages = [];
    topics = [];
    closed = false;
  }

  unfoldable pub new_broker : Broker S T P
  new_broker = record { subscribers = []; topics = []; closed = false; store = [] }

  -- `Subscriber.Close`
  unfoldable pub close_subscriber : Subscriber S T P → Subscriber S T P
  close_subscriber s = if s.closed then s else record s { closed = true }

  unfoldable pub send : Message T P → Subscriber S T P → Subscriber S T P × Bool
  send msg s =
      if s.closed
      then (s, false)
      else if ltb (length s.messages) s.capacity
      then (record s { messages = s.messages ++ msg ∷ [] }, true)
      else (s, false)

  -- The client's receive from `Messages()`.
  unfoldable pub receive : Subscriber S T P → Subscriber S T P
  receive s = record s { messages = rest_of s.messages }

  unfoldable pub send_at :
      Message T P
      → ℕ
      → List (Subscriber S T P)
      → Option (Subscriber S T P)
      → List (Subscriber S T P) × ℕ
  unfolding send
  send_at msg a store none = (store, 0)
  send_at msg a store (some s) =
      (modify store a (λ u. (send msg u).0), if (send msg s).1 then 1 else 0)

  -- One turn of the loop of Publish, for what the identifier stands for.
  unfoldable pub deliver :
      Message T P → List (Subscriber S T P) → Option ℕ → List (Subscriber S T P) × ℕ
  unfolding send_at
  deliver msg store none = (store, 0)
  deliver msg store (some a) = send_at msg a store (get_elem? store a)

  unfoldable pub close_all : Dict S ℕ → List (Subscriber S T P) → List (Subscriber S T P)
  unfolding close_subscriber
  close_all [] store = store
  close_all ((id, a) ∷ m) store = close_all m (modify store a close_subscriber)

  -- `Broker.Close`
  unfoldable pub close : Broker S T P → Broker S T P
  unfolding close_all
  close b = record {
    subscribers = [];
    topics = [];
    closed = true;
    store = close_all b.subscribers b.store;
  }

module _ {S T P : Type 0} (dec : Discrete S) (dec_topic : Discrete T) where
  unfoldable pub subscribe_topic : T → Subscriber S T P → Subscriber S T P
  subscribe_topic topic s = record s { topics = insert dec_topic topic true s.topics }

  unfoldable pub unsubscribe_topic : T → Subscriber S T P → Subscriber S T P
  unsubscribe_topic topic s = record s { topics = delete dec_topic topic s.topics }

  unfoldable pub is_subscribed : Subscriber S T P → T → Bool
  is_subscribed s topic = or_false (lookup dec_topic topic s.topics)

  unfoldable pub subscribe_at : Broker S T P → ℕ → T → Option (Subscriber S T P) → Broker S T P
  unfolding subscribe_topic
  subscribe_at b a topic none = b
  subscribe_at b a topic (some s) = record b {
    subscribers = registered dec a s.id b.subscribers (lookup dec s.id b.subscribers);
    topics =
        insert dec_topic topic (or_empty (lookup dec_topic topic b.topics) ++ s.id ∷ []) b.topics;
    store = modify b.store a (subscribe_topic topic);
  }

  unfoldable pub subscribe : Broker S T P → ℕ → T → Broker S T P
  unfolding subscribe_at
  subscribe b a topic = subscribe_at b a topic (get_elem? b.store a)

  unfoldable pub unsubscribe_at : Broker S T P → ℕ → T → Option (Subscriber S T P) → Broker S T P
  unfolding unsubscribe_topic remove_topic
  unsubscribe_at b a topic none = b
  unsubscribe_at b a topic (some s) = record b {
    topics = remove_topic dec dec_topic topic s.id b.topics (lookup dec_topic topic b.topics);
    store = modify b.store a (unsubscribe_topic topic);
  }

  unfoldable pub unsubscribe : Broker S T P → ℕ → T → Broker S T P
  unfolding unsubscribe_at
  unsubscribe b a topic = unsubscribe_at b a topic (get_elem? b.store a)

  unfoldable pub fan_out :
      Dict S ℕ → Message T P → List S → List (Subscriber S T P) → ℕ → List (Subscriber S T P) × ℕ
  unfolding deliver
  fan_out subs msg [] store delivered = (store, delivered)
  fan_out subs msg (id ∷ ids) store delivered =
      let x = deliver msg store (lookup dec id subs) in fan_out subs msg ids x.0 (delivered + x.1)

  unfoldable pub publish : Broker S T P → T → P → Broker S T P × ℕ
  unfolding fan_out
  publish b topic payload =
      if b.closed
      then (b, 0)
      else let x =
          fan_out b.subscribers (record { topic = topic; payload = payload })
            (or_empty (lookup dec_topic topic b.topics)) b.store 0 in
        (record b { store = x.0 }, x.1)

  unfoldable pub remove_at : Broker S T P → ℕ → Option (Subscriber S T P) → Broker S T P
  unfolding remove_first close_subscriber
  remove_at b a none = b
  remove_at b a (some s) = record b {
    subscribers = delete dec s.id b.subscribers;
    topics = map (λ e. (e.0, remove_first dec s.id e.1)) b.topics;
    store = modify b.store a close_subscriber;
  }

  unfoldable pub remove_subscriber : Broker S T P → ℕ → Broker S T P
  unfolding remove_at
  remove_subscriber b a = remove_at b a (get_elem? b.store a)
