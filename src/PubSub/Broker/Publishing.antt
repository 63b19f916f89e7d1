-- ===== src/PubSub/Broker/Publishing.antt =====
-- What Publish puts into each subscriber's channel.
use Prim.Native.Nat.{min}
use gocc.Prelude.{
  ℕ, suc, ◌+◌, ◌-◌, ◌≡◌, ◌≢◌, ◌∙◌, refl, sym, ap, subst, Bool, true, false, List, [], ◌∷◌, ◌++◌,
  append_assoc, append-nil, Option, none, some, ltb, ◌==◌, if◌then◌else◌, length, replicate,
  get_elem?, total, at_some, length-append, get_elem?-modify_self, get_elem?-modify_ne,
  total-modify, arith, if_cases, ℕ_discrete,
}
use gocc.Prelude.Dict.{Dict, lookup}
use gocc.PubSub.Broker.{
  Message, Subscriber, Broker, send, send_at, deliver, fan_out, publish, or_empty,
}

-- How many of the identifiers stand for the subscriber at `a`.
abbrev pub stands_for : ℕ → Option ℕ → ℕ
stands_for a none = 0
stands_for a (some c) = if c == a then 1 else 0

unfoldable pub occurrences : {S : Type 0} → Discrete S → ℕ → Dict S ℕ → List S → ℕ
occurrences dec a subs [] = 0
occurrences dec a subs (id ∷ ids) = stands_for a (lookup dec id subs) + occurrences dec a subs ids

module _ {S T P : Type 0} where
  abbrev pub filled : Message T P → ℕ → Subscriber S T P → Bool → Subscriber S T P
  filled msg n s true = s
  filled msg n s false = record s {
    messages = s.messages ++ replicate (min n (s.capacity - length s.messages)) msg;
  }

  -- `n` copies of the message, as far as there is room, unless the subscriber is closed.
  unfoldable pub fill : Message T P → ℕ → Subscriber S T P → Subscriber S T P
  fill msg n s = filled msg n s s.closed

  fill-zero : (msg : Message T P) (s : Subscriber S T P) → fill msg 0 s ≡ s
  unfolding fill
  fill-zero msg s = go s.closed
    where
      go : (b : Bool) → filled msg 0 s b ≡ s
      go true = refl
      go false =
          let k : min 0 (s.capacity - length s.messages) ≡ 0 = omega arith in
          ap (λ n. record s { messages = s.messages ++ replicate n msg }) k
          ∙ ap (λ ms. record s { messages = ms }) (append-nil s.messages)

  fill-send :
      (msg : Message T P) (n : ℕ) (s : Subscriber S T P)
      → fill msg n (send msg s).0 ≡ fill msg (suc n) s
  unfolding fill send
  fill-send msg n s =
      if_cases (λ (x : Subscriber S T P × Bool). fill msg n x.0 ≡ fill msg (suc n) s) s.closed _ _
        (λ e. ap (filled msg n s) e ∙ sym (ap (filled msg (suc n) s) e))
        (λ e.
          if_cases (λ (x : Subscriber S T P × Bool). fill msg n x.0 ≡ fill msg (suc n) s)
            (ltb (length s.messages) s.capacity) _ _
            (λ room.
              let s' : Subscriber S T P = record s { messages = s.messages ++ msg ∷ [] } in
              let k : suc (min n (s.capacity - length (s.messages ++ msg ∷ [])))
                  ≡ min (suc n) (s.capacity - length s.messages) =
                ground (arith, room, length-append s.messages (msg ∷ [])) in
              ap (filled msg n s') e
              ∙ ap (λ ms. record s { messages = ms })
                  (append_assoc s.messages (msg ∷ []) _ ∙ ap (λ j. s.messages ++ replicate j msg) k)
              ∙ sym (ap (filled msg (suc n) s) e))
            (λ full.
              let k : min n (s.capacity - length s.messages)
                  ≡ min (suc n) (s.capacity - length s.messages) =
                ground (arith, full) in
              ap (filled msg n s) e
              ∙ ap (λ j. record s { messages = s.messages ++ replicate j msg }) k
              ∙ sym (ap (filled msg (suc n) s) e)))

  -- One send to the subscriber at `c`, and `n` more copies for the one at `a`.
  send_at-fill :
      (msg : Message T P) (store : List (Subscriber S T P)) (a c n : ℕ)
      (o : Option (Subscriber S T P))
      → get_elem? store c ≡ o
      → at_some (fill msg n) (get_elem? (send_at msg c store o).0 a)
        ≡ at_some (fill msg (stands_for a (some c) + n)) (get_elem? store a)
  unfolding send_at
  send_at-fill msg store a c n o at = elim (ℕ_discrete c a) [
    | yes e ↦
        let k : suc n ≡ stands_for a (some c) + n = ground (arith, e) in
        subst
          (λ i.
            at_some (fill msg n) (get_elem? (send_at msg c store o).0 i)
            ≡ at_some (fill msg (stands_for a (some c) + n)) (get_elem? store i))
          e
          (subst
            (λ j.
              at_some (fill msg n) (get_elem? (send_at msg c store o).0 c)
              ≡ at_some (fill msg j) (get_elem? store c))
            k (same o at))
    | no ne ↦
        let k : n ≡ stands_for a (some c) + n = ground (arith, ne) in
        ap (at_some (fill msg n)) (other o ne)
        ∙ ap (λ j. at_some (fill msg j) (get_elem? store a)) k
  ]
    where
      same :
          (o : Option (Subscriber S T P))
          → get_elem? store c ≡ o
          → at_some (fill msg n) (get_elem? (send_at msg c store o).0 c)
            ≡ at_some (fill msg (suc n)) (get_elem? store c)
      same none at = ap (at_some (fill msg n)) at ∙ sym (ap (at_some (fill msg (suc n))) at)
      same (some s) at =
          ap (at_some (fill msg n)) (
            get_elem?-modify_self store c (λ u. (send msg u).0)
            ∙ ap (at_some λ u. (send msg u).0) at)
          ∙ ap some (fill-send msg n s)
          ∙ sym (ap (at_some (fill msg (suc n))) at)

      other :
          (o : Option (Subscriber S T P))
          → c ≢ a
          → get_elem? (send_at msg c store o).0 a ≡ get_elem? store a
      other none ne = refl
      other (some s) ne = get_elem?-modify_ne store c a _ ne

  deliver-fill :
      (msg : Message T P) (store : List (Subscriber S T P)) (a n : ℕ) (o : Option ℕ)
      → at_some (fill msg n) (get_elem? (deliver msg store o).0 a)
        ≡ at_some (fill msg (stands_for a o + n)) (get_elem? store a)
  unfolding deliver
  deliver-fill msg store a n none =
      let k : n ≡ 0 + n = omega arith in ap (λ j. at_some (fill msg j) (get_elem? store a)) k
  deliver-fill msg store a n (some c) = send_at-fill msg store a c n (get_elem? store c) refl

  abbrev pub held : Subscriber S T P → ℕ
  held s = length s.messages

  held-send :
      (msg : Message T P) (s : Subscriber S T P)
      → held (send msg s).0 ≡ held s + (if (send msg s).1 then 1 else 0)
  unfolding send
  held-send msg s = ground (arith, length-append s.messages (msg ∷ []))

  send_at-total :
      (msg : Message T P) (store : List (Subscriber S T P)) (c : ℕ) (o : Option (Subscriber S T P))
      → get_elem? store c ≡ o
      → total held (send_at msg c store o).0 ≡ total held store + (send_at msg c store o).1
  unfolding send_at
  send_at-total msg store c none at = omega arith
  send_at-total msg store c (some s) at =
      let e = total-modify held store c (λ u. (send msg u).0) s at in
      omega (arith, e, held-send msg s)

  deliver-total :
      (msg : Message T P) (store : List (Subscriber S T P)) (o : Option ℕ)
      → total held (deliver msg store o).0 ≡ total held store + (deliver msg store o).1
  unfolding deliver
  deliver-total msg store none = omega arith
  deliver-total msg store (some c) = send_at-total msg store c (get_elem? store c) refl

module _ {S T P : Type 0} (dec : Discrete S) (dec_topic : Discrete T) where
  fan_out-fill :
      (subs : Dict S ℕ) (msg : Message T P) (a : ℕ) (ids : List S) (store : List (Subscriber S T P))
      (d : ℕ)
      → get_elem? (fan_out dec dec_topic subs msg ids store d).0 a
        ≡ at_some (fill msg (occurrences dec a subs ids)) (get_elem? store a)
  unfolding fan_out occurrences
  fan_out-fill subs msg a [] store d = go (get_elem? store a)
    where
      go : (o : Option (Subscriber S T P)) → o ≡ at_some (fill msg 0) o
      go none = refl
      go (some s) = ap some (sym (fill-zero msg s))
  fan_out-fill subs msg a (id ∷ ids) store d =
      let x = deliver msg store (lookup dec id subs) in
      fan_out-fill subs msg a ids x.0 (d + x.1)
      ∙ deliver-fill msg store a (occurrences dec a subs ids) (lookup dec id subs)

  fan_out-total :
      (subs : Dict S ℕ) (msg : Message T P) (ids : List S) (store : List (Subscriber S T P)) (d : ℕ)
      → total held (fan_out dec dec_topic subs msg ids store d).0 + d
        ≡ total held store + (fan_out dec dec_topic subs msg ids store d).1
  unfolding fan_out
  fan_out-total subs msg [] store d = refl
  fan_out-total subs msg (id ∷ ids) store d =
      let x = deliver msg store (lookup dec id subs) in
      omega (
        arith,
        fan_out-total subs msg ids x.0 (d + x.1),
        deliver-total msg store (lookup dec id subs),
      )

  -- Publish on an open broker appends to the channel of every subscriber as many copies of the message
  -- as the topic's list has identifiers that stand for it, as far as there is room, and nothing if the
  -- subscriber is closed; and it answers by how many messages the channels have grown together.
  pub publish-fill :
      (b : Broker S T P) (topic : T) (payload : P)
      → b.closed ≡ false
      → ((a : ℕ)
          → get_elem? (publish dec dec_topic b topic payload).0.store a
            ≡ at_some
                (fill
                  (record { topic = topic; payload = payload })
                  (occurrences dec a b.subscribers (or_empty (lookup dec_topic topic b.topics))))
                (get_elem? b.store a))
        × (total held (publish dec dec_topic b topic payload).0.store
            ≡ total held b.store + (publish dec dec_topic b topic payload).1)
  unfolding publish
  publish-fill b topic payload unclosed =
      let msg : Message T P = record { topic = topic; payload = payload } in
      let ids = or_empty (lookup dec_topic topic b.topics) in
      let x = fan_out dec dec_topic b.subscribers msg ids b.store 0 in
      if_cases
        (λ (y : Broker S T P × ℕ).
          ((a : ℕ)
            → get_elem? y.0.store a
              ≡ at_some (fill msg (occurrences dec a b.subscribers ids)) (get_elem? b.store a))
          × (total held y.0.store ≡ total held b.store + y.1))
        b.closed _ _ (λ c. absurd (ground (arith, c, unclosed)))
        (λ _. (
          λ a. fan_out-fill b.subscribers msg a ids b.store 0,
          omega (arith, fan_out-total b.subscribers msg ids b.store 0),
        ))
