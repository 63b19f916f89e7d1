-- ===== src/Cache/Lru.antt =====
-- cache/lru.go: LRUCache. A *lruNode is an address of `heap`, nil is `none`, and `none` as the
-- result of an operation is a dereference of nil. The map `data` is `table`. An instant is a number
-- of nanoseconds after the zero time, which means "no expiration".
pub mod Seg
pub mod Links
pub mod Front
pub mod Spec
pub mod Table
pub mod Rep
pub mod Refines
pub mod Runs
pub mod Recency
use gocc.Prelude.{
  ◌>>=◌, ℕ, zero, suc, ◌+◌, Bool, true, false, ◌&&◌, not, List, [], ◌∷◌, Option, none, some, ltb,
  leb, ◌==◌, if◌then◌else◌, length,
}
use gocc.Prelude.Int.{ℤ, pos, is_pos, pos_part}
use gocc.Prelude.Dict.{Dict, lookup, insert, delete}

pub record LruNode (K V : Type 0) : Type 0 where
  pub key : K
  pub value : V
  pub expiration : ℕ
  pub prev : Option ℕ
  pub next : Option ℕ

abbrev pub Heap : Type 0 → Type 0 → Type 0
Heap K V = ℕ → Option (LruNode K V)

-- `fresh` is the address that the next allocation returns.
pub record LruCache (K V : Type 0) : Type 0 where
  pub capacity : ℕ
  pub table : Dict K ℕ
  pub heap : Heap K V
  pub fresh : ℕ
  pub head : Option ℕ
  pub tail : Option ℕ
  pub hits : ℕ
  pub misses : ℕ
  pub evicts : ℕ

-- `!t.IsZero() && now.After(t)`
abbrev pub has_expired : ℕ → ℕ → Bool
has_expired expiration now = not (expiration == 0) && ltb expiration now

-- `if ttl > 0 { expiration = now.Add(ttl) }`
abbrev pub expiration_of : ℕ → ℤ → ℕ
expiration_of now ttl = if is_pos ttl then now + pos_part ttl else 0

-- `if c.tail == nil { c.tail = node }`
abbrev pub or_some : Option ℕ → ℕ → Option ℕ
or_some none p = some p
or_some (some t) p = some t

-- `node == c.head`
abbrev pub is_head : Option ℕ → ℕ → Bool
is_head none p = false
is_head (some q) p = p == q

module _ {K V : Type 0} where
  unfoldable pub new_lru : ℤ → LruCache K V
  new_lru capacity = record {
    capacity = if is_pos capacity then pos_part capacity else 100;
    table = [];
    heap = λ _. none;
    fresh = 0;
    head = none;
    tail = none;
    hits = 0;
    misses = 0;
    evicts = 0;
  }

  unfoldable pub write : Heap K V → ℕ → LruNode K V → Heap K V
  write h p n a = if a == p then some n else h a

  -- `p.next = q` and `p.prev = q`
  unfoldable pub set_next : ℕ → Option ℕ → Heap K V → Option (Heap K V)
  unfolding write
  set_next p q h = do n ← h p; some (write h p (record n { next = q }))

  unfoldable pub set_prev : ℕ → Option ℕ → Heap K V → Option (Heap K V)
  unfolding write
  set_prev p q h = do n ← h p; some (write h p (record n { prev = q }))

  -- `if c.head != nil { c.head.prev = node }`
  unfoldable pub set_prev_of : Option ℕ → Option ℕ → Heap K V → Option (Heap K V)
  unfolding set_prev
  set_prev_of none q h = some h
  set_prev_of (some p) q h = set_prev p q h

  unfoldable pub add_to_front : LruCache K V → ℕ → Option (LruCache K V)
  unfolding set_prev set_next set_prev_of
  add_to_front c p = do
    h ← set_prev p none c.heap
    h ← set_next p c.head h
    h ← set_prev_of c.head (some p) h
    some (record c { heap = h; head = some p; tail = or_some c.tail p })

  -- `if node.prev != nil { node.prev.next = node.next } else { c.head = node.next }`
  unfoldable pub bypass_next : LruCache K V → Option ℕ → Option ℕ → Option (LruCache K V)
  unfolding set_next
  bypass_next c none next = some (record c { head = next })
  bypass_next c (some q) next = do h ← set_next q next c.heap; some (record c { heap = h })

  unfoldable pub bypass_prev : LruCache K V → Option ℕ → Option ℕ → Option (LruCache K V)
  unfolding set_prev
  bypass_prev c none prev = some (record c { tail = prev })
  bypass_prev c (some q) prev = do h ← set_prev q prev c.heap; some (record c { heap = h })

  unfoldable pub remove_node : LruCache K V → ℕ → Option (LruCache K V)
  unfolding bypass_next bypass_prev
  remove_node c p = do
    n ← c.heap p
    c ← bypass_next c n.prev n.next
    n ← c.heap p
    bypass_prev c n.next n.prev

  unfoldable pub move_to_front : LruCache K V → ℕ → Option (LruCache K V)
  move_to_front c p = if is_head c.head p then some c else do c ← remove_node c p; add_to_front c p

module _ {K V : Type 0} (dec : Discrete K) where
  unfoldable pub evict_at : LruCache K V → Option ℕ → Option (LruCache K V)
  evict_at c none = some c
  evict_at c (some t) = do
    n ← c.heap t
    c ← remove_node (record c { table = delete dec n.key c.table }) t
    some (record c { evicts = c.evicts + 1 })

  unfoldable pub evict_lru : LruCache K V → Option (LruCache K V)
  unfolding evict_at
  evict_lru c = evict_at c c.tail

  -- Get on the address that the map gave.
  unfoldable pub get_at : LruCache K V → ℕ → K → Option ℕ → Option (LruCache K V × Option V)
  get_at c now key none = some (record c { misses = c.misses + 1 }, none)
  get_at c now key (some p) = do
    n ← c.heap p
    if has_expired n.expiration now
        then (do
          c ← remove_node c p
          some (record c { table = delete dec key c.table; misses = c.misses + 1 }, none))
        else (do
          c ← move_to_front c p
          n ← c.heap p
          some (record c { hits = c.hits + 1 }, some n.value))

  unfoldable pub get : LruCache K V → ℕ → K → Option (LruCache K V × Option V)
  unfolding get_at
  get c now key = get_at c now key (lookup dec key c.table)

  -- The node that SetWithTTL makes for a new key.
  unfoldable pub insert_new : LruCache K V → K → V → ℕ → Option (LruCache K V)
  insert_new c key value expiration =
      add_to_front
        (record c {
          heap = write c.heap c.fresh (record {
            key = key;
            value = value;
            expiration = expiration;
            prev = none;
            next = none;
          });
          table = insert dec key c.fresh c.table;
          fresh = suc c.fresh;
        })
        c.fresh

  unfoldable pub set_at : LruCache K V → K → V → ℕ → Option ℕ → Option (LruCache K V)
  set_at c key value expiration (some p) = do
    n ← c.heap p
    move_to_front
        (record c { heap = write c.heap p (record n { value = value; expiration = expiration }) }) p
  set_at c key value expiration none = do
    c ← if leb c.capacity (length c.table) then evict_lru c else some c
    insert_new c key value expiration

  unfoldable pub set_with_ttl : LruCache K V → ℕ → K → V → ℤ → Option (LruCache K V)
  unfolding set_at
  set_with_ttl c now key value ttl =
      set_at c key value (expiration_of now ttl) (lookup dec key c.table)

  unfoldable pub set : LruCache K V → ℕ → K → V → Option (LruCache K V)
  unfolding set_with_ttl
  set c now key value = set_with_ttl c now key value (pos 0)

  unfoldable pub delete_at : LruCache K V → K → Option ℕ → Option (LruCache K V × Bool)
  delete_at c key none = some (c, false)
  delete_at c key (some p) = do
    c ← remove_node c p
    some (record c { table = delete dec key c.table }, true)

  unfoldable pub delete_key : LruCache K V → K → Option (LruCache K V × Bool)
  unfolding delete_at
  delete_key c key = delete_at c key (lookup dec key c.table)

module _ {K V : Type 0} where
  unfoldable pub clear : LruCache K V → LruCache K V
  clear c = record c { table = []; head = none; tail = none }

  -- The loop of Keys; it runs on fuel.
  unfoldable pub keys_from : ℕ → Heap K V → Option ℕ → Option (List K)
  keys_from zero h p = none
  keys_from (suc fuel) h none = some []
  keys_from (suc fuel) h (some p) = do n ← h p; rest ← keys_from fuel h n.next; some (n.key ∷ rest)

  unfoldable pub keys : LruCache K V → Option (List K)
  unfolding keys_from
  keys c = keys_from (length c.table + 1) c.heap c.head
