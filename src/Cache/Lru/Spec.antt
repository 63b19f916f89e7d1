-- ===== src/Cache/Lru/Spec.antt =====
-- What LRUCache promises: a list of entries, most recently used first, each key once. The contract
-- knows no pointers and no map.
use gocc.Prelude.{
  ℕ, ◌+◌, Bool, true, false, List, [], ◌∷◌, Option, none, some, leb, if◌then◌else◌, length, ite,
}
use gocc.Prelude.Int.{ℤ, is_pos, pos_part}
use gocc.Cache.Lru.{has_expired}

pub record Entry (K V : Type 0) : Type 0 where
  pub key : K
  pub value : V
  pub expiration : ℕ

pub record LruSpec (K V : Type 0) : Type 0 where
  pub capacity : ℕ
  pub entries : List (Entry K V)
  pub hits : ℕ
  pub misses : ℕ
  pub evicts : ℕ

module _ {K V : Type 0} where
  unfoldable pub drop_last : List (Entry K V) → List (Entry K V)
  drop_last [] = []
  drop_last (e ∷ []) = []
  drop_last (e ∷ e' ∷ es) = e ∷ drop_last (e' ∷ es)

  unfoldable pub spec_new : ℤ → LruSpec K V
  spec_new capacity = record {
    capacity = if is_pos capacity then pos_part capacity else 100;
    entries = [];
    hits = 0;
    misses = 0;
    evicts = 0;
  }

  abbrev pub spec_clear : LruSpec K V → LruSpec K V
  spec_clear s = record s { entries = [] }

  -- A new key in a full cache displaces the least recently used entry.
  abbrev pub make_room : LruSpec K V → LruSpec K V
  make_room s =
      if leb s.capacity (length s.entries)
      then record s { entries = drop_last s.entries; evicts = s.evicts + 1 }
      else s

module _ {K V : Type 0} (dec : Discrete K) where
  unfoldable pub find : K → List (Entry K V) → Option (Entry K V)
  find k [] = none
  find k (e ∷ es) = ite (dec e.key k) (some e) (find k es)

  unfoldable pub without : K → List (Entry K V) → List (Entry K V)
  without k [] = []
  without k (e ∷ es) = ite (dec e.key k) (without k es) (e ∷ without k es)

  -- A hit moves the entry to the front; an expired entry is dropped and counts as a miss.
  unfoldable pub spec_get : LruSpec K V → ℕ → K → LruSpec K V × Option V
  spec_get s now k = elim (find k s.entries) [
    | none ↦ (record s { misses = s.misses + 1 }, none)
    | some e ↦
        if has_expired e.expiration now
        then (record s { entries = without k s.entries; misses = s.misses + 1 }, none)
        else (record s { entries = e ∷ without k s.entries; hits = s.hits + 1 }, some e.value)
  ]

  unfoldable pub spec_set : LruSpec K V → K → V → ℕ → LruSpec K V
  spec_set s k v expiration =
      let e : Entry K V = record { key = k; value = v; expiration = expiration } in
      elim (find k s.entries) [
        | some _ ↦ record s { entries = e ∷ without k s.entries }
        | none ↦ let t = make_room s in record t { entries = e ∷ t.entries }
      ]

  unfoldable pub spec_delete : LruSpec K V → K → LruSpec K V × Bool
  spec_delete s k = elim (find k s.entries) [
    | none ↦ (s, false)
    | some _ ↦ (record s { entries = without k s.entries }, true)
  ]
