-- ===== src/ConcurrentMap/RwMutex.antt =====
-- RWMutexMap of cmap/rwmutex_map.go: one Go map under one lock. Its field `data` is `table`.
use gocc.Prelude.{ℕ, Bool, true, false, Option, none, some, length, List, [], ◌∷◌}
use gocc.Prelude.Dict.{Dict, lookup, insert, delete}

pub record RwMutexMap (K V : Type 0) : Type 0 where
  pub table : Dict K V

-- What the methods of a map answer.
pub data Answer (V : Type 0) : Type 0 where
  got : Option V → Answer V
  got_or_set : V → Bool → Answer V
  size : ℕ → Answer V
  done : Answer V

pub data Call (K V : Type 0) : Type 0 where
  getting : K → Call K V
  setting : K → V → Call K V
  deleting : K → Call K V
  getting_or_setting : K → V → Call K V
  measuring : Call K V

module _ {K V : Type 0} where
  unfoldable pub new_rw_mutex_map : RwMutexMap K V
  new_rw_mutex_map = record { table = [] }

  unfoldable pub len : RwMutexMap K V → ℕ
  len m = length m.table

module _ {K V : Type 0} (dec : Discrete K) where
  unfoldable pub get : RwMutexMap K V → K → Option V
  get m key = lookup dec key m.table

  unfoldable pub set : RwMutexMap K V → K → V → RwMutexMap K V
  set m key value = record { table = insert dec key value m.table }

  unfoldable pub delete_key : RwMutexMap K V → K → RwMutexMap K V
  delete_key m key = record { table = delete dec key m.table }

  unfoldable pub get_or_set : RwMutexMap K V → K → V → RwMutexMap K V × V × Bool
  unfolding set
  get_or_set m key value = elim (lookup dec key m.table) [
    | some v ↦ (m, v, true)
    | none ↦ (set m key value, value, false)
  ]

  unfoldable pub exec : RwMutexMap K V → Call K V → RwMutexMap K V × Answer V
  unfolding get set delete_key get_or_set len
  exec m (getting k) = (m, got (get m k))
  exec m (setting k v) = (set m k v, done)
  exec m (deleting k) = (delete_key m k, done)
  exec m (getting_or_setting k v) = let (m', w, held) = get_or_set m k v in (m', got_or_set w held)
  exec m measuring = (m, size (len m))

  unfoldable pub run : RwMutexMap K V → List (Call K V) → List (Answer V)
  unfolding exec
  run m [] = []
  run m (o ∷ os) = let r = exec m o in r.1 ∷ run r.0 os
