-- ===== src/Auth/Lru.antt =====
-- pkg/auth/blocker.go, `lruCache`: a map from keys to the elements of a doubly linked list, whose
-- front is the entry used last. An element of `container/list` is known by its address. The mutex
-- makes each method one step. A cache is a value here: the record that a pointer shares with the
-- cache is written back by the caller's own `put`, before anything else reads it.
pub mod Elements
pub mod Chain
pub mod Moves
pub mod Invariant
pub mod View
pub mod Reads
pub mod Runs
mod Tests
use tbore.Base.{
  ℕ, suc, String, string_eq, length, ltb, if◌then◌else◌, List, [], ◌∷◌, Option, none, some, leb,
}
use tbore.Base.Int.{ℤ, pos, negsuc, pos_part, leb_ℤ}
use tbore.Base.GoMap.{GoMap, lookup, insert, delete}
use Elements.{Element, find, unlink, set_rec, move_to_front, back}
use mathlib.Core.Option

pub record LruCache {ℓ} (V : Type ℓ) : Type ℓ where
  pub capacity : ℕ
  pub items : GoMap String ℕ
  pub order : List (Element V)
  pub next : ℕ

-- `defaultLRUSize`
abbrev pub default_lru_size : ℕ
default_lru_size = 1000

module _ {ℓ} {V : Type ℓ} where
  unfoldable pub new_lru_cache : ℤ → LruCache V
  new_lru_cache capacity = record {
    capacity = if leb_ℤ capacity (pos 0) then default_lru_size else pos_part capacity;
    items = [];
    order = [];
    next = 0;
  }

  unfoldable pub get : String → LruCache V → LruCache V × Option V
  get key c = elim (lookup key c.items) [
    | none ↦ (c, none)
    | some el ↦
        (record c { order = move_to_front el c.order }, Option.map (λ e. e.rec) (find el c.order))
  ]

  -- `c.order.PushFront(&lruEntry{…})` and `c.items[key] = el`, at a new address
  unfoldable pub push_front : String → V → LruCache V → LruCache V
  push_front key rec c = record c {
    order = record { address = c.next; key = key; rec = rec } ∷ c.order;
    items = insert key c.next c.items;
    next = suc c.next;
  }

  -- the `if` at the end of `put`
  unfoldable pub evict : LruCache V → LruCache V
  evict c =
      if ltb c.capacity (length c.order)
      then elim (back c.order) [
        | none ↦ c
        | some oldest ↦ record c {
          order = unlink oldest.address c.order;
          items = delete oldest.key c.items;
        }
      ]
      else c

  unfoldable pub put : String → V → LruCache V → LruCache V
  put key rec c = elim (lookup key c.items) [
    | none ↦ evict (push_front key rec c)
    | some el ↦ record c { order = move_to_front el (set_rec el rec c.order) }
  ]

  unfoldable pub remove : String → LruCache V → LruCache V
  remove key c = elim (lookup key c.items) [
    | none ↦ c
    | some el ↦ record c { order = unlink el c.order; items = delete key c.items }
  ]
