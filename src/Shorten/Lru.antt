-- ===== src/Shorten/Lru.antt =====
-- shorten/lru.go: the fixed-size cache. `container/list` and Go's map are modelled by what the
-- source uses of them: `evict_list` has the elements, front first, each with its identity (the
-- pointer that `items` holds) and the entry that its `Value` points to.
pub mod Elements
pub mod Map
pub mod Valid
pub mod Steps
pub mod Methods
pub mod Spec
pub mod View
pub mod Refinement
pub mod Reads
mod Examples
use mathlib.Core.Logic.{ite}
use zhiya.Prelude.{
  ℕ, zero, suc, ◌+◌, Bool, true, false, Option, none, some, List, [], ◌∷◌, ◌++◌, ltb, leb, ◌==◌,
  length, reverse, replicate, if◌then◌else◌,
}

pub record Element (K V : Type 0) : Type 0 where
  pub id : ℕ
  pub key : K
  pub value : V

-- `next` is the pointer that the next new element gets. `notify` tells whether the cache has a
-- callback, and `evicted` has the calls of it, in their order.
pub record Lru (K V : Type 0) : Type 0 where
  pub size : ℕ
  pub evict_list : List (Element K V)
  pub items : List (K × ℕ)
  pub next : ℕ
  pub notify : Bool
  pub evicted : List (K × V)

unfoldable pub new_lru : {K V : Type 0} → ℕ → Bool → Option (Lru K V)
new_lru size notify =
    if leb size 0
    then none
    else some (record {
      size = size;
      evict_list = [];
      items = [];
      next = 0;
      notify = notify;
      evicted = [];
    })

-- container/list
module _ {K V : Type 0} where
  -- The element behind a pointer.
  unfoldable pub find_element : ℕ → List (Element K V) → Option (Element K V)
  find_element i [] = none
  find_element i (e ∷ l) = if e.id == i then some e else find_element i l

  -- `l.Remove(e)`
  unfoldable pub unlink : ℕ → List (Element K V) → List (Element K V)
  unlink i [] = []
  unlink i (e ∷ l) = if e.id == i then l else e ∷ unlink i l

  -- `l.MoveToFront(e)`
  unfoldable pub move_to_front : ℕ → List (Element K V) → List (Element K V)
  move_to_front i l = elim (find_element i l) [ none ↦ l | some e ↦ e ∷ unlink i l ]

  -- `ent.Value.(*entry).value = value`
  unfoldable pub set_value : ℕ → V → List (Element K V) → List (Element K V)
  set_value i v [] = []
  set_value i v (e ∷ l) = if e.id == i then record e { value = v } ∷ l else e ∷ set_value i v l

  -- `l.Back()`
  unfoldable pub back : List (Element K V) → Option (Element K V)
  back [] = none
  back (e ∷ []) = some e
  back (e ∷ f ∷ l) = back (f ∷ l)

module _ {K : Type 0} (dec : Discrete K) where
  -- Go's map from keys to pointers.
  unfoldable pub map_get : K → List (K × ℕ) → Option ℕ
  map_get k [] = none
  map_get k ((j, i) ∷ m) = ite (dec j k) (some i) (map_get k m)

  unfoldable pub map_delete : K → List (K × ℕ) → List (K × ℕ)
  map_delete k [] = []
  map_delete k ((j, i) ∷ m) = ite (dec j k) m ((j, i) ∷ map_delete k m)

module _ {K V : Type 0} (dec : Discrete K) where
  unfoldable pub remove_element : Lru K V → Element K V → Lru K V
  remove_element c e = record c {
    evict_list = unlink e.id c.evict_list;
    items = map_delete dec e.key c.items;
    evicted = if c.notify then c.evicted ++ (e.key, e.value) ∷ [] else c.evicted;
  }

  -- `removeOldest`
  unfoldable pub drop_oldest : Lru K V → Lru K V
  drop_oldest c = elim (back c.evict_list) [ none ↦ c | some e ↦ remove_element c e ]

  -- `PushFront` of a new element, and its pointer in the map.
  unfoldable pub push_entry : Lru K V → K → V → Lru K V
  push_entry c key value = record c {
    evict_list = record { id = c.next; key = key; value = value } ∷ c.evict_list;
    items = (key, c.next) ∷ c.items;
    next = c.next + 1;
  }

  -- The result tells whether an entry was evicted.
  unfoldable pub add : Lru K V → K → V → Lru K V × Bool
  add c key value = elim (map_get dec key c.items) [
    | some i ↦ (record c { evict_list = set_value i value (move_to_front i c.evict_list) }, false)
    | none ↦
        let pushed = push_entry c key value in
        let evict = ltb pushed.size (length pushed.evict_list) in
        (if evict then drop_oldest pushed else pushed, evict)
  ]

  -- `none` stands for `nil, false`.
  unfoldable pub get : Lru K V → K → Lru K V × Option V
  get c key = elim (map_get dec key c.items) [
    | none ↦ (c, none)
    | some i ↦
        let moved = move_to_front i c.evict_list in
        (
          record c { evict_list = moved },
          elim (find_element i moved) [ none ↦ none | some e ↦ some e.value ],
        )
  ]

  unfoldable pub contains : Lru K V → K → Bool
  contains c key = elim (map_get dec key c.items) [ none ↦ false | some i ↦ true ]

  unfoldable pub peek : Lru K V → K → Option V
  peek c key = elim (map_get dec key c.items) [
    | none ↦ none
    | some i ↦ elim (find_element i c.evict_list) [ none ↦ none | some e ↦ some e.value ]
  ]

  unfoldable pub remove : Lru K V → K → Lru K V × Bool
  remove c key = elim (map_get dec key c.items) [
    | none ↦ (c, false)
    | some i ↦ elim (find_element i c.evict_list) [
      | none ↦ (c, true)
      | some e ↦ (remove_element c e, true)
    ]
  ]

  unfoldable pub remove_oldest : Lru K V → Lru K V × Option (K × V)
  remove_oldest c = elim (back c.evict_list) [
    | none ↦ (c, none)
    | some e ↦ (remove_element c e, some (e.key, e.value))
  ]

module _ {K : Type 0} where
  -- `keys[i] = key` in an array of `nil`s; `none` is the panic of an index out of range.
  unfoldable pub write_key : List (Option K) → ℕ → K → Option (List (Option K))
  write_key [] i k = none
  write_key (x ∷ a) zero k = some (some k ∷ a)
  write_key (x ∷ a) (suc i) k = elim (write_key a i k) [ none ↦ none | some b ↦ some (x ∷ b) ]

module _ {K V : Type 0} where
  unfoldable pub get_oldest : Lru K V → Option (K × V)
  get_oldest c = elim (back c.evict_list) [ none ↦ none | some e ↦ some (e.key, e.value) ]

  unfoldable pub len : Lru K V → ℕ
  len c = length c.evict_list

  -- The calls of the callback for the pairs of the map, in the order in which Go visits them:
  -- the order of `items`, which nothing else in the model depends on.
  unfoldable pub purge_calls : List (K × ℕ) → List (Element K V) → List (K × V)
  purge_calls [] l = []
  purge_calls ((k, i) ∷ m) l = elim (find_element i l) [
    | none ↦ purge_calls m l
    | some e ↦ (k, e.value) ∷ purge_calls m l
  ]

  unfoldable pub purge : Lru K V → Lru K V
  unfolding purge_calls
  purge c = record c {
    evict_list = [];
    items = [];
    evicted = if c.notify then c.evicted ++ purge_calls c.items c.evict_list else c.evicted;
  }

  -- The loop of `Keys` over the elements that are left, from the back.
  unfoldable pub keys_loop : List (Element K V) → ℕ → List (Option K) → Option (List (Option K))
  keys_loop [] i a = some a
  keys_loop (e ∷ l) i a = elim (write_key a i e.key) [
    | none ↦ none
    | some b ↦ keys_loop l (i + 1) b
  ]

  unfoldable pub keys : Lru K V → Option (List (Option K))
  unfolding write_key keys_loop
  keys c = keys_loop (reverse c.evict_list) 0 (replicate (length c.items) none)
