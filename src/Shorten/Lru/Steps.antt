-- ===== src/Shorten/Lru/Steps.antt =====
-- shorten/lru.go: what one step does to the list, and that it keeps the invariant.
use zhiya.Prelude.{ℕ, ◌<◌, ◌≡◌, ap, ◌∙◌, none, some, List, [], ◌∷◌, arith}
use zhiya.Shorten.Lru.{
  Element, Lru, find_element, move_to_front, map_get, map_delete, remove_element, push_entry,
}
use zhiya.Shorten.Lru.Elements.{
  find_key, AreDistinct, drop_key, find_key-key, find_element-find_key, unlink-drop_key,
  find_key-drop_key, AreDistinct-drop_key, length-drop_key,
}
use zhiya.Shorten.Lru.Map.{map_get-map_delete, IsMap-map_delete, length-map_delete}
use zhiya.Shorten.Lru.Valid.{
  AreBelow, IsLinked, id_of, find_element-fresh, AreBelow-suc, AreBelow-drop_key,
}

module _ {K V : Type 0} (dec : Discrete K) where
  module _ (k : K) (l : List (Element K V)) (e : Element K V) (d : AreDistinct dec l)
      (h : find_key dec k l ≡ some e) where
    pub move_to_front-drop_key : move_to_front e.id l ≡ e ∷ drop_key dec k l
    unfolding move_to_front
    move_to_front-drop_key =
        rw (find_element-find_key dec k l e d h, move_to_front)
          (ap (◌∷◌ e) (unlink-drop_key dec k l e d h))

    -- The other elements do not have its key or its pointer.
    find_key_dropped : find_key dec e.key (drop_key dec k l) ≡ none
    find_key_dropped = ground (arith, find_key-drop_key dec e.key k l d, find_key-key dec k l e h)

  find_element_dropped :
      (k : K) (l : List (Element K V)) (e : Element K V)
      → AreDistinct dec l
      → find_key dec k l ≡ some e
      → find_element e.id (drop_key dec k l) ≡ none
  unfolding find_key find_element drop_key
  find_element_dropped k [] e d h = cc
  find_element_dropped k (f ∷ l) e d h =
      ground (arith, find_element_dropped k l e d.2, find_element-find_key dec k l e d.2)

  AreBelow-id :
      (k : K) (n : ℕ) (l : List (Element K V)) (e : Element K V)
      → AreBelow n l
      → find_key dec k l ≡ some e
      → e.id < n
  unfolding find_key
  AreBelow-id k n [] e b h = cc
  AreBelow-id k n (f ∷ l) e b h = ground (arith, AreBelow-id k n l e b.1)

  -- An element that a key finds moves to the front, perhaps with a new value.
  pub touched-IsLinked :
      (c : Lru K V) (k : K) (e : Element K V) (v : V)
      → IsLinked dec c
      → find_key dec k c.evict_list ≡ some e
      → IsLinked dec
          (record c { evict_list = record e { value = v } ∷ drop_key dec k c.evict_list })
  unfolding find_key
  touched-IsLinked c k e v t h = record {
    distinct = (
      find_key_dropped k c.evict_list e t.distinct h,
      find_element_dropped k c.evict_list e t.distinct h,
      AreDistinct-drop_key dec k c.evict_list t.distinct,
    );
    unique = t.unique;
    counted = omega (arith, t.counted, length-drop_key dec k c.evict_list e h);
    linked = λ j. ground (
      arith,
      t.linked j,
      find_key-drop_key dec j k c.evict_list t.distinct,
      find_key-key dec k c.evict_list e h,
    );
    fresh = (
      AreBelow-id k c.next c.evict_list e t.fresh h,
      AreBelow-drop_key dec k c.next c.evict_list t.fresh,
    );
  }

  removed-IsLinked :
      (c : Lru K V) (e : Element K V)
      → IsLinked dec c
      → find_key dec e.key c.evict_list ≡ some e
      → IsLinked dec (record c {
        evict_list = drop_key dec e.key c.evict_list;
        items = map_delete dec e.key c.items;
      })
  removed-IsLinked c e t h = record {
    distinct = AreDistinct-drop_key dec e.key c.evict_list t.distinct;
    unique = IsMap-map_delete dec e.key c.items t.unique;
    counted = omega (
      arith,
      t.counted,
      length-drop_key dec e.key c.evict_list e h,
      length-map_delete dec e.key c.items e.id (t.linked e.key ∙ ap id_of h),
    );
    linked = λ j. ground (
      arith,
      t.linked j,
      find_key-drop_key dec j e.key c.evict_list t.distinct,
      map_get-map_delete dec j e.key c.items t.unique,
    );
    fresh = AreBelow-drop_key dec e.key c.next c.evict_list t.fresh;
  }

  -- `removeElement` of an element that its key finds.
  pub remove_element-IsLinked :
      (c : Lru K V) (e : Element K V)
      → IsLinked dec c
      → find_key dec e.key c.evict_list ≡ some e
      → IsLinked dec (remove_element dec c e)
  unfolding remove_element
  remove_element-IsLinked c e t h =
      let r = removed-IsLinked c e t h in
      let u = unlink-drop_key dec e.key c.evict_list e t.distinct h in
      record {
        distinct = rw u r.distinct;
        unique = r.unique;
        counted = rw u r.counted;
        linked = λ j. rw u (r.linked j);
        fresh = rw u r.fresh;
      }

  -- A new element for a key that the map does not have.
  pub push_entry-IsLinked :
      (c : Lru K V) (k : K) (v : V)
      → IsLinked dec c
      → map_get dec k c.items ≡ none
      → IsLinked dec (push_entry dec c k v)
  unfolding push_entry find_key map_get
  push_entry-IsLinked c k v t h = record {
    distinct =
        (ground (arith, t.linked k), find_element-fresh c.next c.evict_list t.fresh, t.distinct);
    unique = (h, t.unique);
    counted = omega (arith, t.counted);
    linked = λ j. ground (arith, t.linked j);
    fresh = (omega arith, AreBelow-suc c.next c.evict_list t.fresh);
  }
