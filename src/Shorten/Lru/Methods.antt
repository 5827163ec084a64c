-- ===== src/Shorten/Lru/Methods.antt =====
-- shorten/lru.go: what each method computes on a cache whose map fits its list.
use zhiya.Prelude.{
  suc, ◌≡◌, ap, ◌∙◌, true, false, none, some, List, ◌∷◌, arith, length, ltb, if◌then◌else◌,
}
use zhiya.Shorten.Lru.{
  Element, Lru, find_element, move_to_front, set_value, map_get, remove_element, drop_oldest,
  push_entry, add, get, contains, peek, remove,
}
use zhiya.Shorten.Lru.Elements.{find_key, drop_key, find_element-find_key}
use zhiya.Shorten.Lru.Steps.{move_to_front-drop_key}
use zhiya.Shorten.Lru.Valid.{IsLinked, id_of}

module _ {K V : Type 0} where
  set_value_self :
      (e : Element K V) (l : List (Element K V)) (v : V)
      → set_value e.id v (e ∷ l) ≡ record e { value = v } ∷ l
  unfolding set_value
  set_value_self e l v = ground arith

  find_element_self :
      (e : Element K V) (l : List (Element K V)) → find_element e.id (e ∷ l) ≡ some e
  unfolding find_element
  find_element_self e l = ground arith

module _ {K V : Type 0} (dec : Discrete K) (c : Lru K V) (t : IsLinked dec c) (k : K) where
  module _ (e : Element K V) (h : find_key dec k c.evict_list ≡ some e) where
    map_get_hit : map_get dec k c.items ≡ some e.id
    map_get_hit = t.linked k ∙ ap id_of h

    touched : move_to_front e.id c.evict_list ≡ e ∷ drop_key dec k c.evict_list
    touched = move_to_front-drop_key dec k c.evict_list e t.distinct h

    pub add_hit :
        (v : V)
        → add dec c k v
          ≡ (record c { evict_list = record e { value = v } ∷ drop_key dec k c.evict_list }, false)
    unfolding add
    add_hit v = rw (map_get_hit, add, touched, set_value_self)

    pub get_hit :
        get dec c k ≡ (record c { evict_list = e ∷ drop_key dec k c.evict_list }, some e.value)
    unfolding get
    get_hit = rw (map_get_hit, get, touched, find_element_self)

    pub peek_hit : peek dec c k ≡ some e.value
    unfolding peek
    peek_hit = rw (map_get_hit, peek, find_element-find_key dec k c.evict_list e t.distinct h)

    pub contains_hit : contains dec c k ≡ true
    unfolding contains
    contains_hit = rw (map_get_hit, contains)

    pub remove_hit : remove dec c k ≡ (remove_element dec c e, true)
    unfolding remove
    remove_hit = rw (map_get_hit, remove, find_element-find_key dec k c.evict_list e t.distinct h)

  module _ (h : find_key dec k c.evict_list ≡ none) where
    pub map_get_miss : map_get dec k c.items ≡ none
    map_get_miss = t.linked k ∙ ap id_of h

    pub add_miss :
        (v : V)
        → add dec c k v ≡ (
          if ltb c.size (suc (length c.evict_list))
              then drop_oldest dec (push_entry dec c k v)
              else push_entry dec c k v,
          ltb c.size (suc (length c.evict_list)),
        )
    unfolding add push_entry
    add_miss v = rw (map_get_miss, add)

    pub get_miss : get dec c k ≡ (c, none)
    unfolding get
    get_miss = rw (map_get_miss, get)

    pub peek_miss : peek dec c k ≡ none
    unfolding peek
    peek_miss = rw (map_get_miss, peek)

    pub contains_miss : contains dec c k ≡ false
    unfolding contains
    contains_miss = rw (map_get_miss, contains)

    pub remove_miss : remove dec c k ≡ (c, false)
    unfolding remove
    remove_miss = rw (map_get_miss, remove)
