-- ===== src/Shorten/Lru/Examples.antt =====
-- Runs of shorten/lru.go on caches from numbers to numbers.
use zhiya.Prelude.{
  ℕ, ◌≡◌, true, some, List, [], ◌∷◌, refl, reverse, map, length, ℕ_discrete, if◌then◌else◌, ◌++◌,
}
use zhiya.Shorten.Lru.{
  Element, Lru, new_lru, peek, contains, get_oldest, len, keys, purge, purge_calls, map_get,
  push_entry, drop_oldest, back, remove_element, unlink, map_delete, find_element, move_to_front,
  set_value,
}
use zhiya.Shorten.Lru
use zhiya.Shorten.Lru.Spec.{view, Call, lookup, spec_run, run, step, last}
use zhiya.Shorten.Lru.Valid.{IsValid}
use zhiya.Shorten.Lru.Refinement.{run-spec_run}
use zhiya.Shorten.Lru.Reads.{is_some, reads-view, purge-view}

abbrev empty_cache : Lru ℕ ℕ
empty_cache = record {
  size = 2;
  evict_list = [];
  items = [];
  next = 0;
  notify = true;
  evicted = [];
}

abbrev calls : List (Call ℕ ℕ)
calls = Call.add 1 10 ∷ Call.add 2 20 ∷ Call.get 1 ∷ Call.add 3 30 ∷ []

new_empty : new_lru 2 true ≡ some empty_cache
unfolding new_lru
new_empty = refl

abbrev used : Lru ℕ ℕ
used = (run ℕ_discrete empty_cache calls).0

run-spec_run_example :
    IsValid ℕ_discrete (run ℕ_discrete empty_cache calls).0
    × (view (run ℕ_discrete empty_cache calls).0.evict_list ≡ (spec_run ℕ_discrete 2 [] calls).0)
    × ((run ℕ_discrete empty_cache calls).1 ≡ (spec_run ℕ_discrete 2 [] calls).1)
run-spec_run_example = run-spec_run ℕ_discrete 2 true empty_cache calls new_empty

used-IsValid : IsValid ℕ_discrete used
used-IsValid = run-spec_run_example.0

-- The least recent pair, 2, was evicted and reported.
evicts_two : used.evicted ≡ (2, 20) ∷ []
unfolding run step Lru.add Lru.get Lru.map_get push_entry drop_oldest back remove_element unlink
    map_delete find_element move_to_front set_value ℕ_discrete
evicts_two = refl

reads-view_example :
    (peek ℕ_discrete used 3 ≡ lookup ℕ_discrete 3 (view used.evict_list))
    × (contains ℕ_discrete used 3 ≡ is_some (lookup ℕ_discrete 3 (view used.evict_list)))
    × (get_oldest used ≡ last (view used.evict_list))
    × (len used ≡ length (view used.evict_list))
    × (keys used ≡ some (map (λ p. some p.0) (reverse (view used.evict_list))))
reads-view_example = reads-view ℕ_discrete used used-IsValid 3

purge-view_example :
    IsValid ℕ_discrete (purge used)
    × (view (purge used).evict_list ≡ [])
    × ((k : ℕ)
        → lookup ℕ_discrete k (purge_calls used.items used.evict_list)
          ≡ lookup ℕ_discrete k (view used.evict_list))
    × ((purge used).evicted ≡ (
        if used.notify
        then used.evicted ++ purge_calls used.items used.evict_list
        else used.evicted))
purge-view_example = purge-view ℕ_discrete used used-IsValid
