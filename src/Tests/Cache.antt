-- ===== src/Tests/Cache.antt =====
-- A cache with room for two entries.
use mini_kvstore.Prelude.{ℕ, ◌≡◌, none, some, take, arith, nat_key}
use mini_kvstore.UnorderedMap.{find, touch, erase}
use mini_kvstore.LruCache.{Cache, init, get, put, remove}
use mini_kvstore.LruCache.Links.{IsValid}
use mini_kvstore.LruCache.Valid.{recency, init-IsValid, get_lem, put_lem, remove_lem}
use mini_kvstore.LruCache.Cached.{get-put_self}

-- The keys 1 and 2, of which 2 was used last.
abbrev two_keys : Cache ℕ ℕ
two_keys = put (put (init 2) 1 10) 2 20

two_keys-IsValid : IsValid two_keys
two_keys-IsValid = (put_lem (put (init 2) 1 10) 2 20 (put_lem (init 2) 1 10 (init-IsValid 2)).0).0

put_lem_example :
    IsValid (put two_keys 3 30)
    × (recency (put two_keys 3 30) ≡ take two_keys.capacity (touch 3 30 (recency two_keys)))
    × ((put two_keys 3 30).capacity ≡ two_keys.capacity)
put_lem_example = put_lem two_keys 3 30 two_keys-IsValid

get_lem_example :
    IsValid (get two_keys 1).0
    × ((get two_keys 1).1 ≡ find 1 (recency two_keys))
    × (recency (get two_keys 1).0 ≡ (elim (find 1 (recency two_keys)) [
      | none ↦ recency two_keys
      | some v ↦ touch 1 v (recency two_keys)
    ]))
    × ((get two_keys 1).0.capacity ≡ two_keys.capacity)
get_lem_example = get_lem two_keys 1 two_keys-IsValid

remove_lem_example :
    IsValid (remove two_keys 1)
    × (recency (remove two_keys 1) ≡ erase 1 (recency two_keys))
    × ((remove two_keys 1).capacity ≡ two_keys.capacity)
remove_lem_example = remove_lem two_keys 1 two_keys-IsValid

abbrev no_keys : Cache ℕ ℕ
no_keys = init 2

get-put_self_example : (get (put no_keys 1 10) 1).1 ≡ some 10
unfolding init
get-put_self_example = get-put_self no_keys 1 10 (init-IsValid 2) (omega arith)
