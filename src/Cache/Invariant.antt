-- ===== src/Cache/Invariant.antt =====
-- What holds of the cache between two calls, and that every method keeps it.
use ai_model_gateway.Base.{
  ℕ, zero, suc, ◌≤◌, ◌<◌, ◌≡◌, refl, String, Option, none, some, arith, if_intro, length, inl, ◌⊎◌,
  leb, get, get-delete, Unique, delete-Unique,
}
use ai_model_gateway.Cache.{
  Entry, Config, Cache, new_cache_with_config, remove_entry, evict, back, evict_back,
  evict_by_count, over_bytes, evict_by_bytes, remove_found, make_room,
}
use ai_model_gateway.Cache.Entries.{
  find_key, Distinct, byte_sum, find_key-key, find_key-without, without-Distinct, byte_sum-without,
  length-without-le, back-find_key,
}

-- The map and the list hold the same entries, under distinct keys; the bytes are counted; the
-- number of entries is bounded, and so are the bytes, but for a single entry.
pub record IsValid (c : Cache) : Type 0 where
  pub distinct : Distinct c.lru
  pub unique : Unique c.entries
  pub agree : (k : String) → get c.entries k ≡ find_key c.lru k
  pub counted : c.current_bytes ≡ byte_sum c.lru
  pub positive : 0 < c.max_items
  pub bounded : length c.lru ≤ c.max_items
  pub within : 0 < c.max_bytes → (c.current_bytes ≤ c.max_bytes) ⊎ (length c.lru ≤ 1)

-- the constructor makes a valid, empty cache
pub new_cache-IsValid : (cfg : Config) → IsValid (new_cache_with_config cfg)
unfolding new_cache_with_config get
new_cache-IsValid cfg = record {
  distinct = tt;
  unique = tt;
  agree = λ k. refl;
  counted = refl;
  positive = ground arith;
  bounded = omega arith;
  within = λ h. inl (omega arith);
}

-- the eviction counter is no part of the invariant
pub IsValid-evictions : (c : Cache) (n : ℕ) → IsValid c → IsValid (record c { evictions = n })
IsValid-evictions c n v = record {
  distinct = v.distinct;
  unique = v.unique;
  agree = v.agree;
  counted = v.counted;
  positive = v.positive;
  bounded = v.bounded;
  within = v.within;
}

module _ (c : Cache) (v : IsValid c) where
  pub remove_entry-IsValid :
      (e : Entry) → find_key c.lru e.key ≡ some e → IsValid (remove_entry e c)
  unfolding remove_entry
  remove_entry-IsValid e h = record {
    distinct = without-Distinct c.lru e.key v.distinct;
    unique = delete-Unique c.entries e.key v.unique;
    agree = λ k.
        ground (arith, get-delete c.entries e.key k, find_key-without c.lru e.key k, v.agree k);
    counted = omega (arith, byte_sum-without e.key e c.lru v.distinct h, v.counted);
    positive = v.positive;
    bounded = omega (arith, length-without-le c.lru e.key, v.bounded);
    within = λ p. ground (arith, v.within p, length-without-le c.lru e.key);
  }

  pub evict-IsValid : (e : Entry) → find_key c.lru e.key ≡ some e → IsValid (evict e c)
  unfolding evict
  evict-IsValid e h = IsValid-evictions (remove_entry e c) _ (remove_entry-IsValid e h)

  pub evict_back-IsValid : (o : Option Entry) → back c.lru ≡ o → IsValid (evict_back o c)
  unfolding evict_back
  evict_back-IsValid none h = v
  evict_back-IsValid (some e) h = evict-IsValid e (back-find_key c.lru e v.distinct h)

  pub remove_found-IsValid :
      (o : Option Entry) (k : String) → get c.entries k ≡ o → IsValid (remove_found o c)
  unfolding remove_found
  remove_found-IsValid none k h = v
  remove_found-IsValid (some e) k h =
      remove_entry-IsValid e (ground (arith, v.agree k, find_key-key c.lru k e))

pub evict_by_count-IsValid : (fuel : ℕ) (c : Cache) → IsValid c → IsValid (evict_by_count fuel c)
unfolding evict_by_count
evict_by_count-IsValid zero c v = v
evict_by_count-IsValid (suc fuel) c v =
    if_intro IsValid (leb c.max_items (length c.lru))
      (λ _.
        evict_by_count-IsValid fuel (evict_back (back c.lru) c)
          (evict_back-IsValid c v (back c.lru) refl))
      (λ _. v)

pub evict_by_bytes-IsValid :
    (n fuel : ℕ) (c : Cache) → IsValid c → IsValid (evict_by_bytes n fuel c)
unfolding evict_by_bytes
evict_by_bytes-IsValid n zero c v = v
evict_by_bytes-IsValid n (suc fuel) c v =
    if_intro IsValid (over_bytes n c)
      (λ _.
        evict_by_bytes-IsValid n fuel (evict_back (back c.lru) c)
          (evict_back-IsValid c v (back c.lru) refl))
      (λ _. v)

pub make_room-IsValid : (c : Cache) (key : String) (n : ℕ) → IsValid c → IsValid (make_room c key n)
unfolding make_room
make_room-IsValid c key n v =
    let cleared = remove_found-IsValid c v (get c.entries key) key refl in
    evict_by_bytes-IsValid n _ _ (evict_by_count-IsValid _ _ cleared)
