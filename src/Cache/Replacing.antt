-- ===== src/Cache/Replacing.antt =====
-- How `Put` removes the old entry of its key and makes room.
use ai_model_gateway.Base.{
  ℕ, zero, suc, ◌+◌, ◌-◌, ◌≤◌, ◌<◌, ◌≡◌, refl, ap, sym, String, Option, none, some, List, [], ◌∷◌,
  arith, eq_iff, length, ◌⊎◌, get, get-put, put-Unique,
}
use ai_model_gateway.Cache.{
  Entry, Cache, without, remove_entry, over_bytes, evict_by_count, remove_found, insert_entry,
  make_room,
}
use ai_model_gateway.Cache.Entries.{
  find_key, drop_last, find_key-key, find_key-without, without_absent, length-drop_last,
}
use ai_model_gateway.Cache.Invariant.{IsValid, remove_found-IsValid, evict_by_count-IsValid}
use ai_model_gateway.Cache.Eviction.{
  drop_back, Evicted, FitsBytes, evict_by_count-Evicted, evict_by_bytes-FitsBytes,
}

-- the cache with the old entry of the key removed
abbrev pub cleared : Cache → String → Cache
cleared c key = remove_found (get c.entries key) c

abbrev pub counted : Cache → String → Cache
counted c key = evict_by_count (length (cleared c key).lru) (cleared c key)

remove_found-lru :
    (c : Cache) (key : String) (o : Option Entry)
    → find_key c.lru key ≡ o
    → (remove_found o c).lru ≡ without key c.lru
unfolding remove_found remove_entry
remove_found-lru c key none h = sym (without_absent c.lru key h)
remove_found-lru c key (some e) h =
    ap (λ (k : String). without k c.lru) (find_key-key c.lru key e h)

pub remove_found-same :
    (c : Cache) (o : Option Entry)
    → ((remove_found o c).evictions ≡ c.evictions)
      × ((remove_found o c).max_items ≡ c.max_items)
      × ((remove_found o c).max_bytes ≡ c.max_bytes)
      × ((remove_found o c).ttl ≡ c.ttl)
unfolding remove_found remove_entry
remove_found-same c none = (refl, refl, refl, refl)
remove_found-same c (some e) = (refl, refl, refl, refl)

drop_last-absent :
    (l : List Entry) (k : String) → find_key l k ≡ none → find_key (drop_last l) k ≡ none
drop_last-absent [] k h = refl
drop_last-absent (e ∷ []) k h = refl
drop_last-absent (e ∷ f ∷ l) k h = ground (arith, drop_last-absent (f ∷ l) k)

drop_back-absent :
    (n : ℕ) (l : List Entry) (k : String) → find_key l k ≡ none → find_key (drop_back n l) k ≡ none
drop_back-absent zero l k h = h
drop_back-absent (suc n) l k h = drop_back-absent n (drop_last l) k (drop_last-absent l k h)

pub length-drop_back : (n : ℕ) (l : List Entry) → length (drop_back n l) ≡ length l - n
length-drop_back zero l = omega arith
length-drop_back (suc n) [] = omega (arith, length-drop_back n [])
length-drop_back (suc n) (e ∷ l) =
    omega (arith, length-drop_back n (drop_last (e ∷ l)), length-drop_last (e ∷ l) (omega arith))

module _ (c : Cache) (key : String) (n : ℕ) (v : IsValid c) where
  cleared-IsValid : IsValid (cleared c key)
  cleared-IsValid = remove_found-IsValid c v (get c.entries key) key refl

  pub cleared-lru : (cleared c key).lru ≡ without key c.lru
  cleared-lru = remove_found-lru c key (get c.entries key) (sym (v.agree key))

  -- the two loops run to their ends
  pub after_count :
      Evicted
        (length (cleared c key).lru + 1 - (cleared c key).max_items)
        (cleared c key)
        (counted c key)
  after_count = evict_by_count-Evicted _ (cleared c key) cleared-IsValid (omega arith)

  counted-IsValid : IsValid (counted c key)
  counted-IsValid = evict_by_count-IsValid _ (cleared c key) cleared-IsValid

  pub after_bytes : FitsBytes n (counted c key) (make_room c key n)
  unfolding make_room
  after_bytes = evict_by_bytes-FitsBytes n _ (counted c key) counted-IsValid (omega arith)

  pub absent : find_key (make_room c key n).lru key ≡ none
  absent =
      rw (after_bytes.evicted.lru, after_count.lru)
        (drop_back-absent after_bytes.count _ key (
          drop_back-absent (length (cleared c key).lru + 1 - (cleared c key).max_items)
            (cleared c key).lru key
            (rw cleared-lru (ground (arith, find_key-without c.lru key key, eq_iff key key)))))

  counted_length : length (counted c key).lru < (counted c key).max_items
  counted_length = omega (
    arith,
    ap (λ (l : List Entry). length l) after_count.lru,
    length-drop_back (length (cleared c key).lru + 1 - (cleared c key).max_items)
        (cleared c key).lru,
    after_count.max_items,
    cleared-IsValid.positive,
  )

  pub has_room : length (make_room c key n).lru < (make_room c key n).max_items
  has_room = omega (
    arith,
    ap (λ (l : List Entry). length l) after_bytes.evicted.lru,
    length-drop_back after_bytes.count (counted c key).lru,
    after_bytes.evicted.max_items,
    counted_length,
  )

  pub bytes_room :
      0 < (make_room c key n).max_bytes
      → ((make_room c key n).current_bytes + n ≤ (make_room c key n).max_bytes)
        ⊎ (length (make_room c key n).lru ≡ 0)
  unfolding over_bytes
  bytes_room h = ground (arith, after_bytes.fits)

module _ (c : Cache) (e : Entry) (v : IsValid c) where
  pub insert_entry-IsValid :
      find_key c.lru e.key ≡ none
      → length c.lru < c.max_items
      → (0 < c.max_bytes → (c.current_bytes + e.bytes ≤ c.max_bytes) ⊎ (length c.lru ≡ 0))
      → IsValid (insert_entry e c)
  unfolding insert_entry
  insert_entry-IsValid new room fits = record {
    distinct = (new, v.distinct);
    unique = put-Unique c.entries e.key e v.unique;
    agree = λ k. ground (arith, get-put c.entries e.key k e, v.agree k);
    counted = omega (arith, v.counted);
    positive = v.positive;
    bounded = omega arith;
    within = λ h. ground (arith, fits h);
  }
