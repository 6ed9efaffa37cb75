-- ===== src/Cache/Reads.antt =====
-- What a client reads from the cache.
use ai_model_gateway.Base.{
  ℕ, ◌+◌, ◌<◌, ◌≡◌, ◌∙◌, refl, ap, sym, String, true, false, Option, none, some, List, ◌∷◌, arith,
  eq_iff, if◌then◌else◌, length, if_intro, since, get, Time, Duration, ltb,
}
use ai_model_gateway.Cache.{
  Entry, Cache, without, remove_entry, is_expired, evict, get_found, get_value, new_entry,
  put_value,
}
use ai_model_gateway.Cache.Entries.{
  find_key, find_key-key, find_key-without, without_absent, without-Distinct, byte_sum-without,
  length-without,
}
use ai_model_gateway.Cache.Invariant.{IsValid, evict-IsValid}
use ai_model_gateway.Cache.Storing.{Stored, put_value-Stored, put_value-IsValid}

-- the value that a read of the key at the time is due
abbrev pub due_value : Duration → Time → Option Entry → Option (List ℕ)
due_value ttl now none = none
due_value ttl now (some e) = if is_expired ttl now e then none else some e.value

abbrev pub view : Cache → String → Time → Option (List ℕ)
view c k now = due_value c.ttl now (find_key c.lru k)

-- What one `Get` is to do: it returns what the key is due and changes no key's view; it counts as
-- a hit or as a miss; a hit has its entry at the front of the list, and a miss no entry in it.
pub record Answered (c : Cache) (key : String) (now : Time) (r : Cache × Option (List ℕ))
    : Type 0 where
  pub value : r.1 ≡ view c key now
  pub views : (j : String) → view r.0 j now ≡ view c j now
  pub valid : IsValid r.0
  pub hit :
      (x : List ℕ)
      → view c key now ≡ some x
      → (r.0.hits ≡ c.hits + 1)
        × (r.0.misses ≡ c.misses)
        × (r.0.evictions ≡ c.evictions)
        × (e : Entry) × (find_key c.lru key ≡ some e)
        × (r.0.lru ≡ e ∷ without key c.lru)
  pub missed :
      view c key now ≡ none
      → (r.0.hits ≡ c.hits) × (r.0.misses ≡ c.misses + 1) × (r.0.lru ≡ without key c.lru)

missed-IsValid : (c : Cache) → IsValid c → IsValid (record c { misses = c.misses + 1 })
missed-IsValid c v = record {
  distinct = v.distinct;
  unique = v.unique;
  agree = v.agree;
  counted = v.counted;
  positive = v.positive;
  bounded = v.bounded;
  within = v.within;
}

module _ (c : Cache) (key : String) (now : Time) (v : IsValid c) where
  Answered-none :
      find_key c.lru key ≡ none → Answered c key now (record c { misses = c.misses + 1 }, none)
  Answered-none h = record {
    value = rw h;
    views = λ j. refl;
    valid = missed-IsValid c v;
    hit = λ x e. ground arith;
    missed = λ e. (refl, refl, sym (without_absent c.lru key h));
  }

  module _ (e : Entry) (at : find_key c.lru key ≡ some e) where
    named : e.key ≡ key
    named = find_key-key c.lru key e at

    held : find_key c.lru e.key ≡ some e
    held = ap (find_key c.lru) named ∙ at

    Answered-expired :
        is_expired c.ttl now e ≡ true
        → Answered c key now (evict e (record c { misses = c.misses + 1 }), none)
    unfolding evict remove_entry
    Answered-expired old = record {
      value = rw (at, old);
      views = λ j. ground (arith, find_key-without c.lru e.key j, eq_iff e.key j, named);
      valid = unfold evict remove_entry in evict-IsValid _ (missed-IsValid c v) e held;
      hit = λ x p. ground arith;
      missed = λ p. (refl, refl, ap (λ (k : String). without k c.lru) named);
    }

    promoted-IsValid : IsValid (record c { lru = e ∷ without e.key c.lru; hits = c.hits + 1 })
    promoted-IsValid = record {
      distinct = (
        ground (arith, find_key-without c.lru e.key e.key, eq_iff e.key e.key),
        without-Distinct c.lru e.key v.distinct,
      );
      unique = v.unique;
      agree = λ k. ground (arith, v.agree k, find_key-without c.lru e.key k, eq_iff e.key k, held);
      counted = omega (arith, v.counted, byte_sum-without e.key e c.lru v.distinct held);
      positive = v.positive;
      bounded = omega (arith, v.bounded, length-without e.key e c.lru v.distinct held);
      within = λ h. ground (arith, v.within h, length-without e.key e c.lru v.distinct held);
    }

    Answered-fresh :
        is_expired c.ttl now e ≡ false
        → Answered c key now
            (record c { lru = e ∷ without e.key c.lru; hits = c.hits + 1 }, some e.value)
    Answered-fresh new = record {
      value = rw (at, new);
      views = λ j. ground (arith, find_key-without c.lru e.key j, eq_iff e.key j, named, at);
      valid = promoted-IsValid;
      hit = λ x p. (refl, refl, refl, e, at, ap (λ (k : String). e ∷ without k c.lru) named);
      missed = λ p. ground arith;
    }

  get_found-Answered :
      (o : Option Entry) → find_key c.lru key ≡ o → Answered c key now (get_found o c now)
  unfolding get_found
  get_found-Answered none h = Answered-none h
  get_found-Answered (some e) h =
      if_intro (Answered c key now) (is_expired c.ttl now e) (Answered-expired e h)
        (Answered-fresh e h)

  -- `Get` on a valid cache: it returns the value of the key's entry, unless there is none or it
  -- has outlived the TTL. The cache stays valid and no key's view changes. A hit counts as one
  -- and moves the entry to the front; a miss counts as one and leaves no entry of the key.
  pub get_value-Answered : Answered c key now (get_value c key now)
  unfolding get_value
  get_value-Answered = get_found-Answered (get c.entries key) (sym (v.agree key))

-- In a valid cache, a value that is not empty is read back after it was stored until its TTL has
-- passed, and then no more.
pub get-put_value :
    (c : Cache) (key : String) (value : List ℕ) (now later : Time)
    → IsValid c
    → 0 < length value
    → (get_value (put_value c key value now) key later).1
      ≡ (if ltb c.ttl (since later now) then none else some value)
get-put_value c key value now later v h =
    let s = put_value-Stored c key value now v h in
    let c' = put_value c key value now in
    let a = get_value-Answered c' key later (put_value-IsValid c key value now v) in a.value ∙ due s
  where
    due :
        {c' : Cache}
        → Stored c c' (new_entry key value now)
        → view c' key later ≡ (if ltb c.ttl (since later now) then none else some value)
    due {c'} s = rw (s.lru, s.ttl) (unfold new_entry is_expired in ground (arith, eq_iff key key))
