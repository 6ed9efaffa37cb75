-- ===== src/Tests/Entries.antt =====
-- A small cache.
use ai_model_gateway.Base.{
  refl, ◌*◌, second, get, inr, ◌≡◌, pos, false, some, none, [], ◌∷◌, arith, ltb, since,
  if◌then◌else◌,
}
use ai_model_gateway.Cache.{
  Config, Cache, Entry, new_cache_with_config, put_value, get_value, new_entry, sweep_expired,
}
use ai_model_gateway.Cache.Expiry.{Swept, sweep_expired-Swept}
use ai_model_gateway.Cache.Invariant.{IsValid, new_cache-IsValid}
use ai_model_gateway.Cache.Storing.{put_value-IsValid, Stored, put_value-Stored}
use ai_model_gateway.Cache.Reads.{Answered, get_value-Answered, get-put_value}

abbrev small : Config
small = record {
  max_entries = pos 2;
  ttl_sec = pos 60;
  max_bytes = pos 4;
  sweep_interval = pos 0;
  sweep_on_get = false;
}

abbrev cache : Cache
cache = new_cache_with_config small

abbrev filled : Cache
filled = put_value (put_value cache "a" (1 ∷ 2 ∷ []) 1) "b" (3 ∷ []) 2

filled-IsValid : IsValid filled
filled-IsValid =
    put_value-IsValid _ "b" (3 ∷ []) 2
      (put_value-IsValid cache "a" (1 ∷ 2 ∷ []) 1 (new_cache-IsValid small))

put_value-IsValid_example : IsValid (put_value filled "c" (4 ∷ 5 ∷ []) 3)
put_value-IsValid_example = put_value-IsValid filled "c" (4 ∷ 5 ∷ []) 3 filled-IsValid

put_value-Stored_example :
    Stored filled (put_value filled "c" (4 ∷ 5 ∷ []) 3) (new_entry "c" (4 ∷ 5 ∷ []) 3)
put_value-Stored_example = put_value-Stored filled "c" (4 ∷ 5 ∷ []) 3 filled-IsValid (omega arith)

get_value-Answered_example : Answered filled "a" 5 (get_value filled "a" 5)
get_value-Answered_example = get_value-Answered filled "a" 5 filled-IsValid

get-put_value_example :
    (get_value (put_value filled "c" (4 ∷ 5 ∷ []) 3) "c" 9).1
    ≡ (if ltb filled.ttl (since 9 3) then none else some (4 ∷ 5 ∷ []))
get-put_value_example = get-put_value filled "c" (4 ∷ 5 ∷ []) 3 9 filled-IsValid (omega arith)

sweep_expired-Swept_example : Swept filled 90 (sweep_expired filled 90)
sweep_expired-Swept_example = sweep_expired-Swept filled 90 filled-IsValid

-- a value above the byte limit, which stands alone
abbrev oversized_entry : Entry
oversized_entry = record { key = "a"; value = 1 ∷ 2 ∷ 3 ∷ 4 ∷ 5 ∷ []; bytes = 5; cached_at = 1 }

abbrev oversized : Cache
oversized = record {
  entries = ("a", oversized_entry) ∷ [];
  lru = oversized_entry ∷ [];
  max_items = 2;
  ttl = 60 * second;
  max_bytes = 4;
  current_bytes = 5;
  hits = 0;
  misses = 0;
  evictions = 0;
  sweep_interval = 30 * second;
  sweep_on_get = false;
}

oversized-IsValid : IsValid oversized
unfolding get
oversized-IsValid = record {
  distinct = (refl, tt);
  unique = (refl, tt);
  agree = λ k. refl;
  counted = refl;
  positive = omega arith;
  bounded = omega arith;
  within = λ h. inr (omega arith);
}
