-- ===== src/Cache.antt =====
-- internal/gateway/cache/cache.go: the response cache, an LRU list and a map over the same
-- entries. An entry never changes once it is made, so that the map and the list hold copies of
-- it; `list.Remove` of an entry's element is the removal by its key, which no other entry of the
-- list has. The mutex makes each method atomic; counters are not bounded.
pub mod Entries
pub mod Invariant
pub mod Eviction
pub mod Storing
pub mod Replacing
pub mod Reads
pub mod Sweeping
pub mod Expiry
pub mod Shrinking
use ai_model_gateway.Base.{
  ℕ, zero, suc, ◌+◌, ◌-◌, ◌*◌, ℤ, pos, negsuc, is_pos, max_zero, String, Bool, true, false, not,
  ◌&&◌, Option, none, some, List, [], ◌∷◌, leb, ltb, if◌then◌else◌, ◌==◌, length, keep, str_eq, Map,
  get, put, delete, Time, Duration, second, since,
}

pub record Entry : Type 0 where
  pub key : String
  pub value : List ℕ
  pub bytes : ℕ
  pub cached_at : Time

pub record Config : Type 0 where
  pub max_entries : ℤ
  pub ttl_sec : ℤ
  pub max_bytes : ℤ
  pub sweep_interval : ℤ
  pub sweep_on_get : Bool

-- `lru` has the most recently used entry first; a `max_bytes` of 0 is no limit
pub record Cache : Type 0 where
  pub entries : Map Entry
  pub lru : List Entry
  pub max_items : ℕ
  pub ttl : Duration
  pub max_bytes : ℕ
  pub current_bytes : ℕ
  pub hits : ℕ
  pub misses : ℕ
  pub evictions : ℕ
  pub sweep_interval : Duration
  pub sweep_on_get : Bool

pub or_default : ℤ → ℕ → ℕ
or_default n d = if is_pos n then max_zero n else d

-- NewCacheWithConfig, less the start of the sweeping goroutine
pub new_cache_with_config : Config → Cache
unfolding or_default
new_cache_with_config cfg = record {
  entries = [];
  lru = [];
  max_items = or_default cfg.max_entries 1000;
  ttl = or_default cfg.ttl_sec 300 * second;
  max_bytes = max_zero cfg.max_bytes;
  current_bytes = 0;
  hits = 0;
  misses = 0;
  evictions = 0;
  sweep_interval = or_default cfg.sweep_interval (30 * second);
  sweep_on_get = cfg.sweep_on_get;
}

-- the list without the element of the entry with the key
pub without : String → List Entry → List Entry
without k [] = []
without k (e ∷ l) = let rest = without k l in if str_eq e.key k then rest else e ∷ rest

-- removeEntry
pub remove_entry : Entry → Cache → Cache
remove_entry e c = record c {
  entries = delete c.entries e.key;
  lru = without e.key c.lru;
  current_bytes = c.current_bytes - e.bytes;
}

pub is_expired : Duration → Time → Entry → Bool
unfolding since
is_expired ttl now e = ltb ttl (since now e.cached_at)

pub evict : Entry → Cache → Cache
evict e c = let r = remove_entry e c in record r { evictions = r.evictions + 1 }

pub get_found : Option Entry → Cache → Time → Cache × Option (List ℕ)
get_found none c now = (record c { misses = c.misses + 1 }, none)
get_found (some e) c now =
    if is_expired c.ttl now e
    then (evict e (record c { misses = c.misses + 1 }), none)
    else (record c { lru = e ∷ without e.key c.lru; hits = c.hits + 1 }, some e.value)

-- Get
pub get_value : Cache → String → Time → Cache × Option (List ℕ)
unfolding get_found
get_value c key now = get_found (get c.entries key) c now

-- `c.lru.Back()`
pub back : List Entry → Option Entry
back [] = none
back (e ∷ []) = some e
back (e ∷ f ∷ l) = back (f ∷ l)

pub evict_back : Option Entry → Cache → Cache
evict_back none c = c
evict_back (some e) c = evict e c

-- `for c.lru.Len() >= c.maxItems`, with fuel
pub evict_by_count : ℕ → Cache → Cache
evict_by_count zero c = c
evict_by_count (suc fuel) c =
    let rest = evict_by_count fuel (evict_back (back c.lru) c) in
    if leb c.max_items (length c.lru) then rest else c

pub over_bytes : ℕ → Cache → Bool
over_bytes new_bytes c = ltb 0 c.max_bytes && ltb c.max_bytes (c.current_bytes + new_bytes)

-- `for c.maxBytes > 0 && c.currentBytes.Load()+newBytes > c.maxBytes`, with fuel; it breaks where
-- the list is empty
pub evict_by_bytes : ℕ → ℕ → Cache → Cache
evict_by_bytes new_bytes zero c = c
evict_by_bytes new_bytes (suc fuel) c =
    let rest = evict_by_bytes new_bytes fuel (evict_back (back c.lru) c) in
    if over_bytes new_bytes c then rest else c

pub remove_found : Option Entry → Cache → Cache
remove_found none c = c
remove_found (some e) c = remove_entry e c

pub insert_entry : Entry → Cache → Cache
insert_entry e c = record c {
  lru = e ∷ c.lru;
  entries = put c.entries e.key e;
  current_bytes = c.current_bytes + e.bytes;
}

pub new_entry : String → List ℕ → Time → Entry
new_entry key value now = record { key = key; value = value; bytes = length value; cached_at = now }

-- the cache as the two loops of `Put` leave it; the list's length is enough fuel for both
pub make_room : Cache → String → ℕ → Cache
unfolding remove_found
make_room c key new_bytes =
    let cleared = remove_found (get c.entries key) c in
    let counted = evict_by_count (length cleared.lru) cleared in
    evict_by_bytes new_bytes (length counted.lru) counted

-- Put
pub put_value : Cache → String → List ℕ → Time → Cache
unfolding insert_entry new_entry
put_value c key value now =
    if length value == 0
    then c
    else insert_entry (new_entry key value now) (make_room c key (length value))

-- Delete
pub delete_key : Cache → String → Cache
unfolding remove_found
delete_key c key = remove_found (get c.entries key) c

pub values : Map Entry → List Entry
values [] = []
values ((k, e) ∷ m) = e ∷ values m

pub remove_all : List Entry → Cache → Cache
remove_all [] c = c
remove_all (e ∷ es) c = remove_all es (remove_entry e c)

-- sweepExpired
pub sweep_expired : Cache → Time → Cache × ℕ
unfolding values remove_all
sweep_expired c now =
    let expired = keep (is_expired c.ttl now) (values c.entries) in
    let r = remove_all expired c in
    (record r { evictions = r.evictions + length expired }, length expired)

-- the loop of `ensureSize`, with fuel, and the entries that it evicted
pub shrink : ℕ → ℕ → Cache → Cache × ℕ
shrink zero evicted c = (c, evicted)
shrink (suc fuel) evicted c = elim (back c.lru) [
  | none ↦ (c, evicted)
  | some e ↦
      let rest = shrink fuel (evicted + 1) (remove_entry e c) in
      if ltb c.max_bytes c.current_bytes then rest else (c, evicted)
]

-- ensureSize
pub ensure_size : Cache → Cache × ℕ
unfolding shrink
ensure_size c =
    if c.max_bytes == 0
    then (c, 0)
    else let (r, evicted) = shrink (length c.lru) 0 c in
      (record r { evictions = r.evictions + evicted }, evicted)
