-- ===== src/Cache/Storing.antt =====
-- What `Put` does to the cache.
use native.Mathlib.Nat.{zero-add, suc-add}
use ai_model_gateway.Base.{
  ℕ, zero, suc, ◌+◌, ◌-◌, ◌≤◌, ◌<◌, ◌≡◌, ◌∙◌, ap, sym, String, false, List, ◌∷◌, arith, length,
  Bool-cases, inl, inr, ◌⊎◌, ltb, ◌==◌, get, Time,
}
use ai_model_gateway.Cache.{Entry, Cache, without, insert_entry, new_entry, make_room, put_value}
use ai_model_gateway.Cache.Entries.{byte_sum, drop_last}
use ai_model_gateway.Cache.Invariant.{IsValid, make_room-IsValid}
use ai_model_gateway.Cache.Eviction.{drop_back}
use ai_model_gateway.Cache.Replacing.{
  absent, after_bytes, after_count, bytes_room, cleared, cleared-lru, counted, has_room,
  insert_entry-IsValid, length-drop_back, remove_found-same,
}

-- `Put` on a valid cache leaves a valid one, whatever is stored.
pub put_value-IsValid :
    (c : Cache) (key : String) (value : List ℕ) (now : Time)
    → IsValid c
    → IsValid (put_value c key value now)
unfolding put_value new_entry
put_value-IsValid c key value now v = elim (Bool-cases (length value == 0)) [
  | inl empty ↦ rw empty v
  | inr full ↦ rw full (
      insert_entry-IsValid (make_room c key (length value)) _
        (make_room-IsValid c key (length value) v) (absent c key (length value) v)
        (has_room c key (length value) v) (bytes_room c key (length value) v))
]

drop_back-add : (m n : ℕ) (l : List Entry) → drop_back (m + n) l ≡ drop_back n (drop_back m l)
drop_back-add zero n l = rw zero-add
drop_back-add (suc m) n l = rw suc-add (drop_back-add m n (drop_last l))

-- the reasons for which an entry has to go
abbrev pub TooMany : Cache → List Entry → Type 0
TooMany c l = c.max_items ≤ length l

abbrev pub TooLarge : Cache → ℕ → List Entry → Type 0
TooLarge c n l = (0 < c.max_bytes) × (c.max_bytes < byte_sum l + n)

below_or_above : (j m n : ℕ) → j < m + n → (j < m) ⊎ ((k : ℕ) × (k < n) × (m + k ≡ j))
below_or_above j m n h = elim (Bool-cases (ltb j m)) [
  | inl low ↦ inl (ground arith)
  | inr high ↦ inr (j - m, ground arith, ground arith)
]

module _ (c : Cache) (key : String) (n : ℕ) (v : IsValid c) where
  by_count : ℕ
  by_count = length (without key c.lru) + 1 - c.max_items

  same :
      ((cleared c key).evictions ≡ c.evictions)
      × ((cleared c key).max_items ≡ c.max_items)
      × ((cleared c key).max_bytes ≡ c.max_bytes)
      × ((cleared c key).ttl ≡ c.ttl)
  same = remove_found-same c (get c.entries key)

  by_count_lem : length (cleared c key).lru + 1 - (cleared c key).max_items ≡ by_count
  unfolding by_count
  by_count_lem = omega (arith, same.1, ap (λ (l : List Entry). length l) (cleared-lru c key n v))

  counted_lru : (counted c key).lru ≡ drop_back by_count (without key c.lru)
  counted_lru =
      (after_count c key n v).lru
      ∙ ap (λ (k : ℕ). drop_back k (cleared c key).lru) by_count_lem
      ∙ ap (drop_back by_count) (cleared-lru c key n v)

  dropped : ℕ
  dropped = by_count + (after_bytes c key n v).count

  room_lru : (make_room c key n).lru ≡ drop_back dropped (without key c.lru)
  unfolding dropped
  room_lru =
      (after_bytes c key n v).evicted.lru
      ∙ ap (drop_back (after_bytes c key n v).count) counted_lru
      ∙ sym (drop_back-add by_count (after_bytes c key n v).count (without key c.lru))

  room_evictions : (make_room c key n).evictions ≡ c.evictions + dropped
  unfolding dropped
  room_evictions = omega (
    arith,
    (after_bytes c key n v).evicted.evictions,
    (after_count c key n v).evictions,
    by_count_lem,
    same.0,
  )

  room_max_bytes : (counted c key).max_bytes ≡ c.max_bytes
  room_max_bytes = (after_count c key n v).max_bytes ∙ same.2

  room_ttl : (make_room c key n).ttl ≡ c.ttl
  room_ttl = (after_bytes c key n v).evicted.ttl ∙ (after_count c key n v).ttl ∙ same.3

  needed :
      (j : ℕ)
      → j < dropped
      → TooMany c (drop_back j (without key c.lru)) ⊎ TooLarge c n (drop_back j (without key c.lru))
  unfolding dropped
  needed j h = elim (below_or_above j by_count (after_bytes c key n v).count h) [
    | inl low ↦ inl (unfold by_count in omega (arith, length-drop_back j (without key c.lru)))
    | inr (k, lt, e) ↦
        let over = (after_bytes c key n v).needed k lt in
        inr (
          omega (arith, room_max_bytes),
          omega (
            arith,
            room_max_bytes,
            ap byte_sum (
                ap (drop_back k) counted_lru
                ∙ sym (drop_back-add by_count k (without key c.lru))
                ∙ ap (λ (i : ℕ). drop_back i (without key c.lru)) e),
          ),
        )
  ]

-- The entry that `Put` makes stands at the front, and behind it stand the entries of the other
-- keys less the `dropped` least recently used ones, which the eviction counter counts.
pub record Stored (c c' : Cache) (e : Entry) : Type 0 where
  pub dropped : ℕ
  pub lru : c'.lru ≡ e ∷ drop_back dropped (without e.key c.lru)
  pub evictions : c'.evictions ≡ c.evictions + dropped
  pub needed :
      (j : ℕ)
      → j < dropped
      → TooMany c (drop_back j (without e.key c.lru))
        ⊎ TooLarge c e.bytes (drop_back j (without e.key c.lru))
  pub ttl : c'.ttl ≡ c.ttl

-- In a valid cache, storing a value that is not empty puts its entry at the front of the list, and evicts from the
-- back only, one entry at a time, as long as the others are too many or too large for it; the
-- eviction counter counts what was evicted. An entry of the same key is replaced uncounted.
pub put_value-Stored :
    (c : Cache) (key : String) (value : List ℕ) (now : Time)
    → IsValid c
    → 0 < length value
    → Stored c (put_value c key value now) (new_entry key value now)
unfolding put_value new_entry insert_entry
put_value-Stored c key value now v h =
    let full : (length value == 0) ≡ false = ground arith in
    let n = length value in
    rw full (record {
      dropped = dropped c key n v;
      lru = ap (λ (l : List Entry). new_entry key value now ∷ l) (room_lru c key n v);
      evictions = room_evictions c key n v;
      needed = needed c key n v;
      ttl = room_ttl c key n v;
    })
