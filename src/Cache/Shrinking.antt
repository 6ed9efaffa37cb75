-- ===== src/Cache/Shrinking.antt =====
-- What `ensureSize` leaves of the cache.
use ai_model_gateway.Base.{
  ℕ, zero, suc, ◌+◌, ◌≤◌, ◌<◌, ◌≡◌, refl, false, none, List, [], ◌∷◌, arith, ltb, ◌==◌, if_intro,
  length, Option-cases, inl, inr,
}
use ai_model_gateway.Cache.{Entry, Cache, back, remove_entry, shrink, ensure_size}
use ai_model_gateway.Cache.Entries.{byte_sum, back-find_key, length-without}
use ai_model_gateway.Cache.Invariant.{IsValid, IsValid-evictions, remove_entry-IsValid}

-- the cache is valid and fits its limit, and `n` more entries than before are counted as evicted
record Shrunk (c : Cache) (n : ℕ) (r : Cache × ℕ) : Type 0 where
  valid : IsValid r.0
  fits : r.0.current_bytes ≤ c.max_bytes
  evicted : length r.0.lru + r.1 ≡ length c.lru + n
  evictions : r.0.evictions ≡ c.evictions

empty-Shrunk : (c : Cache) (n : ℕ) → IsValid c → length c.lru ≡ 0 → Shrunk c n (c, n)
empty-Shrunk c n v e = record {
  valid = v;
  fits = omega (arith, v.counted, byte_sum-empty c.lru e);
  evicted = refl;
  evictions = refl;
}
  where
    byte_sum-empty : (l : List Entry) → length l ≡ 0 → byte_sum l ≡ 0
    byte_sum-empty [] h = refl
    byte_sum-empty (x ∷ l) h = absurd (omega arith)

back-none : (l : List Entry) → back l ≡ none → length l ≡ 0
unfolding back
back-none [] h = refl
back-none (x ∷ []) h = cc
back-none (x ∷ y ∷ l) h = absurd (ground (arith, back-none (y ∷ l) h))

shrink-Shrunk :
    (fuel n : ℕ) (c : Cache) → IsValid c → length c.lru ≤ fuel → Shrunk c n (shrink fuel n c)
unfolding shrink remove_entry
shrink-Shrunk zero n c v h = empty-Shrunk c n v (omega arith)
shrink-Shrunk (suc fuel) n c v h = elim (Option-cases (back c.lru)) [
  | inl e ↦ rw (shrink, e) (empty-Shrunk c n v (back-none c.lru e))
  | inr (x, e) ↦
      let found = back-find_key c.lru x v.distinct e in
      let one = length-without x.key x c.lru v.distinct found in
      let w = remove_entry-IsValid c v x found in
      let rest = shrink-Shrunk fuel (n + 1) (remove_entry x c) w (omega arith) in
      rw (shrink, e)
        (if_intro (Shrunk c n) (ltb c.max_bytes c.current_bytes)
          (λ _. record {
            valid = rest.valid;
            fits = rest.fits;
            evicted = omega (arith, rest.evicted);
            evictions = rest.evictions;
          })
          λ fits. record { valid = v; fits = ground arith; evicted = refl; evictions = refl })
]

-- `ensureSize` on a valid cache with a byte limit leaves a valid cache within the limit; the result
-- and the eviction counter say how many entries went.
pub ensure_size-fits :
    (c : Cache)
    → IsValid c
    → 0 < c.max_bytes
    → let r = ensure_size c in
      IsValid r.0
      × (r.0.current_bytes ≤ c.max_bytes)
      × (length r.0.lru + r.1 ≡ length c.lru)
      × (r.0.evictions ≡ c.evictions + r.1)
unfolding ensure_size
ensure_size-fits c v limited =
    let s = shrink-Shrunk (length c.lru) 0 c v (omega arith) in
    let w = s.valid in
    let bounded : (c.max_bytes == 0) ≡ false = ground arith in
    rw bounded
      (IsValid-evictions _ _ w, s.fits, omega (arith, s.evicted), omega (arith, s.evictions))
