-- ===== src/Cache/Eviction.antt =====
-- What the two loops of `Put` evict: the least recently used entries, and no more than needed.
use ai_model_gateway.Base.{
  ℕ, zero, suc, ◌+◌, ◌-◌, ◌≤◌, ◌<◌, ◌≡◌, ◌∙◌, refl, ap, true, false, none, some, List, [], ◌∷◌,
  arith, length, Bool-cases, inl, inr, ◌⊎◌, leb, ◌==◌, not_leb, leb→le,
}
use ai_model_gateway.Cache.{
  Entry, Cache, remove_entry, evict, back, evict_back, evict_by_count, over_bytes, evict_by_bytes,
}
use ai_model_gateway.Cache.Entries.{
  Distinct, byte_sum, drop_last, without-back, back-some, length-drop_last,
}
use ai_model_gateway.Cache.Invariant.{IsValid, evict_back-IsValid}

-- the list without its last `n` entries
abbrev pub drop_back : ℕ → List Entry → List Entry
drop_back zero l = l
drop_back (suc n) l = drop_back n (drop_last l)

-- `c'` is `c` with its `count` least recently used entries evicted, which the counter shows
pub record Evicted (count : ℕ) (c c' : Cache) : Type 0 where
  pub lru : c'.lru ≡ drop_back count c.lru
  pub evictions : c'.evictions ≡ c.evictions + count
  pub max_items : c'.max_items ≡ c.max_items
  pub max_bytes : c'.max_bytes ≡ c.max_bytes
  pub ttl : c'.ttl ≡ c.ttl
  pub hits : c'.hits ≡ c.hits
  pub misses : c'.misses ≡ c.misses

pub Evicted-none : (c : Cache) → Evicted 0 c c
Evicted-none c = record {
  lru = refl;
  evictions = omega arith;
  max_items = refl;
  max_bytes = refl;
  ttl = refl;
  hits = refl;
  misses = refl;
}

evict-Evicted :
    (c : Cache) (e : Entry) → Distinct c.lru → back c.lru ≡ some e → Evicted 1 c (evict e c)
unfolding evict remove_entry
evict-Evicted c e d h = record {
  lru = without-back c.lru e d h;
  evictions = refl;
  max_items = refl;
  max_bytes = refl;
  ttl = refl;
  hits = refl;
  misses = refl;
}

evict_back-Evicted :
    (c : Cache) → Distinct c.lru → 0 < length c.lru → Evicted 1 c (evict_back (back c.lru) c)
unfolding evict_back
evict_back-Evicted c d h = let (e, last) = back-some c.lru h in rw last (evict-Evicted c e d last)

Evicted-more :
    (count : ℕ) (a b c : Cache) → Evicted 1 a b → Evicted count b c → Evicted (suc count) a c
Evicted-more count a b c x y = record {
  lru = y.lru ∙ ap (drop_back count) x.lru;
  evictions = omega (arith, x.evictions, y.evictions);
  max_items = y.max_items ∙ x.max_items;
  max_bytes = y.max_bytes ∙ x.max_bytes;
  ttl = y.ttl ∙ x.ttl;
  hits = y.hits ∙ x.hits;
  misses = y.misses ∙ x.misses;
}

-- The loop on the count evicts exactly as many entries as pass the limit, less one.
pub evict_by_count-Evicted :
    (fuel : ℕ) (c : Cache)
    → IsValid c
    → length c.lru ≤ fuel
    → Evicted (length c.lru + 1 - c.max_items) c (evict_by_count fuel c)
unfolding evict_by_count
evict_by_count-Evicted zero c v h =
    let e : length c.lru + 1 - c.max_items ≡ 0 = omega (arith, v.positive) in rw e (Evicted-none c)
evict_by_count-Evicted (suc fuel) c v h = elim (Bool-cases (leb c.max_items (length c.lru))) [
  | inr room ↦
      let e : length c.lru + 1 - c.max_items ≡ 0 = omega (arith, not_leb _ _ room) in
      rw (room, e) (Evicted-none c)
  | inl full ↦
      let n : 0 < length c.lru = omega (arith, v.positive, leb→le _ _ full) in
      let c1 = evict_back (back c.lru) c in
      let one = evict_back-Evicted c v.distinct n in
      let shorter : length c1.lru + 1 ≡ length c.lru =
        ap (λ (l : List Entry). length l + 1) one.lru ∙ length-drop_last c.lru n in
      let count : length c.lru + 1 - c.max_items ≡ suc (length c1.lru + 1 - c1.max_items) =
        omega (arith, one.max_items, leb→le _ _ full) in
      rw (full, count)
        (Evicted-more (length c1.lru + 1 - c1.max_items) c c1 (evict_by_count fuel c1) one
          (evict_by_count-Evicted fuel c1 (evict_back-IsValid c v (back c.lru) refl) (omega arith)))
]

abbrev pub Over : ℕ → Cache → ℕ → Type 0
Over n c j = c.max_bytes < byte_sum (drop_back j c.lru) + n

-- What the loop on the bytes does: it evicts the last `count` entries, while the bytes that stay
-- and the `n` new ones pass the limit, and stops when they fit or nothing is left.
pub record FitsBytes (n : ℕ) (c c' : Cache) : Type 0 where
  pub count : ℕ
  pub evicted : Evicted count c c'
  pub needed : (j : ℕ) → j < count → (0 < c.max_bytes) × Over n c j
  pub fits : (over_bytes n c' ≡ false) ⊎ (length c'.lru ≡ 0)

needed_more :
    (n count : ℕ) (c c1 : Cache)
    → Evicted 1 c c1
    → (0 < c.max_bytes) × Over n c 0
    → ((j : ℕ) → j < count → (0 < c1.max_bytes) × Over n c1 j)
    → (j : ℕ) → j < suc count
    → (0 < c.max_bytes) × Over n c j
needed_more n count c c1 one over later zero h = over
needed_more n count c c1 one over later (suc j) h =
    let l = later j (omega arith) in
    (
      omega (arith, one.max_bytes, l.0),
      omega (arith, one.max_bytes, l.1, ap (λ (l : List Entry). byte_sum (drop_back j l)) one.lru),
    )

fits_more :
    (n : ℕ) (c c1 c2 : Cache)
    → Evicted 1 c c1
    → (0 < c.max_bytes) × Over n c 0
    → FitsBytes n c1 c2
    → FitsBytes n c c2
fits_more n c c1 c2 one over f = record {
  count = suc f.count;
  evicted = Evicted-more f.count c c1 c2 one f.evicted;
  needed = needed_more n f.count c c1 one over f.needed;
  fits = f.fits;
}

back-none : (l : List Entry) → length l ≡ 0 → back l ≡ none
unfolding back
back-none [] h = refl
back-none (e ∷ l) h = absurd (omega arith)

over_bytes-Over :
    (n : ℕ) (c : Cache) → IsValid c → over_bytes n c ≡ true → (0 < c.max_bytes) × Over n c 0
unfolding over_bytes
over_bytes-Over n c v h = ground (arith, v.counted)

pub evict_by_bytes-FitsBytes :
    (n fuel : ℕ) (c : Cache)
    → IsValid c
    → length c.lru ≤ fuel
    → FitsBytes n c (evict_by_bytes n fuel c)
unfolding evict_by_bytes evict_back
evict_by_bytes-FitsBytes n zero c v h = record {
  count = 0;
  evicted = Evicted-none c;
  needed = λ j p. absurd (omega arith);
  fits = inr (omega arith);
}
evict_by_bytes-FitsBytes n (suc fuel) c v h = elim (Bool-cases (over_bytes n c)) [
  | inr room ↦ rw room (record {
    count = 0;
    evicted = Evicted-none c;
    needed = λ j p. absurd (omega arith);
    fits = inl room;
  })
  | inl full ↦ elim (Bool-cases (length c.lru == 0)) [
    | inl empty ↦
        rw (full, back-none c.lru (ground arith), evict_back)
          (evict_by_bytes-FitsBytes n fuel c v (ground arith))
    | inr more ↦
        let c1 = evict_back (back c.lru) c in
        let pos_len : 0 < length c.lru = ground arith in
        let one = evict_back-Evicted c v.distinct pos_len in
        let shorter : length c1.lru + 1 ≡ length c.lru =
          ap (λ (l : List Entry). length l + 1) one.lru ∙ length-drop_last c.lru pos_len in
        rw full (
          fits_more n c c1 (evict_by_bytes n fuel c1) one (over_bytes-Over n c v full) (
            evict_by_bytes-FitsBytes n fuel c1 (evict_back-IsValid c v (back c.lru) refl)
              (omega arith)))
  ]
]
