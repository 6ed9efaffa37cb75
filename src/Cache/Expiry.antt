-- ===== src/Cache/Expiry.antt =====
-- Which entries the sweep removes.
use mathlib.Core.Path.{subst}
use ai_model_gateway.Base.{
  ℕ, ◌+◌, ◌≡◌, ◌∙◌, refl, ap, sym, String, Bool, Option, none, some, List, [], ◌∷◌, arith, eq_iff,
  if◌then◌else◌, not, length, keep, get, Unique, Map, Time, Bool-cases, Option-cases, inl, inr,
}
use ai_model_gateway.Cache.{
  Entry, Cache, remove_entry, is_expired, values, remove_all, sweep_expired,
}
use ai_model_gateway.Cache.Entries.{
  find_key, Distinct, find_key-key, without-Distinct, length-without,
}
use ai_model_gateway.Cache.Invariant.{IsValid, IsValid-evictions}
use ai_model_gateway.Cache.Sweeping.{Held, remove_all-IsValid, find_key-remove_all, Held-remove}

abbrev Keyed : Map Entry → Type 0
Keyed [] = Unit
Keyed ((k, e) ∷ m) = (e.key ≡ k) × Keyed m

-- every entry of the map stands under its key
Keyed-get :
    (m : Map Entry) → Unique m → ((k : String) (e : Entry) → get m k ≡ some e → e.key ≡ k) → Keyed m
unfolding get
Keyed-get [] u h = tt
Keyed-get ((k, e) ∷ m) u h = (
  h k e (ground (arith, eq_iff k k)),
  Keyed-get m u.1 (λ j f p. h j f (ground (arith, eq_iff k j, u.0))),
)

find_key-values : (m : Map Entry) (j : String) → Keyed m → find_key (values m) j ≡ get m j
unfolding values get
find_key-values [] j h = refl
find_key-values ((k, e) ∷ m) j h = ground (arith, find_key-values m j h.1, h.0)

Distinct-values : (m : Map Entry) → Unique m → Keyed m → Distinct (values m)
unfolding values
Distinct-values [] u h = tt
Distinct-values ((k, e) ∷ m) u h =
    (find_key-values m e.key h.1 ∙ ap (get m) h.0 ∙ u.0, Distinct-values m u.1 h.1)

-- the entry of a key, where the test holds of it
abbrev pub where_true : (Entry → Bool) → Option Entry → Option Entry
where_true p none = none
where_true p (some e) = if p e then some e else none

find_key-keep :
    (p : Entry → Bool) (l : List Entry) (j : String)
    → Distinct l
    → find_key (keep p l) j ≡ where_true p (find_key l j)
find_key-keep p [] j d = refl
find_key-keep p (e ∷ l) j d = ground (arith, find_key-keep p l j d.1, eq_iff e.key j, d.0)

Distinct-keep : (p : Entry → Bool) (l : List Entry) → Distinct l → Distinct (keep p l)
Distinct-keep p [] d = tt
Distinct-keep p (e ∷ l) d = elim (Bool-cases (p e)) [
  | inl y ↦
      let kept : keep p (e ∷ l) ≡ e ∷ keep p l = ground arith in
      subst Distinct (sym kept)
        (find_key-keep p l e.key d.1 ∙ ap (where_true p) d.0, Distinct-keep p l d.1)
  | inr n ↦
      let left : keep p (e ∷ l) ≡ keep p l = ground arith in
      subst Distinct (sym left) (Distinct-keep p l d.1)
]

complement :
    (p : Entry → Bool) (o o' : Option Entry)
    → o' ≡ where_true p o
    → (elim o' [ none ↦ o | some e ↦ none ]) ≡ where_true (λ e. not (p e)) o
complement p none o' h = ground arith
complement p (some e) o' h = ground arith

Held-found :
    (l : List Entry) (c : Cache)
    → Distinct l
    → ((e : Entry) → find_key l e.key ≡ some e → find_key c.lru e.key ≡ some e)
    → Held l c
unfolding Held
Held-found [] c d h = tt
Held-found (e ∷ l) c d h = (
  h e (ground (arith, eq_iff e.key e.key)),
  d.0,
  Held-found l c d.1 (λ f p. h f (ground (arith, eq_iff e.key f.key, d.0))),
)

length-remove_all :
    (es : List Entry) (c : Cache)
    → Distinct c.lru
    → Held es c
    → length (remove_all es c).lru + length es ≡ length c.lru
unfolding remove_all Held remove_entry
length-remove_all [] c d h = omega arith
length-remove_all (e ∷ es) c d h =
    let rest =
      length-remove_all es (remove_entry e c) (without-Distinct c.lru e.key d)
        (Held-remove es e c h.1 h.2) in
    let one = length-without e.key e c.lru d h.0 in omega arith

-- What the sweep does: the cache stays valid, the entries that have outlived the TTL are gone and
-- all others stay, and the result and the eviction counter say how many went.
pub record Swept (c : Cache) (now : Time) (r : Cache × ℕ) : Type 0 where
  pub valid : IsValid r.0
  pub found :
      (j : String)
      → find_key r.0.lru j ≡ where_true (λ e. not (is_expired c.ttl now e)) (find_key c.lru j)
  pub evictions : r.0.evictions ≡ c.evictions + r.1
  pub count : length r.0.lru + r.1 ≡ length c.lru

remove_all-evictions : (es : List Entry) (c : Cache) → (remove_all es c).evictions ≡ c.evictions
unfolding remove_all remove_entry
remove_all-evictions [] c = refl
remove_all-evictions (e ∷ es) c = remove_all-evictions es (remove_entry e c)

module _ (c : Cache) (now : Time) (v : IsValid c) where
  keyed : Keyed c.entries
  keyed = Keyed-get c.entries v.unique (λ k e h. find_key-key c.lru k e (sym (v.agree k) ∙ h))

  one_each : Distinct (values c.entries)
  one_each = Distinct-values c.entries v.unique keyed

  abbrev expired : List Entry
  expired = keep (is_expired c.ttl now) (values c.entries)

  find_key-expired :
      (j : String) → find_key expired j ≡ where_true (is_expired c.ttl now) (find_key c.lru j)
  find_key-expired j =
      find_key-keep (is_expired c.ttl now) (values c.entries) j one_each
      ∙ ap (where_true (is_expired c.ttl now)) (find_key-values c.entries j keyed ∙ v.agree j)

  held : Held expired c
  held =
      Held-found expired c (Distinct-keep (is_expired c.ttl now) (values c.entries) one_each)
        (λ e h. ground (arith, find_key-expired e.key, Option-cases (find_key c.lru e.key), h))

  -- `sweepExpired` on a valid cache removes exactly the entries that have outlived the TTL.
  pub sweep_expired-Swept : Swept c now (sweep_expired c now)
  unfolding sweep_expired
  sweep_expired-Swept =
      let w = remove_all-IsValid expired c v held in
      record {
        valid = IsValid-evictions (remove_all expired c) _ w;
        found = λ j.
            find_key-remove_all expired c j
            ∙ complement (is_expired c.ttl now) (find_key c.lru j) _ (find_key-expired j);
        evictions = omega (arith, remove_all-evictions expired c);
        count = length-remove_all expired c v.distinct held;
      }
