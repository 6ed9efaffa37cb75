-- ===== src/Cache/Sweeping.antt =====
-- What `Delete` and the sweep do to the cache.
use ai_model_gateway.Base.{
  ◌≡◌, ◌∙◌, refl, ap, String, none, some, List, [], ◌∷◌, arith, eq_iff, str_eq, if◌then◌else◌, get,
  Option-cases, inl, inr,
}
use ai_model_gateway.Cache.{
  Entry, Cache, without, remove_entry, remove_found, delete_key, remove_all,
}
use ai_model_gateway.Cache.Entries.{find_key, find_key-key, find_key-without, without_absent}
use ai_model_gateway.Cache.Invariant.{IsValid, remove_entry-IsValid, remove_found-IsValid}

-- what a deletion leaves of the list
pub delete_key-lru :
    (c : Cache) (key : String) → IsValid c → (delete_key c key).lru ≡ without key c.lru
unfolding delete_key remove_found remove_entry
delete_key-lru c key v = elim (Option-cases (get c.entries key)) [
  | inl e ↦ ground (arith, e, v.agree key, without_absent c.lru key)
  | inr (x, e) ↦ ground (arith, e, v.agree key, find_key-key c.lru key x)
]

-- After `Delete` of a key the cache is valid, the key has no entry, and every other key has the one
-- it had.
pub delete_key-Deleted :
    (c : Cache) (key j : String)
    → IsValid c
    → IsValid (delete_key c key)
      × (find_key (delete_key c key).lru j ≡ (if str_eq key j then none else find_key c.lru j))
delete_key-Deleted c key j v = (
  unfold delete_key in remove_found-IsValid c v (get c.entries key) key refl,
  ap (λ (l : List Entry). find_key l j) (delete_key-lru c key v) ∙ find_key-without c.lru key j,
)

-- the entries of a list are in the cache, and no two have one key
unfoldable pub Held : List Entry → Cache → Type 0
Held [] c = Unit
Held (e ∷ es) c = (find_key c.lru e.key ≡ some e) × (find_key es e.key ≡ none) × Held es c

pub Held-remove :
    (es : List Entry) (e : Entry) (c : Cache)
    → find_key es e.key ≡ none
    → Held es c
    → Held es (remove_entry e c)
unfolding Held remove_entry
Held-remove [] e c new h = tt
Held-remove (f ∷ es) e c new h = (
  ground (arith, find_key-without c.lru e.key f.key, eq_iff e.key f.key, eq_iff f.key e.key, h.0),
  h.1,
  Held-remove es e c (ground arith) h.2,
)

pub remove_all-IsValid :
    (es : List Entry) (c : Cache) → IsValid c → Held es c → IsValid (remove_all es c)
unfolding remove_all Held
remove_all-IsValid [] c v h = v
remove_all-IsValid (e ∷ es) c v h =
    remove_all-IsValid es (remove_entry e c) (remove_entry-IsValid c v e h.0)
      (Held-remove es e c h.1 h.2)

pub find_key-remove_all :
    (es : List Entry) (c : Cache) (j : String)
    → find_key (remove_all es c).lru j
      ≡ elim (find_key es j) [ none ↦ find_key c.lru j | some e ↦ none ]
unfolding remove_all remove_entry
find_key-remove_all [] c j = refl
find_key-remove_all (e ∷ es) c j =
    ground (arith, find_key-remove_all es (remove_entry e c) j, find_key-without c.lru e.key j)
