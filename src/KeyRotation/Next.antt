-- ===== src/KeyRotation/Next.antt =====
-- Which key `Next` hands out.
use ai_model_gateway.Base.{
  ℕ, zero, suc, ◌+◌, ◌%◌, ◌^◌, ◌==◌, ◌<◌, ◌≤◌, String, ◌≡◌, refl, ◌⊎◌, inl, inr, true, false,
  Option, none, some, List, [], ◌∷◌, arith, Bool-cases, length, get_elem?,
}
use ai_model_gateway.KeyRotation.{RotatableKey, KeyRotator, is_usable, start_at, scan, next}

pub get_elem?-in_range {ℓ} :
    {A : Type ℓ} (xs : List A) (i : ℕ) → i < length xs → (x : A) × (get_elem? xs i ≡ some x)
get_elem?-in_range [] i h = absurd (omega arith)
get_elem?-in_range (x ∷ xs) zero h = (x, refl)
get_elem?-in_range (x ∷ xs) (suc i) h = get_elem?-in_range xs i (omega arith)

-- the key that is tried `d` places after `start`, in cyclic order
abbrev pub key_at : List RotatableKey → ℕ → ℕ → Option RotatableKey
key_at keys start d = get_elem? keys ((start + d) % length keys)

-- a key may be handed out where it is not disabled and has failed less than three times
abbrev pub Usable : RotatableKey → Type 0
Usable k = (k.disabled ≡ false) × (k.fail_count < 3)

abbrev pub Unusable : Option RotatableKey → Type 0
Unusable none = ⊥
Unusable (some k) = ¬ Usable k

-- a usable key at distance `d`, with none before it from distance `i` on
pub record FirstUsable (keys : List RotatableKey) (start i : ℕ) (v : String) : Type 0 where
  pub distance : ℕ
  pub key : RotatableKey
  pub from : i ≤ distance
  pub within : distance < length keys
  pub found : key_at keys start distance ≡ some key
  pub usable : Usable key
  pub handed_out : v ≡ key.value
  pub skipped : (e : ℕ) → i ≤ e → e < distance → Unusable (key_at keys start e)

abbrev pub NoneUsable : List RotatableKey → ℕ → ℕ → Type 0
NoneUsable keys start i = (e : ℕ) → i ≤ e → e < length keys → Unusable (key_at keys start e)

is_usable-Usable : (k : RotatableKey) → is_usable k ≡ true → Usable k
is_usable-Usable k h = (ground arith, ground arith)

is_usable-false : (k : RotatableKey) → is_usable k ≡ false → ¬ Usable k
is_usable-false k h (enabled, few) = ground arith

-- where the signed counter of the calls begins: at its rest where it is not negative, else at 0
abbrev pub StartsAt : ℕ → ℕ → ℕ → Type 0
StartsAt index n start = (index < 2 ^ 63 → start ≡ index % n) × (2 ^ 63 ≤ index → start ≡ 0)

start_at-StartsAt : (index n : ℕ) → StartsAt index n (start_at index n)
unfolding start_at
start_at-StartsAt index n = (λ h. ground arith, λ h. ground arith)

module _ (keys : List RotatableKey) (start : ℕ) where
  scan-usable :
      (rounds i : ℕ) (k : RotatableKey)
      → key_at keys start i ≡ some k
      → is_usable k ≡ true
      → scan keys start (suc rounds) i ≡ k.value
  unfolding scan
  scan-usable rounds i k found u = rw (found, u)

  scan-unusable :
      (rounds i : ℕ) (k : RotatableKey)
      → key_at keys start i ≡ some k
      → is_usable k ≡ false
      → scan keys start (suc rounds) i ≡ scan keys start rounds (i + 1)
  unfolding scan
  scan-unusable rounds i k found u = rw (found, u)

  Unusable-here :
      (i e : ℕ) (k : RotatableKey)
      → key_at keys start i ≡ some k
      → is_usable k ≡ false
      → e ≡ i
      → Unusable (key_at keys start e)
  Unusable-here i e k found u p = rw (p, found) (is_usable-false k u)

  scan_cases :
      (rounds i : ℕ)
      → i + rounds ≡ length keys
      → FirstUsable keys start i (scan keys start rounds i)
        ⊎ (NoneUsable keys start i × (scan keys start rounds i ≡ ""))
  scan_cases zero i h = inr (λ e p q. absurd (omega arith), unfold scan in refl)
  scan_cases (suc rounds) i h =
      let (k, found) = get_elem?-in_range keys ((start + i) % length keys) (ground arith) in
      elim (Bool-cases (is_usable k)) [
        | inl u ↦ inl (record {
          distance = i;
          key = k;
          from = omega arith;
          within = omega arith;
          found = found;
          usable = is_usable-Usable k u;
          handed_out = scan-usable rounds i k found u;
          skipped = λ e p q. absurd (omega arith);
        })
        | inr u ↦
            rw (scan-unusable rounds i k found u)
              (later k found u (scan_cases rounds (i + 1) (omega arith)))
      ]
    where
      split : (i e : ℕ) → i ≤ e → (e ≡ i) ⊎ (i + 1 ≤ e)
      split i e h = ground arith

      later :
          (k : RotatableKey)
          → key_at keys start i ≡ some k
          → is_usable k ≡ false
          → FirstUsable keys start (i + 1) (scan keys start rounds (i + 1))
            ⊎ (NoneUsable keys start (i + 1) × (scan keys start rounds (i + 1) ≡ ""))
          → FirstUsable keys start i (scan keys start rounds (i + 1))
            ⊎ (NoneUsable keys start i × (scan keys start rounds (i + 1) ≡ ""))
      later k found u (inl f) = inl (record {
        distance = f.distance;
        key = f.key;
        from = omega (arith, f.from);
        within = f.within;
        found = f.found;
        usable = f.usable;
        handed_out = f.handed_out;
        skipped = λ e p q. elim (split i e p) [
          | inl here ↦ Unusable-here i e k found u here
          | inr there ↦ f.skipped e there q
        ];
      })
      later k found u (inr (n, e)) = inr (
        λ j p q. elim (split i j p) [
          | inl here ↦ Unusable-here i j k found u here
          | inr there ↦ n j there q
        ],
        e,
      )

-- the keys, the counter and the text after a call of `Next`
pub record Turn (kr kr' : KeyRotator) (v : String) : Type 0 where
  pub same_keys : kr'.keys ≡ kr.keys
  pub empty : length kr.keys ≡ 0 → (kr' ≡ kr) × (v ≡ "")
  pub advanced : 1 ≤ length kr.keys → kr'.index ≡ (kr.index + 1) % 2 ^ 64
  pub start : ℕ
  pub starts : StartsAt kr.index (length kr.keys) start
  pub handed : FirstUsable kr.keys start 0 v ⊎ (NoneUsable kr.keys start 0 × (v ≡ ""))

-- `Next` hands out the value of the first key at or after the counter, in cyclic order, that is
-- not disabled and has failed less than three times, and the empty text when there is none. It
-- advances the 64-bit counter by one, which begins at the first key where it is negative, and
-- leaves the keys; without keys it changes nothing.
pub next-FirstUsable : (kr : KeyRotator) → Turn kr (next kr).0 (next kr).1
unfolding next
next-FirstUsable kr =
    let start = start_at kr.index (length kr.keys) in
    let starts = start_at-StartsAt kr.index (length kr.keys) in
    elim (Bool-cases (length kr.keys == 0)) [
      | inl e ↦
          rw (next, e)
            (record {
              same_keys = refl;
              empty = λ h. (refl, refl);
              advanced = λ h. absurd (ground arith);
              start = start;
              starts = starts;
              handed = inr (λ i p q. absurd (ground arith), refl);
            })
      | inr e ↦
          rw (next, e)
            (record {
              same_keys = refl;
              empty = λ h. absurd (ground arith);
              advanced = λ h. refl;
              start = start;
              starts = starts;
              handed = scan_cases kr.keys start (length kr.keys) 0 (omega arith);
            })
    ]
