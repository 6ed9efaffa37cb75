-- ===== src/KeyRotation/Failures.antt =====
-- What the reports and the recovery do to the keys.
use mathlib.Core.Option
use ai_model_gateway.Base.{
  not, ◌+◌, ◌≡◌, ◌≢◌, ◌↔◌, refl, ap, ap, true, false, Option, none, some, List, [], ◌∷◌, String,
  map, arith, eq_iff, str_eq, Time, Duration, any, if◌then◌else◌, Bool-cases, inl, inr,
}
use ai_model_gateway.KeyRotation.{
  RotatableKey, KeyRotator, is_usable, update_first, report_success, report_failure, is_due,
  recover_key, try_recover,
}

-- the key that a report for a value is about: the first with that value
abbrev pub lookup_key : List RotatableKey → String → Option RotatableKey
lookup_key [] v = none
lookup_key (k ∷ keys) v = if str_eq k.value v then some k else lookup_key keys v

abbrev pub failed_at : Time → RotatableKey → RotatableKey
failed_at now k = record k { fail_count = k.fail_count + 1; last_fail = now }

abbrev pub succeeded : RotatableKey → RotatableKey
succeeded k = record k { fail_count = 0; last_fail = 0 }

cons_injective {ℓ} : {A : Type ℓ} {x y : A} {xs ys : List A} → x ∷ xs ≡ y ∷ ys → (x ≡ y) × (xs ≡ ys)
cons_injective e = (cc, cc)

lookup_key-update_first :
    (v w : String) (f : RotatableKey → RotatableKey) (keys : List RotatableKey)
    → ((k : RotatableKey) → (f k).value ≡ k.value)
    → lookup_key (update_first v f keys) w
      ≡ (if str_eq v w then Option.map f (lookup_key keys w) else lookup_key keys w)
unfolding update_first
lookup_key-update_first v w f [] h = ground arith
lookup_key-update_first v w f (k ∷ keys) h = ground (
  arith,
  lookup_key-update_first v w f keys h,
  h k,
  eq_iff k.value v,
  eq_iff k.value w,
  eq_iff v w,
)

-- A failure report for a value counts on the first key with that value, and stamps it with the
-- time; the first key of every other value is as it was.
pub lookup-report_failure :
    (kr : KeyRotator) (v w : String) (now : Time)
    → v ≢ ""
    → lookup_key (report_failure kr v now).keys w ≡ (
        if str_eq v w
        then Option.map (failed_at now) (lookup_key kr.keys w)
        else lookup_key kr.keys w)
unfolding report_failure
lookup-report_failure kr v w now h =
    ground (arith, eq_iff v "", lookup_key-update_first v w (failed_at now) kr.keys (λ k. refl))

-- A success report for a value clears the failures of the first key with that value; the first key
-- of every other value is as it was.
pub lookup-report_success :
    (kr : KeyRotator) (v w : String)
    → v ≢ ""
    → lookup_key (report_success kr v).keys w
      ≡ (if str_eq v w then Option.map succeeded (lookup_key kr.keys w) else lookup_key kr.keys w)
unfolding report_success
lookup-report_success kr v w h =
    ground (arith, eq_iff v "", lookup_key-update_first v w succeeded kr.keys (λ k. refl))

module _ (kr : KeyRotator) (v : String) (k : RotatableKey) (named : v ≢ "")
    (held : lookup_key kr.keys v ≡ some k) where
  once :
      (kr' : KeyRotator) (k' : RotatableKey) (t : Time)
      → lookup_key kr'.keys v ≡ some k'
      → lookup_key (report_failure kr' v t).keys v ≡ some (failed_at t k')
  once kr' k' t h = ground (arith, lookup-report_failure kr' v v t named, eq_iff v v)

  -- After three failure reports for a value that is not empty and that a key has, at any times, the
  -- first key with it is not usable, and one success report then makes it usable again, unless it
  -- is disabled.
  pub three_failures :
      (t1 t2 t3 : Time)
      → let failed = report_failure (report_failure (report_failure kr v t1) v t2) v t3 in
        (k' : RotatableKey) × (lookup_key failed.keys v ≡ some k')
        × (is_usable k' ≡ false)
        × (k'' : RotatableKey) × (lookup_key (report_success failed v).keys v ≡ some k'')
        × (is_usable k'' ≡ not k.disabled)
  three_failures t1 t2 t3 =
      let kr1 = report_failure kr v t1 in
      let kr2 = report_failure kr1 v t2 in
      let kr3 = report_failure kr2 v t3 in
      let k3 = failed_at t3 (failed_at t2 (failed_at t1 k)) in
      let held3 : lookup_key kr3.keys v ≡ some k3 =
        once kr2 (failed_at t2 (failed_at t1 k)) t3
          (once kr1 (failed_at t1 k) t2 (once kr k t1 held)) in
      (
        k3,
        held3,
        ground arith,
        succeeded k3,
        ground (arith, lookup-report_success kr3 v v named, eq_iff v v),
        ground arith,
      )

module _ (cooldown : Duration) (now : Time) where
  recover_key_changes :
      (k : RotatableKey) → is_due cooldown now k ≡ true → recover_key cooldown now k ≢ k
  unfolding recover_key
  recover_key_changes k due e = ground (arith, ap (λ (r : RotatableKey). r.fail_count) e)

  recover_key_keeps :
      (k : RotatableKey) → is_due cooldown now k ≡ false → recover_key cooldown now k ≡ k
  unfolding recover_key
  recover_key_keeps k due = ground arith

  recover_unchanged :
      (keys : List RotatableKey)
      → (any (is_due cooldown now) keys ≡ false) ↔ (map (recover_key cooldown now) keys ≡ keys)
  recover_unchanged [] = (λ _. refl, λ _. refl)
  recover_unchanged (k ∷ keys) =
      let rest = recover_unchanged keys in
      elim (Bool-cases (is_due cooldown now k)) [
        | inl due ↦
            (λ h. ground arith, λ e. absurd (recover_key_changes k due (cons_injective e).0))
        | inr due ↦ (
          λ h. cc (recover_key_keeps k due, rest.0 (ground arith)),
          λ e. ground (arith, rest.1 (cons_injective e).1),
        )
      ]

-- `TryRecover` returns false exactly when it leaves the rotator as it was.
pub try_recover_report :
    (kr : KeyRotator) (cooldown : Duration) (now : Time)
    → ((try_recover kr cooldown now).1 ≡ false) ↔ ((try_recover kr cooldown now).0 ≡ kr)
unfolding try_recover
try_recover_report kr cooldown now =
    let same = recover_unchanged cooldown now kr.keys in
    (
      λ h. ap (λ (ks : List RotatableKey). record kr { keys = ks }) (same.0 h),
      λ e. same.1 (ap (λ (r : KeyRotator). r.keys) e),
    )
