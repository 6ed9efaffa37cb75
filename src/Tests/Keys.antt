-- ===== src/Tests/Keys.antt =====
-- A rotator with one disabled and two usable keys.
use ai_model_gateway.Base.{◌≡◌, refl, Bool, true, false, some, [], ◌∷◌, String}
use ai_model_gateway.KeyRotation.{
  RotatableKey, KeyRotator, next, is_usable, report_failure, report_success,
}
use ai_model_gateway.KeyRotation.Next.{Turn, next-FirstUsable}
use ai_model_gateway.KeyRotation.Failures.{lookup_key, three_failures}

abbrev key_of : String → Bool → RotatableKey
key_of v disabled = record {
  name = v;
  value = v;
  disabled = disabled;
  fail_count = 0;
  last_fail = 0;
}

abbrev rotator : KeyRotator
rotator = record {
  provider_id = "a";
  keys = key_of "k0" true ∷ key_of "k1" false ∷ key_of "k2" false ∷ [];
  index = 3;
}

next-FirstUsable_example : Turn rotator (next rotator).0 (next rotator).1
next-FirstUsable_example = next-FirstUsable rotator

-- the disabled key is passed over
next_skips : (next rotator).1 ≡ "k1"
unfolding next
next_skips = refl

three_failures_example :
    let failed = report_failure (report_failure (report_failure rotator "k1" 1) "k1" 2) "k1" 3 in
    (k' : RotatableKey) × (lookup_key failed.keys "k1" ≡ some k')
    × (is_usable k' ≡ false)
    × (k'' : RotatableKey) × (lookup_key (report_success failed "k1").keys "k1" ≡ some k'')
    × (is_usable k'' ≡ true)
three_failures_example = three_failures rotator "k1" (key_of "k1" false) (λ e. cc) refl 1 2 3
