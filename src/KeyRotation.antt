-- ===== src/KeyRotation.antt =====
-- internal/gateway/api/key_rotation.go. A `nil` rotator answers as the empty one does, so it is
-- the empty one here; the mutex makes each method atomic. `index` is the bit pattern of the
-- atomic `int64`.
pub mod Next
pub mod Failures
use ai_model_gateway.Base.{
  ℕ, zero, suc, ◌+◌, ◌-◌, ◌%◌, ◌^◌, String, Bool, true, false, not, ◌&&◌, Option, none, some, List,
  [], ◌∷◌, map, leb, ltb, if◌then◌else◌, length, get_elem?, any, Time, Duration, since, is_zero,
  str_eq, ◌==◌,
}
use ai_model_gateway.Snapshot.{ApiKey, ProviderSnapshot}

pub record RotatableKey : Type 0 where
  pub name : String
  pub value : String
  pub disabled : Bool
  pub fail_count : ℕ
  pub last_fail : Time

pub record KeyRotator : Type 0 where
  pub provider_id : String
  pub keys : List RotatableKey
  pub index : ℕ

abbrev pub max_fail_count : ℕ
max_fail_count = 3

rotatable : ApiKey → RotatableKey
rotatable k = record {
  name = k.name;
  value = k.value;
  disabled = k.disabled;
  fail_count = k.fail_count;
  last_fail = 0;
}

-- NewKeyRotator
unfoldable pub new_key_rotator : Option ProviderSnapshot → KeyRotator
unfolding rotatable
new_key_rotator none = record { provider_id = ""; keys = []; index = 0 }
new_key_rotator (some p) = record {
  provider_id = p.provider_id;
  keys = map rotatable p.api_keys;
  index = 0;
}

-- the two `continue` tests of the loop in `Next`, negated
abbrev pub is_usable : RotatableKey → Bool
is_usable k = not k.disabled && ltb k.fail_count max_fail_count

-- `int(kr.index.Add(1)-1) % n`, and 0 where that is negative
pub start_at : ℕ → ℕ → ℕ
start_at index n = if leb (2 ^ 63) index then 0 else index % n

-- one round of the loop; the index is always in range
try_key : Option RotatableKey → String → String
try_key none rest = rest
try_key (some k) rest = if is_usable k then k.value else rest

-- `for i := 0; i < n; i++`, with the rounds that are left
pub scan : List RotatableKey → ℕ → ℕ → ℕ → String
unfolding try_key
scan keys start zero i = ""
scan keys start (suc rounds) i =
    try_key (get_elem? keys ((start + i) % length keys)) (scan keys start rounds (i + 1))

-- Next
unfoldable pub next : KeyRotator → KeyRotator × String
unfolding start_at scan
next kr = if length kr.keys == 0 then (kr, "") else (
  record kr { index = (kr.index + 1) % 2 ^ 64 },
  scan kr.keys (start_at kr.index (length kr.keys)) (length kr.keys) 0,
)

-- the loops of the two reports: the first key with the value is changed
pub update_first : String → (RotatableKey → RotatableKey) → List RotatableKey → List RotatableKey
update_first v f [] = []
update_first v f (k ∷ keys) =
    let rest = update_first v f keys in if str_eq k.value v then f k ∷ keys else k ∷ rest

-- ReportSuccess
pub report_success : KeyRotator → String → KeyRotator
report_success kr v = if str_eq v "" then kr else record kr {
  keys = update_first v (λ k. record k { fail_count = 0; last_fail = 0 }) kr.keys;
}

-- ReportFailure
pub report_failure : KeyRotator → String → Time → KeyRotator
report_failure kr v now = if str_eq v "" then kr else record kr {
  keys = update_first v (λ k. record k { fail_count = k.fail_count + 1; last_fail = now }) kr.keys;
}

-- IsEnabled
pub is_enabled : KeyRotator → Bool
is_enabled kr = ltb 0 (length kr.keys)

-- the tests of the loop in `TryRecover`
pub is_due : Duration → Time → RotatableKey → Bool
unfolding since is_zero
is_due cooldown now k =
    leb max_fail_count k.fail_count
    && not (is_zero k.last_fail)
    && (ltb 0 cooldown && leb cooldown (since now k.last_fail))

pub recover_key : Duration → Time → RotatableKey → RotatableKey
unfolding is_due
recover_key cooldown now k = if is_due cooldown now k then record k { fail_count = 0 } else k

-- TryRecover; a cooldown that is not positive is 0 here
unfoldable pub try_recover : KeyRotator → Duration → Time → KeyRotator × Bool
unfolding is_due recover_key
try_recover kr cooldown now =
    (record kr { keys = map (recover_key cooldown now) kr.keys }, any (is_due cooldown now) kr.keys)
