-- ===== src/Runtime/Snapshots.antt =====
-- `ApplySnapshot`, `KeyRotatorForProvider` and `TryRecoverAPIKeys` of
-- internal/gateway/api/runtime_state.go, less the limiters and the queue.
use ai_model_gateway.Base.{
  ℕ, suc, ◌≡◌, refl, ap, ◌∙◌, String, Bool, false, ◌||◌, Option, none, some, List, [], ◌∷◌, any,
  length, ltb, if◌then◌else◌, str_eq, eq_iff, arith, Bool-cases, Option-cases, inl, inr, Map, get,
  put, keep_if, has, keep_value, get-put, get-keep_if, Time, Duration,
}
use ai_model_gateway.Snapshot.{ProviderSnapshot, Snapshot}
use ai_model_gateway.KeyRotation.{KeyRotator, new_key_rotator, try_recover}
use ai_model_gateway.Runtime.{ProviderRuntimeState, StickyBinding, RuntimeState, fresh}

abbrev pub providers_of : Option Snapshot → List ProviderSnapshot
providers_of none = []
providers_of (some snap) = snap.providers

-- `_, ok := activeProviders[id]`
abbrev pub is_active : List ProviderSnapshot → String → Bool
is_active ps id = any (λ (p : ProviderSnapshot). str_eq id p.provider_id) ps

unfoldable pub ensure_states :
    Map ProviderRuntimeState → List ProviderSnapshot → Map ProviderRuntimeState
ensure_states m [] = m
ensure_states m (p ∷ ps) =
    ensure_states (if has m p.provider_id then m else put m p.provider_id fresh) ps

abbrev pub has_keys : ProviderSnapshot → Bool
has_keys p = ltb 0 (length p.api_keys)

unfoldable pub build_rotators : Map KeyRotator → List ProviderSnapshot → Map KeyRotator
build_rotators m [] = m
build_rotators m (p ∷ ps) =
    build_rotators (if has_keys p then put m p.provider_id (new_key_rotator (some p)) else m) ps

unfoldable pub apply_snapshot : RuntimeState → Option Snapshot → RuntimeState
apply_snapshot s snap =
    let ps = providers_of snap in
    record {
      providers = keep_if (λ id st. is_active ps id) (ensure_states s.providers ps);
      sticky = keep_if (λ key (b : StickyBinding). is_active ps b.provider_id) s.sticky;
      key_rotators = build_rotators [] ps;
    }

unfoldable pub key_rotator_for_provider : RuntimeState → Option ProviderSnapshot → KeyRotator
key_rotator_for_provider s none = new_key_rotator none
key_rotator_for_provider s (some p) =
    if has_keys p
    then elim (get s.key_rotators p.provider_id) [ none ↦ new_key_rotator (some p) | some kr ↦ kr ]
    else new_key_rotator (some p)

-- The rotators after the loop over the providers from place `i`, and whether a key changed;
-- `clock i` is what `time.Now()` returns in the round of place `i`.
unfoldable pub recover_rotators :
    (ℕ → Time) → Duration → ℕ → Map KeyRotator → List ProviderSnapshot → Map KeyRotator × Bool
recover_rotators clock cooldown i m [] = (m, false)
recover_rotators clock cooldown i m (p ∷ ps) =
    elim (if has_keys p then get m p.provider_id else none) [
      | none ↦ recover_rotators clock cooldown (suc i) m ps
      | some kr ↦
          let (kr1, changed) = try_recover kr cooldown (clock i) in
          let (m1, later) = recover_rotators clock cooldown (suc i) (put m p.provider_id kr1) ps in
          (m1, changed || later)
    ]

unfoldable pub try_recover_api_keys :
    RuntimeState → Snapshot → Duration → (ℕ → Time) → RuntimeState × Bool
try_recover_api_keys s snap cooldown clock =
    let (m, changed) = recover_rotators clock cooldown 0 s.key_rotators snap.providers in
    (record s { key_rotators = m }, changed)

-- the state of a provider, the fresh one where there is none
abbrev pub state_or_fresh : Option ProviderRuntimeState → ProviderRuntimeState
state_or_fresh none = fresh
state_or_fresh (some st) = st

-- the rotator of the last of the providers with the id that has keys
abbrev pub rotator_in : List ProviderSnapshot → String → Option KeyRotator → Option KeyRotator
rotator_in [] id before = before
rotator_in (p ∷ ps) id before = rotator_in ps id (
    if has_keys p
    then (if str_eq p.provider_id id then some (new_key_rotator (some p)) else before)
    else before)

get-ensure_same :
    (m : Map ProviderRuntimeState) (i : String)
    → get (if has m i then m else put m i fresh) i ≡ some (state_or_fresh (get m i))
unfolding has
get-ensure_same m i = elim (Option-cases (get m i)) [
  | inl e ↦ rw (has, e) (ground (arith, get-put m i i fresh, eq_iff i i))
  | inr (st, e) ↦ rw (has, e) e
]

get-ensure_one :
    (m : Map ProviderRuntimeState) (i id : String)
    → get (if has m i then m else put m i fresh) id
      ≡ (if str_eq id i then some (state_or_fresh (get m id)) else get m id)
get-ensure_one m i id = elim (Bool-cases (str_eq id i)) [
  | inl e ↦ rw (e, (eq_iff id i).0 e) (get-ensure_same m i)
  | inr e ↦ ground (arith, get-put m i id fresh, eq_iff id i, eq_iff i id)
]

get-ensure_states :
    (m : Map ProviderRuntimeState) (ps : List ProviderSnapshot) (id : String)
    → get (ensure_states m ps) id
      ≡ (if is_active ps id then some (state_or_fresh (get m id)) else get m id)
unfolding ensure_states has
get-ensure_states m [] id = refl
get-ensure_states m (p ∷ ps) id =
    get-ensure_states (if has m p.provider_id then m else put m p.provider_id fresh) ps id
    ∙ ground (arith, get-ensure_one m p.provider_id id)

get-build_rotators :
    (m : Map KeyRotator) (ps : List ProviderSnapshot) (id : String)
    → get (build_rotators m ps) id ≡ rotator_in ps id (get m id)
unfolding build_rotators
get-build_rotators m [] id = refl
get-build_rotators m (p ∷ ps) id =
    get-build_rotators (if has_keys p then put m p.provider_id (new_key_rotator (some p)) else m) ps
      id
    ∙ ap (rotator_in ps id) (ground (arith, get-put m p.provider_id id (new_key_rotator (some p))))

-- After `ApplySnapshot` exactly the providers of the snapshot have a state, the one that they had
-- before if any and a fresh one otherwise; of the sticky bindings exactly those to its providers are
-- left, as they were; and a provider id has the new rotator of the last provider with it that has
-- keys, if any.
pub get-apply_snapshot :
    (s : RuntimeState) (snap : Option Snapshot) (id key : String)
    → let ps = providers_of snap in
      let after = apply_snapshot s snap in
      (get after.providers id
        ≡ (if is_active ps id then some (state_or_fresh (get s.providers id)) else none))
      × (get after.sticky key
          ≡ keep_value (λ k (b : StickyBinding). is_active ps b.provider_id) key (get s.sticky key))
      × (get after.key_rotators id ≡ rotator_in ps id none)
unfolding apply_snapshot get
get-apply_snapshot s snap id key =
    let ps = providers_of snap in
    (
      get-keep_if (λ i st. is_active ps i) (ensure_states s.providers ps) id
          ∙ ground (arith, get-ensure_states s.providers ps id),
      get-keep_if (λ k (b : StickyBinding). is_active ps b.provider_id) s.sticky key,
      get-build_rotators [] ps id,
    )
