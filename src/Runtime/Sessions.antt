-- ===== src/Runtime/Sessions.antt =====
-- Sticky sessions: which provider a session is bound to, and how long.
use ai_model_gateway.Base.{
  ◌+◌, ◌*◌, ◌≤◌, ◌≡◌, refl, ap, String, true, false, not, none, some, arith, eq_iff, max_zero,
  is_pos, ℤ, pos, negsuc, zero, suc, ◌∙◌, leb, if◌then◌else◌, str_eq, Time, second, get, put,
  get-put, get-keep_if, Option-cases, inl, inr,
}
use ai_model_gateway.Snapshot.{Snapshot}
use ai_model_gateway.Runtime.{
  RuntimeState, StickyBinding, binding_expired, sticky_binding_key, cleanup_expired_sticky,
  lookup_sticky_provider, remember_sticky,
}

abbrev expiry : Snapshot → Time → Time
expiry snap now = now + max_zero snap.routing_policy.sticky_sessions.ttl_sec * second

max_zero-is_pos : (z : ℤ) → is_pos z ≡ true → 1 ≤ max_zero z
max_zero-is_pos (pos zero) h = cc
max_zero-is_pos (pos (suc n)) h = omega arith
max_zero-is_pos (negsuc n) h = cc

-- A binding that `rememberSticky` writes is what the session looks up until its time to live has
-- passed, and nothing is found from then on.
pub lookup-remember_sticky :
    (s : RuntimeState) (model sticky_key id : String) (snap : Snapshot) (now later : Time)
    → snap.routing_policy.sticky_sessions.enabled ≡ true
    → is_pos snap.routing_policy.sticky_sessions.ttl_sec ≡ true
    → str_eq sticky_key "" ≡ false
    → str_eq id "" ≡ false
    → (lookup_sticky_provider
        (remember_sticky s model sticky_key id snap now)
        model
        sticky_key
        later).0
      ≡ (if leb later (expiry snap now) then some id else none)
unfolding lookup_sticky_provider remember_sticky binding_expired
lookup-remember_sticky s model sticky_key id snap now later on ttl keyed named =
    let key = sticky_binding_key model sticky_key in
    let binding : StickyBinding = record { provider_id = id; expires_at = expiry snap now } in
    let found : get (put s.sticky key binding) key ≡ some binding =
      get-put s.sticky key key binding
      ∙ ap (λ b. if b then some binding else get s.sticky key) ((eq_iff key key).1 refl) in
    let long = max_zero-is_pos snap.routing_policy.sticky_sessions.ttl_sec ttl in
    rw (on, ttl, keyed, named, found) (ground arith)

-- Dropping the expired bindings first changes no later lookup.
pub lookup-cleanup_expired_sticky :
    (s : RuntimeState) (model sticky_key : String) (now later : Time)
    → now ≤ later
    → (lookup_sticky_provider (cleanup_expired_sticky s now) model sticky_key later).0
      ≡ (lookup_sticky_provider s model sticky_key later).0
unfolding lookup_sticky_provider cleanup_expired_sticky binding_expired
lookup-cleanup_expired_sticky s model sticky_key now later h =
    let key = sticky_binding_key model sticky_key in
    let kept = get-keep_if (λ k b. not (binding_expired now b)) s.sticky key in
    elim (Option-cases (get s.sticky key)) [
      | inl e ↦ rw (kept, e) (ground arith)
      | inr (b, e) ↦ rw (kept, e) (ground arith)
    ]
