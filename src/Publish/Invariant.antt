-- ===== src/Publish/Invariant.antt =====
-- The invariant of the ledger, and the steps that its operations share.
use mathlib.Core.List
use mathlib.Core.List.{Nodup, Mem, mem-cons, not-mem-nil}
use mathlib.Core.Logic.Or
use mathlib.Core.Path.{subst}
use ai_model_gateway.Base.{
  ℕ, zero, suc, ◌+◌, ◌-◌, ◌<◌, ◌≤◌, ◌≡◌, ◌≢◌, refl, sym, ap, ◌∙◌, ℤ, String, true, Option, none,
  some, List, [], ◌∷◌, ◌++◌, map, length, get_elem?, set, All, max_zero, is_pos, arith, Bool-cases,
  Option-cases, inl, inr, eq_iff, str_eq, trim_space, length-append, length-drop, count_if-append,
  occurrences, Nodup-of_occurrences, occurrences_of_Nodup, occurrences_of_not-mem,
}
use ai_model_gateway.Publish.{Revision, PublishRecord, PublisherPolicy, Publisher, Environment}
use ai_model_gateway.Publish.Ledger.{
  normalize_policy, find_from, trim_publishes, policy_from_config, sync_policy, set_policy,
  active_config, new_publisher, retained,
}

-- a name as the ledger keeps it
abbrev pub Named : String → Type 0
Named id = (trim_space id ≡ id) × (id ≢ "")

-- The names are trimmed, not empty and different, and the active place is one of theirs.
pub record IsSound (ids : List String) (active : Option ℕ) : Type 0 where
  pub distinct : Nodup ids
  pub named : All Named ids
  pub in_range : (i : ℕ) → active ≡ some i → i < length ids

-- The limit is positive, and the publish records are within it.
pub record IsLimited (policy : PublisherPolicy) (publishes : List PublishRecord) : Type 0 where
  pub positive : is_pos policy.publish_history_limit ≡ true
  pub within : length publishes ≤ max_zero policy.publish_history_limit

module _ {Config : Type 0} where
  abbrev pub names : List (Revision Config) → List String
  names rs = map (λ (r : Revision Config). r.revision_id) rs

  abbrev pub ids : Publisher Config → List String
  ids p = names p.revisions

  pub record IsValid (p : Publisher Config) : Type 0 where
    pub sound : IsSound (ids p) p.active
    pub limited : IsLimited p.policy p.publishes

  -- the names with their configurations
  abbrev pub named_config : Revision Config → String × Option Config
  named_config r = (r.revision_id, r.config)

  abbrev pub configs : List (Revision Config) → List (String × Option Config)
  configs rs = map named_config rs

  pub length-map_id :
      (rs : List (Revision Config))
      → length (map (λ (r : Revision Config). r.revision_id) rs) ≡ length rs
  length-map_id [] = refl
  length-map_id (r ∷ rs) = ap suc (length-map_id rs)

  -- What a lookup that counts from `i` finds stands that many places further on, under the name.
  pub find_from-some :
      (i : ℕ) (rs : List (Revision Config)) (id : String) {j : ℕ} {r : Revision Config}
      → find_from i rs id ≡ some (j, r)
      → (k : ℕ) × (j ≡ i + k) × (get_elem? rs k ≡ some r) × (r.revision_id ≡ id)
  unfolding find_from
  find_from-some i [] id h = cc
  find_from-some i (s ∷ rs) id {j = j} {r = r} h = elim (Bool-cases (str_eq s.revision_id id)) [
    | inl e ↦
        let same : s ≡ r = ground arith in
        (
          0,
          ground arith,
          ap some same,
          subst (λ (t : Revision Config). t.revision_id ≡ id) same ((eq_iff s.revision_id id).0 e),
        )
    | inr e ↦
        let (k, at, held, name) = find_from-some (suc i) rs id {j = j} {r = r} (ground arith) in
        (suc k, omega arith, held, name)
  ]

  pub find_from-none :
      (i : ℕ) (rs : List (Revision Config)) (id : String)
      → find_from i rs id ≡ none
      → ¬ Mem id (map (λ (r : Revision Config). r.revision_id) rs)
  unfolding find_from
  find_from-none i [] id h = not-mem-nil
  find_from-none i (s ∷ rs) id h = λ m.
      Or.elim (λ a. absurd a) (mem-cons.0 m) (λ e. ground (arith, eq_iff s.revision_id id))
        (find_from-none (suc i) rs id (ground arith))

  -- a revision in the place of one with the same name keeps the names
  pub ids-set :
      (rs : List (Revision Config)) (k : ℕ) (r old : Revision Config)
      → get_elem? rs k ≡ some old
      → old.revision_id ≡ r.revision_id
      → map (λ (r : Revision Config). r.revision_id) (set rs k r)
        ≡ map (λ (r : Revision Config). r.revision_id) rs
  ids-set [] k r old held same = refl
  ids-set (s ∷ rs) zero r old held same =
      let e : s ≡ old = cc in
      ap (λ n. n ∷ map (λ (r : Revision Config). r.revision_id) rs)
        (sym (subst (λ (t : Revision Config). t.revision_id ≡ r.revision_id) (sym e) same))
  ids-set (s ∷ rs) (suc k) r old held same =
      ap (λ l. s.revision_id ∷ l) (ids-set rs k r old held same)

  pub configs-set_named :
      (rs : List (Revision Config)) (k : ℕ) (r : Revision Config)
      → configs (set rs k r) ≡ set (configs rs) k (named_config r)
  configs-set_named [] k r = refl
  configs-set_named (s ∷ rs) zero r = refl
  configs-set_named (s ∷ rs) (suc k) r = ap (λ l. named_config s ∷ l) (configs-set_named rs k r)

  pub configs-set :
      (rs : List (Revision Config)) (k : ℕ) (r old : Revision Config)
      → get_elem? rs k ≡ some old
      → named_config old ≡ named_config r
      → configs (set rs k r) ≡ configs rs
  configs-set [] k r old held same = refl
  configs-set (s ∷ rs) zero r old held same =
      let e : s ≡ old = cc in ap (λ n. n ∷ configs rs) (sym (ap named_config e ∙ same))
  configs-set (s ∷ rs) (suc k) r old held same =
      ap (λ l. named_config s ∷ l) (configs-set rs k r old held same)

  pub map-append_id :
      (rs : List (Revision Config)) (r : Revision Config)
      → map (λ (r : Revision Config). r.revision_id) (rs ++ r ∷ [])
        ≡ map (λ (r : Revision Config). r.revision_id) rs ++ r.revision_id ∷ []
  map-append_id [] r = refl
  map-append_id (s ∷ rs) r = ap (λ l. s.revision_id ∷ l) (map-append_id rs r)

Nodup-append_new : (xs : List String) (x : String) → Nodup xs → (¬ Mem x xs) → Nodup (xs ++ x ∷ [])
Nodup-append_new xs x d new = Nodup-of_occurrences (xs ++ x ∷ []) (λ s.
    elim (Bool-cases (str_eq s x)) [
      | inl e ↦
          subst (λ y. occurrences y (xs ++ x ∷ []) ≤ 1) (sym ((eq_iff s x).0 e))
            (ground
              (arith, count_if-append (str_eq x) xs (x ∷ []), occurrences_of_not-mem x xs new))
      | inr e ↦ ground (arith, count_if-append (str_eq s) xs (x ∷ []), occurrences_of_Nodup s xs d)
    ])

All-append_one : (xs : List String) (x : String) → All Named xs → Named x → All Named (xs ++ x ∷ [])
All-append_one [] x all n = (n, tt)
All-append_one (y ∷ ys) x all n = (all.0, All-append_one ys x all.1 n)

-- a new name at the end, active or not
pub IsSound-append :
    (names : List String) (active active' : Option ℕ) (id : String)
    → IsSound names active
    → Named id
    → (¬ Mem id names)
    → ((i : ℕ) → active' ≡ some i → i ≤ length names)
    → IsSound (names ++ id ∷ []) active'
IsSound-append names active active' id s n new h = record {
  distinct = Nodup-append_new names id s.distinct new;
  named = All-append_one names id s.named n;
  in_range = λ i e. omega (arith, h i e, length-append names (id ∷ []));
}

normalize_policy-positive :
    (policy : PublisherPolicy) → is_pos (normalize_policy policy).publish_history_limit ≡ true
unfolding normalize_policy
normalize_policy-positive policy = elim (Bool-cases (is_pos policy.publish_history_limit)) [
  | inl e ↦ rw (normalize_policy, e) e
  | inr e ↦ rw (normalize_policy, e)
]

pub retained-within :
    (limit : ℤ) (publishes : List PublishRecord)
    → is_pos limit ≡ true
    → length (retained limit publishes) ≤ max_zero limit
unfolding retained
retained-within limit publishes h =
    ground (arith, length-drop (length publishes - max_zero limit) publishes)

module _ {Config : Type 0} where
  pub trim_publishes-IsValid :
      (p : Publisher Config)
      → IsSound (ids p) p.active
      → is_pos p.policy.publish_history_limit ≡ true
      → IsValid (trim_publishes p)
  trim_publishes-IsValid p s h = record {
    sound = s;
    limited = record {
      positive = h;
      within = retained-within p.policy.publish_history_limit p.publishes h;
    };
  }

  pub set_policy-IsValid :
      (p : Publisher Config) (policy : PublisherPolicy) → IsValid p → IsValid (set_policy p policy)
  unfolding set_policy
  set_policy-IsValid p policy v =
      trim_publishes-IsValid (record p { policy = normalize_policy policy }) v.sound
        (normalize_policy-positive policy)

  pub new_publisher-IsValid : IsValid (new_publisher {Config = Config})
  new_publisher-IsValid = record {
    sound = record { distinct = List.Nodup-nil; named = tt; in_range = λ i h. cc };
    limited = record { positive = refl; within = omega arith };
  }

module _ {W Config Fields : Type 0} (env : Environment W Config Fields) where
  policy_from_config-positive :
      (c : Option Config) → is_pos (policy_from_config env c).publish_history_limit ≡ true
  unfolding policy_from_config
  policy_from_config-positive none = normalize_policy-positive _
  policy_from_config-positive (some c) = normalize_policy-positive _

  -- the derived policy changes neither the revisions nor which of them is active
  pub sync_policy-revisions : (p : Publisher Config) → (sync_policy env p).revisions ≡ p.revisions
  unfolding sync_policy
  sync_policy-revisions p = ground arith

  pub sync_policy-active : (p : Publisher Config) → (sync_policy env p).active ≡ p.active
  unfolding sync_policy
  sync_policy-active p = ground arith

  pub sync_policy-IsValid :
      (p : Publisher Config)
      → IsSound (ids p) p.active
      → IsLimited p.policy p.publishes
      → IsValid (sync_policy env p)
  unfolding sync_policy
  sync_policy-IsValid p s l = elim (Option-cases (active_config env p)) [
    | inl e ↦ rw (sync_policy, e) (record { sound = s; limited = l })
    | inr (c, e) ↦
        rw (sync_policy, e)
          (trim_publishes-IsValid (record p { policy = policy_from_config env (some c) }) s
            (policy_from_config-positive (some c)))
  ]
