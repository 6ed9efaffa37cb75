-- ===== src/Telemetry/Held.antt =====
-- The checkpoint of a store, and facts that it holds already.
use ai_model_gateway.Base.{
  ℕ, ◌≡◌, ap, sym, ◌∙◌, arith, true, none, some, List, [], ◌∷◌, ◌++◌, str_eq, any-append_left,
  any-append_right, inl, inr, Bool-cases, Option-cases, eq_iff, map, All, leb, ltb, if◌then◌else◌,
  get, get-put, ◌&&◌,
}
use mathlib.Core.Path.{subst}
use mathlib.Core.List.{map-append}
use ai_model_gateway.Telemetry.{LoggedEvent, ProjectionFact}
use ai_model_gateway.Telemetry.Store.{Store, raise_checkpoint, stored_fact}
use ai_model_gateway.Telemetry.Projector.{Codec, facts_of, projection_checkpoint_name}
use ai_model_gateway.Telemetry.Rows.{below, known, below-hit, below-miss}
use ai_model_gateway.Telemetry.Batches.{holds, stored_facts, facts_of-append}

abbrev pub checkpoint_of : Store → ℕ
checkpoint_of s = elim (get s.checkpoints projection_checkpoint_name) [ none ↦ 0 | some id ↦ id ]

pub checkpoint_of-raise :
    (m : ℕ) (s s' : Store)
    → s'.checkpoints ≡ raise_checkpoint projection_checkpoint_name m s.checkpoints
    → checkpoint_of s' ≡ (if ltb (checkpoint_of s) m then m else checkpoint_of s)
unfolding raise_checkpoint
checkpoint_of-raise m s s' e = elim (Option-cases (get s.checkpoints projection_checkpoint_name)) [
  | inl first ↦ ground (
    arith,
    ap (λ c. get c projection_checkpoint_name) e,
    get-put s.checkpoints projection_checkpoint_name projection_checkpoint_name m,
    eq_iff projection_checkpoint_name projection_checkpoint_name,
  )
  | inr (old, later) ↦ ground (
    arith,
    ap (λ c. get c projection_checkpoint_name) e,
    get-put s.checkpoints projection_checkpoint_name projection_checkpoint_name
        (if ltb old m then m else old),
    eq_iff projection_checkpoint_name projection_checkpoint_name,
  )
]

abbrev pub AllHeld : List ProjectionFact → List ProjectionFact → Type 0
AllHeld rows = All (λ f. holds rows f ≡ true)

AllHeld-append :
    (rows fs gs : List ProjectionFact) → AllHeld rows fs → AllHeld rows gs → AllHeld rows (fs ++ gs)
AllHeld-append rows [] gs h k = k
AllHeld-append rows (f ∷ fs) gs h k = (h.0, AllHeld-append rows fs gs h.1 k)

AllHeld-right : (xs ys fs : List ProjectionFact) → AllHeld ys fs → AllHeld (xs ++ ys) fs
AllHeld-right xs ys [] h = tt
AllHeld-right xs ys (f ∷ fs) h = (
  any-append_right (λ (r : ProjectionFact). str_eq f.event_id r.event_id) xs ys h.0,
  AllHeld-right xs ys fs h.1,
)

AllHeld-left : (xs ys fs : List ProjectionFact) → AllHeld xs fs → AllHeld (xs ++ ys) fs
AllHeld-left xs ys [] h = tt
AllHeld-left xs ys (f ∷ fs) h = (
  any-append_left (λ (r : ProjectionFact). str_eq f.event_id r.event_id) xs ys h.0,
  AllHeld-left xs ys fs h.1,
)

AllHeld-self : (fs : List ProjectionFact) → AllHeld (map stored_fact fs) fs
unfolding stored_fact
AllHeld-self [] = tt
AllHeld-self (f ∷ fs) = (
  ground (arith, eq_iff f.event_id f.event_id),
  AllHeld-right (stored_fact f ∷ []) (map stored_fact fs) fs (AllHeld-self fs),
)

module _ (codec : Codec) where
  abbrev pub HeldFacts : List LoggedEvent → List LoggedEvent → Type 0
  HeldFacts xs ys = AllHeld (stored_facts codec xs) (facts_of codec ys)

  pub stored_facts-append :
      (xs ys : List LoggedEvent)
      → stored_facts codec (xs ++ ys) ≡ stored_facts codec xs ++ stored_facts codec ys
  stored_facts-append xs ys =
      ap (map stored_fact) (facts_of-append codec xs ys)
      ∙ map-append stored_fact (facts_of codec xs) (facts_of codec ys)

  Held-cons : (r : LoggedEvent) (xs ys : List LoggedEvent) → HeldFacts xs ys → HeldFacts (r ∷ xs) ys
  Held-cons r xs ys h =
      subst (λ z. AllHeld z (facts_of codec ys)) (sym (stored_facts-append (r ∷ []) xs))
        (AllHeld-right (stored_facts codec (r ∷ [])) (stored_facts codec xs) (facts_of codec ys) h)

  Held-both :
      (r : LoggedEvent) (xs ys : List LoggedEvent) → HeldFacts xs ys → HeldFacts (r ∷ xs) (r ∷ ys)
  Held-both r xs ys h =
      subst (AllHeld (stored_facts codec (r ∷ xs))) (sym (facts_of-append codec (r ∷ []) ys)) (
        AllHeld-append (stored_facts codec (r ∷ xs)) (facts_of codec (r ∷ [])) (facts_of codec ys)
          (subst (λ z. AllHeld z (facts_of codec (r ∷ []))) (sym (stored_facts-append (r ∷ []) xs))
            (AllHeld-left (stored_facts codec (r ∷ [])) (stored_facts codec xs)
              (facts_of codec (r ∷ [])) (AllHeld-self (facts_of codec (r ∷ [])))))
          (Held-cons r xs ys h))

  pub known-Held : (a b c : ℕ) (rs : List LoggedEvent) → HeldFacts (below c rs) (known a b c rs)
  unfolding facts_of
  known-Held a b c [] = tt
  known-Held a b c (r ∷ rs) = elim (Bool-cases (leb r.id c)) [
    | inr e ↦
        let skip : known a b c (r ∷ rs) ≡ known a b c rs =
          ground (arith, Bool-cases (ltb a r.id && leb r.id b)) in
        subst (λ z. HeldFacts z (known a b c (r ∷ rs))) (sym (below-miss c r rs e))
          (subst (HeldFacts (below c rs)) (sym skip) (known-Held a b c rs))
    | inl e ↦
        subst (λ z. HeldFacts z (known a b c (r ∷ rs))) (sym (below-hit c r rs e))
          (elim (Bool-cases (ltb a r.id && leb r.id b)) [
            | inl in_window ↦
                let hit : known a b c (r ∷ rs) ≡ r ∷ known a b c rs = ground arith in
                subst (HeldFacts (r ∷ below c rs)) (sym hit)
                  (Held-both r (below c rs) (known a b c rs) (known-Held a b c rs))
            | inr outside ↦
                let skip : known a b c (r ∷ rs) ≡ known a b c rs = ground arith in
                subst (HeldFacts (r ∷ below c rs)) (sym skip)
                  (Held-cons r (below c rs) (known a b c rs) (known-Held a b c rs))
          ])
  ]
