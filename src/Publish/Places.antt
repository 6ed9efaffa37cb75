-- ===== src/Publish/Places.antt =====
-- The place of the active revision, as the restoring of a saved ledger finds it.
use mathlib.Core.List.{
  Mem, Nodup, Nodup-cons, mem-cons, mem-cons_self, mem-cons_of_mem, not-mem-nil,
}
use mathlib.Core.Logic.Or
use mathlib.Core.Path.{subst}
use ai_model_gateway.Base.{
  ℕ, zero, suc, ◌+◌, ◌<◌, ◌≡◌, ◌≢◌, refl, sym, ap, ◌∙◌, String, Option, none, some, List, [], ◌∷◌,
  length, get_elem?, any, All, arith, Bool-cases, Option-cases, inl, inr, eq_iff, str_eq,
  trim_space, ok, map_err, map_err-ok, >>=-ok, ok_injective, mem_of_any,
}
use ai_model_gateway.Snapshot.{Snapshot}
use ai_model_gateway.Publish.{Revision, Publisher, at_revision, StoredRevision, Environment}
use ai_model_gateway.Publish.Ledger.{
  marshal_stored_revision, marshal_revisions, active_id, active_revision,
}
use ai_model_gateway.Publish.Edits.{check_name, place_of, require_active, restore_all}
use ai_model_gateway.Publish.Invariant.{Named, IsValid, ids, names, length-map_id}
use ai_model_gateway.Publish.Codecs.{CodecLaws, Storable, unmarshal-marshal}

check_name_new :
    (i : ℕ) (seen : List String) (id : String)
    → id ≢ ""
    → (¬ Mem id seen)
    → check_name i seen id ≡ ok tt
unfolding check_name
check_name_new i seen id named new = elim (Bool-cases (any (str_eq id) seen)) [
  | inl e ↦ absurd (new (mem_of_any id seen e))
  | inr e ↦ ground (arith, eq_iff id "")
]

not-mem_of_Named : (xs : List String) → All Named xs → ¬ Mem "" xs
not-mem_of_Named [] n = not-mem-nil
not-mem_of_Named (x ∷ xs) n =
    λ m. Or.elim (λ a. absurd a) (mem-cons.0 m) (λ e. n.0.1 (sym e)) (not-mem_of_Named xs n.1)

pub some_not_none {ℓ} : {A : Type ℓ} {a : A} → some a ≢ none
some_not_none h = cc

module _ {Config : Type 0} where
  get_elem?-of_lt :
      (rs : List (Revision Config)) (k : ℕ)
      → k < length rs
      → (r : Revision Config) × (get_elem? rs k ≡ some r)
  get_elem?-of_lt [] k h = absurd (omega arith)
  get_elem?-of_lt (r ∷ rs) zero h = (r, refl)
  get_elem?-of_lt (r ∷ rs) (suc k) h = get_elem?-of_lt rs k (omega arith)

  Named-at :
      (rs : List (Revision Config)) (k : ℕ) (r : Revision Config)
      → All Named (names rs)
      → get_elem? rs k ≡ some r
      → Named r.revision_id
  Named-at [] k r n h = cc
  Named-at (s ∷ rs) zero r n h =
      let same : s ≡ r = cc in subst (λ (t : Revision Config). Named t.revision_id) same n.0
  Named-at (s ∷ rs) (suc k) r n h = Named-at rs k r n.1 h

module _ {W Config Fields : Type 0} (env : Environment W Config Fields) {full : Config → Type 0}
    {full_snapshot : Snapshot → Type 0} (laws : CodecLaws env full full_snapshot) where
  -- the place of the active name, as the loop over the stored revisions finds it
  abbrev pub place_in : String → ℕ → Option ℕ → List (Revision Config) → Option ℕ
  place_in want i place [] = place
  place_in want i place (r ∷ rs) = place_in want (suc i) (place_of want i r.revision_id place) rs

  place_in-absent :
      (want : String) (i : ℕ) (place : Option ℕ) (rs : List (Revision Config))
      → (¬ Mem want (names rs))
      → place_in want i place rs ≡ place
  place_in-absent want i place [] h = refl
  place_in-absent want i place (r ∷ rs) h = elim (Bool-cases (str_eq r.revision_id want)) [
    | inl e ↦
        absurd
          (h (subst (λ x. Mem x (names (r ∷ rs))) ((eq_iff r.revision_id want).0 e) mem-cons_self))
    | inr e ↦
        rw e (place_in-absent want (suc i) place rs (λ m. h (mem-cons_of_mem r.revision_id m)))
  ]

  place_in-at :
      (want : String) (i k : ℕ) (place : Option ℕ) (rs : List (Revision Config))
      (r : Revision Config)
      → Nodup (names rs)
      → get_elem? rs k ≡ some r
      → r.revision_id ≡ want
      → place_in want i place rs ≡ some (i + k)
  place_in-at want i k place [] r d h e = cc
  place_in-at want i zero place (s ∷ rs) r d h e =
      let same : s ≡ r = cc in
      let named : s.revision_id ≡ want = ap (λ (t : Revision Config). t.revision_id) same ∙ e in
      rw ((eq_iff s.revision_id want).1 named) (
        place_in-absent want (suc i) (some i) rs
          (subst (λ x. ¬ Mem x (names rs)) named (Nodup-cons.0 d).0)
        ∙ ap some (omega arith))
  place_in-at want i (suc k) place (s ∷ rs) r d h e =
      place_in-at want (suc i) k _ rs r (Nodup-cons.0 d).1 h e ∙ ap some (omega arith)

  pub restore_all-marshal :
      (want : String) (i j : ℕ) (seen : List String) (place : Option ℕ)
      (rs : List (Revision Config)) (ss : List StoredRevision)
      → Nodup (names rs)
      → All Named (names rs)
      → ((id : String) → Mem id (names rs) → ¬ Mem id seen)
      → All (Storable env full full_snapshot) rs
      → marshal_revisions env j rs ≡ ok ss
      → restore_all env want i seen place ss ≡ ok (rs, place_in want i place rs)
  unfolding marshal_revisions restore_all
  restore_all-marshal want i j seen place [] ss d n new norm h =
      subst (λ l. restore_all env want i seen place l ≡ ok ([], place)) (ok_injective h) refl
  restore_all-marshal want i j seen place (r ∷ rs) ss d n new norm h =
      let (s, one, h1) = >>=-ok (map_err (at_revision j) (marshal_stored_revision env r)) _ h in
      let (later, rest, h2) = >>=-ok (marshal_revisions env (suc j) rs) _ h1 in
      let id = r.revision_id in
      let again : (x : String) → Mem x (names rs) → ¬ Mem x (id ∷ seen) = λ x m old.
        Or.elim (λ a. absurd a) (mem-cons.0 old)
          (λ e. (Nodup-cons.0 d).0 (subst (λ y. Mem y (names rs)) e m))
          (new x (mem-cons_of_mem id m)) in
      subst
        (λ l.
          restore_all env want i seen place l
          ≡ ok (r ∷ rs, place_in want (suc i) (place_of want i id place) rs))
        (ok_injective h2)
        (rw (
          unmarshal-marshal env laws r s norm.0 n.0.0 (map_err-ok (at_revision j) _ one),
          check_name_new i seen id n.0.1 (new id mem-cons_self),
          restore_all-marshal want (suc i) (suc j) (id ∷ seen) (place_of want i id place) rs later
              (Nodup-cons.0 d).1 n.1 again norm.1 rest,
        ))

  active_id-none : (p : Publisher Config) → p.active ≡ none → active_id env p ≡ ""
  unfolding active_revision
  active_id-none p e = rw (active_revision, e)

  active_id-some :
      (p : Publisher Config) (k : ℕ) (r : Revision Config)
      → p.active ≡ some k
      → get_elem? p.revisions k ≡ some r
      → active_id env p ≡ r.revision_id
  unfolding active_revision
  active_id-some p k r e held = rw (active_id, active_revision, e, held)

  -- what the restoring of the active name rests on: it is trimmed, and found in its place
  abbrev pub Found : List (Revision Config) → Option ℕ → String → Type 0
  Found rs active id =
      (trim_space id ≡ id)
      × (place_in id 0 none rs ≡ active)
      × (require_active id (rs, active) ≡ ok (rs, active))

  pub active-Found :
      (p : Publisher Config) → IsValid p → Found p.revisions p.active (active_id env p)
  unfolding trim_space
  active-Found p v = elim (Option-cases p.active) [
    | inl e ↦
        subst (λ a. Found p.revisions a (active_id env p)) (sym e)
          (subst (Found p.revisions none) (sym (active_id-none p e)) (
            refl,
            place_in-absent "" 0 none p.revisions (not-mem_of_Named (ids p) v.sound.named),
            refl,
          ))
    | inr (k, e) ↦
        let (r, held) =
          get_elem?-of_lt p.revisions k
            (ground (arith, v.sound.in_range k e, length-map_id p.revisions)) in
        let (trimmed, _) = Named-at p.revisions k r v.sound.named held in
        subst (λ a. Found p.revisions a (active_id env p)) (sym e)
          (subst (Found p.revisions (some k)) (sym (active_id-some p k r e held)) (
            trimmed,
            place_in-at r.revision_id 0 k none p.revisions r v.sound.distinct held refl
                ∙ ap some (omega arith),
            refl,
          ))
  ]
