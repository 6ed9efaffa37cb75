-- ===== src/Publish/Catalogue.antt =====
-- The ledger as its clients see it: which configuration stands under a name, and which name is
-- active. The order of the revisions, their snapshots and the publish records are forgotten.
use mathlib.Core.Path.{subst}
use ai_model_gateway.Base.{
  ℕ, zero, suc, ◌+◌, ◌<◌, ◌≡◌, refl, sym, ap, ◌∙◌, String, Bool, true, false, inl, inr, Option,
  none, some, List, [], ◌∷◌, ◌++◌, length, get_elem?, set, arith, Bool-cases, Option-cases, eq_iff,
  str_eq, if◌then◌else◌, Result, get_elem?-append_right,
}
use ai_model_gateway.Publish.{Revision, Publisher, PublishError}
use ai_model_gateway.Publish.Ledger.{find_from, find_revision}
use ai_model_gateway.Publish.Edits.{put_revision}
use ai_model_gateway.Publish.Releases.{PublishResult}
use ai_model_gateway.Publish.Invariant.{
  IsValid, ids, names, configs, configs-set_named, length-map_id, find_from-some, ids-set,
  map-append_id,
}
use ai_model_gateway.Publish.Kept.{with_config}
use ai_model_gateway.Publish.Outcomes.{succeeded, Released}
use ai_model_gateway.Publish.Published.{find_revision-held}

-- the configuration under each name that the ledger has, and the active name
pub record Catalogue (Config : Type 0) : Type 0 where
  pub entries : String → Option (Option Config)
  pub current : Option String

abbrev pub name_at : List String → Option ℕ → Option String
name_at xs none = none
name_at xs (some i) = get_elem? xs i

get_elem?-append_lt :
    (xs : List String) (x : String) (i : ℕ)
    → i < length xs
    → get_elem? (xs ++ x ∷ []) i ≡ get_elem? xs i
get_elem?-append_lt [] x i h = absurd (omega arith)
get_elem?-append_lt (y ∷ xs) x zero h = refl
get_elem?-append_lt (y ∷ xs) x (suc i) h = get_elem?-append_lt xs x i (omega arith)

name_at-append :
    (xs : List String) (x : String) (active : Option ℕ)
    → ((i : ℕ) → active ≡ some i → i < length xs)
    → name_at (xs ++ x ∷ []) active ≡ name_at xs active
name_at-append xs x none h = refl
name_at-append xs x (some i) h = get_elem?-append_lt xs x i (h i refl)

name_at-if :
    (b : Bool) (xs ys : List String) (place : ℕ) (active : Option ℕ) (id : String)
    → get_elem? xs place ≡ some id
    → name_at xs active ≡ name_at ys active
    → name_at xs (if b then some place else active) ≡ (if b then some id else name_at ys active)
name_at-if true xs ys place active id held same = held
name_at-if false xs ys place active id held same = same

module _ {Config : Type 0} where
  abbrev pub entry_in : List (String × Option Config) → String → Option (Option Config)
  entry_in [] id = none
  entry_in ((name, c) ∷ rest) id = if str_eq name id then some c else entry_in rest id

  abbrev pub catalogue : Publisher Config → Catalogue Config
  catalogue p = record {
    entries = entry_in (configs p.revisions);
    current = name_at (ids p) p.active;
  }

  -- what the operations promise of the catalogue
  abbrev pub activate : String → Catalogue Config → Catalogue Config
  activate id c = record c { current = some id }

  abbrev pub put_entry : String → Option Config → Bool → Catalogue Config → Catalogue Config
  put_entry id config active c = record {
    entries = λ other. if str_eq id other then some config else c.entries other;
    current = if active then some id else c.current;
  }

  pub catalogue_of :
      (q : Publisher Config) (entries : String → Option (Option Config)) (current : Option String)
      → ((id : String) → entry_in (configs q.revisions) id ≡ entries id)
      → name_at (ids q) q.active ≡ current
      → catalogue q ≡ record { entries = entries; current = current }
  catalogue_of q entries current e c = λ i. record { entries = λ id. e id i; current = c i }

  get_elem?-names :
      (rs : List (Revision Config)) (i : ℕ) (r : Revision Config)
      → get_elem? rs i ≡ some r
      → get_elem? (names rs) i ≡ some r.revision_id
  get_elem?-names [] i r h = cc
  get_elem?-names (s ∷ rs) zero r h =
      let same : s ≡ r = cc in ap (λ (t : Revision Config). some t.revision_id) same
  get_elem?-names (s ∷ rs) (suc i) r h = get_elem?-names rs i r h

  -- the catalogue that a publishing leaves, where its configurations have the entries `es`
  pub Released-catalogue :
      (p q : Publisher Config) (i : ℕ) (rev : Revision Config) (cs : List (String × Option Config))
      (es : String → Option (Option Config)) (result : Result PublishError PublishResult)
      → get_elem? p.revisions i ≡ some rev
      → ((id : String) → entry_in cs id ≡ es id)
      → Released p i rev.revision_id cs result q
      → catalogue q ≡ record {
        entries = es;
        current = if succeeded result then some rev.revision_id else (catalogue p).current;
      }
  Released-catalogue p q i rev cs es result h e r =
      catalogue_of q es _ (λ id. ap (λ l. entry_in l id) r.left_configs ∙ e id)
        (rw (r.activated, r.same_ids)
          (name_at-if (succeeded result) (ids p) (ids p) i p.active rev.revision_id
            (get_elem?-names p.revisions i rev h) refl))

  entry_in-append :
      (i : ℕ) (rs : List (Revision Config)) (r : Revision Config) (other : String)
      → find_from i rs r.revision_id ≡ none
      → entry_in (configs (rs ++ r ∷ [])) other
        ≡ (if str_eq r.revision_id other then some r.config else entry_in (configs rs) other)
  unfolding find_from
  entry_in-append i [] r other h = refl
  entry_in-append i (s ∷ rs) r other h = ground (
    arith,
    entry_in-append (suc i) rs r other,
    eq_iff s.revision_id other,
    eq_iff s.revision_id r.revision_id,
    eq_iff r.revision_id other,
  )

  entry_in-set :
      (i k : ℕ) (rs : List (Revision Config)) (r old : Revision Config) (other : String)
      → find_from i rs r.revision_id ≡ some (i + k, old)
      → entry_in (configs (set rs k r)) other
        ≡ (if str_eq r.revision_id other then some r.config else entry_in (configs rs) other)
  unfolding find_from
  entry_in-set i k [] r old other h = cc
  entry_in-set i zero (s ∷ rs) r old other h =
      elim (Bool-cases (str_eq s.revision_id r.revision_id)) [
        | inl e ↦ rw ((eq_iff s.revision_id r.revision_id).0 e) (ground arith)
        | inr e ↦
            let (k, at, _, _) =
              find_from-some (suc i) rs r.revision_id {j = i + 0} {r = old} (ground arith) in
            absurd (omega arith)
      ]
  entry_in-set i (suc k) (s ∷ rs) r old other h =
      elim (Bool-cases (str_eq s.revision_id r.revision_id)) [
        | inl e ↦ absurd (ground arith)
        | inr e ↦
            let shifted : i + suc k ≡ suc i + k = omega arith in
            let later : find_from (suc i) rs r.revision_id ≡ some (suc i + k, old) =
              subst (λ j. find_from (suc i) rs r.revision_id ≡ some (j, old)) shifted
                (ground arith) in
            ground (
              arith,
              entry_in-set (suc i) k rs r old other later,
              eq_iff s.revision_id other,
              eq_iff s.revision_id r.revision_id,
              eq_iff r.revision_id other,
            )
      ]

  get_elem?-at_end :
      (p : Publisher Config) (r : Revision Config)
      → get_elem? (ids p ++ r.revision_id ∷ []) (length p.revisions) ≡ some r.revision_id
  get_elem?-at_end p r =
      ap (get_elem? (ids p ++ r.revision_id ∷ [])) (omega (arith, length-map_id p.revisions))
      ∙ get_elem?-append_right (ids p) (r.revision_id ∷ []) 0

  pub put_revision-catalogue :
      (p : Publisher Config) (r : Revision Config) (active : Bool)
      → IsValid p
      → catalogue (put_revision p r active) ≡ put_entry r.revision_id r.config active (catalogue p)
  unfolding put_revision
  put_revision-catalogue p r active v = elim (Option-cases (find_revision p r.revision_id)) [
    | inl e ↦
        rw (put_revision, e)
          (catalogue_of
            (record p {
              revisions = p.revisions ++ r ∷ [];
              active = if active then some (length p.revisions) else p.active;
            })
            _ _ (λ id. entry_in-append 0 p.revisions r id e)
            (rw (map-append_id p.revisions r) (
              name_at-if active (ids p ++ r.revision_id ∷ []) (ids p) (length p.revisions) p.active
                r.revision_id (get_elem?-at_end p r)
                (name_at-append (ids p) r.revision_id p.active v.sound.in_range))))
    | inr ((i, old), e) ↦
        let held : get_elem? p.revisions i ≡ some old = find_revision-held p r.revision_id e in
        let (_, _, _, name) = find_from-some 0 p.revisions r.revision_id {j = i} {r = old} e in
        let same : names (set p.revisions i r) ≡ ids p = ids-set p.revisions i r old held name in
        rw (put_revision, e)
          (catalogue_of
            (record p {
              revisions = set p.revisions i r;
              active = if active then some i else p.active;
            })
            _ _
            (λ id.
              entry_in-set 0 i p.revisions r old id (e ∙ ap (λ j. some (j, old)) (omega arith)))
            (rw same (
              name_at-if active (ids p) (ids p) i p.active r.revision_id
                (get_elem?-names p.revisions i old held ∙ ap some name) refl)))
  ]

  -- the entries with another configuration for a revision that is found under its name
  pub entry_in-with_config :
      (p : Publisher Config) (i : ℕ) (rev : Revision Config) (left : Option Config)
      → find_revision p rev.revision_id ≡ some (i, rev)
      → (other : String)
      → entry_in (with_config p i rev left) other
        ≡ (put_entry rev.revision_id left false (catalogue p)).entries other
  entry_in-with_config p i rev left found other =
      let new : Revision Config = record rev { config = left } in
      ap (λ cs. entry_in cs other) (sym (configs-set_named p.revisions i new))
      ∙ entry_in-set 0 i p.revisions new rev other (found ∙ ap (λ j. some (j, rev)) (omega arith))

  pub entry_in-lost :
      (i : ℕ) (rs : List (Revision Config)) (id : String)
      → find_from i rs id ≡ none
      → entry_in (configs rs) id ≡ none
  unfolding find_from
  entry_in-lost i [] id h = refl
  entry_in-lost i (r ∷ rs) id h = ground (arith, entry_in-lost (suc i) rs id)

  pub entry_in-found :
      (i : ℕ) (rs : List (Revision Config)) (id : String) (j : ℕ) (rev : Revision Config)
      → find_from i rs id ≡ some (j, rev)
      → entry_in (configs rs) id ≡ some rev.config
  unfolding find_from
  entry_in-found i [] id j rev h = cc
  entry_in-found i (r ∷ rs) id j rev h = elim (Bool-cases (str_eq r.revision_id id)) [
    | inl e ↦ rw e (ground arith)
    | inr e ↦ rw e (entry_in-found (suc i) rs id j rev (ground arith))
  ]
