-- ===== src/Publish/Built.antt =====
-- What the loops of `ReplaceRevisions` and `LoadState` build: different, trimmed names.
use mathlib.Core.Logic.Or
use mathlib.Core.List.{
  Mem, Nodup, Nodup-cons, Nodup-nil, not-mem-nil, mem-cons, mem-cons_self, mem-cons_of_mem,
}
use mathlib.Core.Path.{subst}
use ai_model_gateway.Base.{
  ℕ, suc, ◌+◌, ◌<◌, ◌≡◌, ◌≢◌, sym, ◌∙◌, String, false, Option, some, List, [], ◌∷◌, length, arith,
  Bool-cases, inl, inr, eq_iff, str_eq, any, All, ◌⊎◌, not-mem_of_any, ok,
}
use ai_model_gateway.Publish.{Revision}
use ai_model_gateway.Publish.Edits.{check_name, place_of}
use ai_model_gateway.Publish.Invariant.{Named, names}

pub check_name-fine :
    (i : ℕ) (seen : List String) (id : String)
    → check_name i seen id ≡ ok tt
    → (id ≢ "") × (any (str_eq id) seen ≡ false)
unfolding check_name
check_name-fine i seen id h = (λ e. ground (arith, eq_iff id ""), ground arith)

pub place_of-cases :
    (want : String) (i : ℕ) (id : String) (before : Option ℕ)
    → (place_of want i id before ≡ some i) ⊎ (place_of want i id before ≡ before)
place_of-cases want i id before = elim (Bool-cases (str_eq id want)) [
  | inl e ↦ inl (rw e)
  | inr e ↦ inr (rw e)
]

module _ {Config : Type 0} where
  -- what a loop over revisions keeps: the names are new, trimmed and different, and the place is
  -- that of a revision passed or was there before
  pub record IsBuilt (i : ℕ) (seen : List String) (before : Option ℕ)
      (built : List (Revision Config) × Option ℕ) : Type 0 where
    pub distinct : Nodup (names built.0)
    pub named : All Named (names built.0)
    pub new : (id : String) → Mem id (names built.0) → ¬ Mem id seen
    pub place : (a : ℕ) → built.1 ≡ some a → (before ≡ some a) ⊎ (a < i + length built.0)

  pub IsBuilt-nil :
      (i : ℕ) (seen : List String) (before : Option ℕ) → IsBuilt i seen before ([], before)
  IsBuilt-nil i seen before = record {
    distinct = Nodup-nil;
    named = tt;
    new = λ id m. absurd (not-mem-nil m);
    place = λ a h. inl h;
  }

  pub IsBuilt-cons :
      (i : ℕ) (id : String) (seen : List String) (before here : Option ℕ) (r : Revision Config)
      (rest : List (Revision Config) × Option ℕ)
      → r.revision_id ≡ id
      → Named id
      → any (str_eq id) seen ≡ false
      → (here ≡ some i) ⊎ (here ≡ before)
      → IsBuilt (suc i) (id ∷ seen) here rest
      → IsBuilt i seen before (r ∷ rest.0, rest.1)
  IsBuilt-cons i id seen before here r rest same n fresh at b = record {
    distinct = Nodup-cons.1 (
      λ m. b.new r.revision_id m (subst (λ x. Mem x (id ∷ seen)) (sym same) mem-cons_self),
      b.distinct,
    );
    named = (subst Named (sym same) n, b.named);
    new = λ x m old.
        Or.elim (λ a. absurd a) (mem-cons.0 m)
          (λ e. not-mem_of_any id seen fresh (subst (λ y. Mem y seen) (e ∙ same) old))
          (λ later. b.new x later (mem-cons_of_mem id old));
    place = λ a h. elim (b.place a h) [
      | inr later ↦ inr (omega arith)
      | inl placed ↦ elim at [
        | inl first ↦ inr (ground (arith, sym first ∙ placed))
        | inr kept ↦ inl (sym kept ∙ placed)
      ]
    ];
  }
