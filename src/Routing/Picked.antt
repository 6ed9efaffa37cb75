-- ===== src/Routing/Picked.antt =====
-- What the loop of `orderProviderCandidates` over the weighted pool picks.
use mathlib.Core.Logic.Or
use mathlib.Core.List.Perm
use mathlib.Core.List.{
  reverse, Mem, Nodup, Perm, mem-cons, mem-cons_self, mem-cons_of_mem, Nodup-cons, Nodup-nil,
  not-mem-nil, mem-map_of_mem, exists_of_mem-map, perm_ext_iff_of_Nodup, reverse_perm, map-append,
  reverse-append, Mem-prop,
}
use mathlib.Core.Logic.{∥∥₁_elim}
use ai_model_gateway.Base.{
  ℕ, zero, suc, ◌+◌, ◌%◌, ◌<◌, String, ◌≡◌, refl, ap, ◌∙◌, ◌⊎◌, inl, inr, false, none, some, List,
  [], ◌∷◌, ◌++◌, map, arith, ltb, length, get_elem?, any, str_eq, not_ltb, Bool-cases, Option-cases,
  mem_of_any, not-mem_of_any, perm_of_length-le, length-perm, get_elem?-mem,
}
use ai_model_gateway.Routing.{ProviderCandidate, provider_id, Walk, visit, pick, walk}

abbrev pub ids : List ProviderCandidate → List String
ids = map provider_id

module _ (candidates : List ProviderCandidate) (pool : List ℕ) (start : ℕ) where
  -- what holds of the loop's variables before the round `offset`
  pub record Inv (offset : ℕ) (w : Walk) : Type 0 where
    pub seen_ids : w.seen ≡ reverse (ids w.ordered)
    pub distinct : Nodup w.seen
    pub subset : (s : String) → Mem s w.seen → Mem s (ids candidates)
    pub covered :
        (e : ℕ)
        → e < offset
        → (c : ProviderCandidate) → pick candidates pool start e ≡ some c
        → Mem (provider_id c) w.seen

  pick-mem :
      (e : ℕ) (c : ProviderCandidate) → pick candidates pool start e ≡ some c → Mem c candidates
  pick-mem e c h = elim (Option-cases (get_elem? pool ((start + e) % length pool))) [
    | inl out ↦ absurd (ground arith)
    | inr (idx, at) ↦ get_elem?-mem candidates idx c (ground arith)
  ]

  pub Inv-start : Inv 0 (record { seen = []; ordered = [] })
  Inv-start = record {
    seen_ids = refl;
    distinct = Nodup-nil;
    subset = λ s m. absurd (not-mem-nil m);
    covered = λ e h. absurd (omega arith);
  }

  last_or_before : (e offset : ℕ) → e < offset + 1 → (e < offset) ⊎ (e ≡ offset)
  last_or_before e offset h = ground arith

  covered_more :
      (offset : ℕ) (seen more : List String)
      → ((s : String) → Mem s seen → Mem s more)
      → ((c : ProviderCandidate)
          → pick candidates pool start offset ≡ some c
          → Mem (provider_id c) more)
      → ((e : ℕ)
          → e < offset
          → (c : ProviderCandidate) → pick candidates pool start e ≡ some c
          → Mem (provider_id c) seen)
      → (e : ℕ) → e < offset + 1
      → (c : ProviderCandidate) → pick candidates pool start e ≡ some c
      → Mem (provider_id c) more
  covered_more offset seen more grows now before e h c at = elim (last_or_before e offset h) [
    | inl lt ↦ grows (provider_id c) (before e lt c at)
    | inr eq ↦ now c (rw (← eq) at)
  ]

  Inv-skip :
      (offset : ℕ) (w : Walk)
      → ((c : ProviderCandidate)
          → pick candidates pool start offset ≡ some c
          → Mem (provider_id c) w.seen)
      → Inv offset w
      → Inv (offset + 1) w
  Inv-skip offset w now v = record {
    seen_ids = v.seen_ids;
    distinct = v.distinct;
    subset = v.subset;
    covered = covered_more offset w.seen w.seen (λ s m. m) now v.covered;
  }

  seen_ids_more :
      (w : Walk) (c : ProviderCandidate)
      → w.seen ≡ reverse (ids w.ordered)
      → provider_id c ∷ w.seen ≡ reverse (ids (w.ordered ++ c ∷ []))
  seen_ids_more w c h = simp (map-append, reverse-append, ← h)

  Inv-add :
      (offset : ℕ) (w : Walk) (c : ProviderCandidate)
      → pick candidates pool start offset ≡ some c
      → any (str_eq (provider_id c)) w.seen ≡ false
      → Inv offset w
      → Inv (offset + 1) (record { seen = provider_id c ∷ w.seen; ordered = w.ordered ++ c ∷ [] })
  Inv-add offset w c at new v = record {
    seen_ids = seen_ids_more w c v.seen_ids;
    distinct = Nodup-cons.1 (not-mem_of_any (provider_id c) w.seen new, v.distinct);
    subset = λ s m.
        Or.elim Mem-prop (mem-cons.0 m)
          (λ e. rw e (mem-map_of_mem provider_id (pick-mem offset c at))) (v.subset s);
    covered =
        covered_more offset w.seen (provider_id c ∷ w.seen)
          (λ s m. mem-cons_of_mem (provider_id c) m) (λ d at'. rw (same d at') mem-cons_self)
          v.covered;
  }
    where
      same :
          (d : ProviderCandidate)
          → pick candidates pool start offset ≡ some d
          → provider_id d ≡ provider_id c
      same d at' = cc

  Inv-visit-some :
      (offset : ℕ) (w : Walk) (c : ProviderCandidate)
      → pick candidates pool start offset ≡ some c
      → Inv offset w
      → Inv (offset + 1) (visit (some c) w)
  unfolding visit
  Inv-visit-some offset w c at v = elim (Bool-cases (any (str_eq (provider_id c)) w.seen)) [
    | inl old ↦
        rw old
          (Inv-skip offset w (λ d at'. rw (same d at') (mem_of_any (provider_id c) w.seen old)) v)
    | inr new ↦ rw new (Inv-add offset w c at new v)
  ]
    where
      same :
          (d : ProviderCandidate)
          → pick candidates pool start offset ≡ some d
          → provider_id d ≡ provider_id c
      same d at' = cc

  Inv-visit-none :
      (offset : ℕ) (w : Walk)
      → pick candidates pool start offset ≡ none
      → Inv offset w
      → Inv (offset + 1) (visit none w)
  unfolding visit
  Inv-visit-none offset w out v = Inv-skip offset w (λ c at. cc) v

  Inv-visit :
      (offset : ℕ) (w : Walk)
      → Inv offset w
      → Inv (offset + 1) (visit (pick candidates pool start offset) w)
  Inv-visit offset w v = elim (Option-cases (pick candidates pool start offset)) [
    | inl out ↦ rw out (Inv-visit-none offset w out v)
    | inr (c, at) ↦ rw at (Inv-visit-some offset w c at v)
  ]

  -- every candidate is met in some round
  abbrev pub Complete : Type 0
  Complete =
      (c : ProviderCandidate)
      → Mem c candidates
      → ∥ ((e : ℕ) × (e < length pool) × (pick candidates pool start e ≡ some c)) ∥₁

  length-ids : (cs : List ProviderCandidate) → length (ids cs) ≡ length cs
  length-ids [] = refl
  length-ids (c ∷ cs) = ap suc (length-ids cs)

  length-seen : {offset : ℕ} {w : Walk} → Inv offset w → length w.seen ≡ length w.ordered
  length-seen {w = w} v =
      length-perm (rw v.seen_ids (reverse_perm (ids w.ordered))) ∙ length-ids w.ordered

  -- the provider IDs of what a loop that has ended returns
  perm_ids :
      {offset : ℕ} {w : Walk}
      → Inv offset w
      → Perm w.seen (ids candidates)
      → Perm (ids w.ordered) (ids candidates)
  perm_ids {w = w} v p = Perm.trans (Perm.symm (reverse_perm (ids w.ordered))) (rw v.seen_ids at p)

  pub walk_perm :
      Nodup (ids candidates)
      → Complete
      → (rounds offset : ℕ) (w : Walk) → offset + rounds ≡ length pool
      → Inv offset w
      → Perm (ids (walk candidates pool start rounds offset w)) (ids candidates)
  unfolding walk
  walk_perm distinct complete zero offset w h v =
      perm_ids v ((perm_ext_iff_of_Nodup v.distinct distinct).1 λ s. (v.subset s, all s))
    where
      all : (s : String) → Mem s (ids candidates) → Mem s w.seen
      all s m = ∥∥₁_elim (exists_of_mem-map m) Mem-prop λ c.
          ∥∥₁_elim (complete c.0 c.1) Mem-prop λ e. rw (← c.2) (v.covered e.0 (omega arith) c.0 e.2)
  walk_perm distinct complete (suc rounds) offset w h v =
      elim (Bool-cases (ltb (length w.ordered) (length candidates))) [
        | inl more ↦ rw more (
            walk_perm distinct complete rounds (offset + 1)
              (visit (pick candidates pool start offset) w) (omega arith) (Inv-visit offset w v))
        | inr full ↦ rw full (
            perm_ids v (
              perm_of_length-le v.distinct v.subset
                (omega (arith, length-seen v, length-ids candidates, not_ltb _ _ full))))
      ]
