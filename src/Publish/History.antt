-- ===== src/Publish/History.antt =====
-- `GetHistory` lists the newest revisions first.
use mathlib.Core.Option
use ai_model_gateway.Base.{
  ℕ, zero, suc, ◌+◌, ◌-◌, ◌<◌, ◌≡◌, refl, sym, ap, ◌∙◌, ℤ, true, false, ◌&&◌, Option, none, some,
  List, [], ◌∷◌, ◌++◌, length, get_elem?, take, ltb, ◌==◌, arith, if◌then◌else◌, length-append,
  Bool-cases, inl, inr,
}
use ai_model_gateway.Publish.{Revision, Publisher}
use ai_model_gateway.Publish.Views.{
  RevisionInfo, info_of, is_active_at, newest_first, history_size, get_history,
}

module _ {ℓ} {A : Type ℓ} where
  get_elem?-take :
      (n : ℕ) (xs : List A) (i : ℕ)
      → get_elem? (take n xs) i ≡ (if ltb i n then get_elem? xs i else none)
  get_elem?-take zero xs i = ground arith
  get_elem?-take (suc n) [] i = ground arith
  get_elem?-take (suc n) (x ∷ xs) zero = ground arith
  get_elem?-take (suc n) (x ∷ xs) (suc i) = ground (arith, get_elem?-take n xs i)

  get_elem?-append_one :
      (xs : List A) (x : A) (i : ℕ)
      → get_elem? (xs ++ x ∷ []) i
        ≡ (if ltb i (length xs) then get_elem? xs i else if i == length xs then some x else none)
  get_elem?-append_one [] x zero = ground arith
  get_elem?-append_one [] x (suc i) = ground arith
  get_elem?-append_one (y ∷ xs) x zero = ground arith
  get_elem?-append_one (y ∷ xs) x (suc i) = ground (arith, get_elem?-append_one xs x i)

module _ {Config : Type 0} (p : Publisher Config) where
  -- the entry of the revision at place `k` of a list that starts at place `j` of the ledger
  info_from : ℕ → List (Revision Config) → ℕ → Option RevisionInfo
  info_from j rs k = Option.map (λ r. info_of r (is_active_at p (j + k))) (get_elem? rs k)

  length-newest_first :
      (j : ℕ) (rs : List (Revision Config)) → length (newest_first p j rs) ≡ length rs
  unfolding newest_first
  length-newest_first j [] = refl
  length-newest_first j (r ∷ rs) =
      length-append (newest_first p (suc j) rs) _ ∙ omega (arith, length-newest_first (suc j) rs)

  info_from-cons :
      (j : ℕ) (r : Revision Config) (rs : List (Revision Config)) (k : ℕ)
      → info_from (suc j) rs k ≡ info_from j (r ∷ rs) (suc k)
  unfolding info_from
  info_from-cons j r rs k =
      ap (λ n. Option.map (λ r. info_of r (is_active_at p n)) (get_elem? rs k)) (omega arith)

  get_elem?-newest_first :
      (j : ℕ) (rs : List (Revision Config)) (i : ℕ)
      → get_elem? (newest_first p j rs) i
        ≡ (if ltb i (length rs) then info_from j rs (length rs - 1 - i) else none)
  unfolding newest_first info_from
  get_elem?-newest_first j [] i = ground arith
  get_elem?-newest_first j (r ∷ rs) i =
      let n = length rs in
      let place : (i < n) → suc (n - 1 - i) ≡ suc n - 1 - i = λ h. omega arith in
      let here : (i ≡ n) → suc n - 1 - i ≡ 0 = λ h. omega arith in
      let start : info_from j (r ∷ rs) 0 ≡ some (info_of r (is_active_at p j)) =
        ap (λ k. some (info_of r (is_active_at p k))) (omega arith) in
      get_elem?-append_one (newest_first p (suc j) rs) _ i
      ∙ rw (length-newest_first (suc j) rs, get_elem?-newest_first (suc j) rs i)
          (elim (Bool-cases (ltb i n)) [
            | inl lt ↦
                let below : ltb i (suc n) ≡ true = ground arith in
                rw (lt, below)
                  (info_from-cons j r rs (n - 1 - i)
                    ∙ ap (info_from j (r ∷ rs)) (place (ground arith)))
            | inr ge ↦ elim (Bool-cases (i == n)) [
              | inl same ↦
                  let below : ltb i (suc n) ≡ true = ground arith in
                  rw (ge, same, below)
                    (sym (ap (info_from j (r ∷ rs)) (here (ground arith)) ∙ start))
              | inr past ↦ let above : ltb i (suc n) ≡ false = ground arith in rw (ge, past, above)
            ]
          ])

  -- Place `i` of the history has the revision that is `i` places before the last of the ledger,
  -- marked as active if it stands in the active place, as long as `i` is below the limit (50 for a
  -- limit that is not positive) and below the number of revisions, and nothing from there on.
  pub get_elem?-get_history :
      (limit : ℤ) (i : ℕ)
      → get_elem? (get_history p limit) i ≡ (
          if ltb i (history_size limit) && ltb i (length p.revisions)
          then Option.map
              (λ r. info_of r (is_active_at p (length p.revisions - 1 - i)))
              (get_elem? p.revisions (length p.revisions - 1 - i))
          else none)
  unfolding get_history info_from
  get_elem?-get_history limit i =
      get_elem?-take (history_size limit) (newest_first p 0 p.revisions) i
      ∙ ground (arith, get_elem?-newest_first 0 p.revisions i)
