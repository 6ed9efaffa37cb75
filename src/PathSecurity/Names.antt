-- ===== src/PathSecurity/Names.antt =====
-- Which file names `ValidateFileName` accepts.
use Prim.Native.Char.{Char, code}
use text.Mathlib.TextLemmas.{
  cons-append, cons-eq-cons, head-eq_of_cons-eq, tail-eq_of_cons-eq, cons≢nil, nil≢cons,
}
use text.Mathlib.TextEquality.{Char-path}
use ai_model_gateway.Base.{
  ◌≡◌, ◌≢◌, ◌↔◌, refl, sym, ap, ◌∙◌, String, Bool, true, false, not, ◌&&◌, Option, none, some, List,
  [], ◌∷◌, any, All, str_eq, eq_iff, ◌==◌, ==_iff, if◌then◌else◌, arith, Bool-cases, inl, inr,
}
use ai_model_gateway.PathSecurity.{
  has_prefix, contains, contains_any, first_match, dangerous_patterns, reserved_names,
  is_reserved_as, NameError, empty_filename, null_bytes, path_separators, dangerous_pattern,
  reserved_name, Paths, check_reserved, check_patterns, validate_file_name,
}

-- the text before the first dot
unfoldable pub stem : String → String
stem String.[] = String.[]
stem (String.◌∷◌ c s) = let rest = stem s in if code c == 46 then String.[] else String.◌∷◌ c rest

dotless : String → Bool
dotless String.[] = true
dotless (String.◌∷◌ c s) = not (code c == 46) && dotless s

and_true : {a b : Bool} → a ≡ true → b ≡ true → (a && b) ≡ true
and_true h k = rw (h, k)

and_parts : (a b : Bool) → (a && b) ≡ true → (a ≡ true) × (b ≡ true)
and_parts true true h = (refl, refl)
and_parts true false h = cc
and_parts false b h = cc

Bool-ext : (a b : Bool) → (a ≡ true → b ≡ true) → (b ≡ true → a ≡ true) → a ≡ b
Bool-ext true b h k = sym (h refl)
Bool-ext false true h k = k refl
Bool-ext false false h k = refl

str_eq-cons :
    (c d : Char) (s r : String)
    → str_eq (String.◌∷◌ c s) (String.◌∷◌ d r) ≡ (code c == code d && str_eq s r)
str_eq-cons c d s r =
    Bool-ext _ _
      (λ e.
        let same = (eq_iff (String.◌∷◌ c s) (String.◌∷◌ d r)).0 e in
        and_true ((==_iff (code c) (code d)).1 (ap code (head-eq_of_cons-eq same)))
          ((eq_iff s r).1 (tail-eq_of_cons-eq same)))
      (λ e.
        let (heads, tails) = and_parts _ _ e in
        (eq_iff (String.◌∷◌ c s) (String.◌∷◌ d r)).1 (
          cons-eq-cons.1
            (Char-path c d ((==_iff (code c) (code d)).0 heads), (eq_iff s r).0 tails)))

str_eq-empty : (c : Char) (s : String) → str_eq (String.◌∷◌ c s) "" ≡ false
str_eq-empty c s =
    Bool-ext _ _ (λ e. absurd (cons≢nil ((eq_iff (String.◌∷◌ c s) "").0 e))) (λ e. cc)

empty-str_eq : (c : Char) (s : String) → str_eq "" (String.◌∷◌ c s) ≡ false
empty-str_eq c s =
    Bool-ext _ _ (λ e. absurd (nil≢cons ((eq_iff "" (String.◌∷◌ c s)).0 e))) (λ e. cc)

has_prefix-empty : (s : String) → has_prefix s "" ≡ true
unfolding has_prefix
has_prefix-empty String.[] = refl
has_prefix-empty (String.◌∷◌ c s) = refl

-- A name is reserved as `r` exactly when its stem is `r`.
is_reserved_as-stem : (s r : String) → dotless r ≡ true → is_reserved_as s r ≡ str_eq (stem s) r
unfolding has_prefix stem dotless
is_reserved_as-stem String.[] String.[] h = refl
is_reserved_as-stem String.[] (String.◌∷◌ d r) h = rw (empty-str_eq d r, cons-append d r ".")
is_reserved_as-stem (String.◌∷◌ c s) String.[] h =
    rw (str_eq-empty c s) (elim (Bool-cases (code c == 46)) [
      | inl e ↦ rw (e, has_prefix-empty s)
      | inr e ↦ rw (e, str_eq-empty c (stem s))
    ])
is_reserved_as-stem (String.◌∷◌ c s) (String.◌∷◌ d r) h =
    rw (str_eq-cons c d s r, cons-append d r ".")
      (elim (Bool-cases (code c == code d)) [
        | inl e ↦
            let undotted : (code c == 46) ≡ false = ground arith in
            rw (e, undotted)
              (is_reserved_as-stem s r (and_parts _ _ h).1
                ∙ sym (str_eq-cons c d (stem s) r ∙ rw e))
        | inr e ↦ rw e (elim (Bool-cases (code c == 46)) [
          | inl dot ↦ rw dot (sym (empty-str_eq d r))
          | inr letter ↦ rw letter (sym (str_eq-cons c d (stem s) r ∙ rw e))
        ])
      ])

-- a name that keeps to one component: no NUL, no separator, no dots or their encodings that lead up
pub record IsPlain (os : Paths) (name : String) : Type 0 where
  pub named : name ≢ ""
  pub no_null : contains_any name (0 ∷ []) ≡ false
  pub no_separator : contains_any name (47 ∷ 92 ∷ []) ≡ false
  pub no_pattern : any (contains (os.to_lower name)) dangerous_patterns ≡ false
  pub unreserved : any (str_eq (stem (os.to_upper name))) reserved_names ≡ false

any-first_match :
    (test : String → Bool) (xs : List String) → (first_match test xs ≡ none) ↔ (any test xs ≡ false)
unfolding first_match
any-first_match test [] = (λ h. refl, λ h. refl)
any-first_match test (x ∷ xs) = let (to, from) = any-first_match test xs in ground arith

any-reserved :
    (s : String) (rs : List String)
    → All (λ r. dotless r ≡ true) rs
    → any (is_reserved_as s) rs ≡ any (str_eq (stem s)) rs
any-reserved s [] h = refl
any-reserved s (r ∷ rs) h = rw (is_reserved_as-stem s r h.0, any-reserved s rs h.1)

All-dotless :
    (rs : List String) → any (λ r. not (dotless r)) rs ≡ false → All (λ r. dotless r ≡ true) rs
All-dotless [] h = tt
All-dotless (r ∷ rs) h = (ground arith, All-dotless rs (ground arith))

reserved_names-dotless : any (λ r. not (dotless r)) reserved_names ≡ false
unfolding dotless
reserved_names-dotless = refl

-- a check that passes, and the checks after it
guard-none :
    (b : Bool) (e : NameError) (rest : Option NameError)
    → ((if b then some e else rest) ≡ none) ↔ ((b ≡ false) × (rest ≡ none))
guard-none true e rest = (λ h. cc, λ p. cc p.0)
guard-none false e rest = (λ h. (refl, h), λ p. p.1)

found-none :
    (o : Option String) (f : String → NameError) (rest : Option NameError)
    → (elim o as (λ x. Option NameError) [ some p ↦ some (f p) | none ↦ rest ] ≡ none)
      ↔ ((o ≡ none) × (rest ≡ none))
found-none none f rest = (λ h. (refl, h), λ p. p.1)
found-none (some p) f rest = (λ h. cc, λ q. cc q.0)

module _ (os : Paths) (name : String) where
  -- `ValidateFileName` accepts exactly the plain names: not empty, without NUL and separators,
  -- without two dots or their encodings in any letter case, and with a stem, the part before the
  -- first dot, that is none of the reserved names in any letter case.
  pub validate_file_name-IsPlain : (validate_file_name os name ≡ none) ↔ IsPlain os name
  unfolding validate_file_name check_patterns check_reserved
  validate_file_name-IsPlain =
      let lower = contains (os.to_lower name) in
      let upper = is_reserved_as (os.to_upper name) in
      let same =
        any-reserved (os.to_upper name) reserved_names
          (All-dotless reserved_names reserved_names-dotless) in
      let reserved = found-none (first_match upper reserved_names) reserved_name none in
      let patterns =
        found-none (first_match lower dangerous_patterns) dangerous_pattern
          (check_reserved os name) in
      let separators =
        guard-none (contains_any name (47 ∷ 92 ∷ [])) path_separators (check_patterns os name) in
      let nulls = guard-none (contains_any name (0 ∷ [])) null_bytes _ in
      let named = guard-none (str_eq name "") empty_filename _ in
      (
        λ h.
            let (h0, r0) = named.0 h in
            let (h1, r1) = nulls.0 r0 in
            let (h2, r2) = separators.0 r1 in
            let (h3, r3) = patterns.0 r2 in
            record {
              named = λ e. ground (arith, eq_iff name "");
              no_null = h1;
              no_separator = h2;
              no_pattern = (any-first_match lower dangerous_patterns).0 h3;
              unreserved = sym same ∙ (any-first_match upper reserved_names).0 (reserved.0 r3).0;
            },
        λ plain. named.1 (
          ground (arith, eq_iff name "", plain.named),
          nulls.1 (
            plain.no_null,
            separators.1 (
              plain.no_separator,
              patterns.1 (
                (any-first_match lower dangerous_patterns).1 plain.no_pattern,
                reserved.1
                    ((any-first_match upper reserved_names).1 (same ∙ plain.unreserved), refl),
              ),
            ),
          ),
        ),
      )
