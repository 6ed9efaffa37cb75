-- ===== src/PathSecurity.antt =====
-- internal/pathsecurity/pathsecurity.go. The packages path/filepath and os, and the letter cases of
-- package strings, are parameters.
pub mod Names
use Prim.Native.String.{◌++◌ as concat}
use Prim.Native.Char.{Char, code}
use ai_model_gateway.Base.{
  ℕ, String, Bool, true, false, not, ◌&&◌, ◌||◌, Option, none, some, List, [], ◌∷◌, any, str_eq,
  ◌==◌, if◌then◌else◌, Result, ok, err, ◌>>=◌,
}

-- strings.HasPrefix
unfoldable pub has_prefix : String → String → Bool
has_prefix s String.[] = true
has_prefix String.[] (String.◌∷◌ d p) = false
has_prefix (String.◌∷◌ c s) (String.◌∷◌ d p) = code c == code d && has_prefix s p

-- strings.Contains
unfoldable pub contains : String → String → Bool
unfolding has_prefix
contains String.[] p = has_prefix String.[] p
contains (String.◌∷◌ c s) p = has_prefix (String.◌∷◌ c s) p || contains s p

-- strings.ContainsAny, for the characters with the codes
unfoldable pub contains_any : String → List ℕ → Bool
contains_any String.[] codes = false
contains_any (String.◌∷◌ c s) codes = any (λ n. code c == n) codes || contains_any s codes

-- strings.ReplaceAll(s, "\x00", "")
unfoldable pub without_null : String → String
without_null String.[] = String.[]
without_null (String.◌∷◌ c s) =
    let rest = without_null s in if code c == 0 then rest else String.◌∷◌ c rest

pub data NameError : Type 0 where
  empty_filename null_bytes path_separators : NameError
  dangerous_pattern reserved_name : String → NameError

-- the first text that passes a test
unfoldable pub first_match : (String → Bool) → List String → Option String
first_match test [] = none
first_match test (x ∷ xs) = let rest = first_match test xs in if test x then some x else rest

abbrev pub dangerous_patterns : List String
dangerous_patterns = ".." ∷ "%2e%2e" ∷ "%252e%252e" ∷ []

abbrev pub reserved_names : List String
reserved_names =
    "CON" ∷ "PRN" ∷ "AUX" ∷ "NUL" ∷ "COM1" ∷ "COM2" ∷ "COM3" ∷ "COM4" ∷ "COM5" ∷ "COM6" ∷ "COM7"
    ∷ "COM8" ∷ "COM9" ∷ "LPT1" ∷ "LPT2" ∷ "LPT3" ∷ "LPT4" ∷ "LPT5" ∷ "LPT6" ∷ "LPT7" ∷ "LPT8"
    ∷ "LPT9" ∷ []

abbrev pub is_reserved_as : String → String → Bool
is_reserved_as upper reserved = str_eq upper reserved || has_prefix upper (concat reserved ".")

pub record Paths : Type 0 where
  pub abs : String → Result String String
  pub clean : String → String
  pub join : List String → String
  pub rel : String → String → Result String String
  pub eval_symlinks : String → Result String String
  pub not_exist : String → Bool
  pub separator : String
  pub to_lower : String → String
  pub to_upper : String → String

module _ (os : Paths) where
  -- `ValidateFileName` and `ValidatePathComponent`: why a name is refused, if it is
  unfoldable pub check_reserved : String → Option NameError
  check_reserved name = elim (first_match (is_reserved_as (os.to_upper name)) reserved_names) [
    | some r ↦ some (reserved_name r)
    | none ↦ none
  ]

  unfoldable pub check_patterns : String → Option NameError
  check_patterns name = elim (first_match (contains (os.to_lower name)) dangerous_patterns) [
    | some p ↦ some (dangerous_pattern p)
    | none ↦ check_reserved name
  ]

  unfoldable pub validate_file_name : String → Option NameError
  validate_file_name name =
      if str_eq name ""
      then some empty_filename
      else if contains_any name (0 ∷ [])
      then some null_bytes
      else if contains_any name (47 ∷ 92 ∷ [])
      then some path_separators
      else check_patterns name

  -- whether a relative path leads out of the base
  abbrev pub escapes : String → Bool
  escapes rel = str_eq rel ".." || has_prefix rel (concat ".." os.separator)

  -- `IsSafePath`; the files are looked up in the parameter
  abbrev pub relative : String → String → Result String String
  relative base target = do
    b ← os.abs base
    t ← os.abs target
    if os.not_exist (os.clean b)
        then err "base does not exist"
        else os.rel (os.clean b) (os.clean t)

  unfoldable pub is_safe_path : String → String → Bool
  is_safe_path base target = elim (relative base target) [ err _ ↦ false | ok r ↦ not (escapes r) ]

  -- the resolved target, or the cleaned one where it cannot be resolved
  unfoldable pub real_target : String → String
  real_target target = elim (os.eval_symlinks target) [ ok t ↦ t | err _ ↦ os.clean target ]

  -- `NormalizeAndValidatePath` and `JoinSafe`
  unfoldable pub validate_target : String → String → Result String String
  validate_target base target = elim (os.rel base (real_target target)) [
    | err _ ↦ err (concat "path traversal detected: " target)
    | ok r ↦
        if escapes r
        then err (concat "path traversal detected: " target)
        else ok (real_target target)
  ]

  unfoldable pub normalize_and_validate_path : String → List String → Result String String
  normalize_and_validate_path base components = elim (os.abs base) [
    | err e ↦ err (concat "invalid base path: " e)
    | ok b ↦ validate_target (os.clean b) (os.join (os.clean b ∷ components))
  ]

  unfoldable pub sanitize_path : String → String
  sanitize_path path =
      let cleaned = os.clean (without_null path) in if has_prefix cleaned ".." then "" else cleaned
