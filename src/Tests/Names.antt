-- ===== src/Tests/Names.antt =====
-- File names, with the letters of the test texts as they are.
use ai_model_gateway.Base.{◌≡◌, ◌↔◌, refl, none, some, false, ok}
use ai_model_gateway.PathSecurity.{
  reserved_name, Paths, validate_file_name, check_patterns, check_reserved, contains_any, contains,
  has_prefix, first_match,
}
use ai_model_gateway.PathSecurity.Names.{IsPlain, validate_file_name-IsPlain}

abbrev plain_paths : Paths
plain_paths = record {
  abs = λ p. ok p;
  clean = λ p. p;
  join = λ ps. "joined";
  rel = λ b t. ok t;
  eval_symlinks = λ p. ok p;
  not_exist = λ p. false;
  separator = "/";
  to_lower = λ s. s;
  to_upper = λ s. s;
}

plain_accepted : validate_file_name plain_paths "routes.yaml" ≡ none
unfolding validate_file_name check_patterns check_reserved contains_any contains has_prefix
    first_match
plain_accepted = refl

reserved_refused : validate_file_name plain_paths "NUL.yaml" ≡ some (reserved_name "NUL")
unfolding validate_file_name check_patterns check_reserved contains_any contains has_prefix
    first_match
reserved_refused = refl

validate_file_name-IsPlain_example :
    (validate_file_name plain_paths "routes.yaml" ≡ none) ↔ IsPlain plain_paths "routes.yaml"
validate_file_name-IsPlain_example = validate_file_name-IsPlain plain_paths "routes.yaml"
