-- ===== src/Publish/Names.antt =====
-- The names that the publisher generates are neither empty nor surrounded by spaces.
use Prim.Native.String.{◌++◌ as concat}
use Prim.Native.Char.{Char, code}
use text.Mathlib.TextLemmas.{nil-append, cons-append, append_assoc}
use ai_model_gateway.Base.{
  ℕ, zero, suc, ◌%◌, ◌<◌, ◌≡◌, refl, sym, ap, ◌∙◌, String, Bool, true, false, not, ◌&&◌, arith,
  is_space, trim_right, push_unless_space, trim_space-between,
}
use ai_model_gateway.Publish.{Environment}
use ai_model_gateway.Publish.Generated.{char_at, suffix_char, random_suffix, generate_id}
use ai_model_gateway.Publish.Invariant.{Named}

size : String → ℕ
size String.[] = 0
size (String.◌∷◌ c s) = suc (size s)

solid : String → Bool
solid String.[] = true
solid (String.◌∷◌ c s) = not (is_space (code c)) && solid s

char_at-solid :
    (s : String) (n : ℕ)
    → solid s ≡ true
    → n < size s
    → (c : Char) × (char_at s n ≡ String.◌∷◌ c String.[]) × (is_space (code c) ≡ false)
unfolding char_at size solid
char_at-solid String.[] n h lt = absurd (omega arith)
char_at-solid (String.◌∷◌ c s) zero h lt = (c, refl, ground arith)
char_at-solid (String.◌∷◌ c s) (suc n) h lt = char_at-solid s n (ground arith) (omega arith)

suffix_char-solid :
    (n : ℕ) → (c : Char) × (suffix_char n ≡ String.◌∷◌ c String.[]) × (is_space (code c) ≡ false)
unfolding suffix_char size solid is_space
suffix_char-solid n =
    char_at-solid "abcdefghijklmnopqrstuvwxyz0123456789" (n % 36) refl (omega arith)

-- a text that is not empty and does not end with a space
abbrev Ended : String → Type 0
Ended s = (c : Char) × (t : String) × (s ≡ String.◌∷◌ c t) × (trim_right s ≡ s)

Ended-cons :
    (c : Char) (s : String)
    → is_space (code c) ≡ false
    → Ended s
    → Ended (concat (String.◌∷◌ c String.[]) s)
unfolding trim_right push_unless_space
Ended-cons c s h (d, t, e, r) =
    let joined : concat (String.◌∷◌ c String.[]) s ≡ String.◌∷◌ c s =
      cons-append c String.[] s ∙ ap (String.◌∷◌ c) (nil-append s) in
    let kept : trim_right (String.◌∷◌ c s) ≡ String.◌∷◌ c s =
      ap (push_unless_space c) (r ∙ e) ∙ ap (String.◌∷◌ c) (sym e) in
    (c, s, joined, ap trim_right joined ∙ kept ∙ sym joined)

Ended-one :
    (c : Char) → is_space (code c) ≡ false → Ended (concat (String.◌∷◌ c String.[]) String.[])
unfolding trim_right push_unless_space
Ended-one c h =
    let joined : concat (String.◌∷◌ c String.[]) String.[] ≡ String.◌∷◌ c String.[] =
      cons-append c String.[] String.[] ∙ ap (String.◌∷◌ c) (nil-append String.[]) in
    let kept : trim_right (String.◌∷◌ c String.[]) ≡ String.◌∷◌ c String.[] = rw h in
    (c, String.[], joined, ap trim_right joined ∙ kept ∙ sym joined)

module _ {W Config Fields : Type 0} (env : Environment W Config Fields) where
  random_suffix-Ended : (n : ℕ) (w : W) → Ended (random_suffix env (suc n) w).0
  unfolding random_suffix
  random_suffix-Ended zero w =
      let (c, one, h) = suffix_char-solid (env.nanosecond (env.now w).0) in rw one (Ended-one c h)
  random_suffix-Ended (suc n) w =
      let (c, one, h) = suffix_char-solid (env.nanosecond (env.now w).0) in
      let rest = random_suffix-Ended n (env.now w).1 in rw one (Ended-cons c _ h rest)

  pub generate_id-Named : (w : W) → Named (generate_id env "rev_" w).0
  unfolding generate_id is_space size
  generate_id-Named w =
      let (c, t, e, r) = random_suffix-Ended 5 (env.now w).1 in
      let stamp = env.format_stamp (env.now w).0 in
      let end = String.◌∷◌ c t in
      let front = concat "ev_" (concat stamp "_") in
      let shape : concat "rev_" (concat stamp (concat "_" end))
          ≡ String.◌∷◌ "r" (concat front end) =
        ap (concat "rev_") (sym (append_assoc stamp "_" end))
        ∙ cons-append "r" "ev_" (concat (concat stamp "_") end)
        ∙ ap (String.◌∷◌ "r") (sym (append_assoc "ev_" (concat stamp "_") end)) in
      let ended : trim_right end ≡ end = ap trim_right (sym e) ∙ r ∙ e in
      rw (e, shape) (trim_space-between "r" c front t refl ended, λ h. omega (arith, ap size h))
