-- ===== src/Auth/Texts.antt =====
-- Where a text is split at a separator.
use Prim.Native.String.{◌++◌}
use Prim.Native.Char.{Char, code}
use text.Mathlib.TextLemmas.{nil-append, cons-append}
use ai_model_gateway.Base.{
  ℕ, ◌≡◌, refl, sym, ap, ◌∙◌, arith, String, false, Option, none, some, inl, inr, Bool-cases,
  Option-cases, ◌==◌, ==_iff,
}
use ai_model_gateway.Auth.{split_first, split_last}

-- a text without a character
abbrev pub Lacks : ℕ → String → Type 0
Lacks sep String.[] = Unit
Lacks sep (String.◌∷◌ c s) = ((code c == sep) ≡ false) × Lacks sep s

pub Lacks-append : (sep : ℕ) (s t : String) → Lacks sep s → Lacks sep t → Lacks sep (s ++ t)
Lacks-append sep String.[] t h k = rw nil-append k
Lacks-append sep (String.◌∷◌ c s) t h k = rw cons-append (h.0, Lacks-append sep s t h.1 k)

pub split_first-append :
    (s t : String) (d : Char)
    → Lacks (code d) s
    → split_first (code d) (s ++ String.◌∷◌ d t) ≡ some (s, t)
unfolding split_first
split_first-append String.[] t d h = rw nil-append (ground (arith, ==_iff (code d) (code d)))
split_first-append (String.◌∷◌ c s) t d h =
    rw cons-append (ground (arith, split_first-append s t d h.1, h.0))

pub split_last-Lacks : (sep : ℕ) (s : String) → Lacks sep s → split_last sep s ≡ none
unfolding split_last
split_last-Lacks sep String.[] h = refl
split_last-Lacks sep (String.◌∷◌ c s) h = ground (arith, split_last-Lacks sep s h.1, h.0)

pub split_last-append :
    (s t : String) (d : Char)
    → Lacks (code d) t
    → split_last (code d) (s ++ String.◌∷◌ d t) ≡ some (s, t)
unfolding split_last
split_last-append String.[] t d h =
    rw nil-append (ground (arith, split_last-Lacks (code d) t h, ==_iff (code d) (code d)))
split_last-append (String.◌∷◌ c s) t d h =
    rw cons-append (ground (arith, split_last-append s t d h))

-- The parts and the separator make up the text.
pub split_first-some :
    (sep : ℕ) (s a b : String)
    → split_first sep s ≡ some (a, b)
    → (d : Char) × (code d ≡ sep) × (s ≡ a ++ String.◌∷◌ d b)
unfolding split_first
split_first-some sep String.[] a b h = cc
split_first-some sep (String.◌∷◌ c s) a b h = elim (Bool-cases (code c == sep)) [
  | inl e ↦
      let parts : Path (Option (String × String)) (some (String.[], s)) (some (a, b)) =
        ground arith in
      let before : Path String String.[] a = cc in
      let after : s ≡ b = cc in
      (c, (==_iff (code c) sep).0 e, rw (← before, ← after) (sym (nil-append (String.◌∷◌ c s))))
  | inr e ↦ elim (Option-cases (split_first sep s)) [
    | inl lost ↦ absurd (ground arith)
    | inr ((a', b'), found) ↦
        let (d, at, whole) = split_first-some sep s a' b' found in
        let parts : Path (Option (String × String)) (some (String.◌∷◌ c a', b')) (some (a, b)) =
          ground arith in
        let before : Path String (String.◌∷◌ c a') a = cc in
        let after : b' ≡ b = cc in
        (
          d,
          at,
          rw (← before, ← after)
              (ap (String.◌∷◌ c) whole ∙ sym (cons-append c a' (String.◌∷◌ d b'))),
        )
  ]
]
