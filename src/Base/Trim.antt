-- ===== src/Base/Trim.antt =====
-- What `strings.TrimSpace` leaves is left alone by it.
use Prim.Native.String.{String, ◌++◌}
use Prim.Native.Char.{Char, code}
use mathlib.Core.Path.{◌≡◌, refl, sym, ap, ◌∙◌}
use mathlib.Core.Logic.{inl, inr}
use mathlib.Core.Bool.{false}
use text.Mathlib.TextLemmas.{nil-append, cons-append}
use ai_model_gateway.Base.Tests.{Bool-cases}
use ai_model_gateway.Base.Text.{is_space, trim_left, trim_right, trim_space, push_unless_space}

push-empty :
    (c : Char) → is_space (code c) ≡ false → push_unless_space c String.[] ≡ String.◌∷◌ c String.[]
unfolding push_unless_space
push-empty c h = rw h

trim_right-push :
    (c : Char) (t : String)
    → trim_right t ≡ t
    → trim_right (push_unless_space c t) ≡ push_unless_space c t
unfolding push_unless_space trim_right
trim_right-push c String.[] h = elim (Bool-cases (is_space (code c))) [
  | inl e ↦ rw (push_unless_space, e)
  | inr e ↦ rw (push_unless_space, e) (push-empty c e)
]
trim_right-push c (String.◌∷◌ d t) h = ap (push_unless_space c) h

trim_right_twice : (s : String) → trim_right (trim_right s) ≡ trim_right s
unfolding trim_right
trim_right_twice String.[] = refl
trim_right_twice (String.◌∷◌ c s) = trim_right-push c (trim_right s) (trim_right_twice s)

trim_left-push :
    (c : Char) (t : String)
    → is_space (code c) ≡ false
    → trim_left (push_unless_space c t) ≡ push_unless_space c t
unfolding push_unless_space trim_left
trim_left-push c String.[] h = rw (push_unless_space, h) (rw (trim_left, h))
trim_left-push c (String.◌∷◌ d t) h = rw (trim_left, h)

trim_left-trim_right :
    (s : String) → trim_left (trim_right (trim_left s)) ≡ trim_right (trim_left s)
unfolding trim_left trim_right
trim_left-trim_right String.[] = refl
trim_left-trim_right (String.◌∷◌ c s) = elim (Bool-cases (is_space (code c))) [
  | inl e ↦ rw (trim_left, e) (trim_left-trim_right s)
  | inr e ↦ rw (trim_left, e) (trim_left-push c (trim_right s) e)
]

pub trim_space_twice : (s : String) → trim_space (trim_space s) ≡ trim_space s
unfolding trim_space
trim_space_twice s = ap trim_right (trim_left-trim_right s) ∙ trim_right_twice (trim_left s)

-- A text that neither starts nor ends with a space is left as it is.
trim_right-append :
    (s : String) (c : Char) (t : String)
    → trim_right (String.◌∷◌ c t) ≡ String.◌∷◌ c t
    → trim_right (s ++ String.◌∷◌ c t) ≡ s ++ String.◌∷◌ c t
unfolding trim_right push_unless_space
trim_right-append String.[] c t h = rw (nil-append (String.◌∷◌ c t)) h
trim_right-append (String.◌∷◌ d String.[]) c t h =
    rw (cons-append d String.[] (String.◌∷◌ c t), nil-append (String.◌∷◌ c t))
      (ap (push_unless_space d) h)
trim_right-append (String.◌∷◌ d (String.◌∷◌ e s)) c t h =
    rw (cons-append d (String.◌∷◌ e s) (String.◌∷◌ c t)) (
      ap (push_unless_space d) (trim_right-append (String.◌∷◌ e s) c t h)
      ∙ ap (push_unless_space d) (cons-append e s (String.◌∷◌ c t))
      ∙ ap (String.◌∷◌ d) (sym (cons-append e s (String.◌∷◌ c t))))

pub trim_space-between :
    (a c : Char) (s t : String)
    → is_space (code a) ≡ false
    → trim_right (String.◌∷◌ c t) ≡ String.◌∷◌ c t
    → trim_space (String.◌∷◌ a (s ++ String.◌∷◌ c t)) ≡ String.◌∷◌ a (s ++ String.◌∷◌ c t)
unfolding trim_space trim_left
trim_space-between a c s t h e =
    rw (trim_left, h)
      (ap trim_right (sym (cons-append a s (String.◌∷◌ c t)))
        ∙ trim_right-append (String.◌∷◌ a s) c t e
        ∙ cons-append a s (String.◌∷◌ c t))
