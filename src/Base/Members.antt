-- ===== src/Base/Members.antt =====
-- Membership, repetition-free lists and permutations: the library's predicates, against the
-- Boolean tests and the native lengths of the program.
use Prim.Native.Nat.{ℕ, zero, suc, ◌+◌, ◌≤◌, ◌<◌}
use native.Mathlib.Nat.{suc-add, ℕ_set}
use mathlib.Core.Option.{some}
use Prim.Native.String.{String}
use mathlib.Core.Logic.Or
use mathlib.Core.Logic.{inl, inr, ∥∥₁_map, ∥∥₁_elim}
use mathlib.Core.Bool.{Bool, true, false}
use mathlib.Core.List
use mathlib.Core.List.Nodup
use mathlib.Core.List.Perm
use mathlib.Core.List.Subperm
use mathlib.Core.List.{
  List, [], ◌∷◌, ◌++◌, Mem, Nodup, Perm, mem-cons, not-mem-nil, mem-cons_self, mem-cons_of_mem,
  Nodup-cons, Nodup-nil, Permᴰ,
}
use mathlib.Core.Path.{◌≡◌, ◌∙◌, refl, sym, ap, subst}
use native.Mathlib.Omega.{arith}
use native.Mathlib.Bridge.{from_ℕ, from_le⁻¹}
use text.Mathlib.TextEquality.{eq_iff}
use ai_model_gateway.Base.Tests.{Bool-cases}
use ai_model_gateway.Base.Lists.{length, any, get_elem?, count_if}
use ai_model_gateway.Base.Text.{str_eq}

pub mem_of_any : (k : String) (xs : List String) → any (str_eq k) xs ≡ true → Mem k xs
mem_of_any k [] h = cc
mem_of_any k (x ∷ xs) h = elim (Bool-cases (str_eq k x)) [
  | inl e ↦ subst (λ y. Mem k (y ∷ xs)) ((eq_iff k x).0 e) mem-cons_self
  | inr e ↦ mem-cons_of_mem x (mem_of_any k xs (ground arith))
]

pub not-mem_of_any : (k : String) (xs : List String) → any (str_eq k) xs ≡ false → ¬ Mem k xs
not-mem_of_any k [] h = not-mem-nil
not-mem_of_any k (x ∷ xs) h = λ m.
    Or.elim (λ a. absurd a) (mem-cons.0 m) (λ e. ground (arith, eq_iff k x))
      (not-mem_of_any k xs (ground arith))

from_length {ℓ} : {A : Type ℓ} (xs : List A) → from_ℕ (List.length xs) ≡ length xs
from_length [] = refl
from_length (x ∷ xs) = ap suc (from_length xs)

pub length-perm {ℓ} : {A : Type ℓ} {xs ys : List A} → Perm xs ys → length xs ≡ length ys
length-perm {xs = xs} {ys = ys} p =
    sym (from_length xs) ∙ ap from_ℕ (Perm.length-eq p) ∙ from_length ys

-- A list without repetitions, all from another that is no longer, is a rearrangement of it.
pub perm_of_length-le {ℓ} :
    {A : Type ℓ} {xs ys : List A}
    → Nodup xs
    → ((a : A) → Mem a xs → Mem a ys)
    → length ys ≤ length xs
    → Perm xs ys
perm_of_length-le {xs = xs} {ys = ys} d s h =
    Subperm.perm_of_length_le (Nodup.subperm d s)
      (from_le⁻¹ _ _ (rw (from_length xs, from_length ys) h))

pub get_elem?-mem {ℓ} :
    {A : Type ℓ} (xs : List A) (i : ℕ) (x : A) → get_elem? xs i ≡ some x → Mem x xs
get_elem?-mem [] i x h = cc
get_elem?-mem (y ∷ ys) zero x h = let e : y ≡ x = cc in subst (λ z. Mem z (y ∷ ys)) e mem-cons_self
get_elem?-mem (y ∷ ys) (suc i) x h = mem-cons_of_mem y (get_elem?-mem ys i x h)

pub mem-get_elem? {ℓ} :
    {A : Type ℓ} (xs : List A) (x : A) → Mem x xs → ∥ ((i : ℕ) × (get_elem? xs i ≡ some x)) ∥₁
mem-get_elem? [] x m = absurd (not-mem-nil m)
mem-get_elem? (y ∷ ys) x m =
    Or.elim squash₁ (mem-cons.0 m) (λ e. ∣ (0, ap some (sym e)) ∣₁)
      (λ r. ∥∥₁_map (mem-get_elem? ys x r) (λ p. (suc p.0, p.1)))

pub get_elem?-append_left {ℓ} :
    {A : Type ℓ} (xs ys : List A) (i : ℕ) (x : A)
    → get_elem? xs i ≡ some x
    → get_elem? (xs ++ ys) i ≡ some x
get_elem?-append_left [] ys i x h = cc
get_elem?-append_left (y ∷ xs) ys zero x h = h
get_elem?-append_left (y ∷ xs) ys (suc i) x h = get_elem?-append_left xs ys i x h

pub get_elem?-append_right {ℓ} :
    {A : Type ℓ} (xs ys : List A) (i : ℕ) → get_elem? (xs ++ ys) (length xs + i) ≡ get_elem? ys i
get_elem?-append_right [] ys i = ap (get_elem? ys) (omega arith)
get_elem?-append_right (x ∷ xs) ys i = rw suc-add (get_elem?-append_right xs ys i)

pub get_elem?-lt {ℓ} :
    {A : Type ℓ} (xs : List A) (i : ℕ) (x : A) → get_elem? xs i ≡ some x → i < length xs
get_elem?-lt [] i x h = cc
get_elem?-lt (y ∷ ys) zero x h = omega arith
get_elem?-lt (y ∷ ys) (suc i) x h = omega (arith, get_elem?-lt ys i x h)

-- how often a text stands in a list
abbrev pub occurrences : String → List String → ℕ
occurrences s = count_if (str_eq s)

pub occurrences_of_mem : (s : String) (xs : List String) → occurrences s xs ≡ 0 → ¬ Mem s xs
occurrences_of_mem s [] h = not-mem-nil
occurrences_of_mem s (x ∷ xs) h = λ m.
    Or.elim (λ a. absurd a) (mem-cons.0 m) (λ e. ground (arith, eq_iff s x))
      (occurrences_of_mem s xs (ground arith))

pub occurrences_of_not-mem : (s : String) (xs : List String) → (¬ Mem s xs) → occurrences s xs ≡ 0
occurrences_of_not-mem s [] h = refl
occurrences_of_not-mem s (x ∷ xs) h = elim (Bool-cases (str_eq s x)) [
  | inl e ↦ absurd (h (subst (λ y. Mem s (y ∷ xs)) ((eq_iff s x).0 e) mem-cons_self))
  | inr e ↦ ground (arith, occurrences_of_not-mem s xs (λ m. h (mem-cons_of_mem x m)))
]

pub Nodup-of_occurrences : (xs : List String) → ((s : String) → occurrences s xs ≤ 1) → Nodup xs
Nodup-of_occurrences [] h = Nodup-nil
Nodup-of_occurrences (x ∷ xs) h = Nodup-cons.1 (
  occurrences_of_mem x xs (ground (arith, h x, eq_iff x x)),
  Nodup-of_occurrences xs (λ s. ground (arith, h s)),
)

pub occurrences_of_Nodup : (s : String) (xs : List String) → Nodup xs → occurrences s xs ≤ 1
occurrences_of_Nodup s [] d = omega arith
occurrences_of_Nodup s (x ∷ xs) d =
    let (new, rest) = Nodup-cons.0 d in
    ground (arith, occurrences_of_Nodup s xs rest, eq_iff s x, occurrences_of_not-mem x xs new)

count_if-permᴰ {ℓ} :
    {A : Type ℓ} (p : A → Bool) {xs ys : List A} → Permᴰ xs ys → count_if p xs ≡ count_if p ys
count_if-permᴰ p Permᴰ.nil = refl
count_if-permᴰ p (Permᴰ.cons e h) = ground (arith, ap p e, count_if-permᴰ p h)
count_if-permᴰ p (Permᴰ.swap e f) = ground (arith, ap p e, ap p f)
count_if-permᴰ p (Permᴰ.trans h k) = count_if-permᴰ p h ∙ count_if-permᴰ p k

pub count_if-perm {ℓ} :
    {A : Type ℓ} (p : A → Bool) {xs ys : List A} → Perm xs ys → count_if p xs ≡ count_if p ys
count_if-perm p h = ∥∥₁_elim h (ℕ_set _ _) (count_if-permᴰ p)
