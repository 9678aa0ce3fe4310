-- ===== src/Common/Digits.antt =====
-- Printing a number in decimal and reading it back, and searching a text for a delimiter.
use Prim.Native.Nat.{ℕ, zero, suc, ◌+◌, ◌-◌, ◌*◌, ◌/◌, ◌%◌, ◌^◌, ◌≤◌, ◌<◌}
use mathlib.Core.Path.{ap, ◌≡◌, refl, ◌∙◌}
use mathlib.Core.Bool.{Bool, true, false}
use mathlib.Core.List.{map, List, [], ◌∷◌, ◌++◌}
use mathlib.Core.Option.{some}
use mathlib.Core.Logic.{◌≢◌, inl, inr}
use native.Mathlib.Nat.{pow-suc}
use native.Mathlib.Omega.{arith}
use uarch_configure.Common.Tests.{ltb, Bool-cases, lt→ltb, ltb→lt, ne→==}
use uarch_configure.Common.Lists.{length, All, length-append}
use uarch_configure.Common.Text.{
  Text, is_digit, c_string, cut_at, digits_value, atoi, digits_of, print_int,
}

abbrev pub IsDigit : ℕ → Type 0
IsDigit c = (48 ≤ c) × (c < 58)

is_digit-IsDigit : (c : ℕ) → IsDigit c → is_digit c ≡ true
unfolding is_digit
is_digit-IsDigit c h = ground arith

pub map-append {ℓ κ} :
    {A : Type ℓ} {B : Type κ} (f : A → B) (xs ys : List A) → map f (xs ++ ys) ≡ map f xs ++ map f ys
map-append f [] ys = refl
map-append f (x ∷ xs) ys = ap (λ t. f x ∷ t) (map-append f xs ys)

pub All-append {ℓ κ} :
    {A : Type ℓ} (P : A → Type κ) (xs ys : List A) → All P xs → All P ys → All P (xs ++ ys)
All-append P [] ys p q = q
All-append P (x ∷ xs) ys p q = (p.0, All-append P xs ys p.1 q)

pub All-map {ℓ κ μ} :
    {A : Type ℓ} (P : A → Type κ) (Q : A → Type μ)
    → ((x : A) → P x → Q x)
    → (xs : List A) → All P xs
    → All Q xs
All-map P Q f [] h = tt
All-map P Q f (x ∷ xs) h = (f x h.0, All-map P Q f xs h.1)

pub digits_of-IsDigit : (fuel n : ℕ) → All IsDigit (digits_of fuel n)
unfolding digits_of
digits_of-IsDigit zero n = tt
digits_of-IsDigit (suc fuel) n = elim (Bool-cases (ltb n 10)) [
  | inl h ↦ rw h ((omega arith, omega (arith, ltb→lt n 10 h)), tt)
  | inr h ↦
      rw h
        (All-append IsDigit _ _ (digits_of-IsDigit fuel (n / 10)) ((omega arith, omega arith), tt))
]

pub length-digits_of : (fuel n : ℕ) → length (digits_of fuel n) ≤ fuel
unfolding digits_of
length-digits_of zero n = omega arith
length-digits_of (suc fuel) n = elim (Bool-cases (ltb n 10)) [
  | inl h ↦ rw h (omega arith)
  | inr h ↦ rw h (
      omega (
        arith,
        length-append (digits_of fuel (n / 10)) ((48 + n % 10) ∷ []),
        length-digits_of fuel (n / 10),
      ))
]

digits_value-append :
    (xs ys : Text) (acc : ℕ)
    → All IsDigit xs
    → digits_value acc (xs ++ ys) ≡ digits_value (digits_value acc xs) ys
unfolding digits_value
digits_value-append [] ys acc h = refl
digits_value-append (x ∷ xs) ys acc h =
    rw (is_digit-IsDigit x h.0) (digits_value-append xs ys (acc * 10 + (x - b'0')) h.1)

digits_value-one : (acc d : ℕ) → d < 10 → digits_value acc ((48 + d) ∷ []) ≡ acc * 10 + d
unfolding digits_value is_digit
digits_value-one acc d h = ground arith

pub digits_value-digits_of : (fuel n : ℕ) → n < 10 ^ fuel → digits_value 0 (digits_of fuel n) ≡ n
unfolding digits_of
digits_value-digits_of zero n h = unfold digits_value in omega arith
digits_value-digits_of (suc fuel) n h = elim (Bool-cases (ltb n 10)) [
  | inl e ↦ rw e (omega (arith, digits_value-one 0 n (ltb→lt n 10 e)))
  | inr e ↦ rw e (
      omega (
        arith,
        digits_value-append (digits_of fuel (n / 10)) ((48 + n % 10) ∷ []) 0
            (digits_of-IsDigit fuel (n / 10)),
        digits_value-one (digits_value 0 (digits_of fuel (n / 10))) (n % 10) (omega arith),
        digits_value-digits_of fuel (n / 10) (omega (arith, pow-suc 10 fuel)),
      ))
]

-- A text that begins with a digit is read by `atoi` as its digits.
atoi_digits :
    (s : Text) → s ≢ [] → All IsDigit s → digits_value 0 s < 2 ^ 32 → atoi s ≡ digits_value 0 s
unfolding atoi
atoi_digits [] ne h b = absurd (ne refl)
atoi_digits (c ∷ s) ne h b = ground arith

snoc-ne-nil : (xs : Text) (y : ℕ) → xs ++ (y ∷ []) ≢ []
snoc-ne-nil [] y p = cc
snoc-ne-nil (x ∷ xs) y p = cc

digits_of-ne-nil : (fuel n : ℕ) → digits_of (suc fuel) n ≢ []
unfolding digits_of
digits_of-ne-nil fuel n = elim (Bool-cases (ltb n 10)) [
  | inl e ↦ rw e (λ p. cc)
  | inr e ↦ rw e (λ p. snoc-ne-nil (digits_of fuel (n / 10)) (48 + n % 10) p)
]

-- `atoi` reads back what `%d` printed of a number that is not negative.
pub atoi-print_int : (n : ℕ) → n < 2 ^ 31 → atoi (print_int n) ≡ n
unfolding print_int
atoi-print_int n h =
    rw (lt→ltb n (2 ^ 31) h)
      (atoi_digits (digits_of 10 n) (digits_of-ne-nil 9 n) (digits_of-IsDigit 10 n) fits ∙ value)
  where
    value : digits_value 0 (digits_of 10 n) ≡ n
    value = digits_value-digits_of 10 n (omega arith)

    fits : digits_value 0 (digits_of 10 n) < 2 ^ 32
    fits = omega (arith, value)

-- What `%d` prints: at most eleven bytes, none of them a NUL or a delimiter.
pub length-print_int : (n : ℕ) → length (print_int n) ≤ 11
unfolding print_int
length-print_int n = ground (arith, length-digits_of 10 n, length-digits_of 10 (2 ^ 32 - n))

abbrev pub IsPlain : ℕ → Type 0
IsPlain c = (c ≢ 0) × (c ≢ b',') × (c ≢ b';')

pub print_int-IsPlain : (n : ℕ) → All IsPlain (print_int n)
unfolding print_int
print_int-IsPlain n = elim (Bool-cases (ltb n (2 ^ 31))) [
  | inl e ↦ rw e (plain n)
  | inr e ↦ rw e (omega arith, plain (2 ^ 32 - n))
]
  where
    plain : (m : ℕ) → All IsPlain (digits_of 10 m)
    plain m = All-map IsDigit IsPlain (λ c h. omega arith) _ (digits_of-IsDigit 10 m)

-- The text up to a delimiter that does not stand in it.
pub cut_at-append :
    (test : ℕ → Bool) (front rest : Text) (d : ℕ)
    → All (λ c. test c ≡ false) front
    → test d ≡ true
    → cut_at test (front ++ (d ∷ rest)) ≡ some (front, rest)
unfolding cut_at
cut_at-append test [] rest d h t = rw t
cut_at-append test (c ∷ front) rest d h t = rw (h.0, cut_at-append test front rest d h.1 t)

pub c_string_clean : (s : Text) → All (λ c. c ≢ 0) s → c_string s ≡ s
unfolding c_string
c_string_clean [] h = refl
c_string_clean (c ∷ s) h = rw (ne→== c 0 h.0, c_string_clean s h.1)
