-- ===== src/Common/Decimal.antt =====
-- Numbers as text: std::to_string, std::hex, and std::from_chars into a std::size_t.
use package.http_storm.Common.Tests.{ltb, leb, if◌then◌else◌, Bool-cases}
use package.http_storm.Common.Text.{Bytes}
use Prim.Native.Nat.{ℕ, zero, suc, ◌+◌, ◌-◌, ◌*◌, ◌/◌, ◌%◌, ◌^◌, ◌<◌}
use mathlib.Core.Path.{◌≡◌, refl}
use mathlib.Core.Logic.{inl, inr, ◌≢◌}
use mathlib.Core.Bool.{Bool, true, ◌&&◌}
use mathlib.Core.Option.{Option, none, some}
use mathlib.Core.List.{[], ◌∷◌, ◌++◌}
use native.Mathlib.Omega.{arith}
use package.http_storm.Common.Lists.{All, All-append}

-- Fuel above the number is enough: the number falls at each digit.
unfoldable pub print_digits : ℕ → ℕ → Bytes
print_digits zero n = []
print_digits (suc fuel) n =
    let front = print_digits fuel (n / 10) in
    if ltb n 10 then (b'0' + n) ∷ [] else front ++ (b'0' + n % 10) ∷ []

-- std::to_string of an unsigned number
unfoldable pub to_string : ℕ → Bytes
unfolding print_digits
to_string n = print_digits (suc n) n

-- `std::hex << n`; fuel above the number is enough.
unfoldable pub print_hex : ℕ → ℕ → Bytes
print_hex zero n = []
print_hex (suc fuel) n =
    let front = print_hex fuel (n / 16) in
    let last = if ltb (n % 16) 10 then b'0' + n % 16 else b'a' + (n % 16 - 10) in
    if ltb n 16 then last ∷ [] else front ++ last ∷ []

abbrev pub is_digit : ℕ → Bool
is_digit c = leb b'0' c && leb c b'9'

-- The leading digits of a text, and the number that digits stand for.
unfoldable pub leading_digits : Bytes → Bytes
leading_digits [] = []
leading_digits (c ∷ cs) = if is_digit c then c ∷ leading_digits cs else []

unfoldable pub digits_value : ℕ → Bytes → ℕ
digits_value acc [] = acc
digits_value acc (c ∷ cs) = digits_value (acc * 10 + (c - b'0')) cs

abbrev pub size_mod : ℕ
size_mod = 2 ^ 64

abbrev in_range : ℕ → Option ℕ
in_range n = if ltb n size_mod then some n else none

abbrev number_of : Bytes → Option ℕ
unfolding digits_value
number_of [] = none
number_of (c ∷ cs) = in_range (digits_value 0 (c ∷ cs))

-- std::from_chars(first, last, value) for a std::size_t; `none` leaves the value as it was.
unfoldable pub from_chars : Bytes → Option ℕ
unfolding leading_digits digits_value number_of
from_chars s = number_of (leading_digits s)

pub from_chars_lt : (s : Bytes) {n : ℕ} → from_chars s ≡ some n → n < size_mod
unfolding from_chars
from_chars_lt s h = go (leading_digits s) h
  where
    go : (ds : Bytes) {n : ℕ} → number_of ds ≡ some n → n < size_mod
    go [] h = cc
    go (c ∷ cs) h = ground arith

abbrev pub IsDigits : Bytes → Type 0
IsDigits = All (λ c. is_digit c ≡ true)

print_digits-IsDigits : (fuel n : ℕ) → IsDigits (print_digits fuel n)
unfolding print_digits
print_digits-IsDigits zero n = tt
print_digits-IsDigits (suc fuel) n = elim (Bool-cases (ltb n 10)) [
  | inl small ↦ rw small (ground arith, tt)
  | inr large ↦ rw large (
      All-append _ (print_digits fuel (n / 10)) _ (print_digits-IsDigits fuel (n / 10))
        (ground arith, tt))
]

leading_digits-all : (ds : Bytes) → IsDigits ds → leading_digits ds ≡ ds
unfolding leading_digits
leading_digits-all [] h = refl
leading_digits-all (c ∷ cs) (h, hs) = rw (h, leading_digits-all cs hs)

digits_value-append :
    (acc : ℕ) (xs ys : Bytes) → digits_value acc (xs ++ ys) ≡ digits_value (digits_value acc xs) ys
unfolding digits_value
digits_value-append acc [] ys = refl
digits_value-append acc (x ∷ xs) ys = digits_value-append (acc * 10 + (x - b'0')) xs ys

digits_value-print : (fuel n : ℕ) → n < fuel → digits_value 0 (print_digits fuel n) ≡ n
unfolding print_digits digits_value
digits_value-print zero n h = elim h [ ]
digits_value-print (suc fuel) n h = elim (Bool-cases (ltb n 10)) [
  | inl small ↦ rw small (omega arith)
  | inr large ↦
      rw (large, digits_value-append 0 (print_digits fuel (n / 10)) ((b'0' + n % 10) ∷ []))
        (ground (arith, digits_value-print fuel (n / 10)))
]

print_digits-ne-nil : (fuel n : ℕ) → print_digits (suc fuel) n ≢ []
unfolding print_digits
print_digits-ne-nil fuel n =
    ground (arith, append-ne-nil (print_digits fuel (n / 10)) (b'0' + n % 10))
  where
    append-ne-nil : (xs : Bytes) (x : ℕ) → xs ++ x ∷ [] ≢ []
    append-ne-nil [] x e = cc
    append-ne-nil (y ∷ ys) x e = cc

number_of-value :
    (ds : Bytes) (n : ℕ) → ds ≢ [] → digits_value 0 ds ≡ n → n < size_mod → number_of ds ≡ some n
unfolding number_of
number_of-value [] n h e lt = absurd (h refl)
number_of-value (c ∷ cs) n h e lt = rw e (ground arith)

-- What is printed is read back.
pub from_chars-to_string : (n : ℕ) → n < size_mod → from_chars (to_string n) ≡ some n
from_chars-to_string n h =
    unfold from_chars to_string in
    rw (leading_digits-all (print_digits (suc n) n) (print_digits-IsDigits (suc n) n)) (
      number_of-value (print_digits (suc n) n) n (print_digits-ne-nil n n)
        (digits_value-print (suc n) n (omega arith)) h)

pub to_string-IsDigits : (n : ℕ) → IsDigits (to_string n)
unfolding to_string
to_string-IsDigits n = print_digits-IsDigits (suc n) n
