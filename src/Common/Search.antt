-- ===== src/Common/Search.antt =====
-- What the searches of Common.Text find, and where.
use package.http_storm.Common.Tests.{Option-cases, ◌==◌}
use mathlib.Core.Bool.{Bool, true, false, not, ◌&&◌}
use package.http_storm.Common.Lists.{length, take, drop, All}
use package.http_storm.Common.Text.{Bytes, find, find_crlf, trim_left}
use package.http_storm.Common.Decimal.{is_digit, IsDigits}
use Prim.Native.Nat.{ℕ, suc, ◌+◌, ◌≤◌, ◌<◌}
use mathlib.Core.Path.{◌≡◌, refl, ap}
use mathlib.Core.Logic.{◌≢◌, inl, inr}
use mathlib.Core.Option
use mathlib.Core.Option.{Option, none, some}
use mathlib.Core.List.{[], ◌∷◌, ◌++◌}
use native.Mathlib.Omega.{arith}

pub find-lt : (c : ℕ) (xs : Bytes) {i : ℕ} → find c xs ≡ some i → i < length xs
unfolding find
find-lt c [] h = cc
find-lt c (x ∷ xs) h = elim (Option-cases (find c xs)) [
  | inl e ↦ ground (arith, e)
  | inr (j, e) ↦ ground (arith, e, find-lt c xs e)
]

pub find_crlf-le : (xs : Bytes) {i : ℕ} → find_crlf xs ≡ some i → i + 2 ≤ length xs
unfolding find_crlf
find_crlf-le [] h = cc
find_crlf-le (x ∷ []) h = cc
find_crlf-le (x ∷ y ∷ xs) h = elim (Option-cases (find_crlf (y ∷ xs))) [
  | inl e ↦ ground (arith, e)
  | inr (j, e) ↦ ground (arith, e, find_crlf-le (y ∷ xs) e)
]

-- More bytes behind a line end do not move it.
pub find_crlf-append :
    (xs ys : Bytes) {i : ℕ} → find_crlf xs ≡ some i → find_crlf (xs ++ ys) ≡ some i
unfolding find_crlf
find_crlf-append [] ys h = cc
find_crlf-append (x ∷ []) ys h = cc
find_crlf-append (x ∷ y ∷ xs) ys h = elim (Option-cases (find_crlf (y ∷ xs))) [
  | inl e ↦ ground (arith, e)
  | inr (j, e) ↦ ground (arith, e, find_crlf-append (y ∷ xs) ys e)
]

-- Bytes that the searched one is not among.
abbrev pub Without : ℕ → Bytes → Type 0
Without c = All (λ x. x ≢ c)

-- The test of it.
abbrev pub lacks : ℕ → Bytes → Bool
lacks c [] = true
lacks c (x ∷ xs) = not (x == c) && lacks c xs

pub lacks-Without : (c : ℕ) (xs : Bytes) → lacks c xs ≡ true → Without c xs
lacks-Without c [] h = tt
lacks-Without c (x ∷ xs) h = (ground arith, lacks-Without c xs (ground arith))

pub find-Without : (c : ℕ) (xs : Bytes) → Without c xs → find c xs ≡ none
unfolding find
find-Without c [] h = refl
find-Without c (x ∷ xs) (h, hs) = ground (arith, find-Without c xs hs)

pub find-append_cons :
    (c : ℕ) (xs ys : Bytes) → Without c xs → find c (xs ++ c ∷ ys) ≡ some (length xs)
unfolding find
find-append_cons c [] ys h = ground arith
find-append_cons c (x ∷ xs) ys (h, hs) = ground (arith, find-append_cons c xs ys hs)

-- No byte of the text is a carriage return, so it holds no line end.
pub find_crlf-append_crlf :
    (xs ys : Bytes) → Without b'\r' xs → find_crlf (xs ++ b'\r' ∷ b'\n' ∷ ys) ≡ some (length xs)
unfolding find_crlf
find_crlf-append_crlf [] ys h = refl
find_crlf-append_crlf (x ∷ []) ys (h, hs) = ground arith
find_crlf-append_crlf (x ∷ y ∷ xs) ys (h, hs) = ground (arith, find_crlf-append_crlf (y ∷ xs) ys hs)

pub take-length-append : (xs ys : Bytes) → take (length xs) (xs ++ ys) ≡ xs
take-length-append [] ys = refl
take-length-append (x ∷ xs) ys = ap (◌∷◌ x) (take-length-append xs ys)

pub drop-length-append : (xs ys : Bytes) → drop (length xs) (xs ++ ys) ≡ ys
drop-length-append [] ys = refl
drop-length-append (x ∷ xs) ys = drop-length-append xs ys

pub drop_past : (xs ys : Bytes) (c : ℕ) → drop (suc (length xs)) (xs ++ c ∷ ys) ≡ ys
drop_past [] ys c = refl
drop_past (x ∷ xs) ys c = drop_past xs ys c

pub drop_past_two : (xs ys : Bytes) (c d : ℕ) → drop (suc (suc (length xs))) (xs ++ c ∷ d ∷ ys) ≡ ys
drop_past_two [] ys c d = refl
drop_past_two (x ∷ xs) ys c d = drop_past_two xs ys c d

pub digits-Without : (c : ℕ) (ds : Bytes) → is_digit c ≡ false → IsDigits ds → Without c ds
digits-Without c [] no_digit h = tt
digits-Without c (d ∷ ds) no_digit (h, hs) =
    ((λ e. ground (arith, e, h, no_digit)), digits-Without c ds no_digit hs)

pub digits-trim_left : (ds : Bytes) → IsDigits ds → trim_left ds ≡ ds
unfolding trim_left
digits-trim_left [] h = refl
digits-trim_left (d ∷ ds) (h, hs) = ground (arith, h)

-- What stands before the first line end, and what stands behind it.
unfoldable pub cut_line : Bytes → Option (Bytes × Bytes)
cut_line s = Option.map (λ pos. (take pos s, drop (suc (suc pos)) s)) (find_crlf s)

-- What stands before the first such byte, and what stands behind it.
unfoldable pub cut_at : ℕ → Bytes → Option (Bytes × Bytes)
cut_at c s = Option.map (λ pos. (take pos s, drop (suc pos) s)) (find c s)

pub cut_line-append :
    (xs ys : Bytes) → Without b'\r' xs → cut_line (xs ++ b'\r' ∷ b'\n' ∷ ys) ≡ some (xs, ys)
unfolding cut_line
cut_line-append xs ys h =
    rw
      (
        find_crlf-append_crlf xs ys h,
        take-length-append xs (b'\r' ∷ b'\n' ∷ ys),
        drop_past_two xs ys b'\r' b'\n',
      )
      refl

pub cut_at-append : (c : ℕ) (xs ys : Bytes) → Without c xs → cut_at c (xs ++ c ∷ ys) ≡ some (xs, ys)
unfolding cut_at
cut_at-append c xs ys h =
    rw (find-append_cons c xs ys h, take-length-append xs (c ∷ ys), drop_past xs ys c) refl
