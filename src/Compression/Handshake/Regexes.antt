-- ===== src/Compression/Handshake/Regexes.antt =====
-- A concrete `Regex`, as test data: the search from the left.
use ws_fabric.Prelude.{
  ◌≡◌, refl, true, false, [], ◌∷◌, ◌++◌, Option, none, some, arith, all, drop, length,
  if◌then◌else◌, Text,
}
use ws_fabric.Text.{is_empty, starts_with}
use ws_fabric.Text.Decimal.{is_digit}
use ws_fabric.Compression.Handshake.{Regex, occurs_within, is_plain, ends_digits}

digits_of : Text → Text
digits_of [] = []
digits_of (c ∷ s) = let rest = digits_of s in if is_digit c then c ∷ rest else []

matched : Text → Text → Option Text → Option Text
unfolding digits_of
matched s key later =
    if starts_with s key
    then (if is_empty (digits_of (drop (length key) s))
        then later
        else some (digits_of (drop (length key) s)))
    else later

pub leftmost : Text → Text → Option Text
unfolding matched
leftmost [] key = none
leftmost (c ∷ s) key = matched (c ∷ s) key (leftmost s key)

digits_of-append :
    (digits after : Text)
    → all is_digit digits ≡ true
    → ends_digits after ≡ true
    → digits_of (digits ++ after) ≡ digits
unfolding digits_of
digits_of-append [] [] d e = refl
digits_of-append [] (c ∷ s) d e = ground (arith, e)
digits_of-append (c ∷ s) after d e =
    let first : is_digit c ≡ true = ground (arith, d) in
    let others : all is_digit s ≡ true = ground (arith, d) in
    rw (first, digits_of-append s after others e) refl

starts_with-append : (key s : Text) → starts_with (key ++ s) key ≡ true
starts_with-append [] [] = refl
starts_with-append [] (c ∷ s) = refl
starts_with-append (c ∷ key) s = ground (arith, starts_with-append key s)

drop-append : (key s : Text) → drop (length key) (key ++ s) ≡ s
drop-append [] s = refl
drop-append (c ∷ key) s = drop-append key s

pub leftmost_lem :
    (key before digits after : Text)
    → all is_plain key ≡ true
    → is_empty digits ≡ false
    → all is_digit digits ≡ true
    → ends_digits after ≡ true
    → occurs_within (length before) key (before ++ (key ++ (digits ++ after))) ≡ false
    → leftmost (before ++ (key ++ (digits ++ after))) key ≡ some digits
unfolding leftmost matched
leftmost_lem key (c ∷ before) digits after plain some_digits all_digits ends first =
    let other : starts_with (c ∷ (before ++ (key ++ (digits ++ after)))) key ≡ false =
      ground (arith, first) in
    let later : occurs_within (length before) key (before ++ (key ++ (digits ++ after))) ≡ false =
      ground (arith, first) in
    rw other (leftmost_lem key before digits after plain some_digits all_digits ends later)
leftmost_lem [] [] [] after plain some_digits all_digits ends first = cc
leftmost_lem [] [] (d ∷ digits) after plain some_digits all_digits ends first =
    rw (digits_of-append (d ∷ digits) after all_digits ends) refl
leftmost_lem (k ∷ key) [] digits after plain some_digits all_digits ends first =
    rw
      (
        starts_with-append (k ∷ key) (digits ++ after),
        drop-append key (digits ++ after),
        digits_of-append digits after all_digits ends,
        some_digits,
      )
      refl

abbrev pub from_left : Regex
from_left = record {
  captured = λ header key. leftmost header key;
  captured_leftmost = leftmost_lem;
}
