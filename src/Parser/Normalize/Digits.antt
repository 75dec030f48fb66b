-- ===== src/Parser/Normalize/Digits.antt =====
-- How many digits a pilot's callsign has.
use skyeye.Common.{
  ℕ, zero, suc, ◌+◌, ◌≤◌, ◌≡◌, refl, ap, false, List, [], ◌∷◌, ◌++◌, some, arith, if◌then◌else◌,
  nat_Eq, All,
}
use skyeye.Common.Text.{Text, codes, lower, to_lower}
use skyeye.Radar.Database.{before_bar}
use skyeye.Parser.Scanner.{Language}
use skyeye.Parser.Normalize.{
  pred_length, replace_from, replace_all, replace_alternates, to_space, join, keep_characters,
  trim_left, trim_right, trim_space, flush_word, fields_from, fields, normalize, add_spaces,
  space_digits, take_callsign, unless_empty, parse_pilot_callsign,
}

-- What unicode says of digits: a space is none, and case does not matter.
pub record IsDigitClass (language : Language) : Type 0 where
  pub space : language.is_digit b' ' ≡ false
  pub case : (c : ℕ) → language.is_digit (lower c) ≡ language.is_digit c

module _ (language : Language) where
  open language use {is_digit, is_space}

  unfoldable pub count_digits : Text → ℕ
  count_digits [] = 0
  count_digits (c ∷ cs) = (if is_digit c then 1 else 0) + count_digits cs

  abbrev count_all : List Text → ℕ
  count_all [] = 0
  count_all (w ∷ ws) = count_digits w + count_all ws

  -- The words that replace others have no digit.
  abbrev pub IsDigitFree : List (Text × Text) → Type 0
  IsDigitFree = All (λ (a : Text × Text). count_digits a.1 ≡ 0)

  count-append : (xs ys : Text) → count_digits (xs ++ ys) ≡ count_digits xs + count_digits ys
  unfolding count_digits
  count-append [] ys = omega arith
  count-append (x ∷ xs) ys = omega (arith, count-append xs ys)

  count-replace_from :
      (old new : Text) (skip : ℕ) (s : Text)
      → count_digits new ≡ 0
      → count_digits (replace_from old new skip s) ≤ count_digits s
  unfolding count_digits replace_from
  count-replace_from old new skip [] e = omega arith
  count-replace_from old new (suc skip) (c ∷ cs) e =
      omega (arith, count-replace_from old new skip cs e)
  count-replace_from old new zero (c ∷ cs) e = ground (
    arith,
    e,
    count-replace_from old new zero cs e,
    count-replace_from old new (pred_length old) cs e,
    count-append new (replace_from old new (pred_length old) cs),
  )

  count-replace_alternates :
      (alternates : List (Text × Text)) (s : Text)
      → IsDigitFree alternates
      → count_digits (replace_alternates alternates s) ≤ count_digits s
  unfolding replace_alternates replace_all
  count-replace_alternates [] s free = omega arith
  count-replace_alternates ((alt, word) ∷ alts) s free = omega (
    arith,
    count-replace_alternates alts (replace_from alt word 0 s) free.1,
    count-replace_from alt word 0 s free.0,
  )

  count-keep_characters : (s : Text) → count_digits (keep_characters language s) ≤ count_digits s
  unfolding count_digits keep_characters
  count-keep_characters [] = omega arith
  count-keep_characters (c ∷ cs) = ground (arith, count-keep_characters cs)

  count-trim_left : (s : Text) → count_digits (trim_left language s) ≤ count_digits s
  unfolding count_digits trim_left
  count-trim_left [] = omega arith
  count-trim_left (c ∷ cs) = ground (arith, count-trim_left cs)

  count-trim_right : (s : Text) → count_digits (trim_right language s) ≤ count_digits s
  unfolding count_digits trim_right
  count-trim_right [] = omega arith
  count-trim_right (c ∷ cs) = ground (arith, count-trim_right cs)

  count-before_bar : (s : Text) → count_digits (before_bar s) ≤ count_digits s
  unfolding count_digits before_bar
  count-before_bar [] = omega arith
  count-before_bar (c ∷ cs) = ground (arith, count-before_bar cs)

  count-take_callsign :
      (n : ℕ) (s : Text) → n ≤ 3 → n + count_digits (take_callsign language n s) ≤ 3
  unfolding count_digits take_callsign
  count-take_callsign n [] l = omega arith
  count-take_callsign n (c ∷ cs) l =
      ground (arith, count-take_callsign n cs l, count-take_callsign (suc n) cs)

  count-flush_word :
      (w : Text) (ws : List Text)
      → count_all (flush_word language w ws) ≡ count_digits w + count_all ws
  unfolding count_digits
  count-flush_word [] ws = omega arith
  count-flush_word (c ∷ cs) ws = refl

  count-fields_from :
      (w s : Text) → count_all (fields_from language w s) ≤ count_digits w + count_digits s
  unfolding count_digits fields_from
  count-fields_from w [] = omega (arith, count-flush_word w [])
  count-fields_from w (c ∷ cs) = ground (
    arith,
    count-flush_word w (fields_from language [] cs),
    count-fields_from [] cs,
    count-fields_from (w ++ c ∷ []) cs,
    count-append w (c ∷ []),
  )

  module _ (digits : IsDigitClass language) where
    count-to_space : (c : ℕ) (s : Text) → count_digits (to_space c s) ≤ count_digits s
    unfolding count_digits to_space
    count-to_space c [] = omega arith
    count-to_space c (x ∷ xs) = ground (arith, digits.space, count-to_space c xs)

    count-to_lower : (s : Text) → count_digits (to_lower s) ≡ count_digits s
    unfolding count_digits to_lower
    count-to_lower [] = refl
    count-to_lower (c ∷ cs) = ground (arith, digits.case c, count-to_lower cs)

    count-add_spaces : (s : Text) → count_digits (add_spaces language s) ≡ count_digits s
    unfolding count_digits add_spaces
    count-add_spaces [] = refl
    count-add_spaces (c ∷ cs) = ground (arith, digits.space, count-add_spaces cs)

    count-join : (ws : List Text) → count_digits (join ws) ≡ count_all ws
    unfolding count_digits join
    count-join [] = refl
    count-join (w ∷ []) = omega arith
    count-join (w ∷ v ∷ ws) =
        ground (arith, digits.space, count-join (v ∷ ws), count-append w (b' ' ∷ join (v ∷ ws)))

    count-normalize :
        (alternates : List (Text × Text)) (s : Text)
        → IsDigitFree alternates
        → count_digits (normalize language alternates s) ≤ count_digits s
    unfolding normalize trim_space fields count_digits
    count-normalize alternates s free =
        let s1 = before_bar s in
        let s2 = to_lower s1 in
        let s3 = to_space b'-' s2 in
        let s4 = to_space b'_' s3 in
        let s5 = keep_characters language s4 in
        let s6 = trim_right language s5 in
        let s7 = trim_left language s6 in
        let s8 = replace_alternates alternates s7 in
        omega (
          arith,
          count-before_bar s,
          count-to_lower s1,
          count-to_space b'-' s2,
          count-to_space b'_' s3,
          count-keep_characters s4,
          count-trim_right s5,
          count-trim_left s6,
          count-replace_alternates alternates s7 free,
          count-fields_from [] s8,
          count-join (fields_from language [] s8),
        )

    -- A callsign that is parsed from a text, however many digits the text has, has three at most.
    pub parse_pilot_callsign_digits :
        (alternates : List (Text × Text)) (tx : Text) {callsign : Text}
        → IsDigitFree alternates
        → parse_pilot_callsign language alternates tx ≡ some callsign
        → count_digits callsign ≤ 3
    unfolding parse_pilot_callsign space_digits
    parse_pilot_callsign_digits alternates tx {callsign} free h =
        let s1 =
          normalize language alternates (add_spaces language (normalize language alternates tx)) in
        let s2 = replace_all (codes "this is") [] (replace_all (codes "request") [] s1) in
        let s3 = take_callsign language 0 s2 in
        let s4 = normalize language alternates s3 in
        let s5 = normalize language alternates (add_spaces language s4) in
        let q : s5 ≡ callsign = non_empty s5 h in
        omega (
          arith,
          ap count_digits q,
          count-normalize alternates (add_spaces language s4) free,
          count-add_spaces s4,
          count-normalize alternates s3 free,
          count-take_callsign 0 s2 (omega arith),
        )
      where
        non_empty : (s : Text) → unless_empty language s ≡ some callsign → s ≡ callsign
        non_empty [] e = absurd (ground arith)
        non_empty (c ∷ cs) e = ground arith
