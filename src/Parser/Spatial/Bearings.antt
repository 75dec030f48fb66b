-- ===== src/Parser/Spatial/Bearings.antt =====
-- What a bearing is read as.
use skyeye.Common.{
  ℕ, ◌+◌, ◌*◌, ◌≡◌, refl, ap, ◌∙◌, inl, inr, false, List, [], ◌∷◌, ◌++◌, some, arith, nat_eq,
  if◌then◌else◌, Bool-cases,
}
use skyeye.Common.Text.{Text}
use skyeye.Parser.Scanner.{Language, Scanner, new_scanner}
use skyeye.Parser.Spatial.{Reading, read_digit, read_chars, parse_bearing_from, parse_bearing}

-- The tokens, one after the other.
abbrev pub concat : List Text → Text
concat [] = []
concat (w ∷ ws) = w ++ concat ws

module _ (language : Language) where
  open language use {parse_int}

  -- Reading stops at the third digit, so that the second of two texts is read only without it.
  read_chars-append :
      (xs ys : Text) (r : Reading)
      → (nat_eq r.digits 3 ≡ false)
      → read_chars language (xs ++ ys) r ≡ (
          if nat_eq (read_chars language xs r).digits 3
          then read_chars language xs r
          else read_chars language ys (read_chars language xs r))
  unfolding read_chars
  read_chars-append [] ys r e = rw e refl
  read_chars-append (x ∷ xs) ys r e =
      elim (Bool-cases (nat_eq (read_digit r (parse_int (x ∷ []))).digits 3)) [
        | inl done ↦ rw (done, done) refl
        | inr more ↦ rw more (read_chars-append xs ys (read_digit r (parse_int (x ∷ []))) more)
      ]

  parse_bearing_from_value :
      (text : Text) (words : List Text) (r : Reading)
      → nat_eq r.digits 3 ≡ false
      → (parse_bearing_from language text words r).1
        ≡ some (read_chars language (text ++ concat words) r).value
  unfolding parse_bearing_from read_chars
  parse_bearing_from_value text [] r e =
      elim (Bool-cases (nat_eq (read_chars language text r).digits 3)) [
        | inl done ↦ rw (read_chars-append text [] r e, done) refl
        | inr more ↦ rw (read_chars-append text [] r e, more) refl
      ]
  parse_bearing_from_value text (w ∷ ws) r e =
      elim (Bool-cases (nat_eq (read_chars language text r).digits 3)) [
        | inl done ↦ rw (read_chars-append text (concat (w ∷ ws)) r e, done) refl
        | inr more ↦
            rw (read_chars-append text (concat (w ∷ ws)) r e, more)
              (parse_bearing_from_value w ws (read_chars language text r) more)
      ]

  read_three :
      (x y z : ℕ) (cs : Text) (a b c : ℕ)
      → parse_int (x ∷ []) ≡ some a
      → parse_int (y ∷ []) ≡ some b
      → parse_int (z ∷ []) ≡ some c
      → (read_chars language (x ∷ y ∷ z ∷ cs) (record { value = 0; digits = 0 })).value
        ≡ a * 100 + b * 10 + c
  unfolding read_chars
  read_three x y z cs a b c ex ey ez = rw (ex, ey, ez) (omega arith)

  -- Three digits are read as a bearing of three figures however they are split into words, and what
  -- follows them is not read.
  pub parse_bearing_digits :
      (words : List Text) (x y z : ℕ) (cs : Text) (a b c : ℕ)
      → concat words ≡ x ∷ y ∷ z ∷ cs
      → parse_int (x ∷ []) ≡ some a
      → parse_int (y ∷ []) ≡ some b
      → parse_int (z ∷ []) ≡ some c
      → (parse_bearing language (new_scanner words)).1 ≡ some (a * 100 + b * 10 + c)
  unfolding parse_bearing
  parse_bearing_digits words x y z cs a b c e ex ey ez =
      let start : Reading = record { value = 0; digits = 0 } in
      parse_bearing_from_value [] words start refl
      ∙ ap (λ t. some (read_chars language t start).value) e
      ∙ ap some (read_three x y z cs a b c ex ey ez)

  -- A bearing is never refused, whatever the words are, and if there are none.
  pub parse_bearing_total : (s : Scanner) → (b : ℕ) × ((parse_bearing language s).1 ≡ some b)
  unfolding parse_bearing
  parse_bearing_total s =
      (_, parse_bearing_from_value s.text s.words (record { value = 0; digits = 0 }) refl)
