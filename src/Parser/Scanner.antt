-- ===== src/Parser/Scanner.antt =====
-- What the parser takes from elsewhere, and the scanner of words (bufio.Scanner with ScanWords).
use skyeye.Common.{ℕ, Bool, true, false, List, [], ◌∷◌, Option, if◌then◌else◌}
use skyeye.Common.Text.{Text, to_lower}

-- The classes of unicode, go-edlib's similarity of two lower-case texts being above 0.6, and the
-- numbers of numwords.
pub record Language : Type 0 where
  pub is_letter : ℕ → Bool
  pub is_digit : ℕ → Bool
  pub is_space : ℕ → Bool
  pub is_close : Text → Text → Bool
  pub parse_int : Text → Option ℕ
  pub parse_string : Text → Text

-- The current token, empty before the first scan and after the last, and the words to come.
pub record Scanner : Type 0 where
  pub text : Text
  pub words : List Text

abbrev pub new_scanner : List Text → Scanner
new_scanner words = record { text = []; words = words }

abbrev pub scan : Scanner → Scanner × Bool
scan s = elim (s.words) [
  | [] ↦ (record { text = []; words = [] }, false)
  | w ∷ ws ↦ (record { text = w; words = ws }, true)
]

module _ (language : Language) where
  unfoldable pub is_similar : Text → Text → Bool
  is_similar a b = language.is_close (to_lower a) (to_lower b)

  -- Some word of the list is similar.
  unfoldable pub any_similar : Text → List Text → Bool
  any_similar text [] = false
  any_similar text (w ∷ ws) = if is_similar text w then true else any_similar text ws

  -- skipWords: the first similar word is skipped.
  unfoldable pub skip_words : List Text → Scanner → Scanner × Bool
  skip_words words s = if any_similar s.text words then scan s else (s, true)
