-- ===== src/Parser/Samples.antt =====
-- A language, a setting and a text on which the parser and the application are run.
use skyeye.Common.{
  ℕ, ◌-◌, ◌≢◌, ◌&&◌, ◌||◌, List, [], ◌∷◌, Option, none, some, leb, nat_eq, if◌then◌else◌, list_eq,
  list_Eq,
}
use skyeye.Common.Text.{Text, codes, lower, to_lower}
use skyeye.Radar.Database.{before_bar}
use skyeye.Parser.Scanner.{Language, is_similar}
use skyeye.Parser.Normalize.{
  alternate_request_words, declare, is_prefix, replace_from, replace_all, replace_alternates,
  to_space, join, keep_characters, trim_left, trim_right, trim_space, fields_from, fields,
  normalize,
}
use skyeye.Parser.Requests.{Setting, bogey_filter_map, similar_word, find_request_word}
use skyeye.Parser.Requests.Answers.{found_in}

-- ASCII, equality for similarity, and numbers of one digit or of the text "ten".
abbrev pub digit_value : Text → Option ℕ
digit_value (c ∷ []) = if leb b'0' c && leb c b'9' then some (c - b'0') else none
digit_value s = if list_eq s (codes "ten") then some 10 else none

abbrev pub ascii : Language
ascii = record {
  is_letter = λ c. (leb b'a' c && leb c b'z') || (leb b'A' c && leb c b'Z');
  is_digit = λ c. leb b'0' c && leb c b'9';
  is_space = λ c. nat_eq c b' ';
  is_close = list_eq;
  parse_int = digit_value;
  parse_string = λ s. s;
}

abbrev pub setting : Setting
setting = record {
  language = ascii;
  gci_callsign = codes "magic";
  alternates = alternate_request_words;
  filters = bogey_filter_map;
}

abbrev pub dope : Text
dope = codes "Magic, Eagle 1, bogey dope planes"

pub no_declare : (before : List Text) → found_in setting dope ≢ some (declare, before, [])
unfolding normalize before_bar to_lower lower to_space keep_characters trim_space trim_left
    trim_right replace_alternates replace_all replace_from is_prefix fields fields_from join
    find_request_word similar_word is_similar list_eq
no_declare before = λ e. cc
