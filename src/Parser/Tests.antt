-- ===== src/Parser/Tests.antt =====
-- Runs of the parser on small texts, and the theorems at such texts.
use skyeye.Common.{
  ◌≤◌, ◌≡◌, ◌≢◌, refl, Bool, true, false, ◌&&◌, List, [], ◌∷◌, Option, none, some, arith, nat_eq,
  list_eq, list_Eq, contains,
}
use skyeye.Common.Text.{Text, codes, lower, to_lower}
use skyeye.Radar.Database.{before_bar}
use skyeye.Brevity.{fixed_wing}
use skyeye.Coalitions.{blue}
use skyeye.Trackfiles.{Trackfile}
use skyeye.Radar.Database.{callsign_of}
use skyeye.Controller.Radar.{add_friendly_to_broadcast}
use skyeye.Radio.Types.{Float64}
use skyeye.Radio.Clients.{Client}
use skyeye.Interfaces.{names_of, audience_of}
use skyeye.Parser.Samples.{ascii, setting, dope, no_declare}
use skyeye.Parser.Scanner.{is_similar}
use skyeye.Parser.Normalize.{
  alternate_request_words, is_prefix, replace_from, replace_all, replace_alternates, to_space, join,
  keep_characters, trim_left, trim_right, trim_space, fields_from, fields, normalize, add_spaces,
  space_digits, take_callsign, parse_pilot_callsign,
}
use skyeye.Parser.Normalize.Digits.{
  IsDigitClass, IsDigitFree, count_digits, parse_pilot_callsign_digits,
}
use skyeye.Parser.Requests.{
  bogey_dope_request, has_text, filter_of, spaced, find_gci_from, find_gci_callsign, similar_word,
  find_request_word, parse_bogey_dope, parse_request, parse_addressed, parse, before_word,
}
use skyeye.Parser.Requests.Words.{IsWoken}
use skyeye.Parser.Requests.Answers.{words_of, found_in, parse-IsWoken, parse_ends, parse_diverges}

ascii-IsDigitClass : IsDigitClass ascii
unfolding lower
ascii-IsDigitClass = record { space = refl; case = λ c. ground arith }

parsed :
    parse_pilot_callsign ascii setting.alternates (codes "Eagle 12-345 | x")
    ≡ some (codes "eagle 1 2 3")
unfolding parse_pilot_callsign normalize before_bar to_lower lower to_space keep_characters
    trim_space trim_left trim_right replace_alternates replace_all replace_from is_prefix fields
    fields_from join space_digits add_spaces take_callsign
parsed = refl

is_free : List (Text × Text) → Bool
is_free [] = true
is_free ((alt, word) ∷ alts) = nat_eq (count_digits ascii word) 0 && is_free alts

table_free : (alts : List (Text × Text)) → is_free alts ≡ true → IsDigitFree ascii alts
unfolding is_free
table_free [] h = tt
table_free ((alt, word) ∷ alts) h = (ground arith, table_free alts (ground arith))

free : is_free alternate_request_words ≡ true
unfolding is_free count_digits
free = refl

parse_pilot_callsign_digits_example : count_digits ascii (codes "eagle 1 2 3") ≤ 3
parse_pilot_callsign_digits_example =
    parse_pilot_callsign_digits ascii ascii-IsDigitClass setting.alternates
      (codes "Eagle 12-345 | x") (table_free alternate_request_words free) parsed

asked : parse setting 0 dope ≡ some (some (bogey_dope_request (codes "eagle 1") fixed_wing))
unfolding parse parse_pilot_callsign normalize before_bar to_lower lower to_space keep_characters
    trim_space trim_left trim_right replace_alternates replace_all replace_from is_prefix fields
    fields_from join space_digits add_spaces take_callsign find_request_word similar_word is_similar
    list_eq find_gci_callsign find_gci_from parse_addressed parse_request parse_bogey_dope filter_of
    has_text spaced
asked = refl

parse-IsWoken_example :
    (after : Text) × IsWoken setting
      (before_word setting (words_of setting dope) (found_in setting dope))
      after
parse-IsWoken_example = parse-IsWoken setting 0 dope asked

parse_ends_example : parse setting 9 dope ≢ none
unfolding normalize before_bar to_lower lower to_space keep_characters trim_space trim_left
    trim_right replace_alternates replace_all replace_from is_prefix fields fields_from join
parse_ends_example = parse_ends setting 9 dope (omega arith) no_declare

abbrev lost : Text
lost = codes "Magic, Eagle 1, declare"

parse_diverges_example : parse setting 100 lost ≡ none
unfolding parse_pilot_callsign normalize before_bar to_lower lower to_space keep_characters
    trim_space trim_left trim_right replace_alternates replace_all replace_from is_prefix fields
    fields_from join space_digits add_spaces take_callsign find_request_word similar_word is_similar
    list_eq find_gci_callsign find_gci_from
parse_diverges_example =
    parse_diverges setting 100 lost (codes "magic" ∷ codes "eagle" ∷ codes "1" ∷ [])
      (codes "eagle 1") (codes "eagle 1") (λ e. cc) refl refl refl

abbrev joe : Trackfile
joe = record {
  contact = record { id = 1; name = codes "Eagle 1 | Joe"; coalition = blue; acmi_name = [] };
  track = [];
}

abbrev nothing : Option Text
nothing = none

no_search : (s : Text) (ks : List Text) (k : Text) → nothing ≡ some k → contains ks k ≡ true
no_search s ks k h = absurd (ground arith)

-- The database and the calls name a contact alike.
joe_called :
    (float : Float64) (client : Client)
    → add_friendly_to_broadcast
        (audience_of ascii alternate_request_words float client false)
        []
        joe
      ≡ callsign_of (names_of ascii alternate_request_words (λ s ks. none) no_search) joe ∷ []
unfolding callsign_of add_friendly_to_broadcast contains parse_pilot_callsign normalize before_bar
    to_lower lower to_space keep_characters trim_space trim_left trim_right replace_alternates
    replace_all replace_from is_prefix fields fields_from join space_digits add_spaces take_callsign
joe_called float client = refl
