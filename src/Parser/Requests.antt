-- ===== src/Parser/Requests.antt =====
-- pkg/parser/parser.go, bogeydope.go, snaplock.go and spiked.go: from a text to a request.
pub mod Words
pub mod Answers
use skyeye.Common.{
  ℕ, zero, suc, Bool, true, false, not, ◌&&◌, ◌||◌, List, [], ◌∷◌, ◌++◌, Option, none, some,
  if◌then◌else◌, ◌==◌, list_Eq, take, drop, ◌>>=◌,
}
use skyeye.Common.Text.{Text, codes, to_lower}
use skyeye.Brevity.{Category, aircraft, fixed_wing, rotary_wing}
use skyeye.Parser.Scanner.{Language, Scanner, new_scanner, is_similar}
use skyeye.Parser.Spatial.{parse_bearing, parse_bra}
use skyeye.Parser.Declare.{DeclareRequest, parse_declare}
use skyeye.Parser.Normalize.{
  alpha_check, bogey_dope, declare, picture, radio_check, spiked, snaplock, tripwire, is_prefix,
  join, trim_space, fields, normalize, parse_pilot_callsign,
}

abbrev pub request_words : List Text
request_words =
    radio_check ∷ alpha_check ∷ bogey_dope ∷ declare ∷ picture ∷ spiked ∷ snaplock ∷ tripwire ∷ []

pub data Request : Type 0 where
  alpha_check_request : Text → Request
  radio_check_request : Text → Request
  picture_request : Text → Request
  tripwire_request : Text → Request
  bogey_dope_request : Text → Category → Request
  declare_request : DeclareRequest → Request
  spiked_request : Text → ℕ → Request
  snaplock_request : Text → ℕ × ℕ × ℕ → Request
  unable_to_understand_request : Text → Request

-- strings.Contains
unfoldable pub has_text : Text → Text → Bool
has_text part [] = is_prefix part []
has_text part (c ∷ cs) = is_prefix part (c ∷ cs) || has_text part cs

-- The loop over bogeyFilterMap, in the order in which the map is visited.
unfoldable pub filter_of : List (Text × Category) → Text → Category
filter_of [] s = aircraft
filter_of ((key, category) ∷ rest) s = if has_text key s then category else filter_of rest s

abbrev pub bogey_filter_map : List (Text × Category)
bogey_filter_map =
    (codes "airplane", fixed_wing)
    ∷ (codes "planes", fixed_wing)
    ∷ (codes "fighter", fixed_wing)
    ∷ (codes "fixed wing", fixed_wing)
    ∷ (codes "helicopter", rotary_wing)
    ∷ (codes "chopper", rotary_wing)
    ∷ (codes "helo", rotary_wing)
    ∷ (codes "rotary wing", rotary_wing)
    ∷ []

-- The text of the scan: a space before every word.
unfoldable pub spaced : List Text → Text
spaced [] = []
spaced (w ∷ ws) = b' ' ∷ w ++ spaced ws

-- What varies from one run to the next, and the GCI's callsign.
pub record Setting : Type 0 where
  pub language : Language
  pub gci_callsign : Text
  pub alternates : List (Text × Text)
  pub filters : List (Text × Category)

module _ (setting : Setting) where
  open setting use {language, gci_callsign, alternates, filters}

  abbrev pub is_wake_phrase : Text → Bool
  is_wake_phrase candidate =
      is_similar language (trim_space language candidate) (to_lower gci_callsign)
      || is_similar language (trim_space language candidate) (codes "anyface")

  -- The loop over the prefixes: what follows the first that is a wake phrase.
  unfoldable pub find_gci_from : List Text → List Text → Option Text
  find_gci_from before [] = none
  find_gci_from before (w ∷ ws) =
      let candidate = before ++ w ∷ [] in
      let rest = find_gci_from candidate ws in
      if is_wake_phrase (join candidate) then some (join ws) else rest

  unfoldable pub find_gci_callsign : List Text → Option Text
  find_gci_callsign words = find_gci_from [] words

  unfoldable pub similar_word : List Text → Text → Option Text
  similar_word [] field = none
  similar_word (word ∷ words) field =
      if is_similar language word field then some word else similar_word words field

  -- The request word of the first field that is like one, the fields before, and those after.
  unfoldable pub find_request_word : List Text → Option (Text × List Text × List Text)
  find_request_word [] = none
  find_request_word (field ∷ rest) = elim (similar_word request_words field) [
    | some word ↦ some (word, [], rest)
    | none ↦
        find_request_word rest
        >>= (λ (r : Text × List Text × List Text). some (r.0, field ∷ r.1, r.2))
  ]

  abbrev pub or_unable : Text → Option Request → Request
  or_unable callsign none = unable_to_understand_request callsign
  or_unable callsign (some r) = r

  unfoldable pub parse_bogey_dope : Text → List Text → Request
  parse_bogey_dope callsign args = bogey_dope_request callsign (filter_of filters (spaced args))

  unfoldable pub parse_spiked : Text → List Text → Option Request
  parse_spiked callsign args =
      (parse_bearing language (new_scanner args)).1 >>= (λ b. some (spiked_request callsign b))

  unfoldable pub parse_snaplock : Text → List Text → Option Request
  parse_snaplock callsign args =
      (parse_bra language (new_scanner args)).1 >>= (λ bra. some (snaplock_request callsign bra))

  -- The switches on the request word; `none` is the loop of DECLARE that has not ended.
  unfoldable pub parse_request : ℕ → Text → Text → List Text → Option Request
  parse_request fuel callsign word args =
      if word == alpha_check
      then some (alpha_check_request callsign)
      else if word == radio_check
      then some (radio_check_request callsign)
      else if word == picture
      then some (picture_request callsign)
      else if word == tripwire
      then some (tripwire_request callsign)
      else if word == bogey_dope
      then some (parse_bogey_dope callsign args)
      else if word == declare
      then (parse_declare language fuel callsign (new_scanner args)
          >>= (λ found. some (or_unable callsign (found >>= (λ r. some (declare_request r))))))
      else if word == spiked
      then some (or_unable callsign (parse_spiked callsign args))
      else if word == snaplock
      then some (or_unable callsign (parse_snaplock callsign args))
      else some (unable_to_understand_request callsign)

  abbrev pub before_word : List Text → Option (Text × List Text × List Text) → List Text
  before_word words none = words
  before_word words (some (word, before, args)) = before

  -- After the GCI's callsign: the pilot's, and the request.
  unfoldable pub parse_addressed :
      ℕ → Option Text → Option (Text × List Text × List Text) → Option Request
  parse_addressed fuel none none = some (unable_to_understand_request [])
  parse_addressed fuel none (some (word, before, args)) =
      some (if word == picture then picture_request [] else unable_to_understand_request [])
  parse_addressed fuel (some callsign) none = some (unable_to_understand_request callsign)
  parse_addressed fuel (some callsign) (some (word, before, args)) =
      parse_request fuel callsign word args

  abbrev pub parse_heard :
      ℕ → Option Text → Option (Text × List Text × List Text) → Option (Option Request)
  parse_heard fuel none found = some none
  parse_heard fuel (some after) found =
      parse_addressed fuel (parse_pilot_callsign language alternates (language.parse_string after))
        found
      >>= (λ request. some (some request))

  -- `some none` is nil, no request.
  unfoldable pub parse : ℕ → Text → Option (Option Request)
  parse fuel tx =
      let tx = normalize language alternates tx in
      let words = fields language tx in
      let found = find_request_word words in
      if tx == []
      then some none
      else parse_heard fuel (find_gci_callsign (before_word words found)) found
