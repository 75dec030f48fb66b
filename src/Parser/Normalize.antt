-- ===== src/Parser/Normalize.antt =====
-- pkg/parser/parser.go's normalize, spaceDigits and ParsePilotCallsign, and alternates.go. A range
-- loop visits the map of alternates in any order: the order is an argument.
pub mod Digits
use skyeye.Common.{
  ℕ, zero, suc, ◌+◌, Bool, true, false, not, ◌&&◌, ◌||◌, List, [], ◌∷◌, ◌++◌, map, Option, none,
  some, nat_eq, leb, if◌then◌else◌, ◌==◌, nat_Eq, list_Eq, length,
}
use skyeye.Common.Text.{Text, codes, to_lower}
use skyeye.Radar.Database.{before_bar}
use skyeye.Parser.Scanner.{Language}

abbrev pub alpha_check : Text
alpha_check = codes "alpha"

abbrev pub bogey_dope : Text
bogey_dope = codes "bogey"

abbrev pub declare : Text
declare = codes "declare"

abbrev pub picture : Text
picture = codes "picture"

abbrev pub radio_check : Text
radio_check = codes "radio"

abbrev pub spiked : Text
spiked = codes "spiked"

abbrev pub snaplock : Text
snaplock = codes "snaplock"

abbrev pub tripwire : Text
tripwire = codes "tripwire"

-- alternateRequestWords, in the order of the source.
abbrev pub alternate_request_words : List (Text × Text)
alternate_request_words =
    (codes "alphacheck", alpha_check)
    ∷ (codes "bog it", bogey_dope)
    ∷ (codes "bogeido", bogey_dope)
    ∷ (codes "bogeied", bogey_dope)
    ∷ (codes "bogeydoke", bogey_dope)
    ∷ (codes "bogeydope", bogey_dope)
    ∷ (codes "bogeyedope", bogey_dope)
    ∷ (codes "bogit", bogey_dope)
    ∷ (codes "bogota", bogey_dope)
    ∷ (codes "bogueed", bogey_dope)
    ∷ (codes "bogy", bogey_dope)
    ∷ (codes "bokeh", bogey_dope)
    ∷ (codes "bokeido", bogey_dope)
    ∷ (codes "bokey", bogey_dope)
    ∷ (codes "bokeydope", bogey_dope)
    ∷ (codes "booby dop", bogey_dope)
    ∷ (codes "boog it", bogey_dope)
    ∷ (codes "boogie", bogey_dope)
    ∷ (codes "bovido", bogey_dope)
    ∷ (codes "bubby dope", bogey_dope)
    ∷ (codes "bug it", bogey_dope)
    ∷ (codes "buggettope", bogey_dope)
    ∷ (codes "buggy dog", bogey_dope)
    ∷ (codes "buggy dope", bogey_dope)
    ∷ (codes "com check", radio_check)
    ∷ (codes "comcheck", radio_check)
    ∷ (codes "comm", radio_check)
    ∷ (codes "comms", radio_check)
    ∷ (codes "commscheck", radio_check)
    ∷ (codes "commshack", radio_check)
    ∷ (codes "comp check", radio_check)
    ∷ (codes "comps check", radio_check)
    ∷ (codes "coms", radio_check)
    ∷ (codes "comsjack", radio_check)
    ∷ (codes "declared", declare)
    ∷ (codes "foggydope", bogey_dope)
    ∷ (codes "fogy dope", bogey_dope)
    ∷ (codes "lucky dope", bogey_dope)
    ∷ (codes "ogi doke", bogey_dope)
    ∷ (codes "ogi dop", bogey_dope)
    ∷ (codes "ogi dope", bogey_dope)
    ∷ (codes "ogidope", bogey_dope)
    ∷ (codes "okey", bogey_dope)
    ∷ (codes "oogie", bogey_dope)
    ∷ (codes "pogito", bogey_dope)
    ∷ (codes "pogy dope", bogey_dope)
    ∷ (codes "radiocheck", radio_check)
    ∷ (codes "read a check", radio_check)
    ∷ (codes "read it check", radio_check)
    ∷ (codes "snap lock", snaplock)
    ∷ (codes "trip wire", tripwire)
    ∷ (codes "voki", bogey_dope)
    ∷ []

unfoldable pub is_prefix : Text → Text → Bool
is_prefix [] s = true
is_prefix (p ∷ ps) [] = false
is_prefix (p ∷ ps) (c ∷ cs) = nat_eq p c && is_prefix ps cs

-- How much of a replaced text is still to be passed over, after its first character.
abbrev pub pred_length : Text → ℕ
pred_length [] = 0
pred_length (c ∷ cs) = length cs

-- strings.ReplaceAll, from the left, after `skip` characters; `old` is not empty.
unfoldable pub replace_from : Text → Text → ℕ → Text → Text
replace_from old new skip [] = []
replace_from old new (suc skip) (c ∷ cs) = replace_from old new skip cs
replace_from old new zero (c ∷ cs) =
    let matched = replace_from old new (pred_length old) cs in
    let rest = replace_from old new zero cs in
    if is_prefix old (c ∷ cs) then new ++ matched else c ∷ rest

unfoldable pub replace_all : Text → Text → Text → Text
replace_all old new s = replace_from old new 0 s

unfoldable pub replace_alternates : List (Text × Text) → Text → Text
replace_alternates [] s = s
replace_alternates ((alt, word) ∷ alts) s = replace_alternates alts (replace_all alt word s)

-- A character replaced by a space.
unfoldable pub to_space : ℕ → Text → Text
to_space c [] = []
to_space c (x ∷ xs) = (if x == c then b' ' else x) ∷ to_space c xs

-- strings.Join(tokens, " ")
unfoldable pub join : List Text → Text
join [] = []
join (w ∷ []) = w
join (w ∷ v ∷ ws) = w ++ b' ' ∷ join (v ∷ ws)

module _ (language : Language) where
  open language use {is_letter, is_digit, is_space}

  -- The characters that stay: the loop that removes the others.
  unfoldable pub keep_characters : Text → Text
  keep_characters [] = []
  keep_characters (c ∷ cs) =
      let kept = keep_characters cs in
      if not (is_letter c) && not (is_digit c) && not (is_space c) then kept else c ∷ kept

  unfoldable pub trim_left : Text → Text
  trim_left [] = []
  trim_left (c ∷ cs) = if is_space c then trim_left cs else c ∷ cs

  unfoldable pub trim_right : Text → Text
  trim_right [] = []
  trim_right (c ∷ cs) = elim (trim_right cs) [
    | [] ↦ if is_space c then [] else c ∷ []
    | x ∷ xs ↦ c ∷ x ∷ xs
  ]

  -- strings.TrimSpace
  unfoldable pub trim_space : Text → Text
  trim_space s = trim_left (trim_right s)

  abbrev pub flush_word : Text → List Text → List Text
  flush_word [] ws = ws
  flush_word (c ∷ cs) ws = (c ∷ cs) ∷ ws

  -- strings.Fields, with the word that is being read.
  unfoldable pub fields_from : Text → Text → List Text
  fields_from word [] = flush_word word []
  fields_from word (c ∷ cs) =
      if is_space c then flush_word word (fields_from [] cs) else fields_from (word ++ c ∷ []) cs

  unfoldable pub fields : Text → List Text
  fields s = fields_from [] s

  unfoldable pub normalize : List (Text × Text) → Text → Text
  normalize alternates tx =
      let tx = to_space b'_' (to_space b'-' (to_lower (before_bar tx))) in
      let tx = trim_space (keep_characters tx) in join (fields (replace_alternates alternates tx))

  -- spaceDigits, before it normalizes.
  unfoldable pub add_spaces : Text → Text
  add_spaces [] = []
  add_spaces (c ∷ cs) = let rest = add_spaces cs in if is_digit c then b' ' ∷ c ∷ rest else c ∷ rest

  unfoldable pub space_digits : List (Text × Text) → Text → Text
  space_digits alternates tx = normalize alternates (add_spaces tx)

  -- The loop of ParsePilotCallsign, after so many digits.
  unfoldable pub take_callsign : ℕ → Text → Text
  take_callsign n [] = []
  take_callsign n (c ∷ cs) =
      let n' = if is_digit c then suc n else n in
      let rest = take_callsign n' cs in
      if leb 3 n then [] else if nat_eq n' 0 || is_digit c || is_space c then c ∷ rest else rest

  abbrev pub unless_empty : Text → Option Text
  unless_empty [] = none
  unless_empty (c ∷ cs) = some (c ∷ cs)

  unfoldable pub parse_pilot_callsign : List (Text × Text) → Text → Option Text
  parse_pilot_callsign alternates tx =
      let tx = space_digits alternates (normalize alternates tx) in
      let tx = replace_all (codes "this is") [] (replace_all (codes "request") [] tx) in
      unless_empty (space_digits alternates (normalize alternates (take_callsign 0 tx)))
