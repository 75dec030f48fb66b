-- ===== src/Parser/Requests/Answers.antt =====
-- When a text is answered, and when the parser ends.
use skyeye.Common.{
  ℕ, ◌<◌, ◌≡◌, ◌≢◌, refl, ap, inl, inr, List, [], ◌∷◌, ◌++◌, Option, none, some, arith,
  if◌then◌else◌, list_Eq, list_eq, list_eq_iff, Bool-cases, Option-cases, length, ◌>>=◌,
  length-append,
}
use mathlib.Core.Path.{subst}
use skyeye.Common.Text.{Text}
use skyeye.Parser.Scanner.{new_scanner}
use skyeye.Parser.Declare.{parse_declare}
use skyeye.Parser.Declare.Termination.{parse_declare_diverges, parse_declare_ends}
use skyeye.Parser.Normalize.{declare, normalize, fields, parse_pilot_callsign}
use skyeye.Parser.Requests.{
  Request, Setting, declare_request, parse, parse_heard, parse_addressed, parse_request,
  find_gci_callsign, find_request_word, before_word, or_unable,
}
use skyeye.Parser.Requests.Words.{
  IsFull, fields-IsFull, IsRequestWord, IsFirst, find_request_word_first, IsWoken,
  find_gci_callsign-IsWoken,
}

module _ (setting : Setting) where
  open setting use {language, alternates}

  -- The words of a text, and the request word among them.
  abbrev pub words_of : Text → List Text
  words_of tx = fields language (normalize language alternates tx)

  abbrev pub found_in : Text → Option (Text × List Text × List Text)
  found_in tx = find_request_word setting (words_of tx)

  -- A request is only ever made of a text in which a wake phrase, like the GCI's callsign or
  -- "anyface", begins the words that stand before the request word.
  pub parse-IsWoken :
      (fuel : ℕ) (tx : Text) {r : Request}
      → parse setting fuel tx ≡ some (some r)
      → (after : Text) × IsWoken setting (before_word setting (words_of tx) (found_in tx)) after
  unfolding parse
  parse-IsWoken fuel tx {r} h =
      let before = before_word setting (words_of tx) (found_in tx) in
      elim (Option-cases (find_gci_callsign setting before)) [
        | inr (after, e) ↦ (after, find_gci_callsign-IsWoken setting before e)
        | inl e ↦ absurd (silent e)
      ]
    where
      silent :
          find_gci_callsign setting (before_word setting (words_of tx) (found_in tx)) ≡ none → ⊥
      silent e = ground (arith, e)

  bind_ends :
      {A B : Type 0} (o : Option A) (f : A → B) → o ≢ none → (o >>= (λ a. some (f a))) ≢ none
  bind_ends none f ne = absurd (ne refl)
  bind_ends (some a) f ne = λ e. cc

  parse_declare_full :
      (fuel : ℕ) (callsign : Text) (args : List Text)
      → args ≢ []
      → IsFull args
      → length args < fuel
      → parse_declare language fuel callsign (new_scanner args) ≢ none
  parse_declare_full fuel callsign [] ne full l = absurd (ne refl)
  parse_declare_full fuel callsign (w ∷ ws) ne full l =
      parse_declare_ends language fuel callsign w ws full l

  parse_request_ends :
      (fuel : ℕ) (callsign word : Text) (args : List Text)
      → (word ≡ declare → args ≢ [])
      → IsFull args
      → length args < fuel
      → parse_request setting fuel callsign word args ≢ none
  unfolding parse_request
  parse_request_ends fuel callsign word args ne full l = elim (Bool-cases (list_eq word declare)) [
    | inl same ↦
        let ends =
          bind_ends (parse_declare language fuel callsign (new_scanner args))
            (λ found. or_unable setting callsign (found >>= (λ r. some (declare_request r))))
            (parse_declare_full fuel callsign args (ne ((list_eq_iff word declare).0 same)) full
              l) in
        λ e. ground (arith, ends)
    | inr other ↦ λ e. ground arith
  ]

  parse_addressed_ends :
      (fuel : ℕ) (callsign : Option Text) (found : Option (Text × List Text × List Text))
      → ((before : List Text) → found ≢ some (declare, before, []))
      → ((word : Text) (before args : List Text)
          → found ≡ some (word, before, args)
          → IsFull args × (length args < fuel))
      → parse_addressed setting fuel callsign found ≢ none
  unfolding parse_addressed
  parse_addressed_ends fuel none none ne h = λ e. cc
  parse_addressed_ends fuel none (some (word, before, args)) ne h = λ e. cc
  parse_addressed_ends fuel (some callsign) none ne h = λ e. cc
  parse_addressed_ends fuel (some callsign) (some (word, before, args)) ne h =
      parse_request_ends fuel callsign word args (λ p q. ne before (cc (p, q)))
        (h word before args refl).0 (h word before args refl).1

  IsFull-suffix : (xs ys : List Text) → IsFull (xs ++ ys) → IsFull ys
  IsFull-suffix [] ys h = h
  IsFull-suffix (x ∷ xs) ys h = IsFull-suffix xs ys h.1

  args_of :
      (words : List Text) (word : Text) (before args : List Text)
      → IsFull words
      → IsFirst setting words before args word
      → IsFull args × (length args < length words)
  args_of words word before args full v =
      let full' : IsFull (before ++ v.field ∷ args) = rw (← v.split) full in
      (
        (IsFull-suffix before (v.field ∷ args) full').1,
        omega (arith, ap length v.split, length-append before (v.field ∷ args)),
      )

  parse_heard_ends :
      (fuel : ℕ) (after : Option Text) (found : Option (Text × List Text × List Text))
      → ((callsign : Option Text) → parse_addressed setting fuel callsign found ≢ none)
      → parse_heard setting fuel after found ≢ none
  parse_heard_ends fuel none found ends = λ e. cc
  parse_heard_ends fuel (some after) found ends =
      bind_ends (parse_addressed setting fuel _ found) some
        (ends (parse_pilot_callsign language alternates (language.parse_string after)))

  -- The parser ends on every text but a DECLARE without a word after it: more turns of the loop than
  -- the text has words are enough.
  pub parse_ends :
      (fuel : ℕ) (tx : Text)
      → length (words_of tx) < fuel
      → ((before : List Text) → found_in tx ≢ some (declare, before, []))
      → parse setting fuel tx ≢ none
  unfolding parse
  parse_ends fuel tx l ne =
      let words = words_of tx in
      let ends =
        parse_heard_ends fuel (find_gci_callsign setting (before_word setting words (found_in tx)))
          (found_in tx)
          (λ callsign. parse_addressed_ends fuel callsign (found_in tx) ne (λ word before args e.
            let v : IsRequestWord setting words (some (word, before, args)) =
              subst (IsRequestWord setting words) e (find_request_word_first setting words) in
            let (full, shorter) =
              args_of words word before args
                (fields-IsFull language (normalize language alternates tx)) v in
            (full, omega (arith, shorter, l)))) in
      λ e. ground (arith, ends)

  empty_apart : {A : Type 0} (x y : A) (s : Text) → s ≢ [] → (if list_eq s [] then x else y) ≡ y
  empty_apart x y s ne = elim (Bool-cases (list_eq s [])) [
    | inl same ↦ absurd (ne ((list_eq_iff s []).0 same))
    | inr other ↦ rw other refl
  ]

  -- A DECLARE without a word after it, of a pilot who called the GCI, is parsed forever.
  pub parse_diverges :
      (fuel : ℕ) (tx : Text) (before : List Text) (after callsign : Text)
      → normalize language alternates tx ≢ []
      → found_in tx ≡ some (declare, before, [])
      → find_gci_callsign setting before ≡ some after
      → parse_pilot_callsign language alternates (language.parse_string after) ≡ some callsign
      → parse setting fuel tx ≡ none
  unfolding parse parse_addressed parse_request list_eq
  parse_diverges fuel tx before after callsign ne found heard pilot =
      rw (found, heard, pilot)
        (rw (parse_declare_diverges language fuel callsign)
          (empty_apart (some none) none (normalize language alternates tx) ne))
