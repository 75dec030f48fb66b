-- ===== src/Parser/Requests/Words.antt =====
-- Which words of a transmission the request and the wake phrase are.
use skyeye.Common.{
  ◌≡◌, ◌≢◌, refl, sym, ap, ◌∙◌, inl, inr, true, List, [], ◌∷◌, ◌++◌, Option, none, some, arith,
  Bool-cases, Option-cases, All, ◌>>=◌,
}
use mathlib.Core.List.{append_assoc}
use skyeye.Common.Text.{Text}
use skyeye.Parser.Scanner.{Language}
use skyeye.Parser.Normalize.{join, fields, fields_from, flush_word}
use skyeye.Parser.Requests.{
  Setting, request_words, is_wake_phrase, find_gci_from, find_gci_callsign, similar_word,
  find_request_word,
}

-- The fields of a text are not empty.
abbrev pub IsFull : List Text → Type 0
IsFull = All (λ w. w ≢ [])

flush_word-IsFull :
    (language : Language) (w : Text) (ws : List Text)
    → IsFull ws
    → IsFull (flush_word language w ws)
flush_word-IsFull language [] ws h = h
flush_word-IsFull language (c ∷ cs) ws h = ((λ e. cc), h)

fields_from-IsFull : (language : Language) (s w : Text) → IsFull (fields_from language w s)
unfolding fields_from
fields_from-IsFull language [] w = flush_word-IsFull language w [] tt
fields_from-IsFull language (c ∷ cs) w = elim (Bool-cases (language.is_space c)) [
  | inl space ↦ rw space (
      flush_word-IsFull language w (fields_from language [] cs) (fields_from-IsFull language cs []))
  | inr letter ↦ rw letter (fields_from-IsFull language cs (w ++ c ∷ []))
]

pub fields-IsFull : (language : Language) (s : Text) → IsFull (fields language s)
unfolding fields
fields-IsFull language s = fields_from-IsFull language s []

module _ (setting : Setting) where
  -- The request word stands for the first field that is like any request word, with the fields
  -- before and those after it.
  pub record IsFirst (words before args : List Text) (word : Text) : Type 0 where
    pub field : Text
    pub split : words ≡ before ++ field ∷ args
    pub similar : similar_word setting request_words field ≡ some word
    pub first : All (λ f. similar_word setting request_words f ≡ none) before

  abbrev pub IsRequestWord : List Text → Option (Text × List Text × List Text) → Type 0
  IsRequestWord words none = All (λ f. similar_word setting request_words f ≡ none) words
  IsRequestWord words (some (word, before, args)) = IsFirst words before args word

  IsRequestWord-cons :
      (f : Text) (words : List Text) (r : Option (Text × List Text × List Text))
      → similar_word setting request_words f ≡ none
      → IsRequestWord words r
      → IsRequestWord
          (f ∷ words)
          (r >>= (λ (q : Text × List Text × List Text). some (q.0, f ∷ q.1, q.2)))
  IsRequestWord-cons f words none e h = (e, h)
  IsRequestWord-cons f words (some (word, before, args)) e h = record {
    field = h.field;
    split = ap (◌∷◌ f) h.split;
    similar = h.similar;
    first = (e, h.first);
  }

  -- The request word is that of the first field that is like any request word: the fields before it
  -- are like none, and those after it are the arguments. Without one, no field is like any.
  pub find_request_word_first :
      (words : List Text) → IsRequestWord words (find_request_word setting words)
  unfolding find_request_word
  find_request_word_first [] = tt
  find_request_word_first (f ∷ rest) = elim (Option-cases (similar_word setting request_words f)) [
    | inr (w, e) ↦
        rw (e, find_request_word) (record { field = f; split = refl; similar = e; first = tt })
    | inl e ↦
        rw (e, find_request_word)
          (IsRequestWord-cons f rest (find_request_word setting rest) e
            (find_request_word_first rest))
  ]

  -- A wake phrase that begins the words, and the words after it.
  pub record IsWoken (words : List Text) (after : Text) : Type 0 where
    pub phrase : List Text
    pub rest : List Text
    pub split : words ≡ phrase ++ rest
    pub wake : is_wake_phrase setting (join phrase) ≡ true
    pub after_rest : after ≡ join rest

  find_gci_from-IsWoken :
      (before words : List Text) {after : Text}
      → find_gci_from setting before words ≡ some after
      → IsWoken (before ++ words) after
  unfolding find_gci_from
  find_gci_from-IsWoken before [] h = absurd (ground arith)
  find_gci_from-IsWoken before (w ∷ ws) {after} h =
      elim (Bool-cases (is_wake_phrase setting (join (before ++ w ∷ [])))) [
        | inl wake ↦
            let q : some (join ws) ≡ some after = rw (find_gci_from, wake) at h in
            record {
              phrase = before ++ w ∷ [];
              rest = ws;
              split = sym (append_assoc before (w ∷ []) ws);
              wake = wake;
              after_rest = ground arith;
            }
        | inr other ↦
            let v = find_gci_from-IsWoken (before ++ w ∷ []) ws (rw (find_gci_from, other) at h) in
            record {
              phrase = v.phrase;
              rest = v.rest;
              split = sym (append_assoc before (w ∷ []) ws) ∙ v.split;
              wake = v.wake;
              after_rest = v.after_rest;
            }
      ]

  pub find_gci_callsign-IsWoken :
      (words : List Text) {after : Text}
      → find_gci_callsign setting words ≡ some after
      → IsWoken words after
  unfolding find_gci_callsign
  find_gci_callsign-IsWoken words h = find_gci_from-IsWoken [] words h
