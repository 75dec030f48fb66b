-- ===== src/Parser/Declare/Termination.antt =====
-- When the loop of DECLARE ends.
use skyeye.Common.{
  ℕ, zero, suc, ◌<◌, ◌≡◌, ◌≢◌, refl, ap, inl, inr, List, [], ◌∷◌, Option, none, some, arith,
  if◌then◌else◌, list_Eq, list_eq, list_eq_iff, Bool-cases, length, All, ◌>>=◌,
}
use skyeye.Common.Text.{Text}
use skyeye.Parser.Scanner.{Language, Scanner, new_scanner, any_similar, scan}
use skyeye.Parser.Spatial.{bullseye_words, braa_words, parse_bullseye}
use skyeye.Parser.Declare.{
  Location, Turn, continue, break, fail, is_numeric, declare_turn, declare_loop, parse_declare,
  bullseye_turn, braa_turn, parse_bearing_range, with_details,
}

module _ (language : Language) where
  loop_empty : (fuel : ℕ) → declare_loop language fuel (new_scanner []) ≡ none
  unfolding declare_loop declare_turn list_eq
  loop_empty zero = refl
  loop_empty (suc fuel) = loop_empty fuel

  -- A DECLARE without a word after it is never parsed: however many turns the loop makes, it has
  -- not ended.
  pub parse_declare_diverges :
      (fuel : ℕ) (callsign : Text) → parse_declare language fuel callsign (new_scanner []) ≡ none
  unfolding parse_declare
  parse_declare_diverges fuel callsign = rw (loop_empty fuel) refl

  -- A turn ends the loop, or goes on with the next word.
  abbrev Steps : Scanner → Turn → Type 0
  Steps s (continue s') =
      (w : Text) × (ws : List Text) × (s.words ≡ w ∷ ws) × (s' ≡ record { text = w; words = ws })
  Steps s (break s' location) = Unit
  Steps s fail = Unit

  bullseye_turn-Steps :
      (s : Scanner) (r : Scanner × Option (ℕ × ℕ)) → Steps s (bullseye_turn language r)
  bullseye_turn-Steps s (s', none) = tt
  bullseye_turn-Steps s (s', some b) = tt

  braa_turn-Steps : (s : Scanner) (r : Scanner × Option (ℕ × ℕ)) → Steps s (braa_turn language r)
  braa_turn-Steps s (s', none) = tt
  braa_turn-Steps s (s', some b) = tt

  scan_turn-Steps :
      (t : Text) (ws : List Text)
      → Steps
          (record { text = t; words = ws })
          (if (scan (record { text = t; words = ws })).1
            then continue (scan (record { text = t; words = ws })).0
            else fail)
  scan_turn-Steps t [] = tt
  scan_turn-Steps t (w ∷ ws) = (w, ws, refl, refl)

  declare_turn-Steps :
      (t : Text) (ws : List Text)
      → t ≢ []
      → let s : Scanner = record { text = t; words = ws } in Steps s (declare_turn language s)
  unfolding declare_turn
  declare_turn-Steps t ws ne =
      let s : Scanner = record { text = t; words = ws } in
      elim (Bool-cases (list_eq t [])) [
        | inl empty ↦ absurd (ne ((list_eq_iff t []).0 empty))
        | inr full ↦ elim (Bool-cases (is_numeric language t)) [
          | inl number ↦ rw (full, number) tt
          | inr word ↦ elim (Bool-cases (any_similar language t bullseye_words)) [
            | inl bulls ↦ rw (full, word, bulls) (bullseye_turn-Steps s (parse_bullseye language s))
            | inr other ↦ elim (Bool-cases (any_similar language t braa_words)) [
              | inl braa ↦
                  rw (full, word, other, braa)
                    (braa_turn-Steps s (parse_bearing_range language (scan s).0))
              | inr neither ↦ rw (full, word, other, neither) (scan_turn-Steps t ws)
            ]
          ]
        ]
      ]

  loop_ends :
      (fuel : ℕ) (t : Text) (ws : List Text)
      → t ≢ []
      → All (λ w. w ≢ []) ws
      → length ws < fuel
      → declare_loop language fuel (record { text = t; words = ws }) ≢ none
  unfolding declare_loop
  loop_ends zero t ws ne full l = absurd (omega (arith, l))
  loop_ends (suc fuel) t ws ne full l =
      go (declare_turn language (record { text = t; words = ws })) (declare_turn-Steps t ws ne)
        (loop_ends fuel)
    where
      go :
          (turn : Turn)
          → Steps (record { text = t; words = ws }) turn
          → ((t' : Text) (ws' : List Text)
              → t' ≢ []
              → All (λ w. w ≢ []) ws'
              → length ws' < fuel
              → declare_loop language fuel (record { text = t'; words = ws' }) ≢ none)
          → (elim turn [
            | continue s' ↦ declare_loop language fuel s'
            | break s' location ↦ some (some (s', location))
            | fail ↦ some none
          ])
            ≢ none
      go (break s' location) steps ih = λ e. cc
      go fail steps ih = λ e. cc
      go (continue s') (w, ws', e, q) ih =
          let full' : All (λ w. w ≢ []) (w ∷ ws') = rw e at full in
          rw q (ih w ws' full'.0 full'.1 (omega (arith, l, ap length e)))

  -- With a word after it, a DECLARE is parsed in fewer turns than two more than there are words: the
  -- scanner never gives an empty token before the end.
  pub parse_declare_ends :
      (fuel : ℕ) (callsign w : Text) (ws : List Text)
      → All (λ v. v ≢ []) (w ∷ ws)
      → length (w ∷ ws) < fuel
      → parse_declare language fuel callsign (new_scanner (w ∷ ws)) ≢ none
  unfolding parse_declare declare_loop declare_turn list_eq
  parse_declare_ends zero callsign w ws full l = absurd (omega (arith, l))
  parse_declare_ends (suc fuel) callsign w ws full l =
      go (declare_loop language fuel (record { text = w; words = ws }))
        (loop_ends fuel w ws full.0 full.1 (omega (arith, l)))
    where
      go :
          (r : Option (Option (Scanner × Location)))
          → r ≢ none
          → (r >>= (λ found. some (with_details language callsign found))) ≢ none
      go none ne = absurd (ne refl)
      go (some found) ne = λ e. cc
