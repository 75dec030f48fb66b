-- ===== src/Application/Answers.antt =====
-- internal/application: each request gets one answer, and only who calls the GCI gets one.
use skyeye.Common.{
  ℕ, ◌<◌, ◌≡◌, ◌≢◌, refl, ◌⊎◌, inl, inr, true, List, [], Option, none, some, arith, length,
  Option-cases,
}
use skyeye.Common.Text.{Text}
use skyeye.Radar.Database.{Names}
use skyeye.Radar.Grouping.{Sensors, Group}
use skyeye.Radar.Nearby.{Globe, Sort}
use skyeye.Parser.Requests.{
  Setting, Request, alpha_check_request, picture_request, parse, before_word,
}
use skyeye.Parser.Normalize.{declare}
use skyeye.Parser.Requests.Words.{IsWoken}
use skyeye.Parser.Requests.Answers.{words_of, found_in, parse-IsWoken, parse_ends}
use skyeye.Controller.Calls.{Call}
use skyeye.Controller.Handlers.{Controller, broadcast_picture}
use skyeye.Controller.Requests.{Geometry}
use skyeye.Application.{World, handle_picture, handle_request, handle_parsed, handle_text}

-- One call is made, and the merges and the cooldowns are as before.
pub record IsAnswered (c : Controller) (after : Controller × List Call) : Type 0 where
  pub one_call : length after.1 ≡ 1
  pub same_merges : after.0.merges ≡ c.merges
  pub same_cooldowns : after.0.threat_cooldowns ≡ c.threat_cooldowns

broadcast_picture-IsAnswered :
    (now clients count : ℕ) (groups : List (List ℕ)) (c : Controller)
    → IsAnswered c (broadcast_picture now true clients count groups c)
unfolding broadcast_picture
broadcast_picture-IsAnswered now clients count groups c = ground arith

module _ (sensors : Sensors) (globe : Globe) (sort : Sort) (geometry : Geometry) (names : Names)
    (altitude : Group → ℕ) where
  abbrev handle : World → Request → Controller → Controller × List Call
  handle world request c = handle_request sensors globe sort geometry names altitude world request c

  -- Every request is answered with exactly one call, whatever the radar knows of the caller, and
  -- leaves the merges and the cooldowns of the controller as they are.
  pub handle_request-IsAnswered :
      (world : World) (request : Request) (c : Controller)
      → IsAnswered c (handle_request sensors globe sort geometry names altitude world request c)
  unfolding handle_request handle_picture
  handle_request-IsAnswered world (picture_request callsign) c =
      broadcast_picture-IsAnswered world.now 0 _ _ c
  handle_request-IsAnswered world (alpha_check_request callsign) c = record {
    one_call = refl;
    same_merges = refl;
    same_cooldowns = refl;
  }
  handle_request-IsAnswered world request c = record {
    one_call = refl;
    same_merges = refl;
    same_cooldowns = refl;
  }

  module _ (setting : Setting) where
    abbrev pub IsCalled : Text → Type 0
    IsCalled text =
        (after : Text) × IsWoken setting
          (before_word setting (words_of setting text) (found_in setting text)) after

    abbrev pub IsHandled : Text → Controller → Controller × List Call → Type 0
    IsHandled text c after = (after ≡ (c, [])) ⊎ (IsCalled text × IsAnswered c after)

    handle_parsed-IsHandled :
        (fuel : ℕ) (world : World) (text : Text) (c : Controller) (r : Option Request)
        → parse setting fuel text ≡ some r
        → IsHandled text c (handle_parsed sensors globe sort geometry names altitude world r c)
    handle_parsed-IsHandled fuel world text c none h = inl refl
    handle_parsed-IsHandled fuel world text c (some r) h =
        inr (parse-IsWoken setting fuel text h, handle_request-IsAnswered world r c)

    -- A text other than a DECLARE without a word after it is handled to an end: either nothing is said
    -- and the controller is as before, or a wake phrase begins the words before the request word, and
    -- exactly one call is made. More turns than the text has words are enough.
    pub handle_text-IsHandled :
        (fuel : ℕ) (world : World) (text : Text) (c : Controller)
        → length (words_of setting text) < fuel
        → ((before : List Text) → found_in setting text ≢ some (declare, before, []))
        → (after : Controller × List Call) × (handle_text sensors globe sort geometry names altitude
              setting fuel world text c
            ≡ some after)
          × IsHandled text c after
    unfolding handle_text
    handle_text-IsHandled fuel world text c l ne = elim (Option-cases (parse setting fuel text)) [
      | inl e ↦ absurd (parse_ends setting fuel text l ne e)
      | inr (r, e) ↦ (
        handle_parsed sensors globe sort geometry names altitude world r c,
        rw e refl,
        handle_parsed-IsHandled fuel world text c r e,
      )
    ]
