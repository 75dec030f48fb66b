-- ===== src/Scaler.antt =====
-- cmd/skyeye-scaler/main.go: the autoscaler, which asks a webhook to run or to stop SkyEye by the
-- number of players on its frequencies. Times are nanoseconds since the zero time; what the webhook
-- answers is only logged.
pub mod Stopping
mod Tests
use skyeye.Common.{ℕ, ◌-◌, ◌*◌, List, [], ◌∷◌, Option, none, some, ltb, if◌then◌else◌}
use skyeye.Common.Text.{Text}
use skyeye.Radio.Types.{Float64}
use skyeye.Radio.Clients.{Client, humans_on_frequency}

-- The flags that it reads.
pub record Flags : Type 0 where
  pub scale_interval : ℕ
  pub stop_delay : ℕ
  pub srs_address : Text
  pub srs_frequencies : List Text

pub data Action : Type 0 where
  run stop : Action

pub record Payload : Type 0 where
  pub action : Action
  pub players : ℕ
  pub address : Text
  pub frequencies : List Text

-- A call of the webhook: the time, and what the radio client knows then.
abbrev pub Look : Type 0
Look = ℕ × Client

module _ (float : Float64) where
  abbrev pub next_action : Flags → ℕ → ℕ → ℕ → Action
  next_action flags now player_count players_seen_at =
      if ltb 0 player_count
      then run
      else if ltb flags.stop_delay (now - players_seen_at)
      then stop
      else run

  -- callWebhook: what it sends, and when players were seen. One reading of the clock stands for both.
  unfoldable pub call_webhook : Flags → Look → ℕ → Payload × ℕ
  call_webhook flags (now, client) players_seen_at =
      let player_count = humans_on_frequency float client in
      (
        record {
          action = next_action flags now player_count players_seen_at;
          players = player_count;
          address = flags.srs_address;
          frequencies = flags.srs_frequencies;
        },
        if ltb 0 player_count then now else players_seen_at,
      )

  -- The loop of run.
  unfoldable pub call_webhooks : Flags → List Look → ℕ → List Payload × ℕ
  call_webhooks flags [] players_seen_at = ([], players_seen_at)
  call_webhooks flags (look ∷ looks) players_seen_at =
      let (payload, seen) = call_webhook flags look players_seen_at in
      let (payloads, seen') = call_webhooks flags looks seen in (payload ∷ payloads, seen')

  -- run, with the flags that it refuses; `none` is the fatal error.
  unfoldable pub run_scaler : Flags → List Look → Option (List Payload)
  run_scaler flags looks =
      let (payloads, _) = call_webhooks flags looks 0 in
      if ltb flags.scale_interval flags.stop_delay then none else some payloads
