-- ===== src/Scaler/Tests.antt =====
-- Runs of the autoscaler: a player who is there at the first look and gone at the second.
use skyeye.Common.{◌*◌, ◌≡◌, ◌<◌, ◌↔◌, refl, List, [], ◌∷◌, none, arith, All, list_eq}
use skyeye.Common.Text.{codes}
use skyeye.Radio.Types.{is_same_frequency, any_same_frequency, is_on_frequency}
use skyeye.Radio.Clients.{humans_on_frequency, count_peers, is_bot, has_suffix}
use skyeye.Radio.Samples.{whole, distance, client, met}
use skyeye.Scaler.{Flags, Look, run, stop, call_webhook, call_webhooks, run_scaler}
use skyeye.Scaler.Stopping.{IsLongAgo, call_webhook_stop}

abbrev flags : Flags
flags = record {
  scale_interval = 60;
  stop_delay = 50;
  srs_address = codes "localhost:5002";
  srs_frequencies = codes "251.0AM" ∷ [];
}

abbrev looks : List Look
looks = (1000, met) ∷ (1030, client) ∷ []

call_webhook_stop_example :
    let (_, seen) = call_webhooks whole flags looks 0 in
    ((call_webhook whole flags (1090, client) seen).0.action ≡ stop) ↔ (
      (humans_on_frequency whole client ≡ 0) × (50 < 1090) × All (IsLongAgo whole flags 1090) looks)
call_webhook_stop_example =
    call_webhook_stop whole flags looks 1090 client (omega arith, (omega arith, tt))

kept_then_stopped :
    let (_, seen) = call_webhooks whole flags looks 0 in
    ((call_webhook whole flags (1040, client) seen).0.action ≡ run)
    × ((call_webhook whole flags (1090, client) seen).0.action ≡ stop)
unfolding call_webhook call_webhooks humans_on_frequency count_peers is_bot has_suffix
    is_on_frequency any_same_frequency is_same_frequency list_eq distance
kept_then_stopped = (refl, refl)

-- The flags as they are by default, which it refuses.
abbrev defaults : Flags
defaults = record flags { scale_interval = 60 * 1000000000; stop_delay = 600 * 1000000000 }

refused : run_scaler whole defaults [] ≡ none
unfolding run_scaler
refused = refl
