-- ===== src/Radio/Clients/Counts.antt =====
-- The counts of peers on frequency.
use skyeye.Common.{◌+◌, ◌<◌, ◌≡◌, refl, Bool, true, not, List, [], ◌∷◌, arith}
use skyeye.Common.Text.{Text}
use skyeye.Radio.Types.{Float64, Radio, ClientInfo}
use skyeye.Radio.Clients.{
  Peers, Client, count_peers, any_named, is_bot, clients_on_frequency, humans_on_frequency,
  bots_on_frequency, is_name_on_frequency,
}

module _ (float : Float64) (radios : List Radio) where
  count_peers_split :
      (test : ClientInfo → Bool) (m : Peers)
      → count_peers float (λ o. not (test o)) radios m + count_peers float test radios m
        ≡ count_peers float (λ _. true) radios m
  unfolding count_peers
  count_peers_split test [] = refl
  count_peers_split test ((guid, other) ∷ m) = ground (arith, count_peers_split test m)

  count_peers_pos :
      (name : Text) (m : Peers)
      → any_named float name radios m ≡ true
      → 0 < count_peers float (λ _. true) radios m
  unfolding any_named count_peers
  count_peers_pos name [] h = cc
  count_peers_pos name ((guid, other) ∷ m) h = ground (arith, count_peers_pos name m)

-- Every peer on frequency is counted once, as a human or as a bot.
pub humans_add_bots :
    (float : Float64) (c : Client)
    → humans_on_frequency float c + bots_on_frequency float c ≡ clients_on_frequency float c
unfolding humans_on_frequency bots_on_frequency clients_on_frequency
humans_add_bots float c = count_peers_split float c.info.radio_info.radios is_bot c.clients

-- Where a name is found on frequency, the count of clients is not zero.
pub is_name_on_frequency-clients :
    (float : Float64) (name : Text) (c : Client)
    → is_name_on_frequency float name c ≡ true
    → 0 < clients_on_frequency float c
unfolding is_name_on_frequency clients_on_frequency
is_name_on_frequency-clients float name c =
    count_peers_pos float c.info.radio_info.radios name c.clients
