-- ===== src/Radio/Clients.antt =====
-- pkg/simpleradio/sync.go, message.go and frequency.go: the peers that the SRS client knows, the
-- messages that change them, and the counts over them. Writing to the socket is the list `sent`;
-- a write error is only logged by the callers.
pub mod Membership
pub mod Counts
use skyeye.Common.{
  ℕ, zero, suc, ◌+◌, ◌≡◌, Bool, true, false, not, ◌&&◌, ◌||◌, List, [], ◌∷◌, ◌++◌, Option, none,
  some, nat_eq, if◌then◌else◌, ◌==◌, list_Eq, length, drop, lookup, insert, delete,
}
use skyeye.Common.Text.{Text, codes, to_lower}
use skyeye.Coalitions.{Coalition, is_spectator}
use skyeye.Radio.Bytes.{Bytes}
use skyeye.Radio.Types.{
  Float64, Radio, ClientInfo, MessageType, update, ping, sync, radio_update, server_settings,
  client_disconnect, version_mismatch, external_awacs_mode_password, external_awacs_mode_disconnect,
  unrecognized, is_on_frequency,
}

pub record Message : Type 0 where
  pub version : Text
  pub client : Option ClientInfo
  pub clients : List ClientInfo
  pub settings : List (Text × Text)
  pub password : Text
  pub type : MessageType

abbrev pub Peers : Type 0
Peers = List (Bytes × ClientInfo)

pub record Client : Type 0 where
  pub info : ClientInfo
  pub clients : Peers
  pub secure_coalition_radios : Bool
  pub password : Text
  pub sent : List Message

-- A message without a client decodes to the zero ClientInfo.
abbrev pub no_client : ClientInfo
no_client = record {
  guid = [];
  name = [];
  coalition = 0;
  radio_info = record { radios = []; unit = []; unit_id = 0 };
}

abbrev pub client_of : Message → ClientInfo
client_of m = elim m.client [ none ↦ no_client | some c ↦ c ]

-- Send refuses a message that has no version, and writes any other.
unfoldable pub send : Message → Client → Client
send m c = if m.version == [] then c else record c { sent = c.sent ++ m ∷ [] }

abbrev pub new_message : MessageType → Message
new_message t = record {
  version = codes "2.1.0.2";
  client = none;
  clients = [];
  settings = [];
  password = [];
  type = t;
}

unfoldable pub new_message_with_client : Client → MessageType → Message
new_message_with_client c t = record (new_message t) { client = some c.info }

unfoldable pub update_radios : Client → Client
unfolding send new_message_with_client
update_radios c = send (new_message_with_client c radio_update) c

unfoldable pub send_sync : Client → Client
unfolding send new_message_with_client
send_sync c = send (new_message_with_client c sync) c

unfoldable pub connect_external_awacs_mode : Client → Client
unfolding send new_message_with_client
connect_external_awacs_mode c =
    send (record (new_message_with_client c external_awacs_mode_password) { password = c.password })
      c

unfoldable pub update_server_settings : Message → Client → Client
update_server_settings m c = elim (lookup (codes "COALITION_AUDIO_SECURITY") m.settings) [
  | none ↦ c
  | some enabled ↦ record c { secure_coalition_radios = to_lower enabled == codes "true" }
]

unfoldable pub remove_client : ClientInfo → Client → Client
remove_client info c = record c { clients = delete info.guid c.clients }

module _ (float : Float64) where
  -- Whether a peer is kept: not an opponent, and on one of our frequencies.
  unfoldable pub is_peer : ClientInfo → ClientInfo → Bool
  is_peer info other =
      let is_same_coalition =
        nat_eq info.coalition other.coalition || is_spectator other.coalition in
      is_same_coalition && is_on_frequency float info.radio_info.radios other.radio_info.radios

  unfoldable pub sync_client : ClientInfo → Client → Client
  sync_client other c =
      if other.guid == c.info.guid
      then c
      else if nat_eq (length other.radio_info.radios) 0
      then c
      else if is_peer c.info other
      then record c { clients = insert other.guid other c.clients }
      else record c { clients = delete other.guid c.clients }

  unfoldable pub sync_clients : List ClientInfo → Client → Client
  sync_clients [] c = c
  sync_clients (info ∷ others) c = sync_clients others (sync_client info c)

  unfoldable pub handle_message_of : MessageType → Message → Client → Client
  handle_message_of server_settings m c = update_server_settings m c
  handle_message_of sync m c = sync_clients m.clients c
  handle_message_of update m c = sync_client (client_of m) c
  handle_message_of radio_update m c = sync_client (client_of m) c
  handle_message_of client_disconnect m c = remove_client (client_of m) c
  handle_message_of external_awacs_mode_password m c =
      if nat_eq (client_of m).coalition c.info.coalition then update_radios c else c
  handle_message_of ping m c = c
  handle_message_of version_mismatch m c = c
  handle_message_of external_awacs_mode_disconnect m c = c
  handle_message_of unrecognized m c = c

  abbrev pub handle_message : Message → Client → Client
  handle_message m = handle_message_of m.type m

  -- receiveTCP: the messages of the server, one after the other.
  unfoldable pub handle_messages : List Message → Client → Client
  handle_messages [] c = c
  handle_messages (m ∷ ms) c = handle_messages ms (handle_message m c)

  -- The loops over the peers.
  unfoldable pub count_peers : (ClientInfo → Bool) → List Radio → Peers → ℕ
  count_peers test radios [] = 0
  count_peers test radios ((guid, other) ∷ m) =
      (if is_on_frequency float radios other.radio_info.radios && test other then 1 else 0)
      + count_peers test radios m

  unfoldable pub any_named : Text → List Radio → Peers → Bool
  any_named name radios [] = false
  any_named name radios ((guid, other) ∷ m) =
      if other.name == name && is_on_frequency float radios other.radio_info.radios
      then true
      else any_named name radios m

-- strings.HasSuffix(client.Name, "[BOT]")
unfoldable pub has_suffix : Text → Text → Bool
has_suffix [] suffix = suffix == []
has_suffix (x ∷ xs) suffix = (x ∷ xs) == suffix || has_suffix xs suffix

unfoldable pub is_bot : ClientInfo → Bool
is_bot client = has_suffix client.name (codes "[BOT]")

module _ (float : Float64) where
  unfoldable pub clients_on_frequency : Client → ℕ
  clients_on_frequency c = count_peers float (λ _. true) c.info.radio_info.radios c.clients

  unfoldable pub humans_on_frequency : Client → ℕ
  humans_on_frequency c = count_peers float (λ o. not (is_bot o)) c.info.radio_info.radios c.clients

  unfoldable pub bots_on_frequency : Client → ℕ
  bots_on_frequency c = count_peers float is_bot c.info.radio_info.radios c.clients

  unfoldable pub is_name_on_frequency : Text → Client → Bool
  is_name_on_frequency name c = any_named float name c.info.radio_info.radios c.clients

-- getPeerName
unfoldable pub get_peer_name : Bytes → Client → Option Text
get_peer_name guid c = elim (lookup guid c.clients) [ none ↦ none | some info ↦ some info.name ]
