-- ===== src/Radio/Clients/Membership.antt =====
-- Whom the client keeps among its peers, and what the messages of the server do to them.
use skyeye.Common.{
  ◌≡◌, ◌≢◌, inl, inr, true, List, [], ◌∷◌, none, some, arith, nat_eq, if◌then◌else◌, ◌==◌, list_Eq,
  list_eq_iff, Bool-cases, length, lookup, lookup-insert, lookup-delete,
}
use skyeye.Radio.Bytes.{Bytes}
use skyeye.Radio.Types.{
  Float64, ClientInfo, MessageType, update, sync, radio_update, server_settings, client_disconnect,
  external_awacs_mode_password,
}
use skyeye.Radio.Clients.{
  Message, Client, client_of, is_peer, sync_client, sync_clients, handle_message, handle_messages,
  handle_message_of, remove_client, update_server_settings, update_radios,
}

module _ (float : Float64) where
  -- Each peer stands under its own GUID, is not ourselves, and is wanted.
  abbrev pub PeersOk : Client → Type 0
  PeersOk c =
      (guid : Bytes) (other : ClientInfo)
      → lookup guid c.clients ≡ some other
      → (other.guid ≡ guid) × (other.guid ≢ c.info.guid) × (is_peer float c.info other ≡ true)

  sync_client-PeersOk :
      (other : ClientInfo) (c : Client) → PeersOk c → PeersOk (sync_client float other c)
  unfolding sync_client
  sync_client-PeersOk other c v guid found h = ground (
    arith,
    v guid found,
    lookup-insert other.guid guid other c.clients,
    lookup-delete other.guid guid c.clients,
    list_eq_iff other.guid guid,
    list_eq_iff other.guid c.info.guid,
  )

  sync_clients-PeersOk :
      (others : List ClientInfo) (c : Client) → PeersOk c → PeersOk (sync_clients float others c)
  unfolding sync_clients
  sync_clients-PeersOk [] c v = v
  sync_clients-PeersOk (o ∷ os) c v =
      sync_clients-PeersOk os (sync_client float o c) (sync_client-PeersOk o c v)

  remove_client-PeersOk :
      (info : ClientInfo) (c : Client) → PeersOk c → PeersOk (remove_client info c)
  unfolding remove_client
  remove_client-PeersOk info c v guid found h =
      ground
        (arith, v guid found, lookup-delete info.guid guid c.clients, list_eq_iff info.guid guid)

  -- Messages that leave the peers and our own information alone.
  keep-PeersOk : (c d : Client) → d.clients ≡ c.clients → d.info ≡ c.info → PeersOk c → PeersOk d
  keep-PeersOk c d p q v guid found h = rw q (v guid found (rw p at h))

  handle_message_of-PeersOk :
      (t : MessageType) (m : Message) (c : Client)
      → PeersOk c
      → PeersOk (handle_message_of float t m c)
  unfolding handle_message_of
  handle_message_of-PeersOk server_settings m c v =
      keep-PeersOk c (update_server_settings m c) (unfold update_server_settings in ground arith)
        (unfold update_server_settings in ground arith) v
  handle_message_of-PeersOk sync m c v = sync_clients-PeersOk m.clients c v
  handle_message_of-PeersOk update m c v = sync_client-PeersOk (client_of m) c v
  handle_message_of-PeersOk radio_update m c v = sync_client-PeersOk (client_of m) c v
  handle_message_of-PeersOk client_disconnect m c v = remove_client-PeersOk (client_of m) c v
  handle_message_of-PeersOk external_awacs_mode_password m c v =
      elim (Bool-cases (nat_eq (client_of m).coalition c.info.coalition)) [
        | inl ours ↦ rw ours (
            keep-PeersOk c (update_radios c) (unfold update_radios in ground arith)
              (unfold update_radios in ground arith) v)
        | inr theirs ↦ rw theirs v
      ]
  handle_message_of-PeersOk _ m c v = v

  -- Whatever messages the server sends, in whatever order: a peer always stands under its own
  -- GUID, is never the client itself, is of the client's coalition or a spectator, and has a radio
  -- on one of the client's frequencies.
  pub handle_messages-PeersOk :
      (ms : List Message) (c : Client) → PeersOk c → PeersOk (handle_messages float ms c)
  unfolding handle_messages
  handle_messages-PeersOk [] c v = v
  handle_messages-PeersOk (m ∷ ms) c v =
      handle_messages-PeersOk ms (handle_message float m c) (handle_message_of-PeersOk m.type m c v)

  -- After a sync with somebody else, who has a radio, that peer is known exactly when wanted, with
  -- the information of the message, and the others are as before. Without a radio nothing changes.
  pub lookup-sync_client :
      (other : ClientInfo) (c : Client) (guid : Bytes)
      → other.guid ≢ c.info.guid
      → lookup guid (sync_client float other c).clients ≡ (
          if nat_eq (length other.radio_info.radios) 0
          then lookup guid c.clients
          else if other.guid == guid
          then (if is_peer float c.info other then some other else none)
          else lookup guid c.clients)
  unfolding sync_client
  lookup-sync_client other c guid ne = ground (
    arith,
    lookup-insert other.guid guid other c.clients,
    lookup-delete other.guid guid c.clients,
    list_eq_iff other.guid guid,
    list_eq_iff other.guid c.info.guid,
  )
