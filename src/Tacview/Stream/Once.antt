-- ===== src/Tacview/Stream/Once.antt =====
-- pkg/tacview/client/client.go: the IDs of the updates that sendUpdates sends after any lines.
use skyeye.Common.{
  ℕ, ◌≡◌, ◌≢◌, refl, inl, inr, false, List, [], ◌∷◌, Option, none, some, arith, nat_eq, nat_Eq,
  Bool-cases, lookup, contains,
}
use skyeye.Radar.Scope.{Updated}
use skyeye.Tacview.Objects.{Object}
use skyeye.Tacview.Client.{Client}
use skyeye.Tacview.Lines.{Formats}
use skyeye.Tacview.Stream.Objects.{IsKeyed, handle_turns-IsKeyed}
use skyeye.Tacview.Stream.Sending.{update_of→IsReport}
use skyeye.Tacview.Stream.{
  Session, Reader, Turn, handle_turns, handle_lines, started, update_of, send, send_each,
  send_updates,
}

abbrev pub ids : List Updated → List ℕ
ids [] = []
ids (u ∷ us) = u.labels.id ∷ ids us

-- No number stands twice, and none is 0.
abbrev pub IsOnceEach : List ℕ → Type 0
IsOnceEach [] = Unit
IsOnceEach (x ∷ xs) = (x ≢ 0) × (contains xs x ≡ false) × IsOnceEach xs

module _ (formats : Formats) (c : Client) where
  update_of_id : (o : Object) (u : Updated) → update_of formats c o ≡ some u → u.labels.id ≡ o.id
  update_of_id o u h = (update_of→IsReport formats c o u h).ided

  -- An ID that is not in the state is not sent.
  contains-send :
      (j k : ℕ) (o : Object) (said : Option Updated) (later : List Updated)
      → update_of formats c o ≡ said
      → o.id ≡ k
      → nat_eq k j ≡ false
      → contains (ids later) j ≡ false
      → contains (ids (send said later)) j ≡ false
  unfolding contains
  contains-send j k o none later h same other absent = absent
  contains-send j k o (some u) later h same other absent =
      rw (update_of_id o u h, same, other) absent

  contains-send_each :
      (j : ℕ) (state : List (ℕ × Object))
      → IsKeyed state
      → lookup j state ≡ none
      → contains (ids (send_each formats c state)) j ≡ false
  unfolding send_each lookup contains
  contains-send_each j [] v absent = refl
  contains-send_each j ((k, o) ∷ rest) v absent = elim (Bool-cases (nat_eq k j)) [
    | inl here ↦ absurd (ground (arith, here, absent))
    | inr other ↦
        contains-send j k o (update_of formats c o) (send_each formats c rest) refl v.0 other
          (contains-send_each j rest v.3 (rw other at absent))
  ]

  send-IsOnceEach :
      (k : ℕ) (o : Object) (said : Option Updated) (later : List Updated)
      → update_of formats c o ≡ said
      → o.id ≡ k
      → k ≢ 0
      → contains (ids later) k ≡ false
      → IsOnceEach (ids later)
      → IsOnceEach (ids (send said later))
  send-IsOnceEach k o none later h same ne absent v = v
  send-IsOnceEach k o (some u) later h same ne absent v =
      rw (update_of_id o u h, same) (ne, absent, v)

  send_each-IsOnceEach :
      (state : List (ℕ × Object)) → IsKeyed state → IsOnceEach (ids (send_each formats c state))
  unfolding send_each
  send_each-IsOnceEach [] v = tt
  send_each-IsOnceEach ((k, o) ∷ rest) v =
      send-IsOnceEach k o (update_of formats c o) (send_each formats c rest) refl v.0 v.1
        (contains-send_each k rest v.3 v.2) (send_each-IsOnceEach rest v.3)

-- Whatever lines a connection reads, an aircraft is sent once at a time: no two of the updates have
-- the same ID, and none is of the global object.
pub send_updates-handle_lines :
    (formats : Formats) (turns : List Turn) (reader : Reader) (s : Session)
    → let c = (handle_lines formats turns reader s).0.client in
      IsOnceEach (ids (send_updates formats c))
unfolding handle_lines send_updates
send_updates-handle_lines formats turns reader s =
    let c = (handle_turns formats turns (started formats reader s)).0.client in
    send_each-IsOnceEach formats c c.state
      (handle_turns-IsKeyed formats turns (started formats reader s) tt)
