-- ===== src/Radar/Scope.antt =====
-- pkg/radar/radar.go, faded.go, started.go and callbacks.go: the scope's handlers of updates, fades,
-- mission starts and garbage collection. The callbacks are the events in `Output`.
pub mod Collection
use skyeye.Common.{
  ℕ, ◌+◌, ◌*◌, ◌≡◌, Bool, true, false, not, ◌&&◌, ◌||◌, List, [], ◌∷◌, ◌++◌, Option, none, some,
  nat_eq, ltb, if◌then◌else◌, ◌==◌, nat_Eq, ◌>>=◌, lookup, insert, length,
}
use skyeye.Coalitions.{Coalition}
use skyeye.Trackfiles.{Labels, Frame, Trackfile, Point, new_trackfile, update, last_known, origin}
use skyeye.Radar.Database.{Database, Names, empty, get_by_id, set, delete_contact}

-- sim.Updated
pub record Updated : Type 0 where
  pub labels : Labels
  pub frame : Frame

pub record Scope : Type 0 where
  pub mission_time : ℕ
  pub bullseyes : List (Coalition × Point)
  pub contacts : Database
  pub pending_fades : List ℕ
  -- collectFaded's deadline
  pub fade_deadline : ℕ

abbrev pub second : ℕ
second = 1_000_000_000

unfoldable pub set_bullseye : Point → Coalition → Scope → Scope
set_bullseye p c s = record s { bullseyes = insert c p s.bullseyes }

unfoldable pub bullseye : Coalition → Scope → Point
bullseye c s = elim (lookup c s.bullseyes) [ none ↦ origin | some p ↦ p ]

-- The trackfile is updated in place; a new one is stored without the frame that announced it.
unfoldable pub handle_update : Names → Updated → Scope → Option Scope
handle_update names u s = elim (get_by_id u.labels.id s.contacts) [
  | some t ↦ some (record s {
    contacts = record (s.contacts) {
      contacts = insert u.labels.id (update u.frame t) s.contacts.contacts;
    };
  })
  | none ↦ do d ← set names (new_trackfile u.labels) s.contacts; some (record s { contacts = d })
]

-- `!lastSeen.IsZero() && lastSeen.Before(missionTime.Add(-1 * time.Minute))`
unfoldable pub is_expired : ℕ → Trackfile → Bool
is_expired mission_time t =
    let last_seen = (last_known t).time in
    not (nat_eq last_seen 0) && ltb (last_seen + 60 * second) mission_time

-- The loop over a snapshot of the contacts, with the trackfiles that the removal callback gets.
unfoldable pub collect : ℕ → List (ℕ × Trackfile) → Database → Database × List Trackfile
collect mission_time [] d = (d, [])
collect mission_time ((key, t) ∷ rest) d =
    let next = if is_expired mission_time t then delete_contact t.contact.id d else (d, false) in
    let (d', removed) = collect mission_time rest next.0 in
    (d', if next.1 then t ∷ removed else removed)

unfoldable pub handle_garbage_collection : Scope → Scope × List Trackfile
handle_garbage_collection s =
    if not (nat_eq (length s.pending_fades) 0)
    then (s, [])
    else let (d, removed) = collect s.mission_time s.contacts.contacts s.contacts in
      (record s { contacts = d }, removed)

unfoldable pub handle_started : Scope → Scope
handle_started s = record s { contacts = empty }
