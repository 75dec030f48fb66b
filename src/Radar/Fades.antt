-- ===== src/Radar/Fades.antt =====
-- pkg/radar/faded.go: contacts that fade are gathered until they settle, then reported by group
-- and removed. The clock of an event is the wall clock in nanoseconds; the goroutines that append
-- and flush run at the time of their event. A group's location, an average of float64s, is left out.
pub mod Removal
pub mod Settling
use skyeye.Common.{
  ℕ, ◌+◌, ◌*◌, ◌≡◌, Bool, true, false, not, ◌&&◌, ◌||◌, List, [], ◌∷◌, ◌++◌, Option, none, some,
  nat_eq, ltb, if◌then◌else◌, ◌==◌, nat_Eq, length, map,
}
use skyeye.Coalitions.{Coalition}
use skyeye.Trackfiles.{Trackfile}
use skyeye.Radar.Database.{Database, get_by_id, delete_contact}
use skyeye.Radar.Grouping.{Sensors, Group, contacts, find_group_for_aircraft}
use skyeye.Radar.Scope.{Scope, second}

abbrev pub has_contact : ℕ → List Trackfile → Bool
has_contact id [] = false
has_contact id (t ∷ ts) = nat_eq t.contact.id id || has_contact id ts

unfoldable pub is_trackfile_in_group : Trackfile → Group → Bool
is_trackfile_in_group t g = has_contact t.contact.id (contacts g)

-- The inner loop that sets `isGrouped`.
unfoldable pub is_grouped : Trackfile → List Group → Bool
is_grouped t [] = false
is_grouped t (g ∷ gs) = is_trackfile_in_group t g || is_grouped t gs

abbrev pub trackfile_of : ℕ × Trackfile → Trackfile
trackfile_of (id, t) = t

-- What the faded callback is called with.
pub record FadedCall : Type 0 where
  pub group : Group
  pub coalition : Coalition

abbrev pub faded_call : Group → FadedCall
faded_call g = record { group = g; coalition = g.first.contact.coalition }

-- A contact that faded, or the ticker, with the time.
pub data FadeEvent : Type 0 where
  fade : ℕ → ℕ → FadeEvent
  fade_tick : ℕ → FadeEvent

-- The second loop of handleFaded.
unfoldable pub delete_all : List ℕ → Database → Database
delete_all [] d = d
delete_all (id ∷ ids) d = delete_all ids (delete_contact id d).0

module _ (sensors : Sensors) where
  abbrev pub group_of : Database → Trackfile → Group
  group_of d t = find_group_for_aircraft sensors (map trackfile_of d.contacts) t

  -- The pass over one trackfile, which makes its group unless it is in one.
  unfoldable pub join_groups : Database → Option Trackfile → List Group → List Group
  join_groups d none groups = groups
  join_groups d (some t) groups =
      if is_grouped t groups then groups else groups ++ group_of d t ∷ []

  -- The first loop of handleFaded: the groups of the faded contacts.
  unfoldable pub collect_groups : Database → List ℕ → List Group → List Group
  collect_groups d [] groups = groups
  collect_groups d (id ∷ ids) groups = collect_groups d ids (join_groups d (get_by_id id d) groups)

  unfoldable pub handle_faded : List ℕ → Scope → Scope × List FadedCall
  handle_faded fades s = (
    record s { contacts = delete_all fades s.contacts },
    map faded_call (collect_groups s.contacts fades []),
  )

  -- One turn of the select in collectFaded.
  unfoldable pub collect_faded : FadeEvent → Scope → Scope × List FadedCall
  collect_faded (fade id now) s = (
    record s { fade_deadline = now + 15 * second; pending_fades = s.pending_fades ++ id ∷ [] },
    [],
  )
  collect_faded (fade_tick now) s =
      if not (nat_eq (length s.pending_fades) 0) && ltb s.fade_deadline now
      then (
        record (handle_faded s.pending_fades s).0 { pending_fades = [] },
        (handle_faded s.pending_fades s).1,
      )
      else (s, [])

  unfoldable pub collect_faded_all : List FadeEvent → Scope → Scope × List FadedCall
  collect_faded_all [] s = (s, [])
  collect_faded_all (e ∷ es) s =
      let (s', calls) = collect_faded e s in
      let (s'', more) = collect_faded_all es s' in (s'', calls ++ more)
