-- ===== src/Trackfiles.antt =====
-- pkg/trackfiles/trackfile.go: the labels and the last frames of a contact. Times are nanoseconds
-- since the zero time; coordinates, altitudes and headings are the bit patterns of float64s.
pub mod Order
use skyeye.Common.{
  ℕ, ◌%◌, ◌^◌, Bool, true, false, ◌&&◌, List, [], ◌∷◌, nat_eq, ltb, if◌then◌else◌, take,
}
use skyeye.Common.Text.{Text}
use skyeye.Coalitions.{Coalition}

-- orb.Point
pub record Point : Type 0 where
  pub lon : ℕ
  pub lat : ℕ

abbrev pub origin : Point
origin = record { lon = 0; lat = 0 }

-- A float64 compares equal to 0.0 if all its bits but the sign are clear.
abbrev pub is_zero_float : ℕ → Bool
is_zero_float x = nat_eq (x % 2 ^ 63) 0

-- spatial.IsZero
unfoldable pub is_zero : Point → Bool
is_zero p = is_zero_float p.lon && is_zero_float p.lat

pub record Labels : Type 0 where
  pub id : ℕ
  pub name : Text
  pub coalition : Coalition
  pub acmi_name : Text

pub record Frame : Type 0 where
  pub time : ℕ
  pub point : Point
  pub altitude : ℕ
  pub heading : ℕ

abbrev pub no_frame : Frame
no_frame = record { time = 0; point = origin; altitude = 0; heading = 0 }

-- The newest frame comes first.
pub record Trackfile : Type 0 where
  pub contact : Labels
  pub track : List Frame

abbrev pub max_length : ℕ
max_length = 4

abbrev pub new_trackfile : Labels → Trackfile
new_trackfile labels = record { contact = labels; track = [] }

-- `f.Time.Before(t.track.Front().Time)`, of a track that has a front.
abbrev pub is_outdated : Frame → List Frame → Bool
is_outdated f [] = false
is_outdated f (g ∷ gs) = ltb f.time g.time

-- The loop that pops the back while the track is too long keeps its first frames.
unfoldable pub update : Frame → Trackfile → Trackfile
update f t = if is_outdated f t.track then t else record t { track = take max_length (f ∷ t.track) }

abbrev pub front : List Frame → Frame
front [] = no_frame
front (f ∷ fs) = f

abbrev pub last_known : Trackfile → Frame
last_known t = front t.track

unfoldable pub is_last_known_point_zero : Trackfile → Bool
unfolding is_zero
is_last_known_point_zero t = is_zero (last_known t).point

unfoldable pub updates : List Frame → Trackfile → Trackfile
updates [] t = t
updates (f ∷ fs) t = updates fs (update f t)
