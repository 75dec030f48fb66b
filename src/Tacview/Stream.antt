-- ===== src/Tacview/Stream.antt =====
-- pkg/tacview/client/client.go: the lines read from the stream and handled, and the updates sent.
pub mod Reading
pub mod Sending
pub mod Objects
pub mod Once
use skyeye.Common.{
  ℕ, ◌+◌, ◌-◌, ◌*◌, Bool, true, false, ◌&&◌, ◌||◌, List, [], ◌∷◌, ◌++◌, Option, none, some, nat_eq,
  ltb, if◌then◌else◌, ◌==◌, list_Eq, lookup, length, take, ◌>>=◌,
}
use skyeye.Common.Text.{Text, codes}
use skyeye.Parser.Normalize.{is_prefix, trim_space}
use skyeye.Radar.Scope.{Updated}
use skyeye.Trackfiles.{Frame}
use skyeye.Tacview.Coordinates.{Coordinates}
use skyeye.Tacview.Objects.{Object, ObjectUpdate, get_property, get_types, get_coordinates}
use skyeye.Tacview.Client.{
  Client, Outcome, failed, reset, handle_time_frame, is_aircraft, property_to_coalition,
  update_object,
}
use skyeye.Tacview.Lines.{Formats, parse_time_frame, parse_object_update}

-- The lines that are still to come, each with its newline; after them reading is an error.
abbrev pub Reader : Type 0
Reader = List Text

-- strings.HasSuffix
unfoldable pub has_suffix : Text → Text → Bool
has_suffix suffix [] = suffix == []
has_suffix suffix (c ∷ cs) = (c ∷ cs) == suffix || has_suffix suffix cs

abbrev pub line_break : Text
line_break = b'\\' ∷ b'\n' ∷ []

unfoldable pub read_continuation : Text → Reader → Option (Text × Reader)
read_continuation line [] = none
read_continuation line (next ∷ rest) =
    let more = read_continuation (line ++ next) rest in
    if has_suffix line_break next then more else some (line ++ next, rest)

-- The start of handleUpdate: a line, with its continuation lines.
unfoldable pub read_line : Reader → Option (Text × Reader)
read_line [] = none
read_line (line ∷ rest) =
    if has_suffix line_break line
    then read_continuation (take (length line - 2) line) rest
    else some (line, rest)

-- The lines that say nothing: empty ones, comments and the two headers.
unfoldable pub is_skipped : Text → Bool
is_skipped line =
    line == []
    || is_prefix (codes "//") line
    || line == codes "FileType=text/acmi/tacview"
    || line == codes "FileVersion=2.2"

abbrev pub quiet : Client × Bool → Outcome
quiet (c, ok) = record { client = c; fades = []; ok = ok }

abbrev pub and_then : Client × Bool → (Client → Client × Bool) → Client × Bool
and_then (c, ok) f = if ok then f c else (c, false)

-- A property of the global object, if it is given: parsed and set.
abbrev pub put : Option ℕ → (ℕ → Client → Client) → Client → Client × Bool
put none set c = (c, false)
put (some v) set c = (set v c, true)

abbrev pub set_parsed :
    (Text → Option ℕ) → (ℕ → Client → Client) → Option Text → Client → Client × Bool
set_parsed parse set none c = (c, true)
set_parsed parse set (some s) c = put (parse s) set c

abbrev pub set_reference_time : ℕ → Client → Client
set_reference_time t c = record c {
  reference_time = t;
  cursor_time = if nat_eq c.cursor_time 0 then t else c.cursor_time;
}

abbrev pub set_longitude : ℕ → Client → Client
set_longitude v c = record c { reference_point = record c.reference_point { lon = v } }

abbrev pub set_latitude : ℕ → Client → Client
set_latitude v c = record c { reference_point = record c.reference_point { lat = v } }

-- What the stream has to be at: the client, what is to be read, the fades sent, the time of the
-- last update, and how many mission starts were sent.
pub record Session : Type 0 where
  pub client : Client
  pub reader : Reader
  pub fades : List ℕ
  pub last_update_time : ℕ
  pub starts : ℕ

-- One turn of the loop of handleLines: the context is done, the ticker ticks or a line is read. The
-- numbers are the time then.
pub data Turn : Type 0 where
  cancelled : Turn
  ticked : ℕ → Turn
  polled : ℕ → Turn

-- How the loop ended, if it did: with no error, for want of updates, or with a bad line.
pub data Ending : Type 0 where
  running stopped stale broken : Ending

-- Ten minutes.
abbrev pub grace_period : ℕ
grace_period = 600 * 1000000000

abbrev pub or_zero : Option ℕ → ℕ
or_zero none = 0
or_zero (some v) = v

abbrev pub send : Option Updated → List Updated → List Updated
send none later = later
send (some u) later = u ∷ later

module _ (formats : Formats) where
  open formats use {floats, language, parse_time, print_id, angle}

  -- An error leaves what was set before it.
  unfoldable pub update_global_object : ObjectUpdate → Client → Client × Bool
  update_global_object u c =
      let set_time = set_parsed parse_time set_reference_time in
      let set_lon = set_parsed (floats.parse_float) set_longitude in
      let set_lat = set_parsed (floats.parse_float) set_latitude in
      and_then
        (and_then (set_time (lookup (codes "ReferenceTime") u.properties) c)
          (set_lon (lookup (codes "ReferenceLongitude") u.properties)))
        (set_lat (lookup (codes "ReferenceLatitude") u.properties))

  unfoldable pub handle_object : Option ObjectUpdate → Client → Outcome
  handle_object none c = failed c
  handle_object (some u) c =
      if nat_eq u.id 0 then quiet (update_global_object u c) else update_object floats u c

  -- The rest of handleUpdate, with whether the line sets lastUpdateTime if it had no error.
  unfoldable pub handle_line : Text → Client → Outcome × Bool
  handle_line text c =
      let line = trim_space language text in
      if is_skipped line
      then (quiet (c, true), false)
      else if is_prefix (codes "#") line
      then (quiet (handle_time_frame (parse_time_frame formats line) c), false)
      else (handle_object (parse_object_update formats line) c, true)

  abbrev pub settle : ℕ → Reader → Outcome × Bool → Session → Session
  settle now rest (r, counts) s = record {
    client = r.client;
    reader = rest;
    fades = s.fades ++ r.fades;
    last_update_time = if r.ok && counts then now else s.last_update_time;
    starts = s.starts;
  }

  abbrev pub handle_read : ℕ → Option (Text × Reader) → Session → Session × Bool
  handle_read now none s = (s, false)
  handle_read now (some (line, rest)) s =
      let r = handle_line line s.client in (settle now rest r s, r.0.ok)

  unfoldable pub handle_update : ℕ → Session → Session × Bool
  handle_update now s = handle_read now (read_line s.reader) s

  -- handleLines, over the turns that its loop takes.
  unfoldable pub handle_turns : List Turn → Session → Session × Ending
  handle_turns [] s = (s, running)
  handle_turns (cancelled ∷ turns) s = (s, stopped)
  handle_turns (ticked now ∷ turns) s =
      let more = handle_turns turns s in
      if ltb grace_period (now - s.last_update_time) then (s, stale) else more
  handle_turns (polled now ∷ turns) s =
      let (s', ok) = handle_update now s in
      let more = handle_turns turns s' in if ok then more else (s', broken)

  abbrev pub started : Reader → Session → Session
  started reader s = record s { client = reset; reader = reader; starts = s.starts + 1 }

  -- What was known before the connection is forgotten, and a mission start is sent.
  unfoldable pub handle_lines : List Turn → Reader → Session → Session × Ending
  handle_lines turns reader s = handle_turns turns (started reader s)

  -- An object with no pilot is called by its ID.
  abbrev pub callsign : ℕ → Option Text → Text
  callsign id none = codes "Unit " ++ print_id id
  callsign id (some pilot) = pilot

  abbrev pub report : Client → Object → Text → Coordinates → Text → Updated
  report c o name coordinates coalition = record {
    labels = record {
      id = o.id;
      name = callsign o.id (get_property (codes "Pilot") o);
      coalition = property_to_coalition coalition;
      acmi_name = name;
    };
    frame = record {
      time = c.cursor_time;
      point = coordinates.location;
      altitude = or_zero coordinates.altitude;
      heading = angle (or_zero coordinates.heading);
    };
  }

  -- The body of the loop of sendUpdates; `none` is `continue`.
  unfoldable pub update_of : Client → Object → Option Updated
  update_of c o = do
    tags ← get_types o
    aircraft ← if is_aircraft tags then some tags else none
    name ← get_property (codes "Name") o
    coordinates ← get_coordinates floats c.reference_point o
    coalition ← get_property (codes "Coalition") o
    some (report c o name coordinates coalition)

  unfoldable pub send_each : Client → List (ℕ × Object) → List Updated
  send_each c [] = []
  send_each c ((id, o) ∷ rest) = send (update_of c o) (send_each c rest)

  unfoldable pub send_updates : Client → List Updated
  send_updates c = send_each c c.state
