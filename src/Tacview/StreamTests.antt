-- ===== src/Tacview/StreamTests.antt =====
-- Runs of the stream's lines on small inputs, and the theorems at such inputs.
use skyeye.Common.{
  ℕ, negsuc, ◌≡◌, ◌↔◌, refl, true, [], ◌∷◌, ◌++◌, some, list_Eq, list_eq, lookup, insert, replicate,
  contains, IsOneOf,
}
use skyeye.Common.Text.{codes}
use skyeye.Coalitions.{red}
use skyeye.Parser.Normalize.{
  trim_space, trim_left, trim_right, replace_all, replace_from, is_prefix,
}
use skyeye.Radar.Scope.{Updated}
use skyeye.Tacview.Samples.{formats, line, reader, turns, idle}
use skyeye.Tacview.Coordinates.{
  parse, parse_fields, setters_of, setters, apply_setters, locate, split,
}
use skyeye.Tacview.Objects.{
  Object, Properties, set_properties, set_property, get_property, get_types, get_coordinates,
  update_properties,
}
use skyeye.Tacview.Client.{
  Client, reset, is_bullseye, is_aircraft, property_to_coalition, handle_time_frame, update_object,
}
use skyeye.Tacview.Lines.{
  cut, hex_digit, parse_digits, parse_uint, parse_id, parse_time_frame, parse_each,
  parse_properties, parse_unsigned_update, parse_object_update,
}
use skyeye.Tacview.Lines.Printing.{print_update, parse_object_update-print_update}
use skyeye.Tacview.Stream.{
  polled, ticked, stale, broken, has_suffix, read_line, is_skipped, update_global_object,
  handle_object, handle_line, handle_update, handle_turns, handle_lines, update_of, send_each,
  send_updates,
}
use skyeye.Tacview.Stream.Reading.{read_line-broken_lines}
use skyeye.Tacview.Stream.Sending.{IsReport, send_updates-IsReport}
use skyeye.Tacview.Stream.Once.{ids, IsOnceEach, send_updates-handle_lines}

abbrev aircraft : Object
aircraft = record {
  id = 26;
  properties =
      (codes "Type", codes "Air+FixedWing")
      ∷ (codes "Name", codes "F-16C")
      ∷ (codes "Coalition", codes "Allies")
      ∷ (codes "T", codes "1|11|111")
      ∷ [];
}

abbrev flying : Client
flying = record reset { reference_time = 4; cursor_time = 1000004; state = (26, aircraft) ∷ [] }

abbrev seen : Updated
seen = record {
  labels = record {
    id = 26;
    name = codes "Unit " ++ replicate 26 b'1';
    coalition = red;
    acmi_name = codes "F-16C";
  };
  frame = record { time = 1000004; point = record { lon = 1; lat = 2 }; altitude = 3; heading = 0 };
}

flown : (handle_lines formats turns reader idle).0.client ≡ flying
unfolding handle_lines handle_turns handle_update handle_line handle_object update_global_object
    read_line has_suffix is_skipped is_prefix trim_space trim_left trim_right parse_object_update
    parse_unsigned_update parse_properties parse_each parse_id parse_uint parse_digits hex_digit cut
    parse_time_frame handle_time_frame update_object update_properties set_properties set_property
    get_property get_types get_coordinates is_bullseye lookup insert contains split list_eq
    replace_all replace_from
flown = refl

reported : send_updates formats flying ≡ seen ∷ []
unfolding send_updates send_each update_of get_types get_property get_coordinates is_aircraft
    property_to_coalition parse parse_fields setters_of setters apply_setters locate lookup insert
    contains split list_eq
reported = refl

send_updates-IsReport_example :
    IsOneOf seen (send_updates formats flying)
    ↔ ((id : ℕ) × (o : Object) × IsOneOf (id, o) flying.state × IsReport formats flying o seen)
send_updates-IsReport_example = send_updates-IsReport formats flying seen

send_updates-handle_lines_example :
    let c = (handle_lines formats turns reader idle).0.client in
    IsOnceEach (ids (send_updates formats c))
send_updates-handle_lines_example = send_updates-handle_lines formats turns reader idle

abbrev properties : Properties
properties = (codes "Type", codes "Air+FixedWing") ∷ (codes "Name", codes "F-16C") ∷ []

printed : print_update (codes "1a") true properties ≡ codes "-1a,Type=Air+FixedWing,Name=F-16C"
printed = refl

parse_object_update-print_update_example :
    parse_object_update formats (print_update (codes "1a") true properties)
    ≡ some (record { id = 26; is_removal = true; properties = properties })
unfolding parse_id parse_uint parse_digits hex_digit contains trim_space trim_left trim_right lookup
    list_eq
parse_object_update-print_update_example =
    parse_object_update-print_update formats (codes "1a") 26 true properties refl (
      refl,
      (refl, refl),
      (refl, refl),
      refl,
      refl,
      (refl, (refl, refl), (refl, refl), refl, refl, tt),
    )

-- Three lines make one, with the second line break in it.
read_line-broken_lines_example :
    read_line ((codes "1,Name=a" ++ codes "\\\n") ∷ (codes "b" ++ codes "\\\n") ∷ codes "c\n" ∷ [])
    ≡ some (codes "1,Name=ab\\\nc\n", [])
unfolding has_suffix list_eq
read_line-broken_lines_example =
    read_line-broken_lines (codes "1,Name=a") (codes "b" ∷ []) (codes "c\n") [] refl

-- Ten minutes after the last update the connection is given up.
given_up : (handle_turns formats (ticked 600000000001 ∷ []) idle).1 ≡ stale
unfolding handle_turns
given_up = refl

-- Each connection sends a mission start.
started_twice : (handle_lines formats [] [] (handle_lines formats [] [] idle).0).0.starts ≡ 2
unfolding handle_lines handle_turns
started_twice = refl

-- An offset may be negative.
set_back :
    (handle_time_frame (some (negsuc 2)) (record reset { reference_time = 10 })).0.cursor_time ≡ 7
unfolding handle_time_frame
set_back = refl

-- A time frame before the reference time is an error.
too_early :
    (handle_turns formats (polled 1 ∷ []) (record idle { reader = line (codes "#1") ∷ [] })).1
    ≡ broken
unfolding handle_turns handle_update handle_line read_line has_suffix is_skipped is_prefix
    trim_space trim_left trim_right parse_time_frame handle_time_frame list_eq
too_early = refl
