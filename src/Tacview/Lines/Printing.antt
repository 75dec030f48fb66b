-- ===== src/Tacview/Lines/Printing.antt =====
-- pkg/tacview/types/metadata.go: the text of an update, as the format writes it, read back.
use skyeye.Common.{
  ℕ, ◌+◌, ◌*◌, ◌≡◌, refl, sym, ap, ◌∙◌, inl, inr, Bool, true, false, List, [], ◌∷◌, ◌++◌, none,
  some, arith, nat_eq, nat_eq_iff, nat_Eq, list_Eq, ◌==◌, Bool-cases, lookup, insert, contains,
  contains-append, bind-eq-some, map, drop,
}
use mathlib.Core.List.{append-nil, append_assoc}
use skyeye.Common.Text.{Text, codes}
use skyeye.Parser.Normalize.{replace_all, replace_from, is_prefix, trim_space}
use skyeye.Tacview.Coordinates.{split}
use skyeye.Tacview.Objects.{Properties}
use skyeye.Tacview.Lines.{
  Formats, cut, hex_digit, parse_digits, parse_uint, parse_id, escaped_comma, parse_each,
  parse_properties, text_or_empty, parse_unsigned_update, parse_object_update,
}

-- A property as it is written, and a line's properties, each behind its comma.
abbrev pub print_field : Text × Text → Text
print_field (key, value) = key ++ b'=' ∷ value

abbrev pub print_fields : Properties → Text
print_fields [] = []
print_fields (p ∷ ps) = b',' ∷ (print_field p ++ print_fields ps)

abbrev pub print_update : Text → Bool → Properties → Text
print_update id true ps = b'-' ∷ (id ++ print_fields ps)
print_update id false ps = id ++ print_fields ps

-- The text has no comma and no backslash.
abbrev pub IsUnescaped : Text → Type 0
IsUnescaped t = (contains t b',' ≡ false) × (contains t b'\\' ≡ false)

cut-append : (sep : ℕ) (s t : Text) → contains s sep ≡ false → cut sep (s ++ sep ∷ t) ≡ (s, some t)
unfolding cut contains
cut-append sep [] t absent = rw ((nat_eq_iff sep sep).1 refl) refl
cut-append sep (c ∷ s) t absent = elim (Bool-cases (nat_eq c sep)) [
  | inl here ↦ absurd (ground (arith, here, absent))
  | inr other ↦ rw (other, cut-append sep s t (rw other at absent)) refl
]

cut-absent : (sep : ℕ) (s : Text) → contains s sep ≡ false → cut sep s ≡ (s, none)
unfolding cut contains
cut-absent sep [] absent = refl
cut-absent sep (c ∷ s) absent = elim (Bool-cases (nat_eq c sep)) [
  | inl here ↦ absurd (ground (arith, here, absent))
  | inr other ↦ rw (other, cut-absent sep s (rw other at absent)) refl
]

split-append :
    (sep : ℕ) (s rest w : Text) (ws : List Text)
    → contains s sep ≡ false
    → split sep rest ≡ w ∷ ws
    → split sep (s ++ rest) ≡ (s ++ w) ∷ ws
unfolding split contains
split-append sep [] rest w ws absent h = h
split-append sep (c ∷ s) rest w ws absent h = elim (Bool-cases (nat_eq c sep)) [
  | inl here ↦ absurd (ground (arith, here, absent))
  | inr other ↦ rw (other, split-append sep s rest w ws (rw other at absent) h) refl
]

replace_from-absent :
    (s : Text) → contains s b'\\' ≡ false → replace_from escaped_comma (codes "?") 0 s ≡ s
unfolding replace_from contains is_prefix
replace_from-absent [] absent = refl
replace_from-absent (c ∷ s) absent = elim (Bool-cases (nat_eq c b'\\')) [
  | inl here ↦ absurd (ground (arith, here, absent))
  | inr other ↦
      ground (arith, other, replace_from-absent s (rw other at absent), nat_eq_iff c b'\\')
]

-- A number has no comma in it, and begins with no dash.
parse_digits_comma : (s : Text) (n id : ℕ) → parse_digits n s ≡ some id → contains s b',' ≡ false
unfolding parse_digits contains hex_digit
parse_digits_comma [] n id h = refl
parse_digits_comma (c ∷ s) n id h =
    let (d, digit, h') = bind-eq-some (hex_digit c) _ h in
    ground (arith, digit, h', nat_eq_iff c b',', parse_digits_comma s (n * 16 + d) id)

insert-fresh :
    (k v : Text) (ps : Properties) → lookup k ps ≡ none → insert k v ps ≡ ps ++ (k, v) ∷ []
unfolding insert lookup
insert-fresh k v [] absent = refl
insert-fresh k v ((j, w) ∷ ps) absent = elim (Bool-cases (j == k)) [
  | inl here ↦ absurd (ground (arith, here, absent))
  | inr other ↦ rw (other, insert-fresh k v ps (rw other at absent)) refl
]

-- The properties that are read back: their texts have no comma and no backslash, no key has an equals
-- sign or stands before, and the values are as TrimSpace leaves them.
abbrev pub IsWritable : Formats → Properties → Properties → Type 0
IsWritable formats before [] = Unit
IsWritable formats before ((key, value) ∷ ps) =
    (contains key b'=' ≡ false)
    × IsUnescaped key
    × IsUnescaped value
    × (trim_space formats.language value ≡ value)
    × (lookup key before ≡ none)
    × IsWritable formats (before ++ (key, value) ∷ []) ps

contains-print_field :
    (key value : Text) (c : ℕ)
    → contains key c ≡ false
    → contains value c ≡ false
    → nat_eq b'=' c ≡ false
    → contains (print_field (key, value)) c ≡ false
unfolding contains
contains-print_field key value c hk hv other =
    rw (contains-append key (b'=' ∷ value) c, hk, other) hv

module _ (formats : Formats) where
  open formats use {language}

  split-print_fields :
      (before ps : Properties)
      → IsWritable formats before ps
      → split b',' (print_fields ps) ≡ [] ∷ map print_field ps
  unfolding split
  split-print_fields before [] h = refl
  split-print_fields before ((key, value) ∷ ps) h =
      ap (λ ws. [] ∷ ws)
        (split-append b',' (print_field (key, value)) (print_fields ps) [] (map print_field ps)
            (contains-print_field key value b',' h.1.0 h.2.0 refl)
            (split-print_fields (before ++ (key, value) ∷ []) ps h.5)
          ∙ ap (λ w. w ∷ map print_field ps) (append-nil (print_field (key, value))))

  parse_each-print_field :
      (before ps : Properties)
      → IsWritable formats before ps
      → parse_each formats (map print_field ps) before ≡ some (before ++ ps)
  unfolding parse_each
  parse_each-print_field before [] h = ap some (sym (append-nil before))
  parse_each-print_field before ((key, value) ∷ ps) h =
      rw (cut-append b'=' key value h.0, h.3, insert-fresh key value before h.4)
        (parse_each-print_field (before ++ (key, value) ∷ []) ps h.5
          ∙ ap some (append_assoc before ((key, value) ∷ []) ps))

  print_fields-backslash :
      (before ps : Properties)
      → IsWritable formats before ps
      → contains (print_fields ps) b'\\' ≡ false
  unfolding contains
  print_fields-backslash before [] h = refl
  print_fields-backslash before ((key, value) ∷ ps) h =
      rw
        (
          contains-append (print_field (key, value)) (print_fields ps) b'\\',
          contains-print_field key value b'\\' h.1.1 h.2.1 refl,
        )
        (print_fields-backslash (before ++ (key, value) ∷ []) ps h.5)

  parse_properties-cons :
      (key value rest : Text)
      → let t = print_field (key, value) ++ rest in
        parse_properties formats t
        ≡ parse_each formats (split b',' (replace_all escaped_comma (codes "?") t)) []
  unfolding parse_properties
  parse_properties-cons [] value rest = refl
  parse_properties-cons (c ∷ key) value rest = refl

  parse_properties-print_fields :
      (ps : Properties)
      → IsWritable formats [] ps
      → parse_properties formats (text_or_empty (cut b',' (print_fields ps)).1) ≡ some ps
  unfolding cut contains split replace_all
  parse_properties-print_fields [] h = unfold parse_properties in refl
  parse_properties-print_fields ((key, value) ∷ ps) h =
      let t = print_field (key, value) ++ print_fields ps in
      parse_properties-cons key value (print_fields ps)
      ∙ rw
          (
            replace_from-absent t (print_fields-backslash [] ((key, value) ∷ ps) h),
            ap (drop 1) (split-print_fields [] ((key, value) ∷ ps) h),
          )
          (parse_each-print_field [] ((key, value) ∷ ps) h)

  parse_unsigned_update-print_fields :
      (id_text : Text) (id : ℕ) (is_removal : Bool) (ps : Properties)
      → parse_id id_text ≡ some id
      → contains id_text b',' ≡ false
      → IsWritable formats [] ps
      → parse_unsigned_update formats is_removal (id_text ++ print_fields ps)
        ≡ some (record { id = id; is_removal = is_removal; properties = ps })
  unfolding parse_unsigned_update cut
  parse_unsigned_update-print_fields id_text id is_removal ps hid comma h =
      rw (cut_id ps, hid, parse_properties-print_fields ps h) refl
    where
      cut_id :
          (qs : Properties)
          → cut b',' (id_text ++ print_fields qs) ≡ (id_text, (cut b',' (print_fields qs)).1)
      cut_id [] = rw (append-nil id_text) (cut-absent b',' id_text comma)
      cut_id (q ∷ qs) = cut-append b',' id_text (print_field q ++ print_fields qs) comma

-- The text of an update is read back as it was written: its ID, whether it is a removal, and its
-- properties in their order, if the ID is one that the parser takes and the properties need no
-- escapes: no text has a comma or a backslash, no key has an equals sign or stands twice, and the
-- values are as TrimSpace leaves them.
pub parse_object_update-print_update :
    (formats : Formats) (id_text : Text) (id : ℕ) (is_removal : Bool) (ps : Properties)
    → parse_id id_text ≡ some id
    → IsWritable formats [] ps
    → parse_object_update formats (print_update id_text is_removal ps)
      ≡ some (record { id = id; is_removal = is_removal; properties = ps })
unfolding parse_object_update parse_id parse_uint parse_digits hex_digit
parse_object_update-print_update formats [] id is_removal ps hid h = absurd (ground (arith, hid))
parse_object_update-print_update formats (c ∷ cs) id is_removal ps hid h =
    let (n, digits, _) = bind-eq-some (parse_uint (c ∷ cs)) _ hid in
    let comma = parse_digits_comma (c ∷ cs) 0 n digits in
    let read = parse_unsigned_update-print_fields formats (c ∷ cs) id is_removal ps hid comma h in
    go is_removal n digits read
  where
    go :
        (b : Bool) (n : ℕ)
        → parse_digits 0 (c ∷ cs) ≡ some n
        → parse_unsigned_update formats b ((c ∷ cs) ++ print_fields ps)
          ≡ some (record { id = id; is_removal = b; properties = ps })
        → parse_object_update formats (print_update (c ∷ cs) b ps)
          ≡ some (record { id = id; is_removal = b; properties = ps })
    go true n digits read = read
    go false n digits read =
        let (d, digit, _) = bind-eq-some (hex_digit c) _ digits in
        let other : nat_eq c b'-' ≡ false = ground (arith, digit, nat_eq_iff c b'-') in
        rw other read
