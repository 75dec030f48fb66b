-- ===== src/Tacview/Coordinates/Parsing.antt =====
-- What a transform does to the coordinates it is parsed into.
use skyeye.Common.{
  ℕ, ◌≡◌, ◌≢◌, refl, sym, ap, ◌∙◌, inl, inr, List, [], ◌∷◌, some, arith, list_Eq, list_eq,
  list_eq_iff, Bool-cases, insert, All, bind-eq-some,
}
use skyeye.Common.Text.{Text}
use skyeye.Trackfiles.{Point}
use skyeye.Tacview.Coordinates.{
  Floats, Coordinates, Field, altitude_field, x_field, y_field, roll_field, pitch_field, yaw_field,
  heading_field, set_field, setters, setters_of, split, locate, apply_setters, parse_fields, parse,
}

-- No text of the map sets the altitude.
abbrev IsLevel : List (Text × Field) → Type 0
IsLevel = All (λ (m : Text × Field). m.1 ≢ altitude_field)

-- The map begins with the altitude's text, and sets the altitude by no other.
abbrev BeginsWith : Text → List (Text × Field) → Type 0
BeginsWith alt [] = ⊥
BeginsWith alt ((s, field) ∷ m) = (s ≡ alt) × IsLevel m

insert-IsLevel :
    (s : Text) (field : Field) (m : List (Text × Field))
    → field ≢ altitude_field
    → IsLevel m
    → IsLevel (insert s field m)
unfolding insert
insert-IsLevel s field [] ne h = (ne, tt)
insert-IsLevel s field ((t, f) ∷ m) ne h = elim (Bool-cases (list_eq t s)) [
  | inl same ↦ rw same (ne, h.1)
  | inr other ↦ rw other (h.0, insert-IsLevel s field m ne h.1)
]

insert-BeginsWith :
    (alt s : Text) (field : Field) (m : List (Text × Field))
    → field ≢ altitude_field
    → BeginsWith alt m
    → BeginsWith alt (insert s field m)
unfolding insert
insert-BeginsWith alt s field [] ne h = absurd h
insert-BeginsWith alt s field ((t, f) ∷ m) ne h = elim (Bool-cases (list_eq t s)) [
  | inl same ↦ rw same (sym ((list_eq_iff t s).0 same) ∙ h.0, h.1)
  | inr other ↦ rw other (h.0, insert-IsLevel s field m ne h.1)
]

replace-IsLevel :
    (alt : Text) (field : Field) (m : List (Text × Field))
    → field ≢ altitude_field
    → BeginsWith alt m
    → IsLevel (insert alt field m)
unfolding insert
replace-IsLevel alt field [] ne h = absurd h
replace-IsLevel alt field ((t, f) ∷ m) ne h = rw ((list_eq_iff t alt).1 h.0) (ne, h.1)

alone-BeginsWith : (alt : Text) → BeginsWith alt (insert alt altitude_field [])
unfolding insert
alone-BeginsWith alt = (refl, tt)

setters-IsLevel : (alt x y roll pitch yaw : Text) → IsLevel (setters alt x y roll pitch yaw alt)
unfolding setters
setters-IsLevel alt x y roll pitch yaw =
    replace-IsLevel alt heading_field _ (λ e. cc)
      (insert-BeginsWith alt yaw yaw_field _ (λ e. cc)
        (insert-BeginsWith alt pitch pitch_field _ (λ e. cc)
          (insert-BeginsWith alt roll roll_field _ (λ e. cc)
            (insert-BeginsWith alt y y_field _ (λ e. cc)
              (insert-BeginsWith alt x x_field _ (λ e. cc) (alone-BeginsWith alt))))))

module _ (floats : Floats) where
  set_level :
      (field : Field) (v : ℕ) (c : Coordinates)
      → field ≢ altitude_field
      → (set_field field v c).altitude ≡ c.altitude
  set_level altitude_field v c ne = absurd (ne refl)
  set_level x_field v c ne = refl
  set_level y_field v c ne = refl
  set_level roll_field v c ne = refl
  set_level pitch_field v c ne = refl
  set_level yaw_field v c ne = refl
  set_level heading_field v c ne = refl

  set_located :
      (field : Field) (v : ℕ) (c : Coordinates)
      → ((set_field field v c).location ≡ c.location)
        × ((set_field field v c).valid_lon ≡ c.valid_lon)
  set_located altitude_field v c = (refl, refl)
  set_located x_field v c = (refl, refl)
  set_located y_field v c = (refl, refl)
  set_located roll_field v c = (refl, refl)
  set_located pitch_field v c = (refl, refl)
  set_located yaw_field v c = (refl, refl)
  set_located heading_field v c = (refl, refl)

  apply_setters_level :
      (m : List (Text × Field)) (c : Coordinates) {c' : Coordinates}
      → IsLevel m
      → apply_setters floats m c ≡ some c'
      → c'.altitude ≡ c.altitude
  unfolding apply_setters
  apply_setters_level [] c h e = ground arith
  apply_setters_level ((s, field) ∷ m) c h e = elim (Bool-cases (list_eq s [])) [
    | inl empty ↦ apply_setters_level m c h.1 (rw (apply_setters, empty) at e)
    | inr given ↦
        let (v, p, q) = bind-eq-some (floats.parse_float s) _ (rw (apply_setters, given) at e) in
        apply_setters_level m (set_field field v c) h.1 q ∙ set_level field v c h.0
  ]

  apply_setters_located :
      (m : List (Text × Field)) (c : Coordinates) {c' : Coordinates}
      → apply_setters floats m c ≡ some c'
      → (c'.location ≡ c.location) × (c'.valid_lon ≡ c.valid_lon)
  unfolding apply_setters
  apply_setters_located [] c e = (ground arith, ground arith)
  apply_setters_located ((s, field) ∷ m) c e = elim (Bool-cases (list_eq s [])) [
    | inl empty ↦ apply_setters_located m c (rw (apply_setters, empty) at e)
    | inr given ↦
        let (v, p, q) = bind-eq-some (floats.parse_float s) _ (rw (apply_setters, given) at e) in
        let (l, o) = apply_setters_located m (set_field field v c) q in
        (l ∙ (set_located field v c).0, o ∙ (set_located field v c).1)
  ]

  -- A transform of nine fields whose heading is written like its altitude does not set the altitude:
  -- the map from texts to setters has one entry for the two.
  pub parse_drops_altitude :
      (t lon lat alt roll pitch yaw x y : Text) (ref : Point) (c : Coordinates) {c' : Coordinates}
      → split b'|' t ≡ lon ∷ lat ∷ alt ∷ roll ∷ pitch ∷ yaw ∷ x ∷ y ∷ alt ∷ []
      → parse floats t ref c ≡ some c'
      → c'.altitude ≡ c.altitude
  unfolding parse parse_fields setters_of locate
  parse_drops_altitude t lon lat alt roll pitch yaw x y ref c fields e =
      apply_setters_level (setters alt x y roll pitch yaw alt) (locate floats lon lat ref c)
        (setters-IsLevel alt x y roll pitch yaw) (rw (parse, fields) at e)

  -- A transform that leaves the longitude out, to say that it has not changed, sets it to 0 all the
  -- same, while the coordinates go on to say that they have a longitude if they did.
  pub parse_resets_longitude :
      (t lat alt : Text) (more : List Text) (ref : Point) (c : Coordinates) {c' : Coordinates}
      → split b'|' t ≡ [] ∷ lat ∷ alt ∷ more
      → parse floats t ref c ≡ some c'
      → (c'.location.lon ≡ 0) × (c'.valid_lon ≡ c.valid_lon)
  unfolding parse parse_fields locate
  parse_resets_longitude t lat alt more ref c fields e =
      let (m, p, q) =
        bind-eq-some (setters_of ([] ∷ lat ∷ alt ∷ more)) _ (rw (parse, fields) at e) in
      let (l, o) = apply_setters_located m (locate floats [] lat ref c) q in
      (ap (λ (p : Point). p.lon) l, o)
