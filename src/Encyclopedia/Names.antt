-- ===== src/Encyclopedia/Names.antt =====
-- pkg/encyclopedia/aircraft.go: GetAircraftData against the tables that init reads.
use skyeye.Common.{
  ◌≡◌, refl, sym, ◌∙◌, ◌↔◌, inl, inr, Bool, true, false, not, ◌&&◌, List, [], ◌∷◌, ◌++◌, Option,
  none, some, if◌then◌else◌, ◌==◌, list_Eq, list_eq, list_eq_iff, contains, arith, lookup,
  lookup-insert, insert, Bool-cases, Option-cases, IsOneOf,
}
use mathlib.Core.Path.{subst}
use skyeye.Common.Text.{Text}
use skyeye.Encyclopedia.{
  Lut, put_all, put_tables, aircraft_data, variant_tables, aircraft_data_lut, get_aircraft_data,
}
use skyeye.Encyclopedia.Airframes.{Aircraft}

unfoldable pub join : List (List Aircraft) → List Aircraft
join [] = []
join (xs ∷ xss) = xs ++ join xss

-- Every aircraft of the tables, in the order in which init reads them.
unfoldable pub all_aircraft : List Aircraft
unfolding variant_tables join
all_aircraft = join (aircraft_data ∷ variant_tables)

abbrev or_else {ℓ} : {A : Type ℓ} → Option A → Option A → Option A
or_else none second = second
or_else (some a) second = some a

or_else_assoc {ℓ} :
    {A : Type ℓ} (x y z : Option A) → or_else x (or_else y z) ≡ or_else (or_else x y) z
or_else_assoc none y z = refl
or_else_assoc (some a) y z = refl

-- The last of the name.
last_named : Text → List Aircraft → Option Aircraft
last_named name [] = none
last_named name (a ∷ others) =
    or_else (last_named name others) (if a.acmi_short_name == name then some a else none)

last_named-append :
    (name : Text) (xs ys : List Aircraft)
    → last_named name (xs ++ ys) ≡ or_else (last_named name ys) (last_named name xs)
unfolding last_named
last_named-append name [] ys = elim (Option-cases (last_named name ys)) [
  | inl e ↦ rw e
  | inr (a, e) ↦ rw e
]
last_named-append name (x ∷ xs) ys = rw (last_named-append name xs ys) (
    sym (
      or_else_assoc (last_named name ys) (last_named name xs)
        (if x.acmi_short_name == name then some x else none)))

lookup-put_all :
    (name : Text) (xs : List Aircraft) (lut : Lut)
    → lookup name (put_all xs lut) ≡ or_else (last_named name xs) (lookup name lut)
unfolding put_all last_named
lookup-put_all name [] lut = refl
lookup-put_all name (x ∷ xs) lut = ground (
  arith,
  lookup-put_all name xs (insert x.acmi_short_name x lut),
  lookup-insert x.acmi_short_name name x lut,
)

lookup-put_tables :
    (name : Text) (tables : List (List Aircraft)) (lut : Lut)
    → lookup name (put_tables tables lut)
      ≡ or_else (last_named name (join tables)) (lookup name lut)
unfolding put_tables join last_named
lookup-put_tables name [] lut = refl
lookup-put_tables name (xs ∷ tables) lut = rw (lookup-put_tables name tables (put_all xs lut)) (
    rw (lookup-put_all name xs lut) (
      rw (last_named-append name xs (join tables))
        (or_else_assoc (last_named name (join tables)) (last_named name xs) (lookup name lut))))

last_named_sound :
    (name : Text) (xs : List Aircraft) (a : Aircraft)
    → last_named name xs ≡ some a
    → IsOneOf a xs × (a.acmi_short_name ≡ name)
unfolding last_named IsOneOf
last_named_sound name [] a h = absurd (ground arith)
last_named_sound name (x ∷ xs) a h = elim (Option-cases (last_named name xs)) [
  | inl e ↦ elim (Bool-cases (x.acmi_short_name == name)) [
    | inl same ↦
        let found : some a ≡ some x = sym h ∙ rw (e, same) in
        let is_x : a ≡ x = cc in (inl is_x, rw is_x ((list_eq_iff x.acmi_short_name name).0 same))
    | inr other ↦ absurd (ground arith)
  ]
  | inr (b, e) ↦
      let (listed, same) = last_named_sound name xs a (ground arith) in (inr listed, same)
]

abbrev short_names : List Aircraft → List Text
short_names [] = []
short_names (a ∷ others) = a.acmi_short_name ∷ short_names others

has_unique_names : List Aircraft → Bool
unfolding contains list_eq
has_unique_names [] = true
has_unique_names (a ∷ others) =
    not (contains (short_names others) a.acmi_short_name) && has_unique_names others

all_aircraft_unique : has_unique_names all_aircraft ≡ true
unfolding has_unique_names all_aircraft
all_aircraft_unique = refl

last_named_absent :
    (name : Text) (xs : List Aircraft)
    → contains (short_names xs) name ≡ false
    → last_named name xs ≡ none
unfolding last_named contains
last_named_absent name [] h = refl
last_named_absent name (x ∷ xs) h = ground (arith, last_named_absent name xs)

listed_name :
    (a : Aircraft) (xs : List Aircraft)
    → IsOneOf a xs
    → contains (short_names xs) a.acmi_short_name ≡ true
unfolding contains IsOneOf
listed_name a [] listed = elim listed [ ]
listed_name a (x ∷ xs) (inl same) =
    rw same (rw ((list_eq_iff x.acmi_short_name x.acmi_short_name).1 refl) refl)
listed_name a (x ∷ xs) (inr later) = ground (arith, listed_name a xs later)

last_named_head :
    (x : Aircraft) (xs : List Aircraft)
    → contains (short_names xs) x.acmi_short_name ≡ false
    → last_named x.acmi_short_name (x ∷ xs) ≡ some x
unfolding last_named
last_named_head x xs h =
    rw (last_named_absent x.acmi_short_name xs h)
      (rw ((list_eq_iff x.acmi_short_name x.acmi_short_name).1 refl) refl)

last_named_listed :
    (a : Aircraft) (xs : List Aircraft)
    → has_unique_names xs ≡ true
    → IsOneOf a xs
    → last_named a.acmi_short_name xs ≡ some a
unfolding last_named has_unique_names IsOneOf
last_named_listed a [] unique listed = elim listed [ ]
last_named_listed a (x ∷ xs) unique (inl same) =
    subst (λ (b : Aircraft). last_named b.acmi_short_name (x ∷ xs) ≡ some b) (sym same)
      (last_named_head x xs (ground arith))
last_named_listed a (x ∷ xs) unique (inr later) =
    rw (last_named_listed a xs (ground arith) later) refl

or_else-none {ℓ} : {A : Type ℓ} (x : Option A) → or_else x none ≡ x
or_else-none none = refl
or_else-none (some a) = refl

lookup-put_tables_nil :
    (name : Text) (tables : List (List Aircraft))
    → lookup name (put_tables tables []) ≡ last_named name (join tables)
unfolding lookup
lookup-put_tables_nil name tables =
    lookup-put_tables name tables [] ∙ or_else-none (last_named name (join tables))

get_aircraft_data-last_named : (name : Text) → get_aircraft_data name ≡ last_named name all_aircraft
unfolding get_aircraft_data aircraft_data_lut all_aircraft
get_aircraft_data-last_named name = lookup-put_tables_nil name (aircraft_data ∷ variant_tables)

-- GetAircraftData finds, by a name, the aircraft of the tables that has that name, and no other.
pub get_aircraft_data-eq-some :
    (name : Text) (a : Aircraft)
    → (get_aircraft_data name ≡ some a) ↔ (IsOneOf a all_aircraft × (a.acmi_short_name ≡ name))
get_aircraft_data-eq-some name a = rw (get_aircraft_data-last_named name) (
  last_named_sound name all_aircraft a,
  λ (listed, same). rw (← same) (last_named_listed a all_aircraft all_aircraft_unique listed),
)
