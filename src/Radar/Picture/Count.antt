-- ===== src/Radar/Picture/Count.antt =====
-- pkg/radar/picture.go: what GetPicture counts and names.
use skyeye.Common.{
  ℕ, zero, suc, ◌≡◌, List, [], ◌∷◌, ltb, if◌then◌else◌, arith, length, take, All, All-intro,
}
use skyeye.Coalitions.{Coalition}
use skyeye.Brevity.{Category}
use skyeye.Trackfiles.{Point, Trackfile}
use skyeye.Radar.Grouping.{Sensors, Group}
use skyeye.Radar.Nearby.{Globe, Sort, find_nearby_groups}
use skyeye.Radar.Nearby.Cover.{IsAround, find_nearby_groups-IsAround}
use skyeye.Radar.Picture.{picture_origin, picture_area, compare_threat, get_picture}

length-take :
    (n : ℕ) (gs : List Group) → length (take n gs) ≡ (if ltb (length gs) n then length gs else n)
length-take zero gs = ground arith
length-take (suc n) [] = ground arith
length-take (suc n) (g ∷ gs) = ground (arith, length-take n gs)

take-All : (P : Group → Type 0) (n : ℕ) (gs : List Group) → All P gs → All P (take n gs)
take-All P zero gs v = tt
take-All P (suc n) [] v = tt
take-All P (suc n) (g ∷ gs) v = (v.0, take-All P n gs v.1)

module _ (sensors : Sensors) (globe : Globe) (altitude : Group → ℕ) (sort : Sort)
    (center bullseye : Point) (radius : ℕ) (coalition : Coalition) (filter : Category)
    (values : List Trackfile) where
  abbrev picture : ℕ × List Group
  picture = get_picture sensors globe altitude sort center bullseye radius coalition filter values

  -- GetPicture counts all groups around the centre, or around the bullseye while there is no centre,
  -- and names three of them, or all if there are fewer; each is the group of a contact that matches
  -- and is in the bound.
  pub get_picture_count :
      let area = picture_area (picture_origin center bullseye) radius coalition filter in
      (picture.0 ≡ length (find_nearby_groups sensors globe sort area values))
      × (length picture.1 ≡ (if ltb picture.0 3 then picture.0 else 3))
      × All (IsAround sensors globe area values values) picture.1
  unfolding get_picture
  get_picture_count =
      let area = picture_area (picture_origin center bullseye) radius coalition filter in
      let groups = find_nearby_groups sensors globe sort area values in
      let compare = compare_threat sensors globe altitude center in
      (
        sort.length-sort_func compare groups,
        length-take 3 (sort.sort_func compare groups),
        take-All (IsAround sensors globe area values values) 3 (sort.sort_func compare groups) (
            All-intro (IsAround sensors globe area values values) (sort.sort_func compare groups)
              (λ g listed.
                find_nearby_groups-IsAround sensors globe area sort values g
                  ((sort.sort_func-IsOneOf compare groups g).0 listed))),
      )
