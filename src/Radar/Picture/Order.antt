-- ===== src/Radar/Picture/Order.antt =====
-- pkg/radar/picture.go: compareThreat is antisymmetric, and has cycles.
use skyeye.Common.{
  ℕ, ◌+◌, ◌*◌, ◌<◌, ◌≤◌, ◌≡◌, refl, sym, ap, ◌∙◌, Bool, true, false, ◌&&◌, ltb, if◌then◌else◌,
  arith, Bool-cases, inl, inr,
}
use native.Mathlib.Nat.{mul_comm}
use skyeye.Radar.Nearby.{Comparison, before, same, after}
use skyeye.Radar.Picture.{
  Standing, weight, has_weight, gap, is_threat, is_weight_apart, compare_weight, compare_place,
  compare_distances, compare_standing,
}

unfoldable pub flip : Comparison → Comparison
flip before = after
flip same = same
flip after = before

gap_comm : (x y : ℕ) → gap x y ≡ gap y x
gap_comm x y = omega arith

and_comm : (p q r : Bool) → (p && q && r) ≡ (q && p && r)
and_comm true true r = refl
and_comm true false r = refl
and_comm false true r = refl
and_comm false false r = refl

and_last : (p q : Bool) {r : Bool} → (p && q && r) ≡ true → r ≡ true
and_last p q h = ground arith

not_apart : (p q : Bool) (k : ℕ) {x y : ℕ} → x ≡ y → (p && q && ltb k (gap x y)) ≡ false
not_apart p q k h = ground arith

flip-nearer :
    (k x y : ℕ)
    → ltb k (gap x y) ≡ true
    → (if ltb y x then before else after) ≡ flip (if ltb x y then before else after)
unfolding flip
flip-nearer k x y h = ground arith

module _ (mile : ℕ) where
  compare_place-flip : (a b : Standing) → compare_place mile b a ≡ flip (compare_place mile a b)
  unfolding compare_place flip
  compare_place-flip a b = ground arith

  is_weight_apart_comm : (a b : Standing) → is_weight_apart mile b a ≡ is_weight_apart mile a b
  unfolding is_weight_apart
  is_weight_apart_comm a b = rw (mul_comm b.radius a.radius) (
      rw (gap_comm (weight b * a.radius) (weight a * b.radius)) (
        and_comm (has_weight b) (has_weight a) (
          ltb (3 * mile * (a.radius * b.radius))
            (gap (weight a * b.radius) (weight b * a.radius)))))

  compare_weight-flip :
      (a b : Standing)
      → is_weight_apart mile a b ≡ true
      → compare_weight mile b a ≡ flip (compare_weight mile a b)
  unfolding is_weight_apart compare_weight
  compare_weight-flip a b h =
      flip-nearer (3 * mile * (a.radius * b.radius)) (weight a * b.radius) (weight b * a.radius)
        (and_last (has_weight a) (has_weight b) h)

  compare_distances-flip :
      (a b : Standing) → compare_distances mile b a ≡ flip (compare_distances mile a b)
  unfolding compare_distances
  compare_distances-flip a b = elim (Bool-cases (is_weight_apart mile a b)) [
    | inl apart ↦ rw (is_weight_apart_comm a b) (rw apart (compare_weight-flip a b apart))
    | inr close ↦ rw (is_weight_apart_comm a b) (rw close (compare_place-flip a b))
  ]

  -- compareThreat answers the other way round when its groups are swapped.
  pub compare_standing-flip :
      (a b : Standing) → compare_standing mile b a ≡ flip (compare_standing mile a b)
  unfolding compare_standing flip
  compare_standing-flip a b = ground (arith, compare_distances-flip a b)

  -- Two groups of one kind, neither of which is within its threat radius, the same for both.
  pub record IsPair (a b : Standing) : Type 0 where
    pub kind : a.is_helo ≡ b.is_helo
    pub radius : a.radius ≡ b.radius
    pub outside : a.radius < a.distance
    pub other_outside : b.radius < b.distance

  weight_outside : (s : Standing) → s.radius < s.distance → weight s ≡ s.radius * s.radius
  weight_outside s h = ground arith

  is_weight_apart-IsPair : (a b : Standing) → IsPair a b → is_weight_apart mile a b ≡ false
  unfolding is_weight_apart
  is_weight_apart-IsPair a b v =
      let same_weight : weight a * b.radius ≡ weight b * a.radius =
        ap (λ w. w * b.radius) (weight_outside a v.outside)
        ∙ (ap (λ r. r * r * b.radius) v.radius
            ∙ (ap (λ r. b.radius * b.radius * r) (sym v.radius)
                ∙ ap (λ w. w * a.radius) (sym (weight_outside b v.other_outside)))) in
      not_apart (has_weight a) (has_weight b) (3 * mile * (a.radius * b.radius)) same_weight

  not_threat : (s : Standing) → s.radius < s.distance → is_threat s ≡ false
  not_threat s h = ground arith

  compare_standing-compare_place :
      (a b : Standing) → IsPair a b → compare_standing mile a b ≡ compare_place mile a b
  unfolding compare_standing compare_distances
  compare_standing-compare_place a b v =
      ground
        (arith, is_weight_apart-IsPair a b v, not_threat a v.outside, not_threat b v.other_outside)

  IsPair-trans : (a b c : Standing) → IsPair a b → IsPair b c → IsPair a c
  IsPair-trans a b c v w = record {
    kind = v.kind ∙ w.kind;
    radius = v.radius ∙ w.radius;
    outside = v.outside;
    other_outside = w.other_outside;
  }

  IsPair-sym : (a b : Standing) → IsPair a b → IsPair b a
  IsPair-sym a b v = record {
    kind = sym v.kind;
    radius = sym v.radius;
    outside = v.other_outside;
    other_outside = v.outside;
  }

  higher_first :
      (a b : Standing)
      → gap b.distance a.distance ≤ 3 * mile
      → a.altitude < b.altitude
      → compare_place mile b a ≡ before
  unfolding compare_place
  higher_first a b close higher = ground arith

  nearer_first :
      (a b : Standing) → a.distance + 3 * mile < b.distance → compare_place mile a b ≡ before
  unfolding compare_place
  nearer_first a b far = ground arith

  -- compareThreat is no order: of three groups of one kind and threat radius, all outside of it, where
  -- the second and the third are each within three miles of the distance before and higher, but the
  -- third is more than three miles farther than the first, each comes before another in a cycle.
  pub compare_standing_cycle :
      (a b c : Standing)
      → IsPair a b
      → IsPair b c
      → a.distance ≤ b.distance
      → b.distance ≤ a.distance + 3 * mile
      → b.distance ≤ c.distance
      → c.distance ≤ b.distance + 3 * mile
      → a.distance + 3 * mile < c.distance
      → a.altitude < b.altitude
      → b.altitude < c.altitude
      → (compare_standing mile b a ≡ before)
        × (compare_standing mile c b ≡ before)
        × (compare_standing mile a c ≡ before)
  compare_standing_cycle a b c ab bc h1 h2 h3 h4 h5 h6 h7 = (
    compare_standing-compare_place b a (IsPair-sym a b ab) ∙ higher_first a b (omega arith) h6,
    compare_standing-compare_place c b (IsPair-sym b c bc) ∙ higher_first b c (omega arith) h7,
    compare_standing-compare_place a c (IsPair-trans a b c ab bc) ∙ nearer_first a c h5,
  )
