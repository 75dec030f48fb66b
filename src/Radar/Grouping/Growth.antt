-- ===== src/Radar/Grouping/Growth.antt =====
-- What a pass over the contacts adds to a group.
use mathlib.Core.List.{append_assoc}
use mathlib.Core.Path.{subst}
use skyeye.Common.{
  ◌≡◌, sym, ap, ◌∙◌, ◌⊎◌, inl, inr, true, false, List, [], ◌∷◌, ◌++◌, arith, nat_Eq, contains, All,
  All-append,
}
use skyeye.Trackfiles.{Trackfile}
use skyeye.Radar.Grouping.{
  Category, Group, Sensors, contacts, object_ids, append_contact, category, is_neighbour,
}
use skyeye.Radar.Grouping.Members.{extend, contains-extend, contains_last, IsIn}

module _ (sensors : Sensors) where
  -- Some contact of the list has `o` for a neighbour.
  abbrev pub IsLinked : Category → List Trackfile → Trackfile → Type 0
  IsLinked filter [] o = ⊥
  IsLinked filter (m ∷ ms) o = (is_neighbour sensors filter m o ≡ true) ⊎ IsLinked filter ms o

  pub IsLinked-append :
      (filter : Category) (xs ys : List Trackfile) (o : Trackfile)
      → IsLinked filter xs o
      → IsLinked filter (xs ++ ys) o
  IsLinked-append filter [] ys o h = absurd h
  IsLinked-append filter (x ∷ xs) ys o (inl e) = inl e
  IsLinked-append filter (x ∷ xs) ys o (inr h) = inr (IsLinked-append filter xs ys o h)

  pub link-IsIn :
      (filter : Category) (m : Trackfile) (xs : List Trackfile) (o : Trackfile)
      → IsIn m xs
      → is_neighbour sensors filter m o ≡ true
      → IsLinked filter xs o
  link-IsIn filter m [] o h e = absurd h
  link-IsIn filter m (x ∷ xs) o (inl q) e = inl (rw q e)
  link-IsIn filter m (x ∷ xs) o (inr h) e = inr (link-IsIn filter m xs o h e)

  -- Every neighbour of `m` among the contacts is in the group.
  abbrev pub IsClosed : List Trackfile → Group → Trackfile → Type 0
  IsClosed values g m =
      All
        (λ o.
          is_neighbour sensors (category sensors g) m o ≡ true
          → contains (object_ids g) o.contact.id ≡ true)
        values

  pub IsClosed-extend :
      (values : List Trackfile) (g : Group) (new : List Trackfile) (m : Trackfile)
      → IsClosed values g m
      → IsClosed values (extend g new) m
  unfolding category
  IsClosed-extend [] g new m h = tt
  IsClosed-extend (o ∷ os) g new m h =
      (λ e. contains-extend g new o.contact.id (h.0 e), IsClosed-extend os g new m h.1)

  pub AllClosed-extend :
      (values : List Trackfile) (g : Group) (new ms : List Trackfile)
      → All (IsClosed values g) ms
      → All (IsClosed values (extend g new)) ms
  AllClosed-extend values g new [] h = tt
  AllClosed-extend values g new (m ∷ ms) h =
      (IsClosed-extend values g new m h.0, AllClosed-extend values g new ms h.1)

  pub AllLinked-extend :
      (g : Group) (new ms : List Trackfile)
      → All (IsLinked (category sensors g) (contacts g)) ms
      → All (IsLinked (category sensors (extend g new)) (contacts (extend g new))) ms
  unfolding category
  AllLinked-extend g new [] h = tt
  AllLinked-extend g new (m ∷ ms) h =
      (IsLinked-append (category sensors g) (contacts g) new m h.0, AllLinked-extend g new ms h.1)

  -- What a pass over `os` for the contact `this` makes of a group.
  pub record Grown (values os : List Trackfile) (this : Trackfile) (g r : Group) : Type 0 where
    pub new : List Trackfile
    pub grows : r ≡ extend g new
    pub closed_this : IsClosed os r this
    pub closed_new : All (IsClosed values r) new
    pub linked_new : All (IsLinked (category sensors r) (contacts r)) new

  pub extend-extend :
      (g : Group) (xs ys : List Trackfile) → extend (extend g xs) ys ≡ extend g (xs ++ ys)
  extend-extend g xs ys = ap (λ r. record g { rest = r }) (append_assoc g.rest xs ys)

  -- Nothing joins for `o`: the pass over the others does it.
  pub Grown-skip :
      (values os : List Trackfile) (this o : Trackfile) (g r : Group)
      → (contains (object_ids g) o.contact.id ≡ true)
        ⊎ (is_neighbour sensors (category sensors g) this o ≡ false)
      → Grown values os this g r
      → Grown values (o ∷ os) this g r
  unfolding category
  Grown-skip values os this o g r c w = record {
    new = w.new;
    grows = w.grows;
    closed_this = (head c, w.closed_this);
    closed_new = w.closed_new;
    linked_new = w.linked_new;
  }
    where
      head :
          (contains (object_ids g) o.contact.id ≡ true)
            ⊎ (is_neighbour sensors (category sensors g) this o ≡ false)
          → is_neighbour sensors (category sensors r) this o ≡ true
          → contains (object_ids r) o.contact.id ≡ true
      head (inl old) e = rw w.grows (contains-extend g w.new o.contact.id old)
      head (inr apart) e = absurd (ground (arith, ap (category sensors) w.grows))

  -- `o` joins for `this`, brings its own neighbours, and the pass goes on.
  pub Grown-join :
      (values os : List Trackfile) (this o : Trackfile) (g r1 r : Group)
      → IsIn this (contacts g)
      → is_neighbour sensors (category sensors g) this o ≡ true
      → Grown values values o (append_contact o g) r1
      → Grown values os this r1 r
      → Grown values (o ∷ os) this g r
  Grown-join values os this o g r1 r here near w1 w2 =
      let n1 = w1.new in
      let n2 = w2.new in
      let g1 = append_contact o g in
      let q : r ≡ extend g1 (n1 ++ n2) =
        w2.grows ∙ ap (λ x. extend x n2) w1.grows ∙ extend-extend g1 n1 n2 in
      let grows : r ≡ extend g (o ∷ (n1 ++ n2)) = q ∙ extend-extend g (o ∷ []) (n1 ++ n2) in
      record {
        new = o ∷ (n1 ++ n2);
        grows = grows;
        closed_this = (
          λ _.
              subst (λ x. contains (object_ids x) o.contact.id ≡ true) (sym q)
                (contains-extend g1 (n1 ++ n2) o.contact.id (contains_last o g)),
          w2.closed_this,
        );
        closed_new = (
          subst (λ x. IsClosed values x o) (sym w2.grows)
              (IsClosed-extend values r1 n2 o w1.closed_this),
          All-append (IsClosed values r) n1 n2
              (subst (λ x. All (IsClosed values x) n1) (sym w2.grows)
                (AllClosed-extend values r1 n2 n1 w1.closed_new))
              w2.closed_new,
        );
        linked_new = (
          (subst (λ x. All (IsLinked (category sensors x) (contacts x)) (o ∷ [])) (sym grows)
              (AllLinked-extend g (o ∷ (n1 ++ n2)) (o ∷ [])
                (link-IsIn (category sensors g) this (contacts g) o here near, tt))).0,
          All-append (IsLinked (category sensors r) (contacts r)) n1 n2
              (subst (λ x. All (IsLinked (category sensors x) (contacts x)) n1) (sym w2.grows)
                (AllLinked-extend r1 n2 n1 w1.linked_new))
              w2.linked_new,
        );
      }
