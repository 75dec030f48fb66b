-- ===== src/Tacview/Stream/Objects.antt =====
-- pkg/tacview/client/client.go: the objects that the stream leaves in the state, whatever its lines.
use skyeye.Common.{
  ℕ, ℤ, ◌≡◌, ◌≢◌, refl, sym, ◌∙◌, inl, inr, Bool, true, false, List, [], ◌∷◌, Option, none, some,
  arith, nat_eq, nat_eq_iff, if◌then◌else◌, nat_Eq, list_Eq, Bool-cases, lookup, insert, delete,
  lookup-insert, lookup-delete, ltb, ◌-◌, ◌&&◌,
}
use mathlib.Core.Path.{subst}
use skyeye.Common.Text.{Text, codes}
use skyeye.Parser.Normalize.{is_prefix, trim_space}
use skyeye.Tacview.Objects.{Object, ObjectUpdate}
use skyeye.Tacview.Client.{Client, handle_time_frame, update_object}
use skyeye.Tacview.Client.Removals.{updated, updated_id, update_object-IsOutcome}
use skyeye.Tacview.Lines.{Formats, parse_time_frame, parse_object_update}
use skyeye.Tacview.Stream.{
  Session, Reader, Turn, cancelled, ticked, polled, and_then, put, set_parsed, set_reference_time,
  is_skipped, grace_period, read_line, handle_read, set_longitude, set_latitude,
  update_global_object, handle_object, handle_line, handle_update, handle_turns,
}

-- The objects stand under their IDs, each once, and none is the global object.
abbrev pub IsKeyed : List (ℕ × Object) → Type 0
IsKeyed [] = Unit
IsKeyed ((id, o) ∷ rest) = (o.id ≡ id) × (id ≢ 0) × (lookup id rest ≡ none) × IsKeyed rest

IsKeyed-lookup :
    (state : List (ℕ × Object)) (id : ℕ) (o : Object)
    → IsKeyed state
    → lookup id state ≡ some o
    → o.id ≡ id
unfolding lookup
IsKeyed-lookup [] id o v h = ground arith
IsKeyed-lookup ((j, p) ∷ rest) id o v h =
    ground (arith, nat_eq_iff j id, v.0, IsKeyed-lookup rest id o v.3)

insert-IsKeyed :
    (id : ℕ) (o : Object) (state : List (ℕ × Object))
    → o.id ≡ id
    → id ≢ 0
    → IsKeyed state
    → IsKeyed (insert id o state)
unfolding insert lookup
insert-IsKeyed id o [] same ne v = (same, ne, refl, tt)
insert-IsKeyed id o ((j, p) ∷ rest) same ne v = elim (Bool-cases (nat_eq j id)) [
  | inl here ↦ rw here (same, ne, rw ((nat_eq_iff j id).0 here) at v.2, v.3)
  | inr other ↦ rw other (
    v.0,
    v.1,
    ground (arith, lookup-insert id j o rest, v.2),
    insert-IsKeyed id o rest same ne v.3,
  )
]

delete-IsKeyed : (id : ℕ) (state : List (ℕ × Object)) → IsKeyed state → IsKeyed (delete id state)
unfolding delete lookup
delete-IsKeyed id [] v = tt
delete-IsKeyed id ((j, p) ∷ rest) v = elim (Bool-cases (nat_eq j id)) [
  | inl here ↦ rw here (delete-IsKeyed id rest v.3)
  | inr other ↦
      rw other (v.0, v.1, ground (arith, lookup-delete id j rest, v.2), delete-IsKeyed id rest v.3)
]

put_state :
    (v : Option ℕ) (set : ℕ → Client → Client) (c : Client)
    → ((n : ℕ) → (set n c).state ≡ c.state)
    → (put v set c).0.state ≡ c.state
put_state none set c same = refl
put_state (some n) set c same = same n

set_parsed_state :
    (parse : Text → Option ℕ) (set : ℕ → Client → Client) (s : Option Text) (c : Client)
    → ((n : ℕ) → (set n c).state ≡ c.state)
    → (set_parsed parse set s c).0.state ≡ c.state
set_parsed_state parse set none c same = refl
set_parsed_state parse set (some s) c same = put_state (parse s) set c same

and_then_state :
    (r : Client × Bool) (f : Client → Client × Bool)
    → ((c : Client) → (f c).0.state ≡ c.state)
    → (and_then r f).0.state ≡ r.0.state
and_then_state (c, true) f same = same c
and_then_state (c, false) f same = refl

handle_time_frame_state : (t : Option ℤ) (c : Client) → (handle_time_frame t c).0.state ≡ c.state
unfolding handle_time_frame
handle_time_frame_state none c = refl
handle_time_frame_state (some t) c = ground arith

module _ (formats : Formats) where
  open formats use {floats, parse_time}

  update_global_object_state :
      (u : ObjectUpdate) (c : Client) → (update_global_object formats u c).0.state ≡ c.state
  unfolding update_global_object
  update_global_object_state u c =
      let find = λ (p : Text). lookup p u.properties in
      let lon = set_parsed (floats.parse_float) set_longitude (find (codes "ReferenceLongitude")) in
      let lat = set_parsed (floats.parse_float) set_latitude (find (codes "ReferenceLatitude")) in
      let time = find (codes "ReferenceTime") in
      let timed = set_parsed parse_time set_reference_time time c in
      let keeps_lon : (d : Client) → (lon d).0.state ≡ d.state = λ d.
        set_parsed_state (floats.parse_float) set_longitude (find (codes "ReferenceLongitude")) d
          (λ _. refl) in
      let keeps_lat : (d : Client) → (lat d).0.state ≡ d.state = λ d.
        set_parsed_state (floats.parse_float) set_latitude (find (codes "ReferenceLatitude")) d
          (λ _. refl) in
      and_then_state (and_then timed lon) lat keeps_lat
      ∙ and_then_state timed lon keeps_lon
      ∙ set_parsed_state parse_time set_reference_time time c (λ _. refl)

  update_object-IsKeyed :
      (u : ObjectUpdate) (c : Client)
      → u.id ≢ 0
      → IsKeyed c.state
      → IsKeyed (update_object floats u c).client.state
  update_object-IsKeyed u c ne v =
      let o = updated floats u c in
      let r = update_object floats u c in
      let same = updated_id floats u c (λ id o. IsKeyed-lookup c.state id o v) in
      let stored = insert-IsKeyed u.id o c.state same ne v in
      subst IsKeyed (sym (update_object-IsOutcome floats u c).0)
        (kept (r.ok && u.is_removal) o.id _ stored)
    where
      kept :
          (b : Bool) (id : ℕ) (state : List (ℕ × Object))
          → IsKeyed state
          → IsKeyed (if b then delete id state else state)
      kept true id state w = delete-IsKeyed id state w
      kept false id state w = w

  handle_object-IsKeyed :
      (u : Option ObjectUpdate) (c : Client)
      → IsKeyed c.state
      → IsKeyed (handle_object formats u c).client.state
  unfolding handle_object
  handle_object-IsKeyed none c v = v
  handle_object-IsKeyed (some u) c v = elim (Bool-cases (nat_eq u.id 0)) [
    | inl global ↦ rw global (subst IsKeyed (sym (update_global_object_state u c)) v)
    | inr own ↦ rw own (update_object-IsKeyed u c (λ z. ground (arith, nat_eq_iff u.id 0)) v)
  ]

  handle_line-IsKeyed :
      (line : Text) (c : Client)
      → IsKeyed c.state
      → IsKeyed (handle_line formats line c).0.client.state
  unfolding handle_line
  handle_line-IsKeyed text c v =
      let line = trim_space formats.language text in
      elim (Bool-cases (is_skipped line)) [
        | inl skipped ↦ rw skipped v
        | inr said ↦ rw said (elim (Bool-cases (is_prefix (codes "#") line)) [
          | inl timed ↦
              rw timed
                (subst IsKeyed (sym (handle_time_frame_state (parse_time_frame formats line) c)) v)
          | inr object ↦ rw object (handle_object-IsKeyed (parse_object_update formats line) c v)
        ])
      ]

  handle_update-IsKeyed :
      (now : ℕ) (s : Session)
      → IsKeyed s.client.state
      → IsKeyed (handle_update formats now s).0.client.state
  unfolding handle_update
  handle_update-IsKeyed now s v = go (read_line s.reader)
    where
      go : (l : Option (Text × Reader)) → IsKeyed (handle_read formats now l s).0.client.state
      go none = v
      go (some (line, rest)) = handle_line-IsKeyed line s.client v

  pub handle_turns-IsKeyed :
      (turns : List Turn) (s : Session)
      → IsKeyed s.client.state
      → IsKeyed (handle_turns formats turns s).0.client.state
  unfolding handle_turns
  handle_turns-IsKeyed [] s v = v
  handle_turns-IsKeyed (cancelled ∷ turns) s v = v
  handle_turns-IsKeyed (ticked now ∷ turns) s v =
      elim (Bool-cases (ltb grace_period (now - s.last_update_time))) [
        | inl late ↦ rw late v
        | inr early ↦ rw early (handle_turns-IsKeyed turns s v)
      ]
  handle_turns-IsKeyed (polled now ∷ turns) s v =
      let v' = handle_update-IsKeyed now s v in
      elim (Bool-cases (handle_update formats now s).1) [
        | inl ok ↦ rw ok (handle_turns-IsKeyed turns (handle_update formats now s).0 v')
        | inr bad ↦ rw bad v'
      ]
