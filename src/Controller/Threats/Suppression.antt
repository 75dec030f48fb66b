-- ===== src/Controller/Threats/Suppression.antt =====
-- When a threat call is made, and how long it is not repeated.
use skyeye.Common.{
  ℕ, ◌+◌, ◌<◌, ◌≤◌, ◌≡◌, ◌⊎◌, false, All, lookup-delete, refl, sym, ap, ◌∙◌, inl, inr, true, List,
  [], ◌∷◌, Option, none, some, arith, nat_eq, nat_eq_iff, ltb, if◌then◌else◌, nat_Eq, list_Eq,
  Bool-cases, contains, lookup-insert,
}
use skyeye.Common.Text.{Text}
use skyeye.Controller.Radar.{Units, Audience}
use skyeye.Controller.Merges.{Merged}
use skyeye.Controller.Threats.{
  Cooldowns, ThreatCall, extend_cooldown, is_on_cooldown, recently_notified, extend_cooldowns,
  call_if_any, broadcast_threat, remove_cooldown, threatened_callsigns,
}

is_on_cooldown-extend :
    (now t id j : ℕ) (c : Cooldowns)
    → is_on_cooldown now j (extend_cooldown t id c)
      ≡ (if nat_eq id j then ltb now (t + c.cooldown) else is_on_cooldown now j c)
unfolding is_on_cooldown extend_cooldown
is_on_cooldown-extend now t id j c = ground (arith, lookup-insert id j (t + c.cooldown) c.cooldowns)

pub is_on_cooldown-extend_cooldowns :
    (now t : ℕ) (ids : List ℕ) (j : ℕ) (c : Cooldowns)
    → is_on_cooldown now j (extend_cooldowns t ids c)
      ≡ (if contains ids j then ltb now (t + c.cooldown) else is_on_cooldown now j c)
unfolding extend_cooldowns contains extend_cooldown
is_on_cooldown-extend_cooldowns now t [] j c = refl
is_on_cooldown-extend_cooldowns now t (id ∷ ids) j c =
    is_on_cooldown-extend_cooldowns now t ids j (extend_cooldown t id c)
    ∙ ground (arith, is_on_cooldown-extend now t id j c)

is_on_cooldown-remove_cooldown :
    (now id j : ℕ) (c : Cooldowns)
    → is_on_cooldown now j (remove_cooldown id c)
      ≡ (if nat_eq id j then false else is_on_cooldown now j c)
unfolding is_on_cooldown remove_cooldown
is_on_cooldown-remove_cooldown now id j c = ground (arith, lookup-delete id j c.cooldowns)

extend_cooldowns_cooldown :
    (t : ℕ) (ids : List ℕ) (c : Cooldowns) → (extend_cooldowns t ids c).cooldown ≡ c.cooldown
unfolding extend_cooldowns extend_cooldown
extend_cooldowns_cooldown t [] c = refl
extend_cooldowns_cooldown t (id ∷ ids) c =
    extend_cooldowns_cooldown t ids (extend_cooldown t id c) ∙ refl

-- All of the IDs are on cooldown at this time.
unfoldable IsQuiet : ℕ → List ℕ → Cooldowns → Type 0
IsQuiet now ids c = (j : ℕ) → contains ids j ≡ true → is_on_cooldown now j c ≡ true

recently_notified-IsQuiet :
    (now : ℕ) (ids : List ℕ) (c : Cooldowns)
    → IsQuiet now ids c
    → recently_notified now ids c ≡ true
unfolding recently_notified contains IsQuiet
recently_notified-IsQuiet now [] c q = refl
recently_notified-IsQuiet now (id ∷ ids) c q = ground (
  arith,
  q id (ground (arith, nat_eq_iff id id)),
  recently_notified-IsQuiet now ids c (λ j h. q j (ground (arith, h))),
)

-- An extension leaves every ID on cooldown that was, if what it starts is not over.
extend_cooldowns-IsQuiet :
    (now t : ℕ) (ids called : List ℕ) (c : Cooldowns)
    → now < t + c.cooldown
    → IsQuiet now ids c
    → IsQuiet now ids (extend_cooldowns t called c)
unfolding IsQuiet
extend_cooldowns-IsQuiet now t ids called c l q =
    λ j h. ground (arith, is_on_cooldown-extend_cooldowns now t called j c, q j h, l)

remove_cooldown-IsQuiet :
    (now id : ℕ) (ids : List ℕ) (c : Cooldowns)
    → contains ids id ≡ false
    → IsQuiet now ids c
    → IsQuiet now ids (remove_cooldown id c)
unfolding IsQuiet
remove_cooldown-IsQuiet now id ids c apart q = λ j h. elim (Bool-cases (nat_eq id j)) [
  | inl same ↦
      let here : id ≡ j = (nat_eq_iff id j).0 same in absurd (ground (arith, h, rw here at apart))
  | inr other ↦ is_on_cooldown-remove_cooldown now id j c ∙ rw other (q j h)
]

-- The IDs that are called are on cooldown.
called-IsQuiet :
    (now t : ℕ) (ids called : List ℕ) (c : Cooldowns)
    → ((j : ℕ) → contains ids j ≡ true → contains called j ≡ true)
    → now < t + c.cooldown
    → IsQuiet now ids (extend_cooldowns t called c)
unfolding IsQuiet
called-IsQuiet now t ids called c sub l =
    λ j h. ground (arith, is_on_cooldown-extend_cooldowns now t called j c, sub j h, l)

-- What happens to the cooldowns: threats are broadcast, and contacts that fade or are removed are
-- forgotten.
pub data Change : Type 0 where
  broadcast : ℕ → ℕ → Merged → List ℕ → List ℕ → Change
  forgot : ℕ → Change

-- A broadcast whose clock is not before `start`, or a contact that is none of these.
abbrev pub IsApart : ℕ → List ℕ → Change → Type 0
IsApart start ids (broadcast now later m hostiles friends) = start ≤ later
IsApart start ids (forgot id) = contains ids id ≡ false

module _ (units : Units) (audience : Audience) where
  called_any :
      (later : ℕ) (m : Merged) (hostiles : List ℕ) (cs : List Text) (c : Cooldowns) {c' : Cooldowns}
      {call : ThreatCall}
      → call_if_any units audience later m hostiles cs c ≡ (c', some call)
      → c' ≡ extend_cooldowns later hostiles c
  called_any later m hostiles [] c h = absurd (ground arith)
  called_any later m hostiles (x ∷ xs) c h = sym (ap (λ (r : Cooldowns × Option ThreatCall). r.0) h)

  called :
      (now later : ℕ) (m : Merged) (hostiles friends : List ℕ) (c : Cooldowns) {c' : Cooldowns}
      {call : ThreatCall}
      → broadcast_threat units audience now later m hostiles friends c ≡ (c', some call)
      → c' ≡ extend_cooldowns later hostiles c
  unfolding broadcast_threat
  called now later m hostiles friends c h = elim (Bool-cases (recently_notified now hostiles c)) [
    | inl quiet ↦ absurd (ground arith)
    | inr loud ↦ called_any later m hostiles _ c (rw (broadcast_threat, loud) at h)
  ]

  broadcast_threat-cases :
      (now later : ℕ) (m : Merged) (hostiles friends : List ℕ) (c : Cooldowns)
      → let c' = (broadcast_threat units audience now later m hostiles friends c).0 in
        (c' ≡ c) ⊎ (c' ≡ extend_cooldowns later hostiles c)
  unfolding broadcast_threat
  broadcast_threat-cases now later m hostiles friends c =
      elim (Bool-cases (recently_notified now hostiles c)) [
        | inl quiet ↦ inl (rw quiet refl)
        | inr loud ↦ rw loud (go (threatened_callsigns units audience m hostiles friends []))
      ]
    where
      go :
          (cs : List Text)
          → let c' = (call_if_any units audience later m hostiles cs c).0 in
            (c' ≡ c) ⊎ (c' ≡ extend_cooldowns later hostiles c)
      go [] = inl refl
      go (x ∷ xs) = inr refl

  abbrev pub change : Change → Cooldowns → Cooldowns
  change (broadcast now later m hostiles friends) c =
      (broadcast_threat units audience now later m hostiles friends c).0
  change (forgot id) c = remove_cooldown id c

  abbrev pub change_all : List Change → Cooldowns → Cooldowns
  change_all [] c = c
  change_all (e ∷ es) c = change_all es (change e c)

  -- For a time before the end of a cooldown that starts at `start`.
  abbrev IsKept : ℕ → ℕ → List ℕ → Cooldowns → Type 0
  IsKept start now ids c = IsQuiet now ids c × (now < start + c.cooldown)

  change-IsKept :
      (start now : ℕ) (ids : List ℕ) (e : Change) (c : Cooldowns)
      → IsApart start ids e
      → IsKept start now ids c
      → IsKept start now ids (change e c)
  change-IsKept start now ids (broadcast before later m hostiles friends) c apart (q, l) =
      elim (broadcast_threat-cases before later m hostiles friends c) [
        | inl same ↦ rw same (q, l)
        | inr extended ↦ rw extended (
          extend_cooldowns-IsQuiet now later ids hostiles c (omega (arith, l, apart)) q,
          rw (extend_cooldowns_cooldown later hostiles c) l,
        )
      ]
  change-IsKept start now ids (forgot id) c apart (q, l) =
      (remove_cooldown-IsQuiet now id ids c apart q, unfold remove_cooldown in l)

  change_all-IsKept :
      (start now : ℕ) (ids : List ℕ) (es : List Change) (c : Cooldowns)
      → All (IsApart start ids) es
      → IsKept start now ids c
      → IsKept start now ids (change_all es c)
  change_all-IsKept start now ids [] c apart k = k
  change_all-IsKept start now ids (e ∷ es) c apart k =
      change_all-IsKept start now ids es (change e c) apart.1
        (change-IsKept start now ids e c apart.0 k)

  -- A call for a group is not repeated for any of its contacts (the whole group, or a part of it
  -- that flies on its own) before the cooldown that the call started is over, whoever the
  -- friendlies are and whatever they merged with meanwhile, and whatever other threats are broadcast
  -- and other contacts fade or are removed in between.
  pub broadcast_threat_suppressed :
      (now later again after : ℕ) (m n : Merged) (hostiles part friends others : List ℕ)
      (between : List Change) (c : Cooldowns) {c' : Cooldowns} {call : ThreatCall}
      → broadcast_threat units audience now later m hostiles friends c ≡ (c', some call)
      → ((j : ℕ) → contains part j ≡ true → contains hostiles j ≡ true)
      → All (IsApart later part) between
      → again < later + c.cooldown
      → let c'' = change_all between c' in
        broadcast_threat units audience again after n part others c'' ≡ (c'', none)
  unfolding broadcast_threat
  broadcast_threat_suppressed now later again after m n hostiles part friends others between c {c'}
        h sub apart l =
      let same = called now later m hostiles friends c h in
      let begun : IsKept later again part c' = rw same (
        called-IsQuiet again later part hostiles c sub l,
        rw (extend_cooldowns_cooldown later hostiles c) l,
      ) in
      let kept = change_all-IsKept later again part between c' apart begun in
      rw (recently_notified-IsQuiet again part (change_all between c') kept.0) refl
