-- ===== src/Radio/Voice/Waiting.antt =====
-- pkg/simpleradio/transmit.go: how long waitForClearChannel waits.
use skyeye.Common.{
  ℕ, ◌+◌, ◌-◌, ◌≡◌, ◌≤◌, refl, ◌⊎◌, inl, inr, Bool, true, false, [], ◌∷◌, none, some, arith, ltb,
  if◌then◌else◌, All, All-imply, Bool-cases,
}
use skyeye.Radio.Types.{Radio}
use skyeye.Radio.Receiver.{Receiver, Receivers, is_receiving_transmission}
use skyeye.Radio.Voice.{latest_deadline, clear_channel_delay}

-- The loop has seen that the receiver is busy, and until when.
abbrev IsSeen : ℕ → Bool × ℕ → Radio × Receiver → Type 0
IsSeen now (busy, deadline) (radio, r) =
    is_receiving_transmission now r ≡ true → (busy ≡ true) × (r.deadline ≤ deadline)

abbrev look : ℕ → Receiver → Bool × ℕ → Bool × ℕ
look now r (busy, deadline) =
    if is_receiving_transmission now r
    then (true, if ltb deadline r.deadline then r.deadline else deadline)
    else (busy, deadline)

look-rising :
    (now : ℕ) (r : Receiver) (found : Bool × ℕ)
    → (found.1 ≤ (look now r found).1) × (found.0 ≡ true → (look now r found).0 ≡ true)
look-rising now r (busy, deadline) = elim (Bool-cases (is_receiving_transmission now r)) [
  | inl talks ↦ rw talks (ground arith, λ _. refl)
  | inr rests ↦ rw rests (omega arith, λ b. b)
]

look-busy :
    (now : ℕ) (r : Receiver) (found : Bool × ℕ)
    → is_receiving_transmission now r ≡ true
    → ((look now r found).0 ≡ true) × (r.deadline ≤ (look now r found).1)
look-busy now r found talks = rw talks (refl, ground arith)

latest_deadline-rising :
    (now : ℕ) (rs : Receivers) (found : Bool × ℕ)
    → (found.1 ≤ (latest_deadline now rs found).1)
      × (found.0 ≡ true → (latest_deadline now rs found).0 ≡ true)
unfolding latest_deadline
latest_deadline-rising now [] found = (omega arith, λ b. b)
latest_deadline-rising now ((radio, r) ∷ rs) found =
    let first = look-rising now r found in
    let rest = latest_deadline-rising now rs (look now r found) in
    (omega (arith, first.0, rest.0), λ b. rest.1 (first.1 b))

latest_deadline-IsSeen :
    (now : ℕ) (rs : Receivers) (found : Bool × ℕ)
    → All (IsSeen now (latest_deadline now rs found)) rs
unfolding latest_deadline
latest_deadline-IsSeen now [] found = tt
latest_deadline-IsSeen now ((radio, r) ∷ rs) found =
    let rest = latest_deadline-rising now rs (look now r found) in
    (
      λ talks.
          let seen = look-busy now r found talks in (rest.1 seen.0, omega (arith, seen.1, rest.0)),
      latest_deadline-IsSeen now rs (look now r found),
    )

not_talking :
    (now : ℕ) (r : Receiver)
    → (is_receiving_transmission now r ≡ true → ⊥)
    → is_receiving_transmission now r ≡ false
not_talking now r h = elim (Bool-cases (is_receiving_transmission now r)) [
  | inl talks ↦ absurd (h talks)
  | inr rests ↦ rests
]

-- What a look at the channel says: that it is clear, and then no receiver is in a transmission; or
-- how long to sleep, and then it sleeps for 250 ms at least, and beyond the deadline of every receiver
-- that is in one.
pub clear_channel_delay_cases :
    (now : ℕ) (rs : Receivers)
    → ((clear_channel_delay now rs ≡ none)
        × All (λ (e : Radio × Receiver). is_receiving_transmission now e.1 ≡ false) rs)
      ⊎ ((delay : ℕ) × (clear_channel_delay now rs ≡ some delay)
          × (250000000 ≤ delay)
          × All
              (λ (e : Radio × Receiver).
                is_receiving_transmission now e.1 ≡ true → e.1.deadline + 250000000 ≤ now + delay)
              rs)
unfolding clear_channel_delay
clear_channel_delay_cases now rs =
    let (busy, deadline) = latest_deadline now rs (false, now) in
    let seen = latest_deadline-IsSeen now rs (false, now) in
    let later = (latest_deadline-rising now rs (false, now)).0 in
    elim (Bool-cases (latest_deadline now rs (false, now)).0) [
      | inl talks ↦ inr (
        deadline - now + 250000000,
        rw talks refl,
        omega arith,
        All-imply (λ (e : Radio × Receiver). IsSeen now (busy, deadline) e) _
            (λ e h said. omega (arith, (h said).1, later)) rs seen,
      )
      | inr clear ↦ inl (
        rw clear refl,
        All-imply (λ (e : Radio × Receiver). IsSeen now (busy, deadline) e) _
            (λ e h. not_talking now e.1 (λ said. ground (arith, clear, (h said).0))) rs seen,
      )
    ]
