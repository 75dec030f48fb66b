-- ===== src/Scaler/Stopping.antt =====
-- cmd/skyeye-scaler/main.go: when the autoscaler asks to stop.
use skyeye.Common.{ℕ, ◌+◌, ◌≡◌, ◌≤◌, ◌<◌, ◌↔◌, inl, inr, List, [], ◌∷◌, arith, ltb, All, Bool-cases}
use skyeye.Radio.Types.{Float64}
use skyeye.Radio.Clients.{Client, humans_on_frequency}
use skyeye.Scaler.{Flags, Look, stop, next_action, call_webhook, call_webhooks}

-- The looks come one after the other, none before `start`.
abbrev pub IsRising : ℕ → List Look → Type 0
IsRising start [] = Unit
IsRising start ((now, client) ∷ looks) = (start ≤ now) × IsRising now looks

module _ (float : Float64) (flags : Flags) where
  -- The last time that players were seen.
  abbrev seen_at : List Look → ℕ → ℕ
  seen_at looks seen = (call_webhooks float flags looks seen).1

  -- If players were there at a look, it was more than the delay ago.
  abbrev pub IsLongAgo : ℕ → Look → Type 0
  IsLongAgo now (before, client) =
      0 < humans_on_frequency float client → before + flags.stop_delay < now

  seen_at-rising :
      (looks : List Look) (start seen : ℕ)
      → IsRising start looks
      → seen ≤ start
      → seen ≤ seen_at looks seen
  unfolding call_webhooks call_webhook
  seen_at-rising [] start seen v h = omega arith
  seen_at-rising ((now, client) ∷ looks) start seen v h =
      elim (Bool-cases (ltb 0 (humans_on_frequency float client))) [
        | inl players ↦
            rw players (omega (arith, h, v.0, seen_at-rising looks now now v.1 (omega arith)))
        | inr nobody ↦ rw nobody (seen_at-rising looks now seen v.1 (omega (arith, h, v.0)))
      ]

  seen_at→IsLongAgo :
      (now : ℕ) (looks : List Look) (start seen : ℕ)
      → IsRising start looks
      → seen ≤ start
      → seen_at looks seen + flags.stop_delay < now
      → All (IsLongAgo now) looks
  unfolding call_webhooks call_webhook
  seen_at→IsLongAgo now [] start seen v h late = tt
  seen_at→IsLongAgo now ((before, client) ∷ looks) start seen v h late =
      elim (Bool-cases (ltb 0 (humans_on_frequency float client))) [
        | inl players ↦
            let late' = rw players at late in
            (
              λ _. omega (arith, late', seen_at-rising looks before before v.1 (omega arith)),
              seen_at→IsLongAgo now looks before before v.1 (omega arith) late',
            )
        | inr nobody ↦ (
          λ some_. absurd (ground (arith, some_, nobody)),
          seen_at→IsLongAgo now looks before seen v.1 (omega (arith, h, v.0)) (rw nobody at late),
        )
      ]

  IsLongAgo→seen_at :
      (now : ℕ) (looks : List Look) (seen : ℕ)
      → All (IsLongAgo now) looks
      → seen + flags.stop_delay < now
      → seen_at looks seen + flags.stop_delay < now
  unfolding call_webhooks call_webhook
  IsLongAgo→seen_at now [] seen v late = late
  IsLongAgo→seen_at now ((before, client) ∷ looks) seen v late =
      elim (Bool-cases (ltb 0 (humans_on_frequency float client))) [
        | inl players ↦
            rw players (IsLongAgo→seen_at now looks before v.1 (v.0 (ground (arith, players))))
        | inr nobody ↦ rw nobody (IsLongAgo→seen_at now looks seen v.1 late)
      ]

  next_action_stop :
      (now players seen : ℕ)
      → (next_action float flags now players seen ≡ stop)
        ↔ ((players ≡ 0) × (seen + flags.stop_delay < now))
  next_action_stop now players seen = ground arith

  -- After looks one after the other, the webhook is asked to stop exactly if no human is on the
  -- frequencies now, none was at any look within the stop delay, and the clock shows more than it.
  pub call_webhook_stop :
      (looks : List Look) (now : ℕ) (client : Client)
      → IsRising 0 looks
      → let (_, seen) = call_webhooks float flags looks 0 in
        ((call_webhook float flags (now, client) seen).0.action ≡ stop) ↔ (
          (humans_on_frequency float client ≡ 0)
          × (flags.stop_delay < now)
          × All (IsLongAgo now) looks)
  unfolding call_webhook
  call_webhook_stop looks now client v =
      let (to, from) = next_action_stop now (humans_on_frequency float client) (seen_at looks 0) in
      (
        λ stops.
            let (none_, late) = to stops in
            (none_, omega (arith, late), seen_at→IsLongAgo now looks 0 0 v (omega arith) late),
        λ (none_, begun, ago).
            from (none_, IsLongAgo→seen_at now looks 0 ago (omega (arith, begun))),
      )
