-- ===== src/Controller/Threats/Calls.antt =====
-- Who is called about a threat, and who about a merge.
use skyeye.Common.{
  ℕ, ◌≡◌, inl, inr, Bool, false, not, ◌&&◌, ◌||◌, List, [], ◌∷◌, Option, none, some, arith, list_Eq,
  Bool-cases, contains,
}
use skyeye.Common.Text.{Text}
use skyeye.Trackfiles.{Trackfile}
use skyeye.Controller.Radar.{Units, Audience, add_friendly_to_broadcast}
use skyeye.Controller.Callsigns.{
  is_called, IsDistinct, contains-add_friendly, add_friendly-IsDistinct,
}
use skyeye.Controller.Merges.{Merged, is_group_merged_with_friendly, create_merged_call}
use skyeye.Controller.Threats.{
  Cooldowns, ThreatCall, recently_notified, threatened_callsigns, add_found, call_if_any,
  broadcast_threat,
}

-- Some friendly of the list is called by this callsign.
unfoldable pub any_called : Audience → List Trackfile → Text → Bool
any_called audience [] c = false
any_called audience (t ∷ ts) c = is_called audience t c || any_called audience ts c

module _ (units : Units) (audience : Audience) where
  create_merged_call_from :
      (cs : List Text) (ts : List Trackfile) (c : Text)
      → IsDistinct cs
      → (contains (create_merged_call units audience cs ts) c
          ≡ (contains cs c || any_called audience ts c))
        × IsDistinct (create_merged_call units audience cs ts)
  unfolding create_merged_call any_called
  create_merged_call_from cs [] c d = (ground arith, d)
  create_merged_call_from cs (t ∷ ts) c d =
      let (said, once) =
        create_merged_call_from (add_friendly_to_broadcast audience cs t) ts c
          (add_friendly-IsDistinct audience cs t d) in
      (ground (arith, said, contains-add_friendly audience cs t c), once)

  -- A merged call names every friendly that is newly merged and can be called, and no one else;
  -- one that merged with two hostiles is named once.
  pub create_merged_call_names :
      (ts : List Trackfile) (c : Text)
      → (contains (create_merged_call units audience [] ts) c ≡ any_called audience ts c)
        × IsDistinct (create_merged_call units audience [] ts)
  unfolding contains
  create_merged_call_names ts c = create_merged_call_from [] ts c tt

  abbrev pub is_found_called : Option Trackfile → Text → Bool
  is_found_called none c = false
  is_found_called (some t) c = is_called audience t c

  -- Some threatened friendly is called by this callsign: one on the radar, which is not merged with
  -- the group.
  unfoldable pub any_threatened : Merged → List ℕ → List ℕ → Text → Bool
  any_threatened m hostiles [] c = false
  any_threatened m hostiles (friend ∷ friends) c =
      (not (is_group_merged_with_friendly hostiles friend m)
        && is_found_called (units.find_unit friend) c)
      || any_threatened m hostiles friends c

  contains-add_found :
      (found : Option Trackfile) (cs : List Text) (c : Text)
      → contains (add_found units audience found cs) c ≡ (contains cs c || is_found_called found c)
  contains-add_found none cs c = ground arith
  contains-add_found (some t) cs c = contains-add_friendly audience cs t c

  add_found-IsDistinct :
      (found : Option Trackfile) (cs : List Text)
      → IsDistinct cs
      → IsDistinct (add_found units audience found cs)
  add_found-IsDistinct none cs d = d
  add_found-IsDistinct (some t) cs d = add_friendly-IsDistinct audience cs t d

  threatened_callsigns_from :
      (m : Merged) (hostiles friends : List ℕ) (cs : List Text) (c : Text)
      → IsDistinct cs
      → (contains (threatened_callsigns units audience m hostiles friends cs) c
          ≡ (contains cs c || any_threatened m hostiles friends c))
        × IsDistinct (threatened_callsigns units audience m hostiles friends cs)
  unfolding threatened_callsigns any_threatened
  threatened_callsigns_from m hostiles [] cs c d = (ground arith, d)
  threatened_callsigns_from m hostiles (friend ∷ friends) cs c d =
      elim (Bool-cases (is_group_merged_with_friendly hostiles friend m)) [
        | inl merged ↦ rw merged (threatened_callsigns_from m hostiles friends cs c d)
        | inr apart ↦
            let found = units.find_unit friend in
            let (said, once) =
              threatened_callsigns_from m hostiles friends (add_found units audience found cs) c
                (add_found-IsDistinct found cs d) in
            rw apart (ground (arith, said, contains-add_found found cs c), once)
      ]

  call_names :
      (later : ℕ) (m : Merged) (hostiles : List ℕ) (cs : List Text) (t : Cooldowns) {t' : Cooldowns}
      {call : ThreatCall}
      → call_if_any units audience later m hostiles cs t ≡ (t', some call)
      → call.callsigns ≡ cs
  call_names later m hostiles [] t h = absurd (ground arith)
  call_names later m hostiles (c ∷ cs) t h = ground arith

  -- A threat call names each threatened friendly that the radar has, that can be called and that is
  -- not merged with a contact of the group, and no one else, and no callsign twice. It is made only
  -- when some contact of the group is not on cooldown.
  pub broadcast_threat_names :
      (now later : ℕ) (m : Merged) (hostiles friends : List ℕ) (t : Cooldowns) (c : Text)
      {t' : Cooldowns} {call : ThreatCall}
      → broadcast_threat units audience now later m hostiles friends t ≡ (t', some call)
      → (contains call.callsigns c ≡ any_threatened m hostiles friends c)
        × IsDistinct call.callsigns
        × (recently_notified now hostiles t ≡ false)
  unfolding broadcast_threat contains
  broadcast_threat_names now later m hostiles friends t c h =
      elim (Bool-cases (recently_notified now hostiles t)) [
        | inl quiet ↦ absurd (ground arith)
        | inr loud ↦
            let q = call_names later m hostiles _ t (rw (broadcast_threat, loud) at h) in
            let (said, once) = threatened_callsigns_from m hostiles friends [] c tt in
            (rw q said, rw q once, loud)
      ]
