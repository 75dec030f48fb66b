-- ===== src/Controller/Handlers/Pictures.antt =====
-- How often a clean picture is broadcast.
use skyeye.Common.{
  ℕ, ◌≡◌, refl, inl, inr, Bool, true, false, not, ◌||◌, List, [], ◌∷◌, ◌++◌, arith, nat_eq,
  Bool-cases, All,
}
use skyeye.Controller.Handlers.{Controller, Call, broadcast_picture}

-- An automatic broadcast: its time, the number of clients, and the picture.
pub record Turn : Type 0 where
  pub now : ℕ
  pub clients : ℕ
  pub count : ℕ
  pub groups : List (List ℕ)

unfoldable pub broadcast_turns : List Turn → Controller → Controller × List Call
broadcast_turns [] c = (c, [])
broadcast_turns (t ∷ ts) c =
    let (c1, calls) = broadcast_picture t.now false t.clients t.count t.groups c in
    let (c2, more) = broadcast_turns ts c1 in (c2, calls ++ more)

quiet_turn :
    (t : Turn) (c : Controller)
    → t.count ≡ 0
    → c.was_last_picture_clean ≡ true
    → ((broadcast_picture t.now false t.clients t.count t.groups c).1 ≡ [])
      × ((broadcast_picture t.now false t.clients t.count t.groups c).0.was_last_picture_clean
          ≡ true)
unfolding broadcast_picture
quiet_turn t c e w = elim (Bool-cases (nat_eq t.clients 0)) [
  | inl alone ↦ rw alone (refl, w)
  | inr heard ↦ rw (heard, w, e) (refl, refl)
]

quiet_turns :
    (ts : List Turn) (c : Controller)
    → All (λ t. t.count ≡ 0) ts
    → c.was_last_picture_clean ≡ true
    → (broadcast_turns ts c).1 ≡ []
unfolding broadcast_turns
quiet_turns [] c e w = refl
quiet_turns (t ∷ ts) c e w =
    let (silent, clean) = quiet_turn t c e.0 w in
    rw silent
      (quiet_turns ts (broadcast_picture t.now false t.clients t.count t.groups c).0 e.1 clean)

-- Once a picture was clean, forced or not, with someone to hear it, the automatic broadcasts are
-- silent for as long as the picture stays clean.
pub broadcast_picture_quiet :
    (now : ℕ) (force_broadcast : Bool) (clients : ℕ) (groups : List (List ℕ)) (c : Controller)
    (ts : List Turn)
    → (force_broadcast || not (nat_eq clients 0)) ≡ true
    → All (λ t. t.count ≡ 0) ts
    → (broadcast_turns ts (broadcast_picture now force_broadcast clients 0 groups c).0).1 ≡ []
unfolding broadcast_picture
broadcast_picture_quiet now force_broadcast clients groups c ts heard e =
    quiet_turns ts (broadcast_picture now force_broadcast clients 0 groups c).0 e (ground arith)
