-- ===== src/Subprotocol/Negotiation.antt =====
-- What the server picks.
use ws_fabric.Prelude.{
  ◌≡◌, ◌↔◌, ◌⊎◌, refl, ap, subst, Bool, true, false, ◌||◌, ◌&&◌, List, [], ◌∷◌, ◌++◌, Option, none,
  some, Text, text_eq, text_eq_iff, arith, All, inl, inr, Bool-cases, if◌then◌else◌,
}
use ws_fabric.Error.{ok}
use ws_fabric.Text.{is_empty}
use ws_fabric.Subprotocol.{
  SubprotocolList, SubprotocolNegotiator, any_eq, contains, supports, first_supported, negotiate,
  should_reject, parse_response,
}

-- The negotiator takes the protocol: by name, or because it takes any.
abbrev pub accepts : SubprotocolNegotiator → Text → Bool
accepts n p = n.allow_wildcard || supports n p

-- The answer is the first protocol of the list that is acceptable, or none is.
abbrev pub Picks : (Text → Bool) → List Text → Option Text → Type 0
Picks acceptable ps o =
    ((pre : List Text) × (p : Text) × (post : List Text) × (ps ≡ pre ++ p ∷ post)
      × All (λ q. acceptable q ≡ false) pre
      × (acceptable p ≡ true)
      × (o ≡ some p))
    ⊎ (All (λ q. acceptable q ≡ false) ps × (o ≡ none))

first_supported-Picks :
    (n : SubprotocolNegotiator) (ps : List Text) → Picks (supports n) ps (first_supported n ps)
unfolding first_supported
first_supported-Picks n [] = inr (tt, refl)
first_supported-Picks n (q ∷ ps) = elim (Bool-cases (supports n q)) [
  | inl yes' ↦ inl ([], q, ps, refl, tt, yes', rw yes')
  | inr no' ↦ elim (first_supported-Picks n ps) [
    | inl (pre, p, post, e, unfit, fit, picked) ↦
        inl (q ∷ pre, p, post, ap (◌∷◌ q) e, (no', unfit), fit, rw no' picked)
    | inr (unfit, picked) ↦ inr ((no', unfit), rw no' picked)
  ]
]

first_allowed-Picks :
    (n : SubprotocolNegotiator) (any : Bool) (p : Text) (ps : List Text)
    → Picks
        (λ q. any || supports n q)
        (p ∷ ps)
        (if any && true then some p else first_supported n (p ∷ ps))
first_allowed-Picks n true p ps = inl ([], p, ps, refl, tt, refl, refl)
first_allowed-Picks n false p ps = first_supported-Picks n (p ∷ ps)

negotiate-Picks_list :
    (n : SubprotocolNegotiator) (ps : List Text)
    → Picks (accepts n) ps (negotiate n (record { protocols = ps }))
unfolding negotiate
negotiate-Picks_list n [] = inr (tt, refl)
negotiate-Picks_list n (p ∷ ps) = first_allowed-Picks n n.allow_wildcard p ps

-- `negotiate` answers with the first protocol, in the client's order, that the server supports (or
-- the very first, if the server takes any), and with none exactly when there is no such protocol.
pub negotiate-Picks :
    (n : SubprotocolNegotiator) (c : SubprotocolList)
    → Picks (accepts n) c.protocols (negotiate n c)
negotiate-Picks n c = negotiate-Picks_list n c.protocols

text_eq_refl : (p : Text) → text_eq p p ≡ true
text_eq_refl p = (text_eq_iff p p).1 refl

any_eq-middle : (pre : List Text) (p : Text) (post : List Text) → any_eq (pre ++ p ∷ post) p ≡ true
unfolding any_eq
any_eq-middle [] p post = rw (text_eq_refl p)
any_eq-middle (q ∷ pre) p post = elim (Bool-cases (text_eq q p)) [
  | inl e ↦ rw e
  | inr e ↦ rw e (any_eq-middle pre p post)
]

-- A client accepts whatever a server of this library answers to its own list.
pub parse_response-negotiate :
    (n : SubprotocolNegotiator) (c : SubprotocolList)
    → parse_response c (negotiate n c) ≡ ok (negotiate n c)
unfolding parse_response contains
parse_response-negotiate n c = elim (negotiate-Picks n c) [
  | inl (pre, p, post, e, unfit, fit, picked) ↦ rw (picked, e, any_eq-middle pre p post)
  | inr (unfit, picked) ↦ rw picked
]

All-middle :
    (P : Text → Type 0) (pre : List Text) (p : Text) (post : List Text)
    → All P (pre ++ p ∷ post)
    → P p
All-middle P [] p post h = h.0
All-middle P (q ∷ pre) p post h = All-middle P pre p post h.1

should_reject-picked :
    (n : SubprotocolNegotiator) (c : SubprotocolList) (p : Text)
    → negotiate n c ≡ some p
    → should_reject n c ≡ false
unfolding should_reject
should_reject-picked n c p e = elim (Bool-cases (is_empty c.protocols)) [
  | inl empty ↦ rw empty
  | inr offers ↦ rw (offers, e)
]

-- A server rejects exactly the clients that offer something and nothing acceptable.
pub should_reject_iff :
    (n : SubprotocolNegotiator) (c : SubprotocolList)
    → (should_reject n c ≡ true)
      ↔ ((is_empty c.protocols ≡ false) × All (λ q. accepts n q ≡ false) c.protocols)
unfolding should_reject
should_reject_iff n c = elim (negotiate-Picks n c) [
  | inl (pre, p, post, e, unfit, fit, picked) ↦
      let P : Text → Type 0 = λ q. accepts n q ≡ false in
      (
        (λ h. absurd (cc (h, should_reject-picked n c p picked))),
        (λ h. absurd (cc (fit, All-middle P pre p post (subst (All P) e h.1)))),
      )
  | inr (unfit, picked) ↦ ((λ h. (ground arith, unfit)), (λ h. rw (h.0, picked)))
]
