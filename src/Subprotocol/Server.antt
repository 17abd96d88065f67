-- ===== src/Subprotocol/Server.antt =====
-- src/subprotocol.rs: the negotiator that a server makes from a slice of names.
use ws_fabric.Prelude.{
  ◌≡◌, ◌∙◌, refl, sym, ap, true, false, ◌||◌, ◌⊎◌, List, [], ◌∷◌, ◌++◌, Text, text_eq, text_eq_iff,
  arith, All-append, inl, inr, Bool-cases,
}
use ws_fabric.Error.{Error, Result, ok, err}
use ws_fabric.Text.{Unicode}
use ws_fabric.Subprotocol.{
  SubprotocolNegotiator, empty_negotiator, any_eq, supports, support_protocol, support_all,
  negotiator_from_slice,
}
use ws_fabric.Subprotocol.Validation.{IsName, AreNames, validate_protocol_cases}

-- No name stands twice.
abbrev pub AreDistinct : List Text → Type 0
AreDistinct [] = Unit
AreDistinct (p ∷ ps) = (any_eq ps p ≡ false) × AreDistinct ps

any_eq-push : (ps : List Text) (p q : Text) → any_eq (ps ++ p ∷ []) q ≡ (any_eq ps q || text_eq p q)
unfolding any_eq
any_eq-push [] p q = ground arith
any_eq-push (r ∷ ps) p q = ground (arith, any_eq-push ps p q)

text_eq_sym : (p q : Text) → text_eq p q ≡ false → text_eq q p ≡ false
text_eq_sym p q h = elim (Bool-cases (text_eq q p)) [
  | inr e ↦ e
  | inl e ↦
      let same : p ≡ q = sym ((text_eq_iff q p).0 e) in absurd (cc (h, (text_eq_iff p q).1 same))
]

AreDistinct-push :
    (ps : List Text) (p : Text) → AreDistinct ps → any_eq ps p ≡ false → AreDistinct (ps ++ p ∷ [])
unfolding any_eq
AreDistinct-push [] p d h = (refl, tt)
AreDistinct-push (q ∷ ps) p d h =
    let other : text_eq q p ≡ false = ground arith in
    let later : any_eq ps p ≡ false = ground arith in
    (any_eq-push ps p q ∙ rw (d.0, text_eq_sym q p other), AreDistinct-push ps p d.1 later)

module _ (u : Unicode) where
  pub record IsValid (n : SubprotocolNegotiator) : Type 0 where
    pub names : AreNames u n.protocols
    pub distinct : AreDistinct n.protocols

  -- A negotiator with some more protocols.
  abbrev Adds : SubprotocolNegotiator → List Text → SubprotocolNegotiator → Type 0
  Adds n ps n' =
      IsValid n' × ((q : Text) → any_eq n'.protocols q ≡ (any_eq n.protocols q || any_eq ps q))

  push-Adds :
      (n : SubprotocolNegotiator) (p : Text)
      → IsName u p
      → IsValid n
      → any_eq n.protocols p ≡ false
      → Adds n (p ∷ []) (record n { protocols = n.protocols ++ p ∷ [] })
  unfolding any_eq
  push-Adds n p name v new = (
    record {
      names = All-append (IsName u) n.protocols (p ∷ []) v.names (name, tt);
      distinct = AreDistinct-push n.protocols p v.distinct new;
    },
    (λ q. any_eq-push n.protocols p q ∙ ground arith),
  )

  known-Adds :
      (n : SubprotocolNegotiator) (p : Text)
      → IsValid n
      → any_eq n.protocols p ≡ true
      → Adds n (p ∷ []) n
  unfolding any_eq
  known-Adds n p v known = (
    v,
    λ q. elim (Bool-cases (text_eq p q)) [
      | inl e ↦
          let same : p ≡ q = (text_eq_iff p q).0 e in
          let found : any_eq n.protocols q ≡ true = ap (any_eq n.protocols) (sym same) ∙ known in
          rw found refl
      | inr e ↦ rw e (ground arith)
    ],
  )

  -- What became of some names.
  abbrev Supported : SubprotocolNegotiator → List Text → Result SubprotocolNegotiator → Type 0
  Supported n ps answer =
      ((n' : SubprotocolNegotiator) × (answer ≡ ok n') × Adds n ps n')
      ⊎ ((¬ (AreNames u ps)) × (answer ≡ err Error.invalid_subprotocol))

  support_protocol-Supported :
      (n : SubprotocolNegotiator) (p : Text)
      → IsValid n
      → Supported n (p ∷ []) (support_protocol u n p)
  unfolding support_protocol
  support_protocol-Supported n p v = elim (validate_protocol_cases u p) [
    | inr (bad, invalid) ↦ inr ((λ h. bad h.0), rw invalid refl)
    | inl (name, valid) ↦ elim (Bool-cases (any_eq n.protocols p)) [
      | inl known ↦ inl (n, rw (valid, known) refl, known-Adds n p v known)
      | inr new ↦ inl (
        record n { protocols = n.protocols ++ p ∷ [] },
        rw (valid, new) refl,
        push-Adds n p name v new,
      )
    ]
  ]

  Adds-trans :
      (n n' n'' : SubprotocolNegotiator) (p : Text) (ps : List Text)
      → Adds n (p ∷ []) n'
      → Adds n' ps n''
      → Adds n (p ∷ ps) n''
  unfolding any_eq
  Adds-trans n n' n'' p ps a b = (b.0, λ q. ground (arith, a.1 q, b.1 q))

  support_all-Supported :
      (n : SubprotocolNegotiator) (ps : List Text) → IsValid n → Supported n ps (support_all u n ps)
  unfolding support_all any_eq
  support_all-Supported n [] v = inl (n, refl, (v, λ q. ground arith))
  support_all-Supported n (p ∷ ps) v = elim (support_protocol-Supported n p v) [
    | inr (bad, invalid) ↦ inr ((λ h. bad (h.0, tt)), rw invalid refl)
    | inl (n', done, added) ↦ elim (support_all-Supported n' ps added.0) [
      | inr (bad, invalid) ↦ inr ((λ h. bad h.1), rw (done, invalid) refl)
      | inl (n'', done', added') ↦
          inl (n'', rw (done, done') refl, Adds-trans n n' n'' p ps added added')
    ]
  ]

  -- A negotiator made from a slice holds valid names, none twice, and supports exactly the names of
  -- the slice; it is refused only if one of them is no valid name.
  pub negotiator_from_slice_cases :
      (ps : List Text)
      → ((n : SubprotocolNegotiator) × (negotiator_from_slice u ps ≡ ok n)
          × IsValid n
          × ((q : Text) → supports n q ≡ any_eq ps q))
        ⊎ ((¬ (AreNames u ps)) × (negotiator_from_slice u ps ≡ err Error.invalid_subprotocol))
  unfolding negotiator_from_slice supports any_eq
  negotiator_from_slice_cases ps =
      elim (support_all-Supported empty_negotiator ps (record { names = tt; distinct = tt })) [
        | inr refused ↦ inr refused
        | inl (n, done, added) ↦ inl (n, done, added.0, added.1)
      ]
