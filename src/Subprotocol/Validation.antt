-- ===== src/Subprotocol/Validation.antt =====
-- Names are checked wherever they come from.
use ws_fabric.Prelude.{
  ◌≡◌, ◌⊎◌, ◌∙◌, true, false, List, [], ◌∷◌, ◌++◌, Text, arith, all, All, append-nil, append_assoc,
  inl, inr, Bool-cases,
}
use ws_fabric.Error.{Error, ok, err}
use ws_fabric.Text.{Unicode, is_empty, split, trim}
use ws_fabric.Subprotocol.{
  SubprotocolList, empty_list, validate_protocol, with_protocol, add_all, from_slice, collect,
  parse_header, is_name_char,
}

module _ (u : Unicode) where
  -- A name: not empty, of letters, digits, hyphens and underscores.
  pub record IsName (p : Text) : Type 0 where
    pub not_empty : is_empty p ≡ false
    pub chars : all (is_name_char u) p ≡ true

  pub validate_protocol-IsName : (p : Text) → validate_protocol u p ≡ ok tt → IsName p
  unfolding validate_protocol
  validate_protocol-IsName p h = record { not_empty = ground arith; chars = ground arith }

  pub IsName-validate_protocol : (p : Text) → IsName p → validate_protocol u p ≡ ok tt
  unfolding validate_protocol
  IsName-validate_protocol p h = rw (h.not_empty, h.chars)

  pub validate_protocol_cases :
      (p : Text)
      → (IsName p × (validate_protocol u p ≡ ok tt))
        ⊎ ((¬ IsName p) × (validate_protocol u p ≡ err Error.invalid_subprotocol))
  validate_protocol_cases p = elim (Bool-cases (is_empty p)) [
    | inl e ↦ inr ((λ h. cc (h.not_empty)), unfold validate_protocol in rw e)
    | inr e ↦ elim (Bool-cases (all (is_name_char u) p)) [
      | inl a ↦
          let h : IsName p = record { not_empty = e; chars = a } in
          inl (h, IsName-validate_protocol p h)
      | inr a ↦ inr ((λ h. cc (h.chars)), unfold validate_protocol in rw (e, a))
    ]
  ]

  abbrev pub AreNames : List Text → Type 0
  AreNames = All IsName

  collect-AreNames : (pieces : List Text) → AreNames (collect u pieces)
  unfolding collect
  collect-AreNames [] = tt
  collect-AreNames (piece ∷ pieces) = elim (validate_protocol_cases (trim u piece)) [
    | inl (name, valid) ↦ rw (name.not_empty, valid) (name, collect-AreNames pieces)
    | inr (_, invalid) ↦ elim (Bool-cases (is_empty (trim u piece))) [
      | inl e ↦ rw e (collect-AreNames pieces)
      | inr e ↦ rw (e, invalid) (collect-AreNames pieces)
    ]
  ]

  -- Whatever the header, `parse_header` yields only valid names.
  pub parse_header-AreNames : (header : Text) → AreNames (parse_header u header).protocols
  unfolding parse_header
  parse_header-AreNames header = collect-AreNames (split b',' header)

  add_all_cases :
      (l : SubprotocolList) (ps : List Text)
      → ((AreNames ps) × (add_all u l ps ≡ ok (record { protocols = l.protocols ++ ps })))
        ⊎ ((¬ (AreNames ps)) × (add_all u l ps ≡ err Error.invalid_subprotocol))
  unfolding add_all with_protocol
  add_all_cases l [] = inl (tt, rw append-nil)
  add_all_cases l (p ∷ ps) = elim (validate_protocol_cases p) [
    | inr (bad, invalid) ↦ inr ((λ h. bad h.0), rw invalid)
    | inl (name, valid) ↦ elim (add_all_cases (record { protocols = l.protocols ++ p ∷ [] }) ps) [
      | inl (names, done) ↦ inl ((name, names), rw valid (done ∙ rw append_assoc))
      | inr (bad, invalid) ↦ inr ((λ h. bad h.1), rw valid invalid)
    ]
  ]

  -- `from_slice` takes a slice of valid names as it stands, and refuses any other.
  pub from_slice_cases :
      (ps : List Text)
      → ((AreNames ps) × (from_slice u ps ≡ ok (record { protocols = ps })))
        ⊎ ((¬ (AreNames ps)) × (from_slice u ps ≡ err Error.invalid_subprotocol))
  unfolding from_slice
  from_slice_cases ps = add_all_cases empty_list ps
