-- ===== src/Subprotocol/RoundTrip.antt =====
-- The header that a client sends, as a server reads it.
use ws_fabric.Prelude.{
  ℕ, ◌≡◌, ◌∙◌, refl, ap, true, false, List, [], ◌∷◌, Text, all, map, inl, inr, Bool-cases, ◌==◌,
  ==_iff, subst,
}
use ws_fabric.Error.{ok}
use ws_fabric.Text.{Unicode, split, join, trim}
use ws_fabric.Text.Laws.{
  Avoids, HasNoSpace, split-avoiding, split-append, trim-HasNoSpace, trim-space,
}
use ws_fabric.Subprotocol.{
  SubprotocolList, SubprotocolNegotiator, separator, to_header_value, collect, parse_header,
  is_name_char, negotiate, parse_response,
}
use ws_fabric.Subprotocol.Validation.{IsName, AreNames, IsName-validate_protocol}
use ws_fabric.Subprotocol.Negotiation.{parse_response-negotiate}

module _ (u : Unicode) where
  comma_no_name : is_name_char u b',' ≡ false
  comma_no_name = rw u.comma_no_alphanumeric

  name_char-ne-comma : (c : ℕ) → is_name_char u c ≡ true → (c == b',') ≡ false
  name_char-ne-comma c h = elim (Bool-cases (c == b',')) [
    | inr e ↦ e
    | inl e ↦
        let here : is_name_char u b',' ≡ true =
          subst (λ d. is_name_char u d ≡ true) ((==_iff c b',').0 e) h in
        absurd (cc (here, comma_no_name))
  ]

  name_char_no_space : (c : ℕ) → is_name_char u c ≡ true → u.is_whitespace c ≡ false
  name_char_no_space c h = elim (Bool-cases (u.is_alphanumeric c)) [
    | inl e ↦ u.alphanumeric_no_space c e
    | inr e ↦ elim (Bool-cases (c == b'-')) [
      | inl d ↦ rw ((==_iff c b'-').0 d) u.hyphen_no_space
      | inr d ↦
          let v : (c == b'_') ≡ true = rw (e, d) at h in
          rw ((==_iff c b'_').0 v) u.underscore_no_space
    ]
  ]

  name_chars : (p : Text) → all (is_name_char u) p ≡ true → Avoids b',' p × HasNoSpace u p
  name_chars [] h = (tt, tt)
  name_chars (c ∷ p) h = elim (Bool-cases (is_name_char u c)) [
    | inr bad ↦ let h' : false ≡ true = rw bad at h in absurd (cc h')
    | inl good ↦
        let (avoids, no_space) = name_chars p (rw good at h) in
        ((name_char-ne-comma c good, avoids), (name_char_no_space c good, no_space))
  ]

  spaced : List Text → List Text
  spaced = map (λ q. b' ' ∷ q)

  split-spaced :
      (s q : Text) (rest : List Text)
      → split b',' s ≡ q ∷ rest
      → split b',' (b' ' ∷ s) ≡ (b' ' ∷ q) ∷ rest
  unfolding split
  split-spaced s q rest e = rw e

  split-join :
      (p : Text) (ps : List Text)
      → AreNames u (p ∷ ps)
      → split b',' (join separator (p ∷ ps)) ≡ p ∷ spaced ps
  unfolding join spaced
  split-join p [] (name, _) = split-avoiding b',' p (name_chars p name.chars).0
  split-join p (q ∷ ps) (name, names) =
      split-append b',' p (b' ' ∷ join separator (q ∷ ps)) (name_chars p name.chars).0
      ∙ ap (◌∷◌ p) (split-spaced (join separator (q ∷ ps)) q (spaced ps) (split-join q ps names))

  collect-cons :
      (piece p : Text) (pieces : List Text)
      → trim u piece ≡ p
      → IsName u p
      → collect u (piece ∷ pieces) ≡ p ∷ collect u pieces
  unfolding collect
  collect-cons piece p pieces e name = rw (e, name.not_empty, IsName-validate_protocol u p name)

  collect-spaced : (ps : List Text) → AreNames u ps → collect u (spaced ps) ≡ ps
  unfolding spaced
  collect-spaced [] names = unfold collect in refl
  collect-spaced (p ∷ ps) (name, names) =
      collect-cons (b' ' ∷ p) p (spaced ps) (trim-space u p (name_chars p name.chars).1) name
      ∙ ap (◌∷◌ p) (collect-spaced ps names)

  collect-join : (ps : List Text) → AreNames u ps → collect u (split b',' (join separator ps)) ≡ ps
  collect-join [] names = unfold split join collect trim in refl
  collect-join (p ∷ ps) names =
      ap (collect u) (split-join p ps names)
      ∙ collect-cons p p (spaced ps) (trim-HasNoSpace u p (name_chars p names.0.chars).1) names.0
      ∙ ap (◌∷◌ p) (collect-spaced ps names.1)

  -- A server that parses the header value of a list of valid names reads that list, in its order.
  pub parse_header-to_header_value :
      (l : SubprotocolList) → AreNames u l.protocols → parse_header u (to_header_value l) ≡ l
  unfolding parse_header to_header_value
  parse_header-to_header_value l names =
      ap (λ ps. record { protocols = ps }) (collect-join l.protocols names)

  -- The whole negotiation, for a client with valid names: what the server picks from the header it
  -- receives is what it would pick from the client's own list, and the client accepts the answer.
  pub handshake_agrees :
      (n : SubprotocolNegotiator) (l : SubprotocolList)
      → AreNames u l.protocols
      → (negotiate n (parse_header u (to_header_value l)) ≡ negotiate n l)
        × (parse_response l (negotiate n (parse_header u (to_header_value l))) ≡ ok (negotiate n l))
  handshake_agrees n l names =
      rw (parse_header-to_header_value l names) (refl, parse_response-negotiate n l)
