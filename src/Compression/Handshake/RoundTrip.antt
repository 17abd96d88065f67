-- ===== src/Compression/Handshake/RoundTrip.antt =====
-- src/compression.rs: the offer, read by its own parser. There are 256 offers, which are checked one
-- by one for what the parser looks for.
use ws_fabric.Prelude.{
  ℕ, ◌+◌, ◌-◌, ◌≡◌, refl, ap, ◌∙◌, Bool, true, false, [], ◌∷◌, ◌++◌, some, arith, Text, text_of,
}
use ws_fabric.Prelude.Tables.{all_below, all_below_lem}
use ws_fabric.Error.{ok}
use ws_fabric.Text.{Unicode, join, contains}
use ws_fabric.Text.Decimal.{print, parse-print}
use ws_fabric.Compression.{CompressionConfig, default, is_window}
use ws_fabric.Compression.Limits.{IsValid}
use ws_fabric.Compression.Handshake.{
  server_bits_key, client_bits_key, server_takeover, client_takeover, flag, compression_offer,
  window_or, Regex, parse_compression_response,
}
use ws_fabric.Compression.Handshake.Layout.{
  Layout, Found, check, check_lem, captured_server, captured_client, offer_in_lower_case,
}

abbrev config : ℕ → ℕ → Bool → Bool → CompressionConfig
config s c f g = record default {
  server_max_window_bits = s;
  client_max_window_bits = c;
  server_no_context_takeover = f;
  client_no_context_takeover = g;
}

head : Text
head = text_of "permessage-deflate; "

end : Bool → Bool → Text
unfolding join
end f g = join (text_of "; ") ([] ∷ (flag f server_takeover ++ flag g client_takeover))

layout : ℕ → ℕ → Bool → Bool → Layout
unfolding head end
layout s c f g = record {
  offer = compression_offer (config s c f g);
  before_server = head;
  before_client = head ++ (server_bits_key ++ (print s ++ text_of "; "));
  server_digits = print s;
  client_digits = print c;
  after_server = text_of "; " ++ (client_bits_key ++ (print c ++ end f g));
  after_client = end f g;
  server_key = server_bits_key;
  client_key = client_bits_key;
  extension = text_of "permessage-deflate";
  server_flag = server_takeover;
  client_flag = client_takeover;
  given_server = f;
  given_client = g;
}

-- A number that is a window is one of eight.
window_lem :
    (p : ℕ → Bool) (n : ℕ) → all_below 8 (λ i. p (8 + i)) ≡ true → is_window n ≡ true → p n ≡ true
window_lem p n h window =
    let same : 8 + (n - 8) ≡ n = ground (arith, window) in
    rw same at (all_below_lem 8 (λ i. p (8 + i)) (n - 8) h (ground (arith, window)))

layout_table :
    (f g : Bool) → all_below 8 (λ s. all_below 8 (λ c. check (layout (8 + s) (8 + c) f g))) ≡ true
unfolding check layout compression_offer all_below print
layout_table true true = refl
layout_table true false = refl
layout_table false true = refl
layout_table false false = refl

layout-Found :
    (s c : ℕ) (f g : Bool) → is_window s ≡ true → is_window c ≡ true → Found (layout s c f g)
layout-Found s c f g ws wc = check_lem (layout s c f g) (
    window_lem (λ c'. check (layout s c' f g)) c
      (window_lem (λ s'. all_below 8 (λ c'. check (layout s' (8 + c') f g))) s (layout_table f g)
        ws)
      wc)

window_or-print : (old n : ℕ) → is_window n ≡ true → window_or old (some (print n)) ≡ n
window_or-print old n window = rw (parse-print 255 n (ground (arith, window))) (rw window refl)

-- An answer in which everything is found.
answer_lem :
    (u : Unicode) (r : Regex) (answer server client : Text) (f g : Bool)
    → u.to_lowercase answer ≡ answer
    → contains answer (text_of "permessage-deflate") ≡ true
    → r.captured answer server_bits_key ≡ some server
    → r.captured answer client_bits_key ≡ some client
    → contains answer server_takeover ≡ f
    → contains answer client_takeover ≡ g
    → parse_compression_response u r answer
      ≡ ok (record default {
        server_max_window_bits = window_or 15 (some server);
        client_max_window_bits = window_or 15 (some client);
        server_no_context_takeover = f;
        client_no_context_takeover = g;
      })
answer_lem u r answer server client f g lower extended es ec ef eg =
    rw (lower, extended, es, ec, ef, eg) refl

-- The offer of a valid configuration, read by its own parser, gives its windows and flags back, with
-- compression enabled and the default level and threshold, which the offer does not carry.
pub parse_compression_response-compression_offer :
    (u : Unicode) (r : Regex) (c : CompressionConfig)
    → IsValid c
    → parse_compression_response u r (compression_offer c)
      ≡ ok (record default {
        server_max_window_bits = c.server_max_window_bits;
        client_max_window_bits = c.client_max_window_bits;
        server_no_context_takeover = c.server_no_context_takeover;
        client_no_context_takeover = c.client_no_context_takeover;
      })
unfolding layout compression_offer
parse_compression_response-compression_offer u r c v =
    let sb = c.server_max_window_bits in
    let cb = c.client_max_window_bits in
    let f = c.server_no_context_takeover in
    let g = c.client_no_context_takeover in
    let ws : is_window sb ≡ true = ground (arith, v.server.0, v.server.1) in
    let wc : is_window cb ≡ true = ground (arith, v.client.0, v.client.1) in
    let l = layout sb cb f g in
    let found : Found l = layout-Found sb cb f g ws wc in
    answer_lem u r l.offer (print sb) (print cb) f g (offer_in_lower_case r l found u)
      found.extended (captured_server r l found refl) (captured_client r l found refl)
      found.server_flagged found.client_flagged
    ∙ ap ok (
        ap (λ n. config n (window_or 15 (some (print cb))) f g) (window_or-print 15 sb ws)
        ∙ ap (λ n. config sb n f g) (window_or-print 15 cb wc))
