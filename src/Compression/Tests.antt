-- ===== src/Compression/Tests.antt =====
-- src/compression.rs: a message of zeros through a code that counts them, and an offer.
use ws_fabric.Prelude.{
  ℕ, ◌≡◌, refl, ap, ◌∙◌, sym, Bool, true, [], ◌∷◌, Option, none, some, arith, inl, inr, length,
  replicate, all, ◌==◌, if◌then◌else◌, Bool-cases,
}
use ws_fabric.Message.{Bytes}
use ws_fabric.Error.{ok}
use ws_fabric.Text.Ascii.{ascii}
use ws_fabric.Compression.{CompressionConfig, default, with_threshold}
use ws_fabric.Compression.Handshake.{compression_offer, parse_compression_response}
use ws_fabric.Compression.Handshake.Regexes.{from_left}
use ws_fabric.Compression.Handshake.RoundTrip.{parse_compression_response-compression_offer}
use ws_fabric.Compression.Codec.{
  Zlib, Compressor, no_stats, new_decompressor, compress, Compresses, compress-decompress,
}

abbrev are_zeros : Bytes → Bool
are_zeros b = all (λ c. c == 0) b

abbrev count_zeros : Bytes → Option Bytes
count_zeros b = if are_zeros b then some (length b ∷ []) else none

abbrev write_zeros : Bytes → Option Bytes
write_zeros (n ∷ []) = some (replicate n 0)
write_zeros _ = none

zeros_again : (b : Bytes) → are_zeros b ≡ true → replicate (length b) 0 ≡ b
zeros_again [] e = refl
zeros_again (c ∷ b) e =
    let first : 0 ≡ c = ground (arith, e) in
    let rest : are_zeros b ≡ true = ground (arith, e) in
    ap (◌∷◌ 0) (zeros_again b rest) ∙ ap (λ d. d ∷ b) first

pub write_zeros-count_zeros :
    (level : ℕ) (b out : Bytes) → count_zeros b ≡ some out → write_zeros out ≡ some b
write_zeros-count_zeros level b out e = elim (Bool-cases (are_zeros b)) [
  | inl zeros ↦
      let counted : length b ∷ [] ≡ out = cc (rw zeros at e) in
      ap write_zeros (sym counted) ∙ ap some (zeros_again b zeros)
  | inr others ↦ absurd (cc (rw others at e))
]

abbrev counting : Zlib
counting = record {
  encode = λ level b. count_zeros b;
  decode = write_zeros;
  decode-encode = write_zeros-count_zeros;
}

abbrev compressor : Compressor
compressor = record { config = with_threshold 2 default; stats = no_stats }

compress-decompress_example :
    Compresses counting
      (0 ∷ 0 ∷ 0 ∷ [])
      compressor
      new_decompressor
      (compress counting (0 ∷ 0 ∷ 0 ∷ []) compressor).0
compress-decompress_example =
    compress-decompress counting (0 ∷ 0 ∷ 0 ∷ []) compressor new_decompressor refl

abbrev narrow : CompressionConfig
narrow = record default { server_max_window_bits = 9; client_no_context_takeover = true }

parse_compression_response-compression_offer_example :
    parse_compression_response ascii from_left (compression_offer narrow) ≡ ok narrow
parse_compression_response-compression_offer_example =
    parse_compression_response-compression_offer ascii from_left narrow (record {
      level = omega arith;
      server = (omega arith, omega arith);
      client = (omega arith, omega arith);
    })
