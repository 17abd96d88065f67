-- ===== src/Compression/Codec.antt =====
-- src/compression.rs: the compressor and the decompressor, with their statistics. Zlib (the crate
-- flate2) is a parameter, with the documented fact that decoding undoes encoding. The shared
-- statistics have one owner at a time, the holder of their lock.
use ws_fabric.Prelude.{
  ℕ, ◌<◌, ◌≡◌, refl, true, not, Option, none, some, arith, inl, inr, ◌⊎◌, length, ltb, leb, ◌==◌,
  if◌then◌else◌, add64, Bool-cases,
}
use ws_fabric.Error.{Error, Result, ok, err}
use ws_fabric.Float.{F64}
use ws_fabric.Message.{Bytes}
use ws_fabric.Compression.{
  CompressionConfig, default, with_level as config_with_level, should_compress,
}

pub record Zlib : Type 0 where
  -- `ZlibEncoder` at a level, and `ZlibDecoder::read_to_end`; `none` is an I/O error
  pub encode : ℕ → Bytes → Option Bytes
  pub decode : Bytes → Option Bytes
  pub decode-encode : (level : ℕ) (b out : Bytes) → encode level b ≡ some out → decode out ≡ some b

pub record CompressionStats : Type 0 where
  pub total_in : ℕ
  pub total_out : ℕ

abbrev pub no_stats : CompressionStats
no_stats = record { total_in = 0; total_out = 0 }

abbrev pub count : ℕ → ℕ → CompressionStats → CompressionStats
count bytes_in bytes_out s = record {
  total_in = add64 s.total_in bytes_in;
  total_out = add64 s.total_out bytes_out;
}

pub record Compressor : Type 0 where
  pub config : CompressionConfig
  pub stats : CompressionStats

pub record Decompressor : Type 0 where
  pub stats : CompressionStats

unfoldable pub new : CompressionConfig → Result Compressor
new c =
    if not c.enabled then err Error.not_supported else ok (record { config = c; stats = no_stats })

-- A level that is too high panics: `none`.
abbrev pub with_level : ℕ → Option (Result Compressor)
with_level level = elim (config_with_level level default) [ none ↦ none | some c ↦ some (new c) ]

abbrev pub new_decompressor : Decompressor
new_decompressor = record { stats = no_stats }

abbrev pub reset : Compressor → Compressor
reset c = record c { stats = no_stats }

abbrev pub reset_decompressor : Decompressor → Decompressor
reset_decompressor d = record { stats = no_stats }

-- `Default for Decompressor`
abbrev pub default_decompressor : Decompressor
default_decompressor = new_decompressor

abbrev pub total_input : Compressor → ℕ
total_input c = c.stats.total_in

abbrev pub total_output : Compressor → ℕ
total_output c = c.stats.total_out

abbrev pub decompressor_input : Decompressor → ℕ
decompressor_input d = d.stats.total_in

abbrev pub decompressor_output : Decompressor → ℕ
decompressor_output d = d.stats.total_out

abbrev pub ratio : (f : F64) → CompressionStats → f.Float
ratio f s = if s.total_in == 0 then f.of_ℕ 1 else f.div (f.of_ℕ s.total_out) (f.of_ℕ s.total_in)

abbrev pub compression_ratio : (f : F64) → Compressor → f.Float
compression_ratio f c = ratio f c.stats

abbrev pub decompression_ratio : (f : F64) → Decompressor → f.Float
decompression_ratio f d = ratio f d.stats

module _ (z : Zlib) where
  -- From what the encoder gives: the original if that is not shorter.
  abbrev pub encoded : Bytes → Compressor → Option Bytes → Result Bytes × Compressor
  encoded b c none = (err Error.invalid_frame, c)
  encoded b c (some out) = (
    ok (if leb (length b) (length out) then b else out),
    record c { stats = count (length b) (length out) c.stats },
  )

  unfoldable pub compress : Bytes → Compressor → Result Bytes × Compressor
  compress b c =
      if ltb (length b) c.config.threshold
      then (ok b, c)
      else encoded b c (z.encode c.config.level b)

  abbrev pub decoded : Bytes → Decompressor → Option Bytes → Result Bytes × Decompressor
  decoded b d none = (err Error.invalid_frame, d)
  decoded b d (some out) = (ok out, record { stats = count (length b) (length out) d.stats })

  unfoldable pub decompress : Bytes → Decompressor → Result Bytes × Decompressor
  decompress b d = decoded b d (z.decode b)

  -- What goes with an answer of `compress`.
  abbrev pub Compresses : Bytes → Compressor → Decompressor → Result Bytes → Type 0
  Compresses b c d (err e) =
      (should_compress c.config b ≡ true)
      × (z.encode c.config.level b ≡ none)
      × (e ≡ Error.invalid_frame)
  Compresses b c d (ok out) =
      (out ≡ b)
      ⊎ ((length out < length b)
          × (should_compress c.config b ≡ true)
          × ((decompress out d).0 ≡ ok b))

  encoded-Compresses :
      (b : Bytes) (c : Compressor) (d : Decompressor) (o : Option Bytes)
      → should_compress c.config b ≡ true
      → z.encode c.config.level b ≡ o
      → Compresses b c d (encoded b c o).0
  unfolding decompress
  encoded-Compresses b c d none large e = (large, e, refl)
  encoded-Compresses b c d (some out) large e = elim (Bool-cases (leb (length b) (length out))) [
    | inl longer ↦ rw longer (inl refl)
    | inr shorter ↦
        let same = z.decode-encode c.config.level b out e in
        rw shorter (inr (ground (arith, shorter), large, rw same refl))
  ]

  -- What an enabled compressor returns is the message itself, or a shorter one, only for a message
  -- that has to be compressed, from which the decompressor gets the message back; it fails only where
  -- the encoder does.
  pub compress-decompress :
      (b : Bytes) (c : Compressor) (d : Decompressor)
      → c.config.enabled ≡ true
      → Compresses b c d (compress b c).0
  unfolding compress
  compress-decompress b c d on = elim (Bool-cases (ltb (length b) c.config.threshold)) [
    | inl small ↦ rw small (inl refl)
    | inr large ↦
        rw large
          (encoded-Compresses b c d (z.encode c.config.level b) (ground (arith, on, large)) refl)
  ]
