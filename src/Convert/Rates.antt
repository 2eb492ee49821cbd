-- ===== src/Convert/Rates.antt =====
-- goconv/bitrates.go, latencies.go and duration.go.
use ffstream.Base.{ℕ, ◌≡◌, refl, Option, none, some, ℤ, pos, i64, u64, IsInt64, i64-u64, arith}

-- `BitRateInfo`, with rates of the unsigned type `Ubps`, and its message, with `uint64`
pub record BitRateInfo : Type 0 where
  pub audio : ℕ
  pub video : ℕ
  pub other : ℕ

pub record BitRates : Type 0 where
  pub input : BitRateInfo
  pub encoded : BitRateInfo
  pub output : BitRateInfo

pub record BitRateInfoGrpc : Type 0 where
  pub audio : ℕ
  pub video : ℕ
  pub other : ℕ

pub record BitRatesGrpc : Type 0 where
  pub input_bit_rate : Option BitRateInfoGrpc
  pub encoded_bit_rate : Option BitRateInfoGrpc
  pub output_bit_rate : Option BitRateInfoGrpc

-- `BitRateInfoToGRPC`
unfoldable pub bit_rate_info_to_grpc : BitRateInfo → Option BitRateInfoGrpc
bit_rate_info_to_grpc src =
    some (record { audio = src.audio; video = src.video; other = src.other })

-- `BitRatesToGRPC`
unfoldable pub bit_rates_to_grpc : Option BitRates → Option BitRatesGrpc
unfolding bit_rate_info_to_grpc
bit_rates_to_grpc none = none
bit_rates_to_grpc (some src) = some (record {
  input_bit_rate = bit_rate_info_to_grpc src.input;
  encoded_bit_rate = bit_rate_info_to_grpc src.encoded;
  output_bit_rate = bit_rate_info_to_grpc src.output;
})

-- `BitRateInfoFromGRPC`
unfoldable pub bit_rate_info_from_grpc : Option BitRateInfoGrpc → BitRateInfo
bit_rate_info_from_grpc none = record { audio = 0; video = 0; other = 0 }
bit_rate_info_from_grpc (some src) = record {
  audio = src.audio;
  video = src.video;
  other = src.other;
}

-- `BitRatesFromGRPC`
unfoldable pub bit_rates_from_grpc : Option BitRatesGrpc → Option BitRates
unfolding bit_rate_info_from_grpc
bit_rates_from_grpc none = none
bit_rates_from_grpc (some src) = some (record {
  input = bit_rate_info_from_grpc src.input_bit_rate;
  encoded = bit_rate_info_from_grpc src.encoded_bit_rate;
  output = bit_rate_info_from_grpc src.output_bit_rate;
})

-- Bit rates, or nil, come back from their message as they were.
pub bit_rates-from-to : (src : Option BitRates) → bit_rates_from_grpc (bit_rates_to_grpc src) ≡ src
unfolding bit_rates_from_grpc bit_rates_to_grpc
bit_rates-from-to none = refl
bit_rates-from-to (some src) = refl

-- Durations are `int64` nanoseconds.
pub record TrackLatencies : Type 0 where
  pub pre_transcoding : ℤ
  pub transcoding : ℤ
  pub transcoded_pre_send : ℤ
  pub sending : ℤ

pub record Latencies : Type 0 where
  pub audio : TrackLatencies
  pub video : TrackLatencies

pub record TrackLatenciesGrpc : Type 0 where
  pub pre_transcoding_u : ℕ
  pub transcoding_u : ℕ
  pub transcoded_pre_send_u : ℕ
  pub sending_u : ℕ

pub record LatenciesGrpc : Type 0 where
  pub audio : Option TrackLatenciesGrpc
  pub video : Option TrackLatenciesGrpc

-- `TrackLatenciesToGRPC`
unfoldable pub track_latencies_to_grpc : TrackLatencies → Option TrackLatenciesGrpc
track_latencies_to_grpc src = some (record {
  pre_transcoding_u = u64 src.pre_transcoding;
  transcoding_u = u64 src.transcoding;
  transcoded_pre_send_u = u64 src.transcoded_pre_send;
  sending_u = u64 src.sending;
})

-- `LatenciesToGRPC`
unfoldable pub latencies_to_grpc : Option Latencies → Option LatenciesGrpc
unfolding track_latencies_to_grpc
latencies_to_grpc none = none
latencies_to_grpc (some src) = some (record {
  audio = track_latencies_to_grpc src.audio;
  video = track_latencies_to_grpc src.video;
})

-- `TrackLatenciesFromGRPC`, with `nanosecondsToDuration`, which multiplies by one nanosecond
unfoldable pub track_latencies_from_grpc : Option TrackLatenciesGrpc → TrackLatencies
track_latencies_from_grpc none = record {
  pre_transcoding = pos 0;
  transcoding = pos 0;
  transcoded_pre_send = pos 0;
  sending = pos 0;
}
track_latencies_from_grpc (some src) = record {
  pre_transcoding = i64 src.pre_transcoding_u;
  transcoding = i64 src.transcoding_u;
  transcoded_pre_send = i64 src.transcoded_pre_send_u;
  sending = i64 src.sending_u;
}

-- `LatenciesFromGRPC`
unfoldable pub latencies_from_grpc : Option LatenciesGrpc → Option Latencies
unfolding track_latencies_from_grpc
latencies_from_grpc none = none
latencies_from_grpc (some src) = some (record {
  audio = track_latencies_from_grpc src.audio;
  video = track_latencies_from_grpc src.video;
})

-- Every field is an `int64`.
pub record AreInt64 (t : TrackLatencies) : Type 0 where
  pub pre_transcoding : IsInt64 t.pre_transcoding
  pub transcoding : IsInt64 t.transcoding
  pub transcoded_pre_send : IsInt64 t.transcoded_pre_send
  pub sending : IsInt64 t.sending

track-from-to :
    (t : TrackLatencies) → AreInt64 t → track_latencies_from_grpc (track_latencies_to_grpc t) ≡ t
unfolding track_latencies_from_grpc track_latencies_to_grpc
track-from-to t h = ground (
  arith,
  i64-u64 t.pre_transcoding h.pre_transcoding,
  i64-u64 t.transcoding h.transcoding,
  i64-u64 t.transcoded_pre_send h.transcoded_pre_send,
  i64-u64 t.sending h.sending,
)

-- Latencies, negative ones included, come back from their unsigned message as they were.
pub latencies-from-to :
    (src : Latencies)
    → AreInt64 src.audio
    → AreInt64 src.video
    → latencies_from_grpc (latencies_to_grpc (some src)) ≡ some src
unfolding latencies_from_grpc latencies_to_grpc
latencies-from-to src a v = ground (arith, track-from-to src.audio a, track-from-to src.video v)
