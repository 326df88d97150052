-- ===== src/Framing.antt =====
-- The binary local protocol of realtime/local.py: `LocalPcmFrame` and its 24-byte header
-- `struct.Struct("!4sBBHIQI")`. A payload or a header is a list of bytes. `struct.pack` raises
-- `struct.error` where a number does not fit its field.
pub mod RoundTrip
use simple_harness_service_s.Bytes.{Bytes, to_bytes, from_bytes}
use simple_harness_service_s.Common.{
  ℕ, ◌+◌, ◌*◌, ◌%◌, ◌^◌, ◌≡◌, refl, Bool, true, false, not, ◌||◌, ◌&&◌, List, [], ◌∷◌, ◌++◌, ltb,
  leb, if◌then◌else◌, length, take, drop, ◌==◌, nat_eq, Result, ok, raise, raise_if, error, ◌>>=◌,
  ◌>>◌, Exception, realtime_error, struct_error, RealtimeErrorCode, invalid_request, protocol_error,
}

pub data AudioDirection : Type 0 where
  input output : AudioDirection

pub record LocalPcmFrame : Type 0 where
  pub direction : AudioDirection
  pub generation : ℕ
  pub sequence : ℕ
  pub payload : Bytes

-- int(direction)
abbrev pub direction_code : AudioDirection → ℕ
direction_code input = 1
direction_code output = 2

-- AudioDirection(raw)
unfoldable pub direction_of : ℕ → Result AudioDirection
direction_of raw =
    if raw == 1 then ok input else if raw == 2 then ok output else error protocol_error

abbrev pub payload_limit : AudioDirection → ℕ
payload_limit input = 65536
payload_limit output = 262144

-- PCM_MAGIC, the text "SHRT", byte by byte
abbrev pub magic_0 : ℕ
magic_0 = b'S'

abbrev pub magic_1 : ℕ
magic_1 = b'H'

abbrev pub magic_2 : ℕ
magic_2 = b'R'

abbrev pub magic_3 : ℕ
magic_3 = b'T'

pub record Header : Type 0 where
  pub magic : ℕ
  pub version : ℕ
  pub raw_direction : ℕ
  pub flags : ℕ
  pub generation : ℕ
  pub sequence : ℕ
  pub size : ℕ

abbrev pub header_size : ℕ
header_size = 24

-- PCM_HEADER.pack, on fields that fit; the magic is the number that its four bytes spell
unfoldable pub pack_fields : Header → Bytes
pack_fields h =
    to_bytes 4 h.magic
    ++ (to_bytes 1 h.version
        ++ (to_bytes 1 h.raw_direction
            ++ (to_bytes 2 h.flags
                ++ (to_bytes 4 h.generation ++ (to_bytes 8 h.sequence ++ to_bytes 4 h.size)))))

unfoldable pub fits : Header → Bool
fits h =
    ltb h.magic (256 ^ 4)
    && (ltb h.version (256 ^ 1)
        && (ltb h.raw_direction (256 ^ 1)
            && (ltb h.flags (256 ^ 2)
                && (ltb h.generation (256 ^ 4)
                    && (ltb h.sequence (256 ^ 8) && ltb h.size (256 ^ 4))))))

unfoldable pub pack : Header → Result Bytes
pack h = if fits h then ok (pack_fields h) else raise struct_error

-- PCM_HEADER.unpack, on 24 bytes
unfoldable pub unpack : Bytes → Header
unpack b = record {
  magic = from_bytes (take 4 b);
  version = from_bytes (take 1 (drop 4 b));
  raw_direction = from_bytes (take 1 (drop 5 b));
  flags = from_bytes (take 2 (drop 6 b));
  generation = from_bytes (take 4 (drop 8 b));
  sequence = from_bytes (take 8 (drop 12 b));
  size = from_bytes (take 4 (drop 20 b));
}

abbrev pub pcm_magic : ℕ
pcm_magic = ((magic_0 * 256 + magic_1) * 256 + magic_2) * 256 + magic_3

abbrev pub pcm_version : ℕ
pcm_version = 1

abbrev pub header_of : LocalPcmFrame → Header
header_of f = record {
  magic = pcm_magic;
  version = pcm_version;
  raw_direction = direction_code f.direction;
  flags = 0;
  generation = f.generation;
  sequence = f.sequence;
  size = length f.payload;
}

unfoldable pub encode_pcm_frame : LocalPcmFrame → Result Bytes
encode_pcm_frame f = do
  raise_if (f.generation == 0 || f.sequence == 0) (realtime_error invalid_request false)
  raise_if (length f.payload == 0 || not (length f.payload % 2 == 0))
      (realtime_error invalid_request false)
  raise_if (ltb (payload_limit f.direction) (length f.payload))
      (realtime_error invalid_request false)
  header ← pack (header_of f)
  ok (header ++ f.payload)

-- What follows the unpacking of the header.
unfoldable pub check_frame : Header → Bytes → Result LocalPcmFrame
unfolding direction_of
check_frame h body = do
  raise_if (not (h.magic == pcm_magic) || (not (h.version == pcm_version) || not (h.flags == 0)))
      (realtime_error protocol_error false)
  direction ← direction_of h.raw_direction
  raise_if (not (h.size == length body)) (realtime_error protocol_error false)
  raise_if
      (h.generation == 0 || (h.sequence == 0 || (length body == 0 || not (length body % 2 == 0))))
      (realtime_error protocol_error false)
  raise_if (ltb (payload_limit direction) (length body)) (realtime_error protocol_error false)
  ok (record {
    direction = direction;
    generation = h.generation;
    sequence = h.sequence;
    payload = body;
  })

unfoldable pub decode_pcm_frame : Bytes → Result LocalPcmFrame
decode_pcm_frame payload = do
  raise_if (ltb (length payload) header_size) (realtime_error protocol_error false)
  check_frame (unpack (take header_size payload)) (drop header_size payload)
