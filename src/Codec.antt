-- ===== src/Codec.antt =====
-- The length-framed JSON protocol of codec.py: `encode_frame`, `decode_payload` and the incremental
-- `FrameDecoder`. The JSON text of a value is taken as an interface: `dumps` writes the payload bytes
-- of an object, `loads` reads them back or fails.
pub mod Loop
pub mod Chunks
use simple_harness_service_s.Bytes.{Bytes, to_bytes, from_bytes}
use simple_harness_service_s.Common.{
  ℕ, zero, suc, ◌+◌, ◌*◌, ◌≡◌, Bool, true, false, Option, none, some, List, [], ◌∷◌, ◌++◌, ltb, leb,
  length, take, drop, if◌then◌else◌, arith,
}

-- FRAME_MAX_BYTES
abbrev pub frame_max_bytes : ℕ
frame_max_bytes = 1024 * 1024

-- The codes of `ServiceError` that the codec raises.
pub data CodecError : Type 0 where
  payload_too_large invalid_request : CodecError

pub data Framed {ℓ} (A : Type ℓ) : Type ℓ where
  ok : A → Framed A
  raise : CodecError → Framed A

-- What is used of the JSON library, on objects with text keys.
pub record Json : Type 1 where
  pub Object : Type 0
  pub dumps : Object → Bytes
  pub loads : Bytes → Option Object
  pub loads-dumps : (v : Object) → loads (dumps v) ≡ some v

module _ (json : Json) where
  open json use {Object, dumps, loads}

  unfoldable pub encode_frame : Object → Framed Bytes
  encode_frame value =
      let payload = dumps value in
      if ltb frame_max_bytes (length payload)
      then raise payload_too_large
      else ok (to_bytes 4 (length payload) ++ payload)

  unfoldable pub decode_payload : Bytes → Framed Object
  decode_payload payload =
      if ltb frame_max_bytes (length payload)
      then raise payload_too_large
      else elim (loads payload) [ none ↦ raise invalid_request | some v ↦ ok v ]

  -- What is left in the buffer, with the frames or the error of one call of `feed`.
  unfoldable pub after_payload :
      Framed Object → Framed (List Object) × Bytes → Bytes → Framed (List Object) × Bytes
  after_payload (raise e) later rest = (raise e, rest)
  after_payload (ok v) (ok frames, left) rest = (ok (v ∷ frames), left)
  after_payload (ok v) (raise e, left) rest = (raise e, left)

  -- The `while` loop of `feed`. Each round takes at least the four bytes of a length out of the
  -- buffer, so the buffer's length is fuel enough.
  unfoldable pub decode_frames : ℕ → Bytes → Framed (List Object) × Bytes
  unfolding after_payload
  decode_frames zero buffer = (ok [], buffer)
  decode_frames (suc fuel) buffer =
      let size = from_bytes (take 4 buffer) in
      let rest = drop (4 + size) buffer in
      let later = decode_frames fuel rest in
      if ltb (length buffer) 4
      then (ok [], buffer)
      else if ltb frame_max_bytes size
      then (raise payload_too_large, buffer)
      else if ltb (length buffer) (4 + size)
      then (ok [], buffer)
      else after_payload (decode_payload (take size (drop 4 buffer))) later rest

  -- `FrameDecoder.feed`, from the bytes buffered so far
  unfoldable pub feed : Bytes → Bytes → Framed (List Object) × Bytes
  unfolding decode_frames
  feed buffer chunk = decode_frames (length (buffer ++ chunk)) (buffer ++ chunk)
