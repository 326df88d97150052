-- ===== src/Framing/RoundTrip.antt =====
-- encode_pcm_frame and decode_pcm_frame against each other.
use simple_harness_service_s.Bytes.{
  Bytes, IsBytes, to_bytes, from_bytes, from_bytes-to_bytes, from_bytes-lt, to_bytes-from_bytes,
}
use simple_harness_service_s.Framing.{
  LocalPcmFrame, Header, header_of, pack, pack_fields, fits, unpack, encode_pcm_frame, check_frame,
  decode_pcm_frame,
}
use simple_harness_service_s.Common.{
  ℕ, ◌+◌, ◌^◌, ◌≡◌, refl, ◌∙◌, true, ◌++◌, arith, length, take, drop, ok, ◌≤◌, ◌<◌, take-append,
  drop-append, length-append, ge→ltb, length-take_of_le, length-drop, All-take, All-drop,
  take-append-drop, drop-drop, drop_all, append-nil, lt→ltb, ltb→ge, ltb, inl, inr, Bool-cases,
}

unpack-pack_fields : (h : Header) → fits h ≡ true → unpack (pack_fields h) ≡ h
unfolding pack_fields unpack fits to_bytes
unpack-pack_fields h p = λ i. record {
  magic = from_bytes-to_bytes 4 h.magic (ground arith) i;
  version = from_bytes-to_bytes 1 h.version (ground arith) i;
  raw_direction = from_bytes-to_bytes 1 h.raw_direction (ground arith) i;
  flags = from_bytes-to_bytes 2 h.flags (ground arith) i;
  generation = from_bytes-to_bytes 4 h.generation (ground arith) i;
  sequence = from_bytes-to_bytes 8 h.sequence (ground arith) i;
  size = from_bytes-to_bytes 4 h.size (ground arith) i;
}

length-pack_fields : (h : Header) → length (pack_fields h) ≡ 24
unfolding pack_fields to_bytes
length-pack_fields h = refl

check_frame-header_of :
    (f : LocalPcmFrame) {bs : Bytes}
    → encode_pcm_frame f ≡ ok bs
    → (bs ≡ pack_fields (header_of f) ++ f.payload)
      × (fits (header_of f) ≡ true)
      × (check_frame (header_of f) f.payload ≡ ok f)
unfolding encode_pcm_frame check_frame pack
check_frame-header_of f h = ground arith

-- Decoding the bytes of an encoded frame gives the frame back.
pub decode-encode :
    (f : LocalPcmFrame) {bs : Bytes} → encode_pcm_frame f ≡ ok bs → decode_pcm_frame bs ≡ ok f
unfolding decode_pcm_frame
decode-encode f h =
    let (split, fit, checked) = check_frame-header_of f h in
    let head = pack_fields (header_of f) in
    let size = length-pack_fields (header_of f) in
    let first : take 24 (head ++ f.payload) ≡ head = take-append head f.payload 24 size in
    let rest : drop 24 (head ++ f.payload) ≡ f.payload = drop-append head f.payload 24 size in
    let long : 24 ≤ length (head ++ f.payload) =
      omega (arith, length-append head f.payload, size) in
    rw
      (
        split,
        ge→ltb (length (head ++ f.payload)) 24 long,
        first,
        rest,
        unpack-pack_fields (header_of f) fit,
      )
      checked

-- One field of a byte string, read and written again in front of what follows it.
peel :
    (k j : ℕ) (b : Bytes)
    → IsBytes b
    → k + j ≤ length b
    → to_bytes j (from_bytes (take j (drop k b))) ++ drop (k + j) b ≡ drop k b
peel k j b h l =
    let short : length (take j (drop k b)) ≡ j =
      length-take_of_le j (drop k b) (omega (arith, length-drop k b)) in
    let field : to_bytes j (from_bytes (take j (drop k b))) ≡ take j (drop k b) =
      rw short at (to_bytes-from_bytes (take j (drop k b)) (All-take _ j _ (All-drop _ k b h))) in
    rw (field, ← drop-drop k j b) (take-append-drop j (drop k b))

pack_fields-unpack : (b : Bytes) → IsBytes b → length b ≡ 24 → pack_fields (unpack b) ≡ b
unfolding pack_fields unpack
pack_fields-unpack b h l = cc (
  peel 0 4 b h (omega arith),
  peel 4 1 b h (omega arith),
  peel 5 1 b h (omega arith),
  peel 6 2 b h (omega arith),
  peel 8 4 b h (omega arith),
  peel 12 8 b h (omega arith),
  peel 20 4 b h (omega arith),
  drop_all b l,
  append-nil (to_bytes 4 (from_bytes (take 4 (drop 20 b)))),
)

field_lt :
    (k j : ℕ) (b : Bytes) → IsBytes b → k + j ≤ length b → from_bytes (take j (drop k b)) < 256 ^ j
field_lt k j b h l =
    let short : length (take j (drop k b)) ≡ j =
      length-take_of_le j (drop k b) (omega (arith, length-drop k b)) in
    rw short at (from_bytes-lt (take j (drop k b)) (All-take _ j _ (All-drop _ k b h)))

fits-unpack : (b : Bytes) → IsBytes b → length b ≡ 24 → fits (unpack b) ≡ true
unfolding fits unpack
fits-unpack b h l = rw (
  lt→ltb _ (256 ^ 4) (field_lt 0 4 b h (omega arith)),
  lt→ltb _ (256 ^ 1) (field_lt 4 1 b h (omega arith)),
  lt→ltb _ (256 ^ 1) (field_lt 5 1 b h (omega arith)),
  lt→ltb _ (256 ^ 2) (field_lt 6 2 b h (omega arith)),
  lt→ltb _ (256 ^ 4) (field_lt 8 4 b h (omega arith)),
  lt→ltb _ (256 ^ 8) (field_lt 12 8 b h (omega arith)),
  lt→ltb _ (256 ^ 4) (field_lt 20 4 b h (omega arith)),
)

-- An accepted header and body are those of the frame that is returned.
check_frame-header :
    (h : Header) (body : Bytes) (f : LocalPcmFrame)
    → check_frame h body ≡ ok f
    → (h ≡ header_of f) × (body ≡ f.payload)
unfolding check_frame
check_frame-header h body f e = ground arith

check_frame-guards :
    (f : LocalPcmFrame)
    → check_frame (header_of f) f.payload ≡ ok f
    → fits (header_of f) ≡ true
    → encode_pcm_frame f ≡ ok (pack_fields (header_of f) ++ f.payload)
unfolding check_frame encode_pcm_frame pack
check_frame-guards f e p = ground arith

check_frame-encode :
    (h : Header) (body : Bytes) (f : LocalPcmFrame)
    → check_frame h body ≡ ok f
    → fits h ≡ true
    → encode_pcm_frame f ≡ ok (pack_fields h ++ body)
check_frame-encode h body f e p =
    let (same, payload) = check_frame-header h body f e in
    rw (same, payload) (check_frame-guards f (rw (same, payload) at e) (rw same at p))

-- A byte string that decodes is the one that encoding the frame writes: there is no other spelling
-- of a frame.
pub encode-decode :
    (bs : Bytes) (f : LocalPcmFrame)
    → IsBytes bs
    → decode_pcm_frame bs ≡ ok f
    → encode_pcm_frame f ≡ ok bs
unfolding decode_pcm_frame
encode-decode bs f b h = elim (Bool-cases (ltb (length bs) 24)) [
  | inl short ↦ absurd (ground arith)
  | inr long ↦
      let n : length (take 24 bs) ≡ 24 = length-take_of_le 24 bs (ltb→ge _ 24 long) in
      let small = All-take _ 24 bs b in
      let checked : check_frame (unpack (take 24 bs)) (drop 24 bs) ≡ ok f = ground arith in
      check_frame-encode (unpack (take 24 bs)) (drop 24 bs) f checked (fits-unpack _ small n)
      ∙ rw (pack_fields-unpack (take 24 bs) small n, take-append-drop 24 bs)
]
