-- ===== src/Codec/Chunks.antt =====
-- What `FrameDecoder.feed` returns for the frames that `encode_frame` writes.
use simple_harness_service_s.Bytes.{
  Bytes, to_bytes, from_bytes, length-to_bytes, from_bytes-to_bytes,
}
use simple_harness_service_s.Codec.{
  Json, Framed, ok, raise, decode_frames, decode_payload, after_payload, feed, frame_max_bytes,
}
use simple_harness_service_s.Codec.Loop.{decode_frames_fuel}
use simple_harness_service_s.Common.{
  ℕ, zero, suc, ◌+◌, ◌≤◌, ◌≡◌, refl, ap, ◌∙◌, sym, false, List, [], ◌∷◌, ◌++◌, ltb, length,
  length-append, length-drop, take, drop, arith, Bool-cases, inl, inr, ltb→ge, take-append_of_le,
  drop-append_of_le, ge→ltb, take-append, drop-append, drop-drop, All, append_assoc,
}

module _ (json : Json) where
  open json use {Object, dumps, loads, loads-dumps}

  -- A payload within the limit
  abbrev pub Fits : Object → Type 0
  Fits v = length (dumps v) ≤ frame_max_bytes

  -- The bytes of some objects, one frame after the other
  unfoldable pub stream : List Object → Bytes
  stream [] = []
  stream (v ∷ vs) = to_bytes 4 (length (dumps v)) ++ dumps v ++ stream vs

  decode_payload-dumps : (v : Object) → Fits v → decode_payload json (dumps v) ≡ ok v
  unfolding decode_payload
  decode_payload-dumps v h = rw (ge→ltb frame_max_bytes (length (dumps v)) h, loads-dumps v)

  -- What a round of the loop makes of a buffer that starts with a whole frame.
  decode_one :
      (fuel : ℕ) (v : Object) (rest : Bytes)
      → Fits v
      → decode_frames json (suc fuel) (to_bytes 4 (length (dumps v)) ++ dumps v ++ rest)
        ≡ after_payload json (ok v) (decode_frames json fuel rest) rest
  unfolding decode_frames to_bytes
  decode_one fuel v rest h =
      let n = length (dumps v) in
      let head = to_bytes 4 n in
      let four : length head ≡ 4 = length-to_bytes 4 n in
      let size : from_bytes (take 4 (head ++ dumps v ++ rest)) ≡ n =
        ap from_bytes (take-append head (dumps v ++ rest) 4 four)
        ∙ from_bytes-to_bytes 4 n (omega (arith, h)) in
      let body : drop 4 (head ++ dumps v ++ rest) ≡ dumps v ++ rest =
        drop-append head (dumps v ++ rest) 4 four in
      let after : drop (4 + n) (head ++ dumps v ++ rest) ≡ rest =
        sym (drop-drop 4 n (head ++ dumps v ++ rest))
        ∙ rw body (drop-append (dumps v) rest n refl) in
      let long : 4 + n ≤ length (head ++ dumps v ++ rest) =
        omega (arith, four, length-append head (dumps v ++ rest), length-append (dumps v) rest) in
      rw (
        size,
        body,
        after,
        take-append (dumps v) rest n refl,
        decode_payload-dumps v h,
        ge→ltb (length (head ++ dumps v ++ rest)) 4 (omega (arith, long)),
        ge→ltb frame_max_bytes n h,
        ge→ltb (length (head ++ dumps v ++ rest)) (4 + n) long,
      )

  decode_stream :
      (fuel : ℕ) (vs : List Object)
      → All Fits vs
      → length (stream vs) ≤ fuel
      → decode_frames json fuel (stream vs) ≡ (ok vs, [])
  unfolding stream decode_frames after_payload to_bytes
  decode_stream zero [] h l = refl
  decode_stream (suc fuel) [] h l = refl
  decode_stream zero (v ∷ vs) h l = absurd (
      omega (
        arith,
        l,
        length-append (to_bytes 4 (length (dumps v))) (dumps v ++ stream vs),
        length-to_bytes 4 (length (dumps v)),
      ))
  decode_stream (suc fuel) (v ∷ vs) h l =
      let shorter : length (stream vs) ≤ fuel = omega (
        arith,
        l,
        length-append (to_bytes 4 (length (dumps v))) (dumps v ++ stream vs),
        length-append (dumps v) (stream vs),
        length-to_bytes 4 (length (dumps v)),
      ) in
      decode_one fuel v (stream vs) h.0 ∙ rw (decode_stream fuel vs h.1 shorter)

  -- A decoder with nothing buffered that is fed the frames of some objects, each with a payload of at
  -- most FRAME_MAX_BYTES, returns exactly these objects and keeps nothing buffered.
  pub feed-stream : (vs : List Object) → All Fits vs → feed json [] (stream vs) ≡ (ok vs, [])
  unfolding feed
  feed-stream vs h = decode_stream (length (stream vs)) vs h (omega arith)

  unfoldable pub prepend : List Object → Framed (List Object) × Bytes → Framed (List Object) × Bytes
  prepend vs (ok ws, left) = (ok (vs ++ ws), left)
  prepend vs (raise e, left) = (raise e, left)

  -- Feeding a second chunk after a first that gave a result and left a buffer.
  unfoldable pub then_feed : Framed (List Object) × Bytes → Bytes → Framed (List Object) × Bytes
  then_feed (ok vs, left) chunk = prepend vs (feed json left chunk)
  then_feed (raise e, left) chunk = (raise e, left ++ chunk)

  prepend_nothing : (r : Framed (List Object) × Bytes) → prepend [] r ≡ r
  unfolding prepend
  prepend_nothing (ok vs, left) = refl
  prepend_nothing (raise e, left) = refl

  after_payload-prepend :
      (v : Object) (vs : List Object) (r : Framed (List Object) × Bytes) (rest : Bytes)
      → after_payload json (ok v) (prepend vs r) rest ≡ prepend (v ∷ vs) r
  unfolding prepend after_payload
  after_payload-prepend v vs (ok ws, left) rest = refl
  after_payload-prepend v vs (raise e, left) rest = refl

  after_payload-then_feed :
      (p : Framed Object) (r : Framed (List Object) × Bytes) (rest chunk : Bytes)
      → after_payload json p (then_feed r chunk) (rest ++ chunk)
        ≡ then_feed (after_payload json p r rest) chunk
  unfolding after_payload then_feed
  after_payload-then_feed (raise e) r rest chunk = refl
  after_payload-then_feed (ok v) (ok vs, left) rest chunk =
      after_payload-prepend v vs (feed json left chunk) (rest ++ chunk)
  after_payload-then_feed (ok v) (raise e, left) rest chunk = refl

  waiting_lem :
      (fuel : ℕ) (b chunk : Bytes)
      → length (b ++ chunk) ≤ fuel
      → decode_frames json fuel (b ++ chunk) ≡ then_feed (ok [], b) chunk
  unfolding then_feed feed
  waiting_lem fuel b chunk l =
      decode_frames_fuel json fuel (length (b ++ chunk)) (b ++ chunk) l (omega arith)
      ∙ sym (prepend_nothing _)

  decode-append_round :
      (f g : ℕ) (b chunk : Bytes)
      → ltb (length b) 4 ≡ false
      → ltb frame_max_bytes (from_bytes (take 4 b)) ≡ false
      → ltb (length b) (4 + from_bytes (take 4 b)) ≡ false
      → decode_frames json g (drop (4 + from_bytes (take 4 b)) b ++ chunk)
        ≡ then_feed (decode_frames json f (drop (4 + from_bytes (take 4 b)) b)) chunk
      → decode_frames json (suc g) (b ++ chunk) ≡ then_feed (decode_frames json (suc f) b) chunk
  unfolding decode_frames
  decode-append_round f g b chunk four small long ih =
      let size = from_bytes (take 4 b) in
      let wide : 4 + size ≤ length b = ltb→ge (length b) (4 + size) long in
      let head : take 4 (b ++ chunk) ≡ take 4 b =
        take-append_of_le 4 b chunk (ltb→ge (length b) 4 four) in
      let rest : drop (4 + size) (b ++ chunk) ≡ drop (4 + size) b ++ chunk =
        drop-append_of_le (4 + size) b chunk wide in
      let body : take size (drop 4 (b ++ chunk)) ≡ take size (drop 4 b) =
        ap (take size) (drop-append_of_le 4 b chunk (ltb→ge (length b) 4 four))
        ∙ take-append_of_le size (drop 4 b) chunk (omega (arith, wide, length-drop 4 b)) in
      let total = length-append b chunk in
      rw
        (
          four,
          small,
          long,
          head,
          small,
          rest,
          body,
          ih,
          ge→ltb (length (b ++ chunk)) 4 (omega (arith, total, wide)),
          ge→ltb (length (b ++ chunk)) (4 + size) (omega (arith, total, wide)),
        )
        (after_payload-then_feed (decode_payload json (take size (drop 4 b)))
          (decode_frames json f (drop (4 + size) b)) (drop (4 + size) b) chunk)

  decode-append :
      (f g : ℕ) (b chunk : Bytes)
      → length b ≤ f
      → length (b ++ chunk) ≤ g
      → decode_frames json g (b ++ chunk) ≡ then_feed (decode_frames json f b) chunk
  unfolding decode_frames then_feed
  decode-append zero g [] chunk hf hg = waiting_lem g [] chunk hg
  decode-append zero g (x ∷ b) chunk hf hg = absurd (omega arith)
  decode-append (suc f) zero [] chunk hf hg = waiting_lem zero [] chunk hg
  decode-append (suc f) zero (x ∷ b) chunk hf hg = absurd (omega arith)
  decode-append (suc f) (suc g) b chunk hf hg =
      let size = from_bytes (take 4 b) in
      let rest = drop (4 + size) b in
      elim (Bool-cases (ltb (length b) 4)) [
        | inl short ↦ waiting_lem (suc g) b chunk hg ∙ rw short
        | inr four ↦
            let head : take 4 (b ++ chunk) ≡ take 4 b =
              take-append_of_le 4 b chunk (ltb→ge (length b) 4 four) in
            elim (Bool-cases (ltb frame_max_bytes size)) [
              | inl large ↦ rw (
                head,
                large,
                four,
                ge→ltb (length (b ++ chunk)) 4
                    (omega (arith, length-append b chunk, ltb→ge (length b) 4 four)),
              )
              | inr small ↦ elim (Bool-cases (ltb (length b) (4 + size))) [
                | inl short ↦ waiting_lem (suc g) b chunk hg ∙ rw (four, small, short)
                | inr long ↦ decode-append_round f g b chunk four small long (
                    decode-append f g rest chunk
                      (omega
                        (arith, hf, length-drop (4 + size) b, ltb→ge (length b) (4 + size) long))
                      (omega (
                        arith,
                        hg,
                        length-append rest chunk,
                        length-append b chunk,
                        length-drop (4 + size) b,
                        ltb→ge (length b) (4 + size) long,
                      )))
              ]
            ]
      ]

  -- Where the bytes of the wire are cut into chunks does not matter: feeding two chunks as one gives
  -- what feeding the first and then the second gives, the objects of both in order and the same
  -- bytes left in the buffer; and an error of the first is the error of the whole.
  pub feed-append :
      (buffer x y : Bytes) → feed json buffer (x ++ y) ≡ then_feed (feed json buffer x) y
  unfolding feed
  feed-append buffer x y = rw (← append_assoc buffer x y) (
      decode-append (length (buffer ++ x)) (length ((buffer ++ x) ++ y)) (buffer ++ x) y
        (omega arith) (omega arith))
