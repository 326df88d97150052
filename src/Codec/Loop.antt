-- ===== src/Codec/Loop.antt =====
-- The loop of `feed` does not depend on how much more fuel it has than the buffer is long.
use simple_harness_service_s.Bytes.{Bytes, from_bytes}
use simple_harness_service_s.Codec.{Json, decode_frames}
use simple_harness_service_s.Common.{
  ℕ, zero, suc, ◌+◌, ◌≤◌, ◌≡◌, refl, false, [], ◌∷◌, ltb, length, length-drop, take, drop, arith,
  Bool-cases, inl, inr, ltb→ge,
}

module _ (json : Json) where
  shorter :
      (fuel size : ℕ) (buffer : Bytes)
      → length buffer ≤ suc fuel
      → ltb (length buffer) (4 + size) ≡ false
      → length (drop (4 + size) buffer) ≤ fuel
  shorter fuel size buffer h l =
      omega (arith, length-drop (4 + size) buffer, ltb→ge (length buffer) (4 + size) l)

  pub decode_frames_fuel :
      (f g : ℕ) (buffer : Bytes)
      → length buffer ≤ f
      → length buffer ≤ g
      → decode_frames json f buffer ≡ decode_frames json g buffer
  unfolding decode_frames
  decode_frames_fuel zero zero buffer hf hg = refl
  decode_frames_fuel zero (suc g) [] hf hg = refl
  decode_frames_fuel zero (suc g) (b ∷ buffer) hf hg = absurd (omega arith)
  decode_frames_fuel (suc f) zero [] hf hg = refl
  decode_frames_fuel (suc f) zero (b ∷ buffer) hf hg = absurd (omega arith)
  decode_frames_fuel (suc f) (suc g) buffer hf hg =
      let size = from_bytes (take 4 buffer) in
      elim (Bool-cases (ltb (length buffer) (4 + size))) [
        | inl short ↦ ground arith
        | inr long ↦ rw (
            decode_frames_fuel f g (drop (4 + size) buffer) (shorter f size buffer hf long)
              (shorter g size buffer hg long))
      ]
