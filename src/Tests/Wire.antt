-- ===== src/Tests/Wire.antt =====
-- The wire formats and the durable commands, on small inputs.
use simple_harness_service_s.Bytes.{Bytes, IsBytes, to_bytes, from_bytes_acc}
use simple_harness_service_s.Framing.{
  LocalPcmFrame, output, encode_pcm_frame, decode_pcm_frame, pack, fits, pack_fields, check_frame,
  unpack,
}
use simple_harness_service_s.Framing.RoundTrip.{decode-encode, encode-decode}
use simple_harness_service_s.Codec.{Json, Framed, feed}
use simple_harness_service_s.Codec.Chunks.{stream, feed-stream, then_feed, feed-append}
use simple_harness_service_s.Commands.{
  CommandState, CommandKind, OutputState, RunState, CommandOutcome, closed_outcome,
}
use simple_harness_service_s.Commands.Outcome.{completed-only, ended-not_pending}
use simple_harness_service_s.Common.{
  ◌≡◌, ◌≢◌, ◌⊎◌, refl, false, none, some, [], ◌∷◌, ◌++◌, ok, arith,
}

abbrev spoken : LocalPcmFrame
spoken = record { direction = output; generation = 3; sequence = 7; payload = 1 ∷ 2 ∷ [] }

abbrev spoken_bytes : Bytes
spoken_bytes =
    b'S' ∷ b'H' ∷ b'R' ∷ b'T' ∷ 1 ∷ 2 ∷ 0 ∷ 0 ∷ 0 ∷ 0 ∷ 0 ∷ 3 ∷ 0 ∷ 0 ∷ 0 ∷ 0 ∷ 0 ∷ 0 ∷ 0 ∷ 7 ∷ 0
    ∷ 0 ∷ 0 ∷ 2 ∷ 1 ∷ 2 ∷ []

spoken_encoded : encode_pcm_frame spoken ≡ ok spoken_bytes
unfolding encode_pcm_frame to_bytes pack fits pack_fields
spoken_encoded = refl

spoken_decoded : decode_pcm_frame spoken_bytes ≡ ok spoken
unfolding decode_pcm_frame from_bytes_acc check_frame unpack
spoken_decoded = refl

spoken_IsBytes : IsBytes spoken_bytes
spoken_IsBytes = (
  omega arith,
  (
    omega arith,
    (
      omega arith,
      (
        omega arith,
        (
          omega arith,
          (
            omega arith,
            (
              omega arith,
              (
                omega arith,
                (
                  omega arith,
                  (
                    omega arith,
                    (
                      omega arith,
                      (
                        omega arith,
                        (
                          omega arith,
                          (
                            omega arith,
                            (
                              omega arith,
                              (
                                omega arith,
                                (
                                  omega arith,
                                  (
                                    omega arith,
                                    (
                                      omega arith,
                                      (
                                        omega arith,
                                        (
                                          omega arith,
                                          (
                                            omega arith,
                                            (
                                              omega arith,
                                              (omega arith, (omega arith, (omega arith, tt))),
                                            ),
                                          ),
                                        ),
                                      ),
                                    ),
                                  ),
                                ),
                              ),
                            ),
                          ),
                        ),
                      ),
                    ),
                  ),
                ),
              ),
            ),
          ),
        ),
      ),
    ),
  ),
)

decode-encode_example : decode_pcm_frame spoken_bytes ≡ ok spoken
decode-encode_example = decode-encode spoken spoken_encoded

encode-decode_example : encode_pcm_frame spoken ≡ ok spoken_bytes
encode-decode_example = encode-decode spoken_bytes spoken spoken_IsBytes spoken_decoded

-- A JSON library for objects that are lists of numbers: the text of one is the list itself.
abbrev plain_json : Json
plain_json = record { Object = Bytes; dumps = λ v. v; loads = λ p. some p; loads-dumps = λ v. refl }

feed-stream_example :
    feed plain_json [] (stream plain_json ((1 ∷ 2 ∷ []) ∷ [] ∷ []))
    ≡ (Framed.ok ((1 ∷ 2 ∷ []) ∷ [] ∷ []), [])
feed-stream_example =
    feed-stream plain_json ((1 ∷ 2 ∷ []) ∷ [] ∷ []) (omega arith, (omega arith, tt))

feed-append_example :
    feed plain_json (0 ∷ []) ((0 ∷ 0 ∷ []) ++ (1 ∷ 5 ∷ []))
    ≡ then_feed plain_json (feed plain_json (0 ∷ []) (0 ∷ 0 ∷ [])) (1 ∷ 5 ∷ [])
feed-append_example = feed-append plain_json (0 ∷ []) (0 ∷ 0 ∷ []) (1 ∷ 5 ∷ [])

completed-only_example :
    (some RunState.completed ≡ some RunState.completed)
    × (false ≡ false)
    × ((OutputState.present ≡ OutputState.present) ⊎ (OutputState.present ≡ OutputState.absent))
unfolding closed_outcome
completed-only_example =
    completed-only CommandState.applied OutputState.present (some RunState.completed)
      (some CommandKind.start) refl

ended-not_pending_example :
    closed_outcome CommandState.applied OutputState.pending (some RunState.failed) none
    ≢ CommandOutcome.pending
ended-not_pending_example =
    ended-not_pending CommandState.applied OutputState.pending (some RunState.failed) none refl refl
