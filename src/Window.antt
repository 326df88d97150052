-- ===== src/Window.antt =====
-- `_InputWindow` of realtime/local_channel.py: the reassembly of input PCM frames that arrive out of
-- order. `pending` is the dictionary of payloads that wait for an earlier sequence number.
pub mod Spec
pub mod Drain
pub mod Accept
pub mod Stream
use simple_harness_service_s.Bytes.{Bytes}
use simple_harness_service_s.Framing.{LocalPcmFrame, AudioDirection, input, output}
use simple_harness_service_s.Common.{
  ℕ, zero, suc, ◌+◌, ◌-◌, Bool, true, false, not, ◌||◌, Option, none, some, List, [], ◌∷◌, ◌++◌,
  ltb, leb, is_some, if◌then◌else◌, length, ◌==◌, nat_eq, Dict, get, put, remove, Result, ok, raise,
  raise_if, ◌>>=◌, ◌>>◌, realtime_error, protocol_error, busy,
}

-- _WINDOW_FRAMES
abbrev pub window_frames : ℕ
window_frames = 64

-- _WINDOW_BYTES
abbrev pub window_bytes : ℕ
window_bytes = 1048576

pub record InputWindow : Type 0 where
  pub generation : ℕ
  pub highest_contiguous : ℕ
  pub pending : Dict ℕ Bytes
  pub pending_bytes : ℕ

unfoldable pub init : ℕ → InputWindow
init generation = record {
  generation = generation;
  highest_contiguous = 0;
  pending = [];
  pending_bytes = 0;
}

-- The body of the `while` loop, on the payload that it pops.
unfoldable pub pop_next : InputWindow → Bytes → InputWindow
pop_next w payload = record w {
  highest_contiguous = w.highest_contiguous + 1;
  pending = remove (w.highest_contiguous + 1) w.pending;
  pending_bytes = w.pending_bytes - length payload;
}

-- The `while` loop. Each round takes an entry out of `pending`, whose length is the fuel.
unfoldable pub drain : ℕ → InputWindow → List Bytes → InputWindow × List Bytes
drain zero w ready = (w, ready)
drain (suc fuel) w ready = elim (get w.pending (w.highest_contiguous + 1)) [
  | none ↦ (w, ready)
  | some payload ↦ drain fuel (pop_next w payload) (ready ++ payload ∷ [])
]

abbrev pub is_input : AudioDirection → Bool
is_input input = true
is_input output = false

unfoldable pub insert_pending : InputWindow → LocalPcmFrame → InputWindow
insert_pending w frame = record w {
  pending = put frame.sequence frame.payload w.pending;
  pending_bytes = w.pending_bytes + length frame.payload;
}

-- `accept` once the frame is new and fits: it is stored, and what has become contiguous is taken.
unfoldable pub store_frame : InputWindow → LocalPcmFrame → InputWindow × List Bytes
unfolding insert_pending
store_frame w frame = let stored = insert_pending w frame in drain (length stored.pending) stored []

unfoldable pub accept : InputWindow → LocalPcmFrame → Result (InputWindow × List Bytes)
accept w frame = if not (frame.generation == w.generation) then ok (w, []) else do
  raise_if (not (is_input frame.direction)) (realtime_error protocol_error false)
  if leb frame.sequence w.highest_contiguous || is_some (get w.pending frame.sequence)
      then ok (w, [])
      else do
        raise_if (ltb (w.highest_contiguous + window_frames) frame.sequence)
            (realtime_error protocol_error false)
        raise_if (ltb window_bytes (w.pending_bytes + length frame.payload))
            (realtime_error busy false)
        ok (store_frame w frame)
