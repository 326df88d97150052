-- ===== src/Outputs.antt =====
-- Which outputs of a call the local controller forwards: the audio branches of `_forward_events` of
-- realtime/local_channel.py, with `_remember_completed_output` and `_remember_terminal_response`.
pub mod Memory
use simple_harness_service_s.Bytes.{Bytes}
use simple_harness_service_s.Events.{ContentId}
use simple_harness_service_s.Window.{window_frames}
use simple_harness_service_s.Common.{
  ℕ, ◌+◌, Bool, true, false, not, ◌&&◌, ◌||◌, Option, none, some, is_some, List, [], ◌∷◌, ◌++◌,
  String, string_eq, nat_eq, pair_eq, ◌==◌, Eq, ltb, length, if◌then◌else◌, contains, add, discard,
}

pub record Outputs : Type 0 where
  pub active_output : Option ContentId
  pub completed_outputs : List ContentId
  pub completed_output_order : List ContentId
  pub terminal_responses : List String
  pub terminal_response_order : List String
  pub late_frame_count : ℕ

-- The `while` loop that forgets the oldest entries beyond the window, in the order and in the set.
unfoldable pub forget {ℓ} : {A : Type ℓ} ⦃e : Eq A⦄ → List A → List A → List A × List A
forget [] members = ([], members)
forget (expired ∷ order) members =
    let rest = forget order (discard expired members) in
    if ltb window_frames (length (expired ∷ order)) then rest else (expired ∷ order, members)

unfoldable pub remember_completed_output : ContentId → Outputs → Outputs
unfolding forget
remember_completed_output identity s =
    let kept =
      forget (s.completed_output_order ++ identity ∷ []) (add identity s.completed_outputs) in
    record s { completed_output_order = kept.0; completed_outputs = kept.1 }

unfoldable pub remember_terminal_response : String → Outputs → Outputs
unfolding forget
remember_terminal_response response_id s =
    let kept =
      forget (s.terminal_response_order ++ response_id ∷ [])
        (add response_id s.terminal_responses) in
    if contains s.terminal_responses response_id
    then s
    else record s { terminal_response_order = kept.0; terminal_responses = kept.1 }

-- The events of a session that these branches handle
pub data OutputEvent : Type 0 where
  started : ContentId → OutputEvent
  audio : ContentId → Bytes → OutputEvent
  completed : ContentId → OutputEvent
  finished : String → OutputEvent

-- What becomes of an event: it is counted as late, the call fails, or it is forwarded.
pub data Forwarding : Type 0 where
  late failed forwarded : Forwarding

abbrev pub is_active : ContentId → Outputs → Bool
is_active identity s = elim s.active_output [ none ↦ false | some active ↦ identity == active ]

abbrev pub count_late : Outputs → Outputs × Forwarding
count_late s = (record s { late_frame_count = s.late_frame_count + 1 }, late)

unfoldable pub is_over : ContentId → Outputs → Bool
is_over identity s =
    contains s.terminal_responses identity.0 || contains s.completed_outputs identity

-- The output of a finished response that is still active is completed.
unfoldable pub finish_output : String → Option ContentId → Outputs → Outputs
unfolding remember_completed_output
finish_output response_id none s = s
finish_output response_id (some active) s =
    if active.0 == response_id
    then remember_completed_output active (record s { active_output = none })
    else s

unfoldable pub forward : OutputEvent → Outputs → Outputs × Forwarding
unfolding remember_completed_output remember_terminal_response is_over finish_output
forward (started identity) s =
    if contains s.terminal_responses identity.0
    then count_late s
    else if is_some s.active_output && not (is_active identity s)
    then (s, failed)
    else if contains s.completed_outputs identity
    then count_late s
    else (record s { active_output = some identity }, forwarded)
forward (audio identity pcm) s =
    if is_over identity s
    then count_late s
    else if not (is_active identity s)
    then (s, failed)
    else (s, forwarded)
forward (completed identity) s =
    if is_over identity s
    then count_late s
    else if not (is_active identity s)
    then (s, failed)
    else (remember_completed_output identity (record s { active_output = none }), forwarded)
forward (finished response_id) s = (
  finish_output response_id s.active_output (remember_terminal_response response_id s),
  forwarded,
)
