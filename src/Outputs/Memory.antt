-- ===== src/Outputs/Memory.antt =====
-- How much the controller remembers of outputs and responses (realtime/local_channel.py).
use simple_harness_service_s.Window.{window_frames}
use simple_harness_service_s.Events.{ContentId}
use simple_harness_service_s.Outputs.{
  Outputs, forget, remember_completed_output, remember_terminal_response, OutputEvent, started,
  audio, completed, finished, Forwarding, failed, forwarded, is_active, is_over, count_late,
  finish_output, forward,
}
use simple_harness_service_s.Common.{
  ℕ, ◌+◌, ◌≡◌, true, contains-add, contains-append, contains-discard, contains-cons, none, ◌≤◌, not,
  ◌&&◌, Option, none, some, is_some, List, [], ◌∷◌, ◌++◌, String, string_eq, pair_eq, nat_eq, ◌==◌,
  Eq, ltb, ltb→ge, length, if-split, contains, add, discard, arith,
}

-- The orders are short, and each set holds nothing but what stands in its order.
pub record IsBounded (s : Outputs) : Type 0 where
  pub few_outputs : length s.completed_output_order ≤ window_frames
  pub few_responses : length s.terminal_response_order ≤ window_frames
  pub outputs_in_order :
      (a : ContentId)
      → contains s.completed_outputs a ≡ true
      → contains s.completed_output_order a ≡ true
  pub responses_in_order :
      (a : String)
      → contains s.terminal_responses a ≡ true
      → contains s.terminal_response_order a ≡ true

length-forget :
    {A : Type 0} ⦃e : Eq A⦄ (order members : List A)
    → length (forget order members).0 ≤ window_frames
unfolding forget
length-forget [] members = omega arith
length-forget (x ∷ order) members =
    if-split (λ r. length r.0 ≤ window_frames) (ltb window_frames (length (x ∷ order)))
      (forget order (discard x members)) (x ∷ order, members)
      (λ h. length-forget order (discard x members))
      (λ h. ltb→ge window_frames (length (x ∷ order)) h)

-- What expires leaves the set, too.
forget-in_order :
    {A : Type 0} ⦃e : Eq A⦄ (order members : List A)
    → ((a : A) → contains members a ≡ true → contains order a ≡ true)
    → (a : A) → contains (forget order members).1 a ≡ true
    → contains (forget order members).0 a ≡ true
unfolding forget
forget-in_order [] members h = h
forget-in_order (x ∷ order) members h =
    if-split (λ r. (a : _) → contains r.1 a ≡ true → contains r.0 a ≡ true)
      (ltb window_frames (length (x ∷ order))) (forget order (discard x members))
      (x ∷ order, members)
      (λ k.
        forget-in_order order (discard x members)
          (λ a m. ground (arith, h a, contains-discard x members a, contains-cons x order a)))
      (λ k. h)

remembered-in_order :
    {A : Type 0} ⦃e : Eq A⦄ (x : A) (order members : List A)
    → ((a : A) → contains members a ≡ true → contains order a ≡ true)
    → (a : A) → contains (add x members) a ≡ true
    → contains (order ++ x ∷ []) a ≡ true
unfolding contains
remembered-in_order x order members h a m =
    ground (arith, h a, contains-add x members a, contains-append order (x ∷ []) a)

remember_completed_output-IsBounded :
    (identity : ContentId) (s : Outputs)
    → IsBounded s
    → IsBounded (remember_completed_output identity s)
unfolding remember_completed_output
remember_completed_output-IsBounded identity s b = record {
  few_outputs =
      length-forget (s.completed_output_order ++ identity ∷ []) (add identity s.completed_outputs);
  few_responses = b.few_responses;
  outputs_in_order =
      forget-in_order (s.completed_output_order ++ identity ∷ []) (add identity s.completed_outputs)
        (remembered-in_order identity s.completed_output_order s.completed_outputs
          b.outputs_in_order);
  responses_in_order = b.responses_in_order;
}

remember_terminal_response-IsBounded :
    (response_id : String) (s : Outputs)
    → IsBounded s
    → IsBounded (remember_terminal_response response_id s)
unfolding remember_terminal_response
remember_terminal_response-IsBounded response_id s b =
    let order = s.terminal_response_order ++ response_id ∷ [] in
    let kept = forget order (add response_id s.terminal_responses) in
    if-split IsBounded (contains s.terminal_responses response_id) s
      (record s { terminal_response_order = kept.0; terminal_responses = kept.1 }) (λ h. b)
      (λ h. record {
        few_outputs = b.few_outputs;
        few_responses = length-forget order (add response_id s.terminal_responses);
        outputs_in_order = b.outputs_in_order;
        responses_in_order = forget-in_order order (add response_id s.terminal_responses) (
            remembered-in_order response_id s.terminal_response_order s.terminal_responses
              b.responses_in_order);
      })

same-IsBounded :
    (active : Option ContentId) (late : ℕ) (s : Outputs)
    → IsBounded s
    → IsBounded (record s { active_output = active; late_frame_count = late })
same-IsBounded active late s b = record {
  few_outputs = b.few_outputs;
  few_responses = b.few_responses;
  outputs_in_order = b.outputs_in_order;
  responses_in_order = b.responses_in_order;
}

finish_output-IsBounded :
    (response_id : String) (active : Option ContentId) (s : Outputs)
    → IsBounded s
    → IsBounded (finish_output response_id active s)
unfolding finish_output
finish_output-IsBounded response_id none s b = b
finish_output-IsBounded response_id (some active) s b =
    let idle = record s { active_output = none } in
    if-split IsBounded (active.0 == response_id) (remember_completed_output active idle) s
      (λ h.
        remember_completed_output-IsBounded active idle
          (same-IsBounded none s.late_frame_count s b))
      (λ h. b)

abbrev Keeping : Outputs × Forwarding → Type 0
Keeping r = IsBounded r.0

counted : (s : Outputs) → IsBounded s → Keeping (count_late s)
counted s b = same-IsBounded s.active_output (s.late_frame_count + 1) s b

-- Whatever event is forwarded, dropped or refused: the orders of the completed outputs and of the
-- terminal responses keep at most _WINDOW_FRAMES entries each, and each of the two sets keeps nothing
-- but what stands in its order, so that what is remembered is bounded, too.
pub forward-IsBounded : (e : OutputEvent) (s : Outputs) → IsBounded s → IsBounded (forward e s).0
unfolding forward
forward-IsBounded (started identity) s b =
    if-split Keeping (contains s.terminal_responses identity.0) (count_late s) _ (λ h. counted s b)
      (λ h.
        if-split Keeping (is_some s.active_output && not (is_active identity s)) (s, failed) _
          (λ k. b)
          (λ k.
            if-split Keeping (contains s.completed_outputs identity) (count_late s)
              (record s { active_output = some identity }, forwarded) (λ l. counted s b)
              (λ l. same-IsBounded (some identity) s.late_frame_count s b)))
forward-IsBounded (audio identity pcm) s b =
    if-split Keeping (is_over identity s) (count_late s) _ (λ h. counted s b)
      (λ h.
        if-split Keeping (not (is_active identity s)) (s, failed) (s, forwarded) (λ k. b) (λ k. b))
forward-IsBounded (completed identity) s b =
    let idle = record s { active_output = none } in
    if-split Keeping (is_over identity s) (count_late s) _ (λ h. counted s b)
      (λ h.
        if-split Keeping (not (is_active identity s)) (s, failed)
          (remember_completed_output identity idle, forwarded) (λ k. b)
          (λ k.
            remember_completed_output-IsBounded identity idle
              (same-IsBounded none s.late_frame_count s b)))
forward-IsBounded (finished response_id) s b =
    finish_output-IsBounded response_id s.active_output (remember_terminal_response response_id s)
      (remember_terminal_response-IsBounded response_id s b)
