-- ===== src/Session/Ending/Whole.antt =====
-- `_apply` as a whole, and the number of terminal events queued.
use simple_harness_service_s.Events.{RealtimeEvent, DecodedProviderEvent, ItemId, ItemDetail}
use simple_harness_service_s.Session.State.{Config, Session}
use simple_harness_service_s.Session.Flow.{go}
use simple_harness_service_s.Session.Rules.{Triple, Triple->>}
use simple_harness_service_s.Session.Apply.{
  apply_ready, apply_item, apply_item_detail, apply_introductions, apply, or_id, holds_failure,
  add_item,
}
use simple_harness_service_s.Session.Ending.{IsEnding}
use simple_harness_service_s.Session.Ending.Batches.{
  Triple-of_Calm, Calm-check_current, Calm-apply_rejection, Calm-apply_context_ack,
  Calm-stop_acknowledged, Calm-apply_response, calm-apply_item_detail, Calm-apply_content,
  Calm-apply_tool_ack, Calm-check_completed, Calm-apply_completed,
}
use simple_harness_service_s.Session.Ending.Deliver.{
  Leaves, Triple-of_Leaves, still, rejected, emitted, after, NoneClosed, deliver_all-Ending,
}
use simple_harness_service_s.Common.{
  refl, true, ◌&&◌, not, Option, none, some, List, string_eq, pair_eq, contains, inl, inr,
  Bool-cases,
}

module _ (taken : List RealtimeEvent) (c : Config) where
  Leaves-item_detail :
      (i : ItemId) (detail : Option ItemDetail) (s : Session)
      → IsEnding taken s
      → Leaves taken (apply_item_detail c i detail s)
  Leaves-item_detail i detail s r = elim (calm-apply_item_detail c i detail s) [
    | inl no_detail ↦ rw no_detail (rejected taken c s r)
    | inr same ↦
        still taken (apply_item_detail c i detail s).0 (apply_item_detail c i detail s).1
          (after taken s _ same r)
  ]

  Leaves-item :
      (i : Option ItemId) (detail : Option ItemDetail) (s : Session)
      → IsEnding taken s
      → Leaves taken (apply_item c i detail s)
  unfolding apply_item
  Leaves-item none detail s r = still taken s go r
  Leaves-item (some i) detail s r = elim (Bool-cases (contains s.conversation.responses i.0)) [
    | inr unknown ↦ rw unknown (rejected taken c s r)
    | inl known ↦ rw known (elim (Bool-cases (contains s.conversation.items i)) [
      | inl old ↦ rw old (rejected taken c s r)
      | inr new ↦ rw new (
          Leaves-item_detail i detail (add_item i s)
            (after taken s (add_item i s) (record { output = refl; terminal = refl }) r))
    ])
  ]

  Leaves-ready :
      (d : DecodedProviderEvent) (s : Session) → IsEnding taken s → Leaves taken (apply_ready c d s)
  unfolding apply_ready
  Leaves-ready d s r = elim (Bool-cases (d.provider_ready && not s.ready)) [
    | inl first ↦ rw first (
        emitted taken c _ (record s { ready = true }) refl
          (after taken s (record s { ready = true }) (record { output = refl; terminal = refl }) r))
    | inr later ↦ rw later (elim (Bool-cases (not s.ready && not d.session_acknowledged)) [
      | inl early ↦ rw early (rejected taken c s r)
      | inr fine ↦ rw fine (still taken s go r)
    ])
  ]

  introductions-Ending :
      (d : DecodedProviderEvent)
      → Triple (IsEnding taken) (IsEnding taken) (IsEnding taken) (apply_introductions c d)
  unfolding apply_introductions
  introductions-Ending d =
      Triple->> _ _ (Triple-of_Calm taken c _ (Calm-apply_response c d.introduced_response_id)) (
        Triple->> _ _
          (Triple-of_Leaves taken _ (Leaves-item d.introduced_item d.introduced_item_detail))
          (Triple->> _ _ (Triple-of_Calm taken c _ (Calm-apply_content c d.introduced_content)) (
            Triple->> _ _ (Triple-of_Calm taken c _ (Calm-apply_tool_ack c d.tool_ack_identity))
              (Triple-of_Calm taken c _ (Calm-check_completed c d)))))

  pub apply-Ending :
      (d : DecodedProviderEvent)
      → NoneClosed d.events
      → Triple (IsEnding taken) (IsEnding taken) (IsEnding taken) (apply c d)
  unfolding apply
  apply-Ending d h = Triple->> _ _ (Triple-of_Calm taken c _ (Calm-check_current c)) (
      Triple->> _ _ (Triple-of_Calm taken c _ (Calm-apply_rejection c d.rejected_event_id)) (
        Triple->> _ _
          (Triple-of_Calm taken c _
            (Calm-apply_context_ack c d (or_id d.context_request_id d.context_ack_id)))
          (Triple->> _ _ (Triple-of_Leaves taken _ (Leaves-ready d)) (
            Triple->> _ _ (Triple-of_Calm taken c _ (Calm-stop_acknowledged c d)) (
              Triple->> _ _ (introductions-Ending d) (
                Triple->> _ _
                  (deliver_all-Ending taken c (holds_failure d.events) d.tool_call_identity d.events
                    h)
                  (Triple-of_Calm taken c _ (Calm-apply_completed c d))))))))
