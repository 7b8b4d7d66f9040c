-- ===== src/Os/Fields.antt =====
-- The fields and the notes of an order: `updateOrder` and `createNote` of back/src/modules/os/os.service.ts.
use orbix_hub.Base.{
  ℕ, Bool, true, false, Option, none, some, or_default, is_some, same_option, List, [], ◌∷◌, ◌++◌,
  if◌then◌else◌, Text, same_text, trim, trim_or_null, transaction, modify, ◌>>=◌, ◌>>◌,
}
use orbix_hub.Money.{round2}
use orbix_hub.Os.Store.{
  ServiceOrder, Event, EventText, previsao_de_entrega, previsao_removida, diagnostico_atualizado,
  nota, Workshop, Working, Request, update_row, add_events, create_event, audit_log, os_update,
  editable_or_throw, recompute_total,
}
use orbix_hub.Os.Content.{note_of}

-- `UpdateOrderDto`; a date that is given and empty clears the column.
pub record UpdateOrderDto : Type 0 where
  pub complaint : Option Text
  pub diagnosis : Option Text
  pub scheduled_start : Option (Option ℕ)
  pub scheduled_end : Option (Option ℕ)
  pub assigned_to : Option ℕ
  pub discount : Option ℕ

abbrev pub text_or : Option Text → Option Text → Option Text
text_or none old = old
text_or (some t) old = trim_or_null t

abbrev pub assignee_or : Option ℕ → Option ℕ → Option ℕ
assignee_or none old = old
assignee_or (some u) old = some u

abbrev pub discount_or : Option ℕ → ℕ → ℕ
discount_or none old = old
discount_or (some d) old = round2 d

unfoldable pub edited_order : UpdateOrderDto → ServiceOrder → ServiceOrder
unfolding trim_or_null round2
edited_order dto o = record o {
  complaint = text_or dto.complaint o.complaint;
  diagnosis = text_or dto.diagnosis o.diagnosis;
  scheduled_start = or_default dto.scheduled_start o.scheduled_start;
  scheduled_end = or_default dto.scheduled_end o.scheduled_end;
  assigned_to = assignee_or dto.assigned_to o.assigned_to;
  discount = discount_or dto.discount o.discount;
}

-- What the client is told of a new date.
abbrev pub told_end : Request → ℕ → (asked : Option (Option ℕ)) → (old : Option ℕ) → List Event
told_end req id none old = []
told_end req id (some new) old =
    if same_option new old then [] else note_of req id (message_of new) true ∷ []
  where
    message_of : Option ℕ → EventText
    message_of none = previsao_removida
    message_of (some at) = previsao_de_entrega at

abbrev pub same_note : Text → Option Text → Bool
same_note t none = false
same_note t (some u) = same_text t u

-- And of a new diagnosis.
abbrev pub told_diagnosis : Request → ℕ → (new old : Option Text) → List Event
told_diagnosis req id none old = []
told_diagnosis req id (some t) old =
    if same_note t old then [] else note_of req id diagnostico_atualizado true ∷ []

unfoldable pub told : Request → ℕ → UpdateOrderDto → ServiceOrder → List Event
unfolding trim_or_null same_text
told req id dto existing =
    told_end req id dto.scheduled_end existing.scheduled_end
    ++ told_diagnosis req id (text_or dto.diagnosis none) existing.diagnosis

abbrev pub recompute_if : Bool → ℕ → Workshop → Workshop
recompute_if true id db = recompute_total id db
recompute_if false id db = db

-- The row, the timeline and the total.
unfoldable pub write_fields : Request → ℕ → UpdateOrderDto → ServiceOrder → Workshop → Workshop
unfolding edited_order update_row told add_events recompute_total
write_fields req id dto existing db =
    recompute_if (is_some dto.discount) id
      (add_events (told req id dto existing) (update_row id (edited_order dto) db))

unfoldable pub write_order : Request → ℕ → UpdateOrderDto → Working (Unit {0})
unfolding editable_or_throw write_fields
write_order req id dto =
    transaction do existing ← editable_or_throw id; modify (write_fields req id dto existing)

unfoldable pub update_order : Request → ℕ → UpdateOrderDto → Working (Unit {0})
unfolding write_order audit_log
update_order req id dto = do write_order req id dto; audit_log req.user_id (os_update id)

unfoldable pub create_note :
    Request → ℕ → (message : Text) → (visible_public : Option Bool) → Working (Unit {0})
unfolding editable_or_throw create_event trim
create_note req id message visible = transaction do
  editable_or_throw id
  create_event (note_of req id (nota (trim message)) (or_default visible false))
