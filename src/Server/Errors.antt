-- ===== src/Server/Errors.antt =====
-- The API errors (backend/internal/platform/httpx/errors.go) and the messages that tell them
-- apart, named after the constants of the services.

pub data Message : Type 0 where
  no_building_access not_permitted : Message
  period_dates_invalid period_not_found period_not_draft period_not_calculated : Message
  period_not_issued period_not_calculable period_no_items building_no_units : Message
  item_amount_invalid item_method_invalid item_not_found unit_not_found unit_not_in_building :
      Message
  invoice_not_found invoice_not_cancellable invoice_cancelled invoice_no_debt : Message
  adjust_kind_invalid adjust_amount_invalid adjust_reason_required : Message
  amount_invalid date_invalid callback_unknown callback_params gateway_failed : Message
  no_participants zero_factor specific_units_empty bad_weights : Message
  non_positive_total unknown_method unknown_late_fee : Message
  title_required title_too_long category_invalid priority_invalid status_invalid : Message
  transition_invalid not_resident request_not_found no_access assignee_not_found : Message
  cost_invalid photo_not_found description_long : Message
  building_name_required phone_invalid count_negative built_year_invalid building_not_found :
      Message
  user_not_found superadmin_target already_manager last_manager self_revoke grant_not_found :
      Message
  number_required area_positive unit_status_invalid floor_negative duplicate_number : Message
  person_name_required national_id_invalid person_not_found relationship_invalid : Message
  occupancy_dates_invalid date_required occupancy_not_found occupancy_already_ended : Message
  occupancy_clash occupant_count_invalid : Message
  announcement_not_found body_required announcement_title_long audience_invalid : Message
  audience_all_no_value audience_value_required audience_value_invalid audience_unit_not_found :
      Message
  block_too_long publish_at_invalid expire_at_invalid expire_before_publish : Message
  attachment_invalid attachment_not_found : Message
  expense_invalid receipt_not_found report_month_invalid : Message
  invalid_phone invite_invalid invite_expired invalid_token token_expired token_reused : Message

-- `record_not_found` is gorm.ErrRecordNotFound, `database` any other error of the database, and
-- the last line the sentinels of the repositories.
pub data ApiError : Type 0 where
  bad_request unauthorized forbidden not_found conflict internal : Message → ApiError
  record_not_found database : ApiError
  not_calculable manager_already_granted duplicate_unit_number occupancy_conflict : ApiError
