-- ===== src/Building/Repository.antt =====
-- Buildings, units and grants in the database (backend/internal/building/repository.go). The
-- columns' widths and checks, the unique indexes and the foreign keys are those of migration 0002.
-- `Delete` of GORM stamps deleted_at only in a model whose field is a gorm.DeletedAt; the field of
-- these models is a time, so that the row itself is deleted, unless a foreign key refers to it.
mod Columns
mod BuildingRows
mod GrantRows
mod UnitRows
pub use Columns.{fits_text, fits_count, storable_unit, is_live, number_taken, listed}
unfoldable pub use BuildingRows.{
  find_building, create_building, update_building, delete_building_row,
}
pub use BuildingRows.{find_building_row, building_in_use, drop_building}
unfoldable pub use GrantRows.{
  can_manager_access, grant_manager, find_active_user_by_phone, count_building_managers,
  insert_manager_grant, manager_grant_row, revoke_manager_guarded, promote_resident_to_manager,
}
pub use GrantRows.{
  is_grant, has_grant, add_grant, is_active_user, count_managers, grant_row, drop_grant,
  is_resident, promote_users, promote,
}
unfoldable pub use UnitRows.{find_unit, create_unit_row, update_unit_row, delete_unit_row}
