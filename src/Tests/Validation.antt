-- ===== src/Tests/Validation.antt =====
-- A document of two levels, and a name that is taken.
use molten_db.Prelude.{◌≡◌, refl, codes, str_beq, ltb, if◌then◌else◌}
use molten_db.Json.{Value, null, array, nil, cons, object, field, end}
use molten_db.Validation.{
  refused, valid, invalid_collection_name, invalid_json_depth, validate_collection_name,
  validate_json_depth, validate_field_name, invalid_field_name,
}
use molten_db.Validation.Depth.{depth, validate_json_depth-depth}

abbrev nested : Value
nested = object (field (codes "a") (array (cons null nil)) end)

validate_json_depth-depth_example :
    validate_json_depth nested 1
    ≡ (if ltb 1 (depth nested) then refused invalid_json_depth else valid)
validate_json_depth-depth_example = validate_json_depth-depth nested 1

too_deep : validate_json_depth nested 1 ≡ refused invalid_json_depth
unfolding validate_json_depth
too_deep = refl

reserved :
    validate_collection_name (codes "admin")
    ≡ refused (invalid_collection_name (codes "admin (reserved name)"))
unfolding validate_collection_name str_beq
reserved = refl

empty_part : validate_field_name (codes "a..b") ≡ refused (invalid_field_name (codes "a..b"))
unfolding validate_field_name
empty_part = refl
