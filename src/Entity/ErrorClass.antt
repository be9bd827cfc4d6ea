-- ===== src/Entity/ErrorClass.antt =====
-- domain/src/entity/error_class.rs: the public classes of failures and their names.
pub mod Names
use catapulte.Common.{String, Result, ok, err, str_eq, if◌then◌else◌}

pub data ErrorClass : Type 0 where
  template_resolve template_interpolate template_render attachment delivery routing : ErrorClass

unfoldable pub as_str : ErrorClass → String
as_str template_resolve = "template_resolve"
as_str template_interpolate = "template_interpolate"
as_str template_render = "template_render"
as_str attachment = "attachment"
as_str delivery = "delivery"
as_str routing = "routing"

pub record UnknownErrorClass : Type 0 where
  pub value : String

unfoldable pub from_str : String → Result ErrorClass UnknownErrorClass
from_str s =
    if str_eq s "template_resolve"
    then ok template_resolve
    else if str_eq s "template_interpolate"
    then ok template_interpolate
    else if str_eq s "template_render"
    then ok template_render
    else if str_eq s "attachment"
    then ok attachment
    else if str_eq s "delivery"
    then ok delivery
    else if str_eq s "routing"
    then ok routing
    else err (record { value = s })
