-- ===== src/Oms/Admin.antt =====
-- The trading session's administrative messages, src/oms/order_manager.cpp.
use smart_quant.Prelude.{Bool, if◌then◌else◌, Option}
use smart_quant.Fix.{Dictionary, AdminFields, fill_logon}

unfoldable pub to_admin : Bool → Option Dictionary → AdminFields → AdminFields
to_admin is_logon dict msg = if is_logon then fill_logon dict msg else msg
