-- ===== src/Fix.antt =====
-- What both FIX sessions of the program do with an administrative message: src/md/fix_md_gateway.cpp
-- and src/oms/order_manager.cpp fill in a Logon in the same way. A message is the fields that matter.
use smart_quant.Prelude.{ℕ, Option, none, some, [], ◌∷◌}
use smart_quant.Prelude.Text.{Text}

-- "Username"
abbrev pub text_username : Text
text_username = 85 ∷ 115 ∷ 101 ∷ 114 ∷ 110 ∷ 97 ∷ 109 ∷ 101 ∷ []

-- "Password"
abbrev pub text_password : Text
text_password = 80 ∷ 97 ∷ 115 ∷ 115 ∷ 119 ∷ 111 ∷ 114 ∷ 100 ∷ []

-- The dictionary of a session block, which QuickFIX reads.
abbrev pub Dictionary : Type 0
Dictionary = Text → Option Text

-- A header's SubIDs and the credentials of a Logon.
pub record AdminFields : Type 0 where
  pub target_sub_id : Option Text
  pub sender_sub_id : Option Text
  pub encrypt_method : Option ℕ
  pub username : Option Text
  pub password : Option Text

abbrev pub set_if : Option Text → Option Text → Option Text
set_if none field = field
set_if (some x) field = some x

-- The credentials that the dictionary has; `none` is a dictionary whose reading throws.
abbrev pub credentials : Option Dictionary → AdminFields → AdminFields
credentials none msg = msg
credentials (some dict) msg = record msg {
  username = set_if (dict text_username) msg.username;
  password = set_if (dict text_password) msg.password;
}

-- `setField(EncryptMethod(0))`, and the credentials.
abbrev pub fill_logon : Option Dictionary → AdminFields → AdminFields
fill_logon dict msg = credentials dict (record msg { encrypt_method = some 0 })
