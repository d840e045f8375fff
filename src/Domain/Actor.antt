-- ===== src/Domain/Actor.antt =====
-- src/domain/Actor.h and the permission keys of src/domain/Role.h.
use text.Mathlib.Text.{◌==◌ as eq_text}
use custom_game_launcher_bac.Base.{String, Bool, List, any, Bytes, eq_bytes}

pub record Actor : Type 0 where
  pub user_id : Bytes
  pub permissions : List String

abbrev pub game_download : String
game_download = "game.download"

abbrev pub build_upload : String
build_upload = "build.upload"

abbrev pub admin_games_manage : String
admin_games_manage = "admin.games.manage"

abbrev pub game_read : String
game_read = "game.read"

abbrev pub game_publish : String
game_publish = "game.publish"

abbrev pub library_read : String
library_read = "library.read"

abbrev pub library_manage : String
library_manage = "library.manage"

abbrev pub admin_users_manage : String
admin_users_manage = "admin.users.manage"

abbrev pub admin_roles_manage : String
admin_roles_manage = "admin.roles.manage"

unfoldable pub can : Actor → String → Bool
can actor permission = any (λ held. eq_text held permission) actor.permissions

unfoldable pub manages_any_game : Actor → Bool
manages_any_game actor = can actor admin_games_manage

unfoldable pub owns : Actor → Bytes → Bool
owns actor publisher_user_id = eq_bytes actor.user_id publisher_user_id
