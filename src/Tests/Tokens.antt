-- ===== src/Tests/Tokens.antt =====
-- mvp/internal/rbac/rbac.go: a bearer token of a stored user.
use kubernetes_style_orchest.Prelude.{String, string_eq, true, false, none, ◌≡◌, refl, ◌⊎◌, [], ◌∷◌}
use kubernetes_style_orchest.Db.{Db, UserRow}
use kubernetes_style_orchest.Sql.{ok, result}
use kubernetes_style_orchest.Store.Access.{user_of_row, get_user_by_token}
use kubernetes_style_orchest.Rbac.{authenticate, system_user}
use kubernetes_style_orchest.Rbac.Tokens.{HasToken, authenticate_sound}
use kubernetes_style_orchest.Tests.Data.{no_rows}

abbrev alice : UserRow
alice = record { token = "secret"; groups = "dev" ∷ []; created_at = 1 }

abbrev with_alice : Db
with_alice = record no_rows { users = ("alice", alice) ∷ [] }

abbrev header : String
header = "Bearer  secret"

authenticate_sound_example :
    ((header ≡ "") × (false ≡ true) × (user_of_row ("alice", alice) ≡ system_user))
    ⊎ HasToken with_alice header (user_of_row ("alice", alice))
unfolding authenticate get_user_by_token
authenticate_sound_example =
    authenticate_sound false header with_alice (user_of_row ("alice", alice)) refl

no_header : result (authenticate false "" with_alice) ≡ ok none
unfolding authenticate
no_header = refl
