-- ===== src/Sessions/Tests.antt =====
-- The theorems about src/services/auth/refresh.ts at concrete inputs: a token is its own id.
use veritasor_backend.Prelude.{◌≡◌, refl, [], ◌∷◌, Option, some}
use veritasor_backend.Prelude.Text.{Text, codes}
use veritasor_backend.Sessions.{
  User, Claims, Pending, refused, refresh_start, refresh_finish, already_used,
}
use veritasor_backend.Sessions.Rotation.{finish_all, refresh_start-refused}

abbrev user : User
user = record { id = codes "u1"; email = codes "a@b.c" }

abbrev verify : Text → Option Text
verify token = some (codes "u1")

abbrev decode : Text → Option Claims
decode token = some (record { jti = some token; exp = some 100 })

abbrev find_user : Text → Option User
find_user id = some user

abbrev first : Pending
first = record { token_user_id = codes "u1"; jti = codes "t1"; exp = 100 }

abbrev other : Pending
other = record { token_user_id = codes "u1"; jti = codes "t2"; exp = 100 }

refresh_start-refused_example :
    refresh_start verify decode find_user (codes "t1") (
      finish_all verify decode find_user
        (other ∷ [])
        (refresh_finish verify decode find_user first []).1)
    ≡ refused already_used
unfolding refresh_finish
refresh_start-refused_example =
    refresh_start-refused verify decode find_user first [] user (other ∷ []) b't' (codes "1")
      (codes "u1") 100 refl refl refl
