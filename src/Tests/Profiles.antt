-- ===== src/Tests/Profiles.antt =====
-- Two users and their profiles.
use express_core.Base.{Option, none, some, [], ◌∷◌, ◌≡◌, refl, arith, find_first, List, String}
use express_core.Store.{User, Db, empty_db}
use express_core.Store.Exec.{ok}
use express_core.Redis.{Redis, ProfileData}
use express_core.Roles.{given}
use express_core.Profiles.{
  UpdateProfileInput, has_id, profile_data, apply_profile, update_profile, get_profile,
}
use express_core.Profiles.Updating.{update_profile-read_back, sessions_left}
use express_core.Profiles.Addresses.{update_profile-shares_address}
use express_core.Profiles.Cached.{
  Request, get, update, serve_all, serve_all_direct, serve_all-refines,
}
use express_core.Tests.{ann, session, open_crypto}

abbrev bob : User
bob = record ann { id = 8; name = some "Bob"; slug = some "bob"; email = some "bob@example.org" }

abbrev two_users : Db
two_users = record empty_db { users = bob ∷ ann ∷ []; refresh_tokens = session ∷ [] }

abbrev empty_redis : Redis
empty_redis = record {
  access = record { version = none; entries = λ u. none; role_users = [] };
  profiles = λ u. none;
}

abbrev new_details : UpdateProfileInput
new_details = record {
  name = some "Anna";
  email = some "bob@example.org";
  avatar = none;
  password = some "Secret1!";
  fields = record {
    phone = some (some "+628123456789");
    birth_date = none;
    gender = some none;
    locale = none;
  };
}

found_ann : find_first (has_id 7) two_users.users ≡ some ann
unfolding find_first
found_ann = refl

found_bob : find_first (has_id 8) two_users.users ≡ some bob
unfolding find_first
found_bob = refl

update_profile-read_back_example :
    (slug : Option String) × (p : ProfileData) × (w : Db × Redis) × (update_profile open_crypto
        (λ t. t)
        "http://localhost:3001"
        7
        new_details
        (two_users, empty_redis)
      ≡ (ok p, w))
    × (p
        ≡ profile_data "http://localhost:3001" (apply_profile open_crypto new_details slug ann) w.0)
    × (get_profile "http://localhost:3001" 7 w ≡ (ok p, w))
    × (w.0.refresh_tokens ≡ sessions_left 7 (given new_details.password) two_users.refresh_tokens)
update_profile-read_back_example =
    update_profile-read_back open_crypto (λ t. t) "http://localhost:3001" 7 new_details two_users
      empty_redis ann found_ann

update_profile-shares_address_example :
    (p : ProfileData) × (w : Db × Redis) × (mine : User) × (update_profile open_crypto
        (λ t. t)
        "http://localhost:3001"
        7
        new_details
        (two_users, empty_redis)
      ≡ (ok p, w))
    × (find_first (has_id 7) w.0.users ≡ some mine)
    × (mine.email ≡ some "bob@example.org")
    × (find_first (has_id 8) w.0.users ≡ some bob)
update_profile-shares_address_example =
    update_profile-shares_address open_crypto (λ t. t) "http://localhost:3001" 7 new_details
      two_users empty_redis ann bob "bob@example.org" found_ann found_bob
      (λ h. absurd (omega arith)) refl refl

abbrev three_requests : List Request
three_requests = get 8 ∷ update 7 new_details ∷ get 7 ∷ []

serve_all-refines_example :
    serve_all open_crypto (λ t. t) "http://localhost:3001" three_requests (two_users, empty_redis)
    ≡ serve_all_direct open_crypto (λ t. t) "http://localhost:3001" three_requests two_users
serve_all-refines_example =
    serve_all-refines open_crypto (λ t. t) "http://localhost:3001" three_requests
      (two_users, empty_redis) (λ u p h. absurd (cc h))
