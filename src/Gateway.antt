-- ===== src/Gateway.antt =====
-- src/middleware/origin-check.middleware.ts with src/config/origins.ts, and
-- src/middleware/auth.middleware.ts. The origin of a Referer (URL) and the subject of a token
-- (jwt.verify) are parameters: none when they throw.
use Prim.Native.Char.{code}
use Prim.Native.String.{[], ◌∷◌}
use express_core.Base.{ℕ, String, false, Option, none, some, List, ◌==◌, ◌==ₛ◌, if◌then◌else◌}
use express_core.Store.Exec.{Result, ok, err, app}
use express_core.Rbac.{includes}

-- SAFE_METHODS
abbrev safe_methods : List String
safe_methods = List.◌∷◌ "GET" (List.◌∷◌ "HEAD" (List.◌∷◌ "OPTIONS" List.[]))

-- A header that is missing or empty.
abbrev header : Option String → Option String
header none = none
header (some h) = if h ==ₛ "" then none else some h

unfoldable pub request_origin :
    (String → Option String) → Option String → Option String → Option String
request_origin origin_of (some origin) referer = some origin
request_origin origin_of none (some referer) = origin_of referer
request_origin origin_of none none = none

abbrev allow_origin : List String → Option String → Result (Unit {0})
allow_origin allowed none = err (app "Request origin not allowed" 403)
allow_origin allowed (some origin) =
    if (if origin ==ₛ "" then false else includes allowed origin)
    then ok tt
    else err (app "Request origin not allowed" 403)

abbrev check_headers :
    (String → Option String) → List String → Option String → Option String → Result (Unit {0})
check_headers origin_of allowed none none = ok tt
check_headers origin_of allowed (some origin) referer =
    allow_origin allowed (request_origin origin_of (some origin) referer)
check_headers origin_of allowed none (some referer) =
    allow_origin allowed (request_origin origin_of none (some referer))

unfoldable pub check_origin :
    (String → Option String)
    → List String
    → String
    → Option String
    → Option String
    → Result (Unit {0})
unfolding request_origin
check_origin origin_of allowed method origin referer =
    if includes safe_methods method
    then ok tt
    else check_headers origin_of allowed (header origin) (header referer)

-- The text up to a space: what split(' ') puts first.
unfoldable pub up_to_space : String → String
up_to_space [] = []
up_to_space (c ∷ s) = let rest = up_to_space s in if code c == 32 then [] else c ∷ rest

-- What follows a prefix.
unfoldable pub after_prefix : String → String → Option String
after_prefix [] s = some s
after_prefix (p ∷ ps) [] = none
after_prefix (p ∷ ps) (c ∷ s) =
    let rest = after_prefix ps s in if code p == code c then rest else none

abbrev bearer : Option String → Option String
bearer none = none
bearer (some h) = elim (after_prefix "Bearer " h) [
  | none ↦ none
  | some rest ↦ header (some (up_to_space rest))
]

abbrev subject : Option ℕ → Result ℕ
subject none = err (app "Invalid or expired token" 401)
subject (some sub) = ok sub

abbrev authenticated : (String → Option ℕ) → Option String → Result ℕ
authenticated verify none = err (app "Unauthorized" 401)
authenticated verify (some token) = subject (verify token)

-- The subject that the middleware puts on the request.
unfoldable pub auth_middleware : (String → Option ℕ) → Option String → Result ℕ
unfolding after_prefix up_to_space
auth_middleware verify authorization = authenticated verify (bearer authorization)
