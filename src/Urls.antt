-- ===== src/Urls.antt =====
-- src/utils/url.ts and the public address of a file (src/services/storage.service.ts). The query
-- string that URLSearchParams builds is passed in.
use Prim.Native.Char.{Char, code}
use Prim.Native.String
use express_core.Base.{String, Bool, ◌==◌, if◌then◌else◌}
use express_core.Slug.{drop_end, trim_class, is_empty}

unfoldable pub is_slash : Char → Bool
is_slash c = code c == b'/'

unfoldable pub app_url : String → String → String → String
unfolding is_slash drop_end is_empty
app_url base_url pathname search =
    let base = drop_end is_slash base_url in
    String.◌++◌ base (String.◌++◌ pathname (if is_empty search then "" else String.◌++◌ "?" search))

unfoldable pub get_public_url : String → String → String → String
unfolding app_url
get_public_url base_url folder filename =
    app_url base_url
      (String.◌++◌ "/storage/"
        (String.◌++◌ (trim_class is_slash folder) (String.◌++◌ "/" filename)))
      ""
