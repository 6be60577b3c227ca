-- ===== src/Tests/Pages.antt =====
-- A table of five rows read in pages of two, and the access of one user.
use express_core.Paginator.Search.{Condition}
use express_core.Paginator.{
  Sort, Parsed, natural, nan, PaginatedResult, answer, paginate, filter_of, last_page_of,
}
use express_core.Paginator.Laws.{ReadsTable}
use express_core.Paginator.Pages.{paginate-bounded, paginate-span}
use express_core.Rbac.{CachedUserData, Users, set, read_user_access, cache_user_access}
use express_core.Rbac.Freshness.{
  World, Reachable, here, step, read_version, read_user, store, cached-access_current, reading,
  filled, idle,
}
use express_core.Failures.{Failure, error_handler, status_of, error_handler-hides}
use express_core.Retention.{prune_batches}
use express_core.Retention.Past.{OneAge, prune_batches-past}
use express_core.Paginator.Visits.{at_page, visit, visit-all}
use express_core.Slug.Decimal.{decimal}
use express_core.Rbac.Gates.{check_permission-current}
use express_core.Rbac.{RoleData, includes, check_permission, resolve_role}
use express_core.Base.{
  [], ◌∷◌, refl, Option, ℕ, String, none, some, ◌≤◌, ◌≡◌, List, length, arith, ◌+◌, if◌then◌else◌,
  ◌==ₛ◌, true, false, ltb, ◌==◌, ==_self, map, ◌-◌, inl, inr, Bool-cases, subst, count_where,
  delete_where,
}
use express_core.Base.Bytes.{take, drop}
use express_core.Store.Exec.{ok}
use express_core.Paginator.Search.{Condition}
use express_core.Paginator.{
  Delegate, Query, PaginateOptions, asc, PaginatedResult, paginate, answer, Parsed, filter_of,
  last_page_of, natural, nan, order_by,
}

abbrev five : Option (List Condition) → List Sort → List ℕ
five f o = 10 ∷ 20 ∷ 30 ∷ 40 ∷ 50 ∷ []

abbrev table : Delegate ℕ
table = record { find_many = λ f o skip n. take n (drop skip (five f o)); count = λ f. 5 }

table_law : ReadsTable table five
table_law = record { find_many-rows = λ f o skip n. refl; count-rows = λ f o. refl }

abbrev parse : String → Parsed
parse t =
    if t ==ₛ "0"
    then natural 0
    else if t ==ₛ "1"
    then natural 1
    else if t ==ₛ "2"
    then natural 2
    else if t ==ₛ "3"
    then natural 3
    else nan

abbrev options : PaginateOptions
options = record {
  model_name = none;
  search_fields = [];
  allowed_sorts = "createdAt" ∷ [];
  default_sort = "createdAt";
  default_sort_dir = asc;
  tie_breaker = some "id";
}

-- The third page of two rows.
abbrev third : Query
third = record {
  page = some "3";
  per_page = some "2";
  search = none;
  sort_by = none;
  sort_dir = none;
}

abbrev third_page : PaginatedResult ℕ
third_page = answer parse (λ t. t) (λ l. "") (λ m. none) "/items" table options (λ n. n) third none

answered :
    paginate parse (λ t. t) (λ l. "") (λ m. none) "/items" table options (λ n. n) third
    ≡ ok third_page
unfolding paginate filter_of
answered = refl

paginate-bounded_example :
    (1 ≤ third_page.meta.current_page)
    × (1 ≤ third_page.meta.per_page)
    × (third_page.meta.per_page ≤ 100)
    × (length third_page.data_ ≤ third_page.meta.per_page)
paginate-bounded_example =
    paginate-bounded parse (λ t. t) (λ l. "") (λ m. none) "/items" table options (λ n. n) five
      table_law third third_page answered

within : third_page.meta.current_page ≤ third_page.meta.last_page
unfolding answer last_page_of
within = omega arith

some_row : 1 ≤ third_page.meta.total
unfolding answer
some_row = omega arith

paginate-span_example :
    (f : ℕ) × (t : ℕ) × (third_page.meta.from ≡ some f)
    × (third_page.meta.to ≡ some t)
    × (1 ≤ f)
    × (f ≤ t)
    × (t ≤ third_page.meta.total)
    × (filter : Option (List Condition)) × (filter_of parse
          (λ t. t)
          (λ l. "")
          (λ m. none)
          "/items"
          table
          options
          (λ n. n)
          none
        ≡ ok filter)
    × (third_page.data_
        ≡ map (λ n. n) (take (t + 1 - f) (drop (f - 1) (five filter (order_by options third)))))
paginate-span_example =
    paginate-span parse (λ t. t) (λ l. "") (λ m. none) "/items" table options (λ n. n) five
      table_law third third_page answered within some_row

-- The pages from the first to the third.
abbrev first_page : PaginatedResult ℕ
first_page =
    answer parse (λ t. t) (λ l. "") (λ m. none) "/items" table options (λ n. n) (at_page third 1)
      none

first_answered :
    paginate parse (λ t. t) (λ l. "") (λ m. none) "/items" table options (λ n. n) (at_page third 1)
    ≡ ok first_page
unfolding paginate filter_of
first_answered = refl

three_pages : first_page.meta.last_page ≡ 3
unfolding answer last_page_of
three_pages = refl

reads : (m : ℕ) → m ≤ 3 → parse (decimal m) ≡ natural m
unfolding decimal
reads m h = elim (Bool-cases (m == 0)) [
  | inl e ↦ let m0 : m ≡ 0 = ground arith in rw m0 refl
  | inr e ↦ elim (Bool-cases (m == 1)) [
    | inl f ↦ let m1 : m ≡ 1 = ground arith in rw m1 refl
    | inr f ↦ elim (Bool-cases (m == 2)) [
      | inl g ↦ let m2 : m ≡ 2 = ground arith in rw m2 refl
      | inr g ↦ let m3 : m ≡ 3 = ground arith in rw m3 refl
    ]
  ]
]

visit-all_example :
    (f : Option (List Condition)) × (filter_of parse
        (λ t. t)
        (λ l. "")
        (λ m. none)
        "/items"
        table
        options
        (λ n. n)
        none
      ≡ ok f)
    × (visit parse
          (λ t. t)
          (λ l. "")
          (λ m. none)
          "/items"
          table
          options
          (λ n. n)
          third
          0
          first_page.meta.last_page
        ≡ ok (map (λ n. n) (five f (order_by options third))))
visit-all_example =
    visit-all parse (λ t. t) (λ l. "") (λ m. none) "/items" table options (λ n. n) third five
      table_law first_page first_answered (λ m h. reads m (subst (λ n. m ≤ n) three_pages h))

abbrev member : CachedUserData
member = record {
  id = 7;
  role = some (record { id = 2; slug = "member"; user_type = some "Member"; access = "a" ∷ [] });
}

abbrev users : Users
users u = some member

abbrev cold : World
cold = record {
  users = users;
  unannounced = 0;
  cache = record { version = none; entries = λ u. none; role_users = [] };
  flights = λ i. idle;
}

-- One request reads the version and the user, and stores the entry.
abbrev reading_world : World
reading_world = record cold { flights = set cold.flights 1 (reading 7 0) }

abbrev filled_world : World
filled_world = record reading_world { flights = set reading_world.flights 1 (filled 7 0 member) }

abbrev warm : World
warm = record filled_world {
  cache = cache_user_access 7 member 0 cold.cache;
  flights = set filled_world.flights 1 idle;
}

warmed : Reachable cold warm
unfolding set read_user_access
warmed =
    step filled_world warm
      (step reading_world filled_world (step cold reading_world here (read_version cold 1 7))
        (read_user reading_world 1 7 0 member refl refl))
      (store filled_world 1 7 0 member refl)

hit : (read_user_access 7 warm.cache).0 ≡ some member
unfolding read_user_access cache_user_access set
hit = refl

cached-access_current_example : users 7 ≡ some member
cached-access_current_example =
    cached-access_current cold warm 7 member (record { flights = λ i. tt; entries = λ u. tt })
      warmed refl hit

check_permission-current_example :
    (user : CachedUserData) × (role : RoleData) × (users 7 ≡ some user)
    × (user.role ≡ some role)
    × (includes role.access "a" ≡ true)
unfolding check_permission resolve_role read_user_access cache_user_access set includes
check_permission-current_example =
    check_permission-current cold warm "a" (record { role = none; sub = some 7 }) 7
      (record { flights = λ i. tt; entries = λ u. tt }) warmed refl refl refl passed
  where
    passed :
        (check_permission "a" users (record { role = none; sub = some 7 }) warm.cache).0 ≡ ok tt
    passed = refl

abbrev crash : Failure
crash = record {
  is_app_error = false;
  multer_code = none;
  status_code = none;
  message = some "relation users does not exist";
  stack = some "at query";
  errors = none;
}

-- Another failure of the server.
abbrev fault : Failure
fault = record crash { message = some "out of memory"; errors = some ("a" ∷ []) }

error_handler-hides_example : error_handler false crash ≡ error_handler false fault
unfolding status_of
error_handler-hides_example =
    error_handler-hides crash fault refl refl
      (λ h. elim h [ inl e ↦ absurd (cc e) | inr l ↦ absurd (omega arith) ])
      (λ l. absurd (omega arith))

prune_batches-past_example :
    prune_batches (λ n. ltb n 5) (λ n. n) (λ m n. m == n) 2 3 0 (1 ∷ 9 ∷ 2 ∷ []) ≡ (0 + 2, 9 ∷ [])
unfolding count_where delete_where
prune_batches-past_example =
    prune_batches-past (λ n. ltb n 5) (λ n. n) (λ m n. m == n) ==_self 2 3 0 (1 ∷ 9 ∷ 2 ∷ [])
      one_age (omega arith)
  where
    by_id : (m n : ℕ) → (m == n) ≡ true → ltb m 5 ≡ ltb n 5
    by_id m n h = ground arith

    one_age : OneAge (λ n. ltb n 5) (λ n. n) (λ m n. m == n) (1 ∷ 9 ∷ 2 ∷ [])
    one_age = (
      (by_id 1 1, (by_id 1 9, (by_id 1 2, tt))),
      ((by_id 9 1, (by_id 9 9, (by_id 9 2, tt))), ((by_id 2 1, (by_id 2 9, (by_id 2 2, tt))), tt)),
    )
