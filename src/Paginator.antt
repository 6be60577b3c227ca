-- ===== src/Paginator.antt =====
-- src/utils/paginator.ts. The delegate (a Prisma model), the model metadata, `parseInt` and
-- URLSearchParams are parameters.
pub mod Search
pub mod Laws
pub mod Pages
pub mod Visits
use Prim.Native.String.{String}
use Prim.Native.String
use mathlib.Core.Option
use express_core.Base.{
  zero, suc, [], ◌∷◌, ◌/◌, ℕ, Option, List, max, Bool, min, if◌then◌else◌, ◌-◌, suc, some, ◌==ₛ◌,
  false, ◌+◌, ◌==◌, none, ltb, ◌*◌, ◌||◌, map, ◌++◌,
}
use express_core.Store.Exec.{Result, ok, and_then}
use express_core.Paginator.Search.{Condition, search_conditions, FieldMeta}
use express_core.Slug.Decimal.{decimal}

-- What parseInt answers: no number, a negative one, or a natural one.
pub data Parsed : Type 0 where
  nan negative : Parsed
  natural : ℕ → Parsed

-- `parseInt(text) || fallback`
abbrev pub or_default : ℕ → Parsed → Parsed
or_default d nan = natural d
or_default d negative = negative
or_default d (natural zero) = natural d
or_default d (natural (suc n)) = natural (suc n)

-- Math.max(1, n)
abbrev pub at_least_one : Parsed → ℕ
at_least_one nan = 1
at_least_one negative = 1
at_least_one (natural n) = max 1 n

pub data Direction : Type 0 where
  asc desc : Direction

pub record Sort : Type 0 where
  pub column : String
  pub direction : Direction

-- The parameters of the query string that are strings.
pub record Query : Type 0 where
  pub page : Option String
  pub per_page : Option String
  pub search : Option String
  pub sort_by : Option String
  pub sort_dir : Option String

pub record PaginateOptions : Type 0 where
  pub model_name : Option String
  pub search_fields : List String
  pub allowed_sorts : List String
  pub default_sort : String
  pub default_sort_dir : Direction
  pub tie_breaker : Option String

-- findMany (filter, order, skip, take) and count. The filter is the OR of the search conditions,
-- beside the caller's own `where`; none when there is no search.
pub record Delegate (A : Type 0) : Type 0 where
  pub find_many : Option (List Condition) → List Sort → ℕ → ℕ → List A
  pub count : Option (List Condition) → ℕ

pub record Link : Type 0 where
  pub url : Option String
  pub label : String
  pub active : Bool

pub record Meta : Type 0 where
  pub total : ℕ
  pub per_page : ℕ
  pub current_page : ℕ
  pub last_page : ℕ
  pub from : Option ℕ
  pub to : Option ℕ
  pub path : String
  pub first_page_url : String
  pub last_page_url : String
  pub next_page_url : Option String
  pub prev_page_url : Option String

pub record PaginatedResult (A : Type 0) : Type 0 where
  pub data_ : List A
  pub meta : Meta
  pub links : List Link

abbrev pub text_or : String → Option String → String
text_or d none = d
text_or d (some t) = t

-- A falsy text counts as none.
abbrev pub non_empty : Option String → Option String
non_empty none = none
non_empty (some t) = if t ==ₛ "" then none else some t

unfoldable pub includes : List String → String → Bool
includes [] t = false
includes (x ∷ xs) t = (x ==ₛ t) || includes xs t

unfoldable pub last_page_of : ℕ → ℕ → ℕ
last_page_of total per_page = max 1 ((total + (per_page - 1)) / per_page)

abbrev pub page_of : (String → Parsed) → Query → ℕ
page_of parse_int q = at_least_one (or_default 1 (parse_int (text_or "1" q.page)))

abbrev pub per_page_of : (String → Parsed) → Query → ℕ
per_page_of parse_int q =
    min 100 (at_least_one (or_default 15 (parse_int (text_or "15" q.per_page))))

abbrev pub sort_dir_of : PaginateOptions → String → Direction
sort_dir_of o t = if t ==ₛ "" then o.default_sort_dir else if t ==ₛ "asc" then asc else desc

abbrev pub tie_break : Option String → String → Direction → List Sort
tie_break none sort_by dir = []
tie_break (some t) sort_by dir =
    if (t ==ₛ "") || (t ==ₛ sort_by) then [] else record { column = t; direction = dir } ∷ []

unfoldable pub order_by : PaginateOptions → Query → List Sort
order_by o q =
    let sort_by_param = text_or "" q.sort_by in
    let sort_by =
      if includes o.allowed_sorts sort_by_param then sort_by_param else o.default_sort in
    let dir = sort_dir_of o (text_or "" q.sort_dir) in
    record { column = sort_by; direction = dir } ∷ tie_break o.tie_breaker sort_by dir

abbrev pub param : String → Option String → List (String × String)
param name none = []
param name (some t) = (name, t) ∷ []

-- The parameters of the URL of a page, in their order.
unfoldable pub url_params : ℕ → Option String → Query → ℕ → List (String × String)
url_params per_page search q p =
    ("page", decimal p)
    ∷ ((if per_page == 15 then [] else ("per_page", decimal per_page) ∷ [])
        ++ (param "search" search
            ++ (param "sort_by" (non_empty q.sort_by) ++ param "sort_dir" (non_empty q.sort_dir))))

-- The links of the pages from the one after `p`, `n` of them.
unfoldable pub page_links : (ℕ → String) → ℕ → ℕ → ℕ → List Link
page_links build_url page p zero = []
page_links build_url page p (suc n) =
    record { url = some (build_url (p + 1)); label = decimal (p + 1); active = (p + 1) == page }
    ∷ page_links build_url page (p + 1) n

module _ {A B : Type 0} (parse_int : String → Parsed) (trim : String → String)
    (encode : List (String × String) → String)
    (metadata : String → Option (List (String × FieldMeta))) (base_path : String)
    (model : Delegate A) (o : PaginateOptions) (transform : A → B) where
  abbrev pub search_of : Query → Option String
  search_of q = non_empty (Option.map trim q.search)

  -- The search part of the filter; a field that is not searchable is an error.
  unfoldable pub filter_of : Option String → Result (Option (List Condition))
  filter_of none = ok none
  filter_of (some search) = elim o.search_fields [
    | [] ↦ ok none
    | field ∷ fields ↦
        and_then (search_conditions metadata o.model_name search (field ∷ fields))
          (λ cs. ok (some cs))
  ]

  unfoldable pub build_url : Query → ℕ → String
  build_url q p =
      String.◌++◌ base_path
        (String.◌++◌ "?" (encode (url_params (per_page_of parse_int q) (search_of q) q p)))

  abbrev pub prev_url : Query → ℕ → ℕ → Option String
  prev_url q page last_page = if ltb 1 page then some (build_url q (page - 1)) else none

  abbrev pub next_url : Query → ℕ → ℕ → Option String
  next_url q page last_page = if ltb page last_page then some (build_url q (page + 1)) else none

  unfoldable pub answer : Query → Option (List Condition) → PaginatedResult B
  answer q filter =
      let page = page_of parse_int q in
      let per_page = per_page_of parse_int q in
      let skip = (page - 1) * per_page in
      let total = model.count filter in
      let last_page = last_page_of total per_page in
      record {
        data_ = map transform (model.find_many filter (order_by o q) skip per_page);
        meta = record {
          total = total;
          per_page = per_page;
          current_page = page;
          last_page = last_page;
          from = if total == 0 then none else some (skip + 1);
          to = if total == 0 then none else some (min (skip + per_page) total);
          path = base_path;
          first_page_url = build_url q 1;
          last_page_url = build_url q last_page;
          next_page_url = next_url q page last_page;
          prev_page_url = prev_url q page last_page;
        };
        links =
            record { url = prev_url q page last_page; label = "&laquo; Previous"; active = false }
            ∷ (page_links (build_url q) page 0 last_page
                ++ (record {
                  url = next_url q page last_page;
                  label = "Next &raquo;";
                  active = false;
                }
                    ∷ []));
      }

  unfoldable pub paginate : Query → Result (PaginatedResult B)
  paginate q = and_then (filter_of (search_of q)) (λ filter. ok (answer q filter))
