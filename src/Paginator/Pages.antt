-- ===== src/Paginator/Pages.antt =====
-- The numbers that a page reports (paginator.ts).
use express_core.Base.{
  [], ◌∷◌, map, ◌≤◌, List, String, length, Option, arith, ◌≡◌, ap, min, ℕ, suc, some, ◌-◌, ◌+◌,
  refl, ◌*◌, ◌∙◌, ◌==◌, false, subst, sym,
}
use express_core.Base.Bytes.{take, drop}
use express_core.Store.Exec.{ok, and_then-eq-ok}
use express_core.Paginator.{
  Delegate, last_page_of, paginate, PaginatedResult, Sort, Parsed, nan, negative, natural,
  at_least_one, or_default, per_page_of, page_of, text_or, order_by, search_of, answer, filter_of,
  Query, PaginateOptions, at_least_one, search_of, or_default, natural, per_page_of, text_or,
  page_of, order_by,
}
use express_core.Paginator.Search.{Condition, FieldMeta}
use express_core.Paginator.Laws.{ReadsTable, take-span, length-take-drop, page-starts_within}

pub at_least_one-pos : (p : Parsed) → 1 ≤ at_least_one p
at_least_one-pos nan = omega arith
at_least_one-pos negative = omega arith
at_least_one-pos (natural n) = omega arith

length-map : {A B : Type 0} (g : A → B) (xs : List A) → length (map g xs) ≡ length xs
length-map g [] = refl
length-map g (x ∷ xs) = ap suc (length-map g xs)

module _ {A B : Type 0} (parse_int : String → Parsed) (trim : String → String)
    (encode : List (String × String) → String)
    (metadata : String → Option (List (String × FieldMeta))) (base_path : String)
    (model : Delegate A) (o : PaginateOptions) (transform : A → B)
    (rows : Option (List Condition) → List Sort → List A) (law : ReadsTable model rows) (q : Query)
    (r : PaginatedResult B)
    (answered : paginate parse_int trim encode metadata base_path model o transform q ≡ ok r) where
  abbrev answer_to : Option (List Condition) → PaginatedResult B
  answer_to = answer parse_int trim encode metadata base_path model o transform q

  answered-by :
      (f : Option (List Condition)) × (filter_of parse_int trim encode metadata base_path model o
          transform
          (search_of parse_int trim encode metadata base_path model o transform q)
        ≡ ok f)
      × (answer_to f ≡ r)
  unfolding paginate
  answered-by =
      let (f, filtered, same) =
        and_then-eq-ok
          (filter_of parse_int trim encode metadata base_path model o transform
            (search_of parse_int trim encode metadata base_path model o transform q))
          _ answered in
      (f, filtered, cc same)

  length-data :
      (f : Option (List Condition))
      → length (answer_to f).data_
        ≡ min
            (per_page_of parse_int q)
            ((answer_to f).meta.total - (page_of parse_int q - 1) * per_page_of parse_int q)
  unfolding answer
  length-data f =
      let skip = (page_of parse_int q - 1) * per_page_of parse_int q in
      length-map transform (model.find_many f (order_by o q) skip (per_page_of parse_int q))
      ∙ rw
          (
            law.find_many-rows f (order_by o q) skip (per_page_of parse_int q),
            law.count-rows f (order_by o q),
          )
          (length-take-drop skip (per_page_of parse_int q) (rows f (order_by o q)))

  data-span :
      (f : Option (List Condition)) (skip : ℕ)
      → map transform (model.find_many f (order_by o q) skip (per_page_of parse_int q))
        ≡ map transform (
            take
              (min (skip + per_page_of parse_int q) (model.count f) + 1 - (skip + 1))
              (drop (skip + 1 - 1) (rows f (order_by o q))))
  data-span f skip = ap (map transform) (
      law.find_many-rows f (order_by o q) skip (per_page_of parse_int q)
      ∙ take-span (per_page_of parse_int q) skip (rows f (order_by o q))
      ∙ ap
          (λ n.
            take (min (skip + per_page_of parse_int q) n + 1 - (skip + 1))
              (drop skip (rows f (order_by o q))))
          (sym (law.count-rows f (order_by o q)))
      ∙ ap
          (λ n.
            take (min (skip + per_page_of parse_int q) (model.count f) + 1 - (skip + 1))
              (drop n (rows f (order_by o q))))
          (omega arith))

  -- When the delegate reads one table, whatever the parameters of the request: in every page that
  -- is answered the page number is at least 1, the page size is between 1 and 100, and the page
  -- holds no more rows than its size.
  pub paginate-bounded :
      (1 ≤ r.meta.current_page)
      × (1 ≤ r.meta.per_page)
      × (r.meta.per_page ≤ 100)
      × (length r.data_ ≤ r.meta.per_page)
  unfolding answer
  paginate-bounded =
      let (f, filtered, same) = answered-by in
      let counted = length-data f in
      let positive = at_least_one-pos (or_default 15 (parse_int (text_or "15" q.per_page))) in
      rw (← same) (
        at_least_one-pos (or_default 1 (parse_int (text_or "1" q.page))),
        omega arith,
        omega arith,
        rw counted (omega arith),
      )

  -- When the delegate reads one table and a request is answered with a page up to the last one of
  -- a non-empty table, `from` and `to` are numbers with 1 ≤ from ≤ to ≤ total, and the page holds
  -- the rows from the one to the other of the filter's rows in the order of the request, each
  -- transformed.
  pub paginate-span :
      r.meta.current_page ≤ r.meta.last_page
      → 1 ≤ r.meta.total
      → (f : ℕ) × (t : ℕ) × (r.meta.from ≡ some f)
        × (r.meta.to ≡ some t)
        × (1 ≤ f)
        × (f ≤ t)
        × (t ≤ r.meta.total)
        × (filter : Option (List Condition)) × (filter_of parse_int trim encode metadata base_path
              model o transform
              (search_of parse_int trim encode metadata base_path model o transform q)
            ≡ ok filter)
        × (r.data_ ≡ map transform (take (t + 1 - f) (drop (f - 1) (rows filter (order_by o q)))))
  unfolding answer
  paginate-span within some_row =
      let (f, filtered, same) = answered-by in
      let k = per_page_of parse_int q in
      let page : ℕ = page_of parse_int q in
      let skip = (page - 1) * k in
      let total = model.count f in
      let bounded = paginate-bounded in
      let positive = bounded.0 in
      let sized = bounded.1 in
      let within' : page ≤ last_page_of total k =
        subst (λ (x : PaginatedResult B). x.meta.current_page ≤ x.meta.last_page) (sym same)
          within in
      let some_row' : 1 ≤ total =
        subst (λ (x : PaginatedResult B). 1 ≤ x.meta.total) (sym same) some_row in
      let positive' : 1 ≤ page =
        subst (λ (x : PaginatedResult B). 1 ≤ x.meta.current_page) (sym same) positive in
      let sized' : 1 ≤ k =
        subst (λ (x : PaginatedResult B). 1 ≤ x.meta.per_page) (sym same) sized in
      let starts = page-starts_within total k (page - 1) sized' some_row' (omega arith) in
      rw (← same) (
        skip + 1,
        min (skip + k) total,
        rw (positive-test total some_row') refl,
        rw (positive-test total some_row') refl,
        omega arith,
        omega arith,
        omega arith,
        f,
        filtered,
        data-span f skip,
      )
    where
      positive-test : (n : ℕ) → 1 ≤ n → (n == 0) ≡ false
      positive-test n h = ground arith
