-- ===== src/Paginator/Visits.antt =====
-- The pages of a table, asked for one after the other (paginator.ts).
use native.Mathlib.Nat.{suc-mul, zero-mul}
use express_core.Base.Bytes.{take, drop}
use express_core.Base.{
  [], ◌∷◌, zero, suc, ℕ, List, String, Option, some, ◌≤◌, ◌≡◌, ◌++◌, ◌*◌, arith, ◌+◌, ap, ◌-◌, refl,
  ◌∙◌, sym, map, subst,
}
use express_core.Slug.Decimal.{decimal}
use express_core.Store.Exec.{Result, ok, and_then, and_then-eq-ok, err}
use express_core.Paginator.Search.{Condition, FieldMeta}
use express_core.Paginator.{
  Sort, Delegate, Query, Parsed, natural, PaginateOptions, PaginatedResult, last_page_of, paginate,
  answer, filter_of, search_of, order_by, per_page_of, page_of, or_default, text_or,
}
use express_core.Paginator.Laws.{ReadsTable, take-drop, drop-drop, take-all, last_page-reaches}
use express_core.Paginator.Pages.{at_least_one-pos}

map-append : {A B : Type 0} (g : A → B) (xs ys : List A) → map g (xs ++ ys) ≡ map g xs ++ map g ys
map-append g [] ys = refl
map-append g (x ∷ xs) ys = ap (λ l. g x ∷ l) (map-append g xs ys)

-- The same request for another page.
abbrev pub at_page : Query → ℕ → Query
at_page q p = record q { page = some (decimal p) }

module _ {A B : Type 0} (parse_int : String → Parsed) (trim : String → String)
    (encode : List (String × String) → String)
    (metadata : String → Option (List (String × FieldMeta))) (base_path : String)
    (model : Delegate A) (o : PaginateOptions) (transform : A → B) (q : Query) where
  abbrev ask : ℕ → Result (PaginatedResult B)
  ask p = paginate parse_int trim encode metadata base_path model o transform (at_page q p)

  abbrev joined : Result (PaginatedResult B) → Result (List B) → Result (List B)
  joined page rest = and_then page (λ r. and_then rest (λ more. ok (r.data_ ++ more)))

  -- The rows of the answers to the n pages after `page`, one after the other.
  unfoldable pub visit : ℕ → ℕ → Result (List B)
  visit page zero = ok []
  visit page (suc n) = joined (ask (suc page)) (visit (suc page) n)

  module _ (rows : Option (List Condition) → List Sort → List A) (law : ReadsTable model rows) where
    abbrev filter : Result (Option (List Condition))
    filter =
        filter_of parse_int trim encode metadata base_path model o transform
          (search_of parse_int trim encode metadata base_path model o transform q)

    module _ (f : Option (List Condition)) (filtered : filter ≡ ok f) where
      size : ℕ
      size = per_page_of parse_int q

      ask_lem :
          (page : ℕ)
          → parse_int (decimal (suc page)) ≡ natural (suc page)
          → (r : PaginatedResult B) × (ask (suc page) ≡ ok r)
            × (r.data_ ≡ map transform (take size (drop (page * size) (rows f (order_by o q)))))
      unfolding paginate answer size order_by
      ask_lem page reads = (
        answer parse_int trim encode metadata base_path model o transform (at_page q (suc page)) f,
        rw (filtered, paginate) refl,
        ap (map transform) (
            law.find_many-rows f (order_by o q) _ _
            ∙ ap
                (λ k.
                  take (per_page_of parse_int q)
                    (drop (k * per_page_of parse_int q) (rows f (order_by o q))))
                (skipped reads)),
      )
        where
          skipped :
              parse_int (decimal (suc page)) ≡ natural (suc page)
              → page_of parse_int (at_page q (suc page)) - 1 ≡ page
          skipped h = rw h (omega arith)

      visit_lem :
          (last page n : ℕ)
          → ((m : ℕ) → m ≤ last → parse_int (decimal m) ≡ natural m)
          → page + n ≤ last
          → visit page n
            ≡ ok (map transform (take (n * size) (drop (page * size) (rows f (order_by o q)))))
      unfolding visit
      visit_lem last page zero reads h = rw (zero-mul size) refl
      visit_lem last page (suc n) reads h =
          let all_rows = rows f (order_by o q) in
          let (r, asked, held) = ask_lem page (reads (suc page) (omega arith)) in
          rw (asked, visit_lem last (suc page) n reads (omega arith), held)
            (ap ok (
              sym (map-append transform (take size (drop (page * size) all_rows)) _)
              ∙ ap (map transform) (
                  rw
                    (
                      suc-mul page size,
                      ← drop-drop (page * size) size all_rows,
                      take-drop size (n * size) (drop (page * size) all_rows),
                      suc-mul n size,
                    )
                    (ap (λ k. take k (drop (page * size) all_rows)) (omega arith)))))

    -- When the delegate reads one table, the request for page 1 is answered, and parseInt reads
    -- the numerals up to the last page that the answer reports: the same request for each page
    -- from 1 to the last one, one after the other, is answered with exactly the rows of the filter
    -- in the order of the request, each transformed.
    pub visit-all :
        (r : PaginatedResult B)
        → ask 1 ≡ ok r
        → ((m : ℕ) → m ≤ r.meta.last_page → parse_int (decimal m) ≡ natural m)
        → (f : Option (List Condition)) × (filter ≡ ok f)
          × (visit 0 r.meta.last_page ≡ ok (map transform (rows f (order_by o q))))
    unfolding paginate answer size
    visit-all r asked reads =
        let (f, filtered, same) = and_then-eq-ok filter _ asked in
        let k : ℕ = per_page_of parse_int q in
        let sized : 1 ≤ k =
          let positive = at_least_one-pos (or_default 15 (parse_int (text_or "15" q.per_page))) in
          omega arith in
        let last : last_page_of (model.count f) k ≡ r.meta.last_page =
          ap (λ (x : Result (PaginatedResult B)). elim x [ ok y ↦ y.meta.last_page | err e ↦ 0 ])
            same in
        let reached = last_page-reaches (model.count f) k sized in
        let counted = law.count-rows f (order_by o q) in
        (
          f,
          filtered,
          visit_lem f filtered r.meta.last_page 0 r.meta.last_page reads (omega arith)
              ∙ ap (λ xs. ok (map transform xs))
                  (rw (zero-mul (size f filtered)) (
                    take-all (r.meta.last_page * size f filtered) (rows f (order_by o q)) (
                      subst (λ n. n ≤ r.meta.last_page * k) counted
                        (subst (λ l. model.count f ≤ l * k) last reached)))),
        )
