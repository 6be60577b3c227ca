-- ===== src/Templates/Edits.antt =====
-- The table of e-mail templates over any sequence of edits (email-template.service.ts).
use Prim.Native.String
use express_core.Base.{
  String, false, Option, none, some, List, [], ◌∷◌, ◌≡◌, refl, sym, ap, ◌∙◌, ◌⊎◌, inl, inr, subst,
  ◌==ₛ◌, All, Bool-cases, Option-cases, eq_iff, arith, or_else, find_first, update_where, ℕ,
}
use express_core.Base.RowLaws.{Unique, Unique-update, find_first-sat}
use express_core.Store.{EmailTemplate, Db}
use express_core.Store.Exec.{transaction, transaction-ok}
use express_core.Accounts.Keys.{All-of_find-none}
use express_core.Activity.{log_activity_rest}
use express_core.Templates.Catalog.{TemplateKey, template_key, template_problems, Problem}
use express_core.Templates.Service.{
  UpdateInput, has_key, find_by_key, find_template, update_template_row, apply_edit, edit_steps,
  update_template, edit_checked, known_template,
}
use express_core.Templates.Filled.{Sendable, template_problems_iff}

abbrev pub row_key : EmailTemplate → String
row_key r = r.key

-- A row whose key is not in the catalogue is never sent.
abbrev pub RowOk : Option TemplateKey → EmailTemplate → Type 0
RowOk none r = Unit {0}
RowOk (some k) r = Sendable k r.subject r.body

-- The key is unique, and what may be sent is sendable.
pub record TemplatesOk (s : Db) : Type 0 where
  pub unique : Unique row_key s.email_templates
  pub sendable : All (λ r. RowOk (template_key r.key) r) s.email_templates

-- An edit with what its caller passes.
pub record Edit : Type 0 where
  pub key : String
  pub input : UpdateInput
  pub updated_by : Option ℕ

unfoldable pub edit_all : List Edit → Db → Db
edit_all [] s = s
edit_all (e ∷ rest) s = edit_all rest (update_template e.key e.input e.updated_by s).1

only_row :
    (t : EmailTemplate) (key : String) (rows : List EmailTemplate)
    → Unique row_key rows
    → find_first (has_key key) rows ≡ some t
    → All (λ r. (has_key key r ≡ false) ⊎ (r ≡ t)) rows
unfolding find_first
only_row t key [] u found = tt
only_row t key (r ∷ rows) u found = elim (Bool-cases (r.key ==ₛ key)) [
  | inl e ↦
      let k = (eq_iff r.key key).0 e in
      (
        inr (ground arith),
        others rows (
            All-of_find-none (has_key key) rows
              (subst (λ n. find_first (has_key n) rows ≡ none) k u.0)),
      )
  | inr e ↦ (inl e, only_row t key rows u.1 (ground arith))
]
  where
    others :
        (xs : List EmailTemplate)
        → All (λ x. has_key key x ≡ false) xs
        → All (λ x. (has_key key x ≡ false) ⊎ (x ≡ t)) xs
    others [] a = tt
    others (x ∷ xs) a = (inl a.0, others xs a.1)

edited-RowOk :
    (t : EmailTemplate) (key : String) (f : EmailTemplate → EmailTemplate)
    (rows : List EmailTemplate)
    → RowOk (template_key (f t).key) (f t)
    → All (λ r. (has_key key r ≡ false) ⊎ (r ≡ t)) rows
    → All (λ r. RowOk (template_key r.key) r) rows
    → All (λ r. RowOk (template_key r.key) r) (update_where (has_key key) f rows)
unfolding update_where
edited-RowOk t key f [] h only a = tt
edited-RowOk t key f (r ∷ rows) h only a = (
  elim only.0 [
    | inl e ↦ rw e a.0
    | inr e ↦ elim (Bool-cases (r.key ==ₛ key)) [
      | inl hit ↦ rw hit (subst (λ x. RowOk (template_key (f x).key) (f x)) (sym e) h)
      | inr miss ↦ rw miss a.0
    ]
  ],
  edited-RowOk t key f rows h only.1 a.1,
)

-- The template that an edit is about.
record Target (key : String) (s : Db) (k : TemplateKey) (t : EmailTemplate) : Type 0 where
  in_catalog : template_key key ≡ some k
  found : find_by_key key s ≡ some t

find_template-Target :
    (key : String) (s : Db) (k : TemplateKey) (t : EmailTemplate)
    → find_template key s ≡ some (k, t)
    → Target key s k t
unfolding find_template
find_template-Target key s k t h = by_key (template_key key) (find_by_key key s) refl refl h
  where
    by_key :
        (o : Option TemplateKey) (r : Option EmailTemplate)
        → template_key key ≡ o
        → find_by_key key s ≡ r
        → known_template o key s ≡ some (k, t)
        → Target key s k t
    by_key none r e e' c = absurd (cc c)
    by_key (some k') none e e' c =
        absurd (let d : none ≡ some (k, t) = sym (rw (e', known_template) refl) ∙ c in cc)
    by_key (some k') (some t') e e' c =
        let d : some (k', t') ≡ some (k, t) = sym (rw (e', known_template) refl) ∙ c in
        let same_key : some k' ≡ some k = cc in
        let same_row : some t' ≡ some t = cc in
        record { in_catalog = e ∙ same_key; found = e' ∙ same_row }

edit_steps-TemplatesOk :
    (key : String) (k : TemplateKey) (t : EmailTemplate) (input : UpdateInput) (by : Option ℕ)
    (s : Db)
    → Target key s k t
    → Sendable k (or_else input.subject t.subject) (or_else input.body t.body)
    → TemplatesOk s
    → TemplatesOk (transaction (edit_steps t input by) s).1
unfolding edit_steps update_template_row find_by_key
edit_steps-TemplatesOk key k t input by s target good i =
    let same : t.key ≡ key =
      (eq_iff t.key key).0 (find_first-sat (has_key key) s.email_templates t target.found) in
    let found : find_first (has_key t.key) s.email_templates ≡ some t =
      subst (λ n. find_first (has_key n) s.email_templates ≡ some t) (sym same) target.found in
    let f = apply_edit input in
    let s₁ = record s { email_templates = update_where (has_key t.key) f s.email_templates } in
    let (logs, logged) =
      log_activity_rest by "UPDATE" "EmailTemplate" t.id
        (some (String.◌++◌ "Email template updated: " t.key)) s₁ in
    let row_ok : RowOk (template_key t.key) (f t) =
      subst (λ o. RowOk o (f t)) (sym (ap template_key same ∙ target.in_catalog))
        (unfold apply_edit in good) in
    rw
      (transaction-ok (edit_steps t input by) s (f t, record s₁ { activity_logs = logs })
        (rw (found, update_template_row) (unfold apply_edit in rw logged refl)))
      (record {
        unique =
            Unique-update row_key (has_key t.key) f s.email_templates
              (unfold apply_edit in λ r. refl) i.unique;
        sendable =
            edited-RowOk t t.key f s.email_templates (unfold apply_edit in row_ok)
              (only_row t t.key s.email_templates i.unique found) i.sendable;
      })

update_template-TemplatesOk :
    (key : String) (input : UpdateInput) (by : Option ℕ) (s : Db)
    → TemplatesOk s
    → TemplatesOk (update_template key input by s).1
unfolding update_template
update_template-TemplatesOk key input by s i = elim (Option-cases (find_template key s)) [
  | inl missing ↦ rw (missing, update_template) i
  | inr ((k, t), known) ↦
      rw (known, update_template)
        (by_problems k t (find_template-Target key s k t known)
          (template_problems k (or_else input.subject t.subject) (or_else input.body t.body)) refl)
]
  where
    by_problems :
        (k : TemplateKey) (t : EmailTemplate)
        → Target key s k t
        → (ps : List Problem)
        → template_problems k (or_else input.subject t.subject) (or_else input.body t.body) ≡ ps
        → TemplatesOk (edit_checked ps t input by s).1
    by_problems k t target (p ∷ ps) e = i
    by_problems k t target [] e =
        edit_steps-TemplatesOk key k t input by s target ((template_problems_iff k _ _).0 e) i

-- When template keys are unique and each template of the catalogue has only known placeholders and
-- every required one, the same holds after any sequence of edits, accepted or refused.
pub edit_all-TemplatesOk :
    (edits : List Edit) (s : Db) → TemplatesOk s → TemplatesOk (edit_all edits s)
unfolding edit_all
edit_all-TemplatesOk [] s i = i
edit_all-TemplatesOk (e ∷ rest) s i =
    edit_all-TemplatesOk rest _ (update_template-TemplatesOk e.key e.input e.updated_by s i)
