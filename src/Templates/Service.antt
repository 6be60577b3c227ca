-- ===== src/Templates/Service.antt =====
-- src/modules/email-template/email-template.service.ts and the statements of
-- email-template.repository.ts. The problems of a refused edit are returned beside its error.
use Prim.Native.String
use express_core.Base.{
  ℕ, String, Bool, Option, none, some, List, [], ◌∷◌, ◌++◌, ◌==ₛ◌, find_first, update_where,
  or_else, if◌then◌else◌,
}
use express_core.Store.{EmailTemplate, Db}
use express_core.Store.Exec.{Tx, Result, Error, ok, err, app, db, pure, transaction, ◌>>=◌, ◌>>◌}
use express_core.Activity.{log_activity}
use express_core.Templates.{Rendered, Variables, render_template}
use express_core.Templates.Catalog.{
  TemplateKey, key_name, template_key, catalog, Problem, template_problems,
}

pub record UpdateInput : Type 0 where
  pub title : Option String
  pub subject : Option String
  pub body : Option String
  pub is_active : Option Bool

abbrev pub has_key : String → EmailTemplate → Bool
has_key key r = r.key ==ₛ key

unfoldable pub find_by_key : String → Db → Option EmailTemplate
find_by_key key s = find_first (has_key key) s.email_templates

unfoldable pub update_template_row : String → (EmailTemplate → EmailTemplate) → Tx EmailTemplate
update_template_row key f s = elim (find_by_key key s) [
  | none ↦ err (db "record to update not found")
  | some r ↦ ok (f r, record s { email_templates = update_where (has_key key) f s.email_templates })
]

abbrev pub source : TemplateKey → Option EmailTemplate → String × String
source key none = ((catalog key).subject, (catalog key).body)
source key (some r) =
    if r.is_active then (r.subject, r.body) else ((catalog key).subject, (catalog key).body)

abbrev render_source : (String → String) → String × String → Variables → Rendered
render_source layout t variables = render_template layout t.0 t.1 variables

-- A variable of the call hides app_name.
unfoldable pub render : (String → String) → String → TemplateKey → Variables → Db → Rendered
unfolding find_by_key key_name
render layout app_name key variables s =
    render_source layout (source key (find_by_key (key_name key) s))
      (variables ++ ("app_name", app_name) ∷ [])

unfoldable pub apply_edit : UpdateInput → EmailTemplate → EmailTemplate
apply_edit input r = record r {
  title = or_else input.title r.title;
  subject = or_else input.subject r.subject;
  body = or_else input.body r.body;
  is_active = or_else input.is_active r.is_active;
}

unfoldable pub edit_steps : EmailTemplate → UpdateInput → Option ℕ → Tx EmailTemplate
edit_steps template input updated_by = do
  row ← update_template_row template.key (apply_edit input)
  log_activity updated_by "UPDATE" "EmailTemplate" (some row.id)
      (some (String.◌++◌ "Email template updated: " row.key))
  pure row

-- The row of a key of the catalogue.
abbrev pub known_template : Option TemplateKey → String → Db → Option (TemplateKey × EmailTemplate)
known_template none key s = none
known_template (some k) key s = elim (find_by_key key s) [ none ↦ none | some r ↦ some (k, r) ]

unfoldable pub find_template : String → Db → Option (TemplateKey × EmailTemplate)
unfolding find_by_key
find_template key s = known_template (template_key key) key s

abbrev pub not_found : Error
not_found = app "Email template not found" 404

abbrev pub edit_checked :
    List Problem
    → EmailTemplate
    → UpdateInput
    → Option ℕ
    → Db
    → (Result EmailTemplate × List Problem) × Db
edit_checked (p ∷ ps) template input updated_by s = ((err (app "Validation failed" 400), p ∷ ps), s)
edit_checked [] template input updated_by s =
    let r = transaction (edit_steps template input updated_by) s in ((r.0, []), r.1)

unfoldable pub update_template :
    String → UpdateInput → Option ℕ → Db → (Result EmailTemplate × List Problem) × Db
update_template key input updated_by s = elim (find_template key s) [
  | none ↦ ((err not_found, []), s)
  | some (k, template) ↦
      edit_checked
        (template_problems k (or_else input.subject template.subject)
          (or_else input.body template.body))
        template input updated_by s
]
