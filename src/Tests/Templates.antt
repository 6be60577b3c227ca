-- ===== src/Tests/Templates.antt =====
-- One stored template, and texts to escape.
use Prim.Native.Char.{code}
use express_core.Base.{true, none, some, [], ◌∷◌, ◌≡◌, ◌↔◌, refl, List, ◌==◌, find_first}
use express_core.Store.{EmailTemplate, Db, empty_db}
use express_core.Rbac.{includes}
use express_core.Templates.{escape_html, substitute, render_template}
use express_core.Templates.Escaping.{lacks, escape_html-lacks}
use express_core.Templates.Catalog.{verify_email, template_problems, template_key}
use express_core.Templates.Filled.{Sendable, template_problems_iff}
use express_core.Templates.Edits.{Edit, edit_all, TemplatesOk, edit_all-TemplatesOk}

escaped : escape_html "<a&b>" ≡ "&lt;a&amp;b&gt;"
unfolding escape_html
escaped = refl

filled :
    substitute "Hi {{ name }}, {{x}} {{{name}}" (("name", "Ann") ∷ []) (λ v. v)
    ≡ "Hi Ann, {{x}} {Ann"
unfolding substitute
filled = refl

one_lined :
    (render_template (λ b. b) " Hi \n {{name}} " "" (("name", "Ann") ∷ [])).subject ≡ "Hi Ann"
unfolding render_template
one_lined = refl

escape_html-lacks_example :
    (lacks (λ c. code c == 60) (escape_html "<a>") ≡ true)
    × (lacks (λ c. code c == 62) (escape_html "<a>") ≡ true)
    × (lacks (λ c. code c == 34) (escape_html "<a>") ≡ true)
    × (lacks (λ c. code c == 39) (escape_html "<a>") ≡ true)
escape_html-lacks_example = escape_html-lacks "<a>"

template_problems_iff_example :
    (template_problems verify_email "Hi {{name}}" "<a>{{link}}</a>" ≡ [])
    ↔ Sendable verify_email "Hi {{name}}" "<a>{{link}}</a>"
template_problems_iff_example = template_problems_iff verify_email "Hi {{name}}" "<a>{{link}}</a>"

abbrev stored : EmailTemplate
stored = record {
  id = 1;
  key = "verify-email";
  title = "T";
  subject = "Hi {{name}}";
  body = "{{link}}";
  is_active = true;
}

abbrev pub one_template : Db
one_template = record empty_db { email_templates = stored ∷ [] }

no_problems : template_problems verify_email "Hi {{name}}" "{{link}}" ≡ []
unfolding template_problems includes
no_problems = refl

pub one_template-TemplatesOk : TemplatesOk one_template
unfolding template_key find_first
one_template-TemplatesOk = record {
  unique = (refl, tt);
  sendable = ((template_problems_iff verify_email "Hi {{name}}" "{{link}}").0 no_problems, tt);
}

abbrev two_edits : List Edit
two_edits =
    (record {
      key = "verify-email";
      input = record {
        title = none;
        subject = some "Hello {{nme}}";
        body = none;
        is_active = none;
      };
      updated_by = some 1;
    })
    ∷ (record {
      key = "verify-email";
      input = record {
        title = none;
        subject = some "Hello {{name}}";
        body = none;
        is_active = none;
      };
      updated_by = some 1;
    })
    ∷ []

edit_all-TemplatesOk_example : TemplatesOk (edit_all two_edits one_template)
edit_all-TemplatesOk_example = edit_all-TemplatesOk two_edits one_template one_template-TemplatesOk
