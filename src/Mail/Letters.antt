-- ===== src/Mail/Letters.antt =====
-- The e-mails that the service composes (email.service.ts) from the stored or built-in texts.
use express_core.Base.{
  String, true, Option, none, some, [], ◌∷◌, ◌++◌, ◌≡◌, refl, ap, ◌∙◌, inl, inr, subst, Bool-cases,
  eq_iff, arith, zero, is_some,
}
use express_core.Base.Distinct.{All-found}
use express_core.Base.RowLaws.{find_first-sat}
use express_core.Store.{EmailTemplate, Db}
use express_core.Rbac.{includes}
use express_core.Templates.{scan, Variables, value_of, render_template}
use express_core.Templates.Catalog.{
  TemplateKey, verify_email, email_verified, reset_password, registration_code, key_name,
  template_key, catalog, allowed_variables, template_problems,
}
use express_core.Templates.Service.{has_key, find_by_key, source, render}
use express_core.Templates.Filled.{Sendable, template_problems_iff, unfilled, unfilled-nil}
use express_core.Templates.Edits.{TemplatesOk, RowOk}
use express_core.Mail.{
  MailEnv, Letter, verification, reset, verification_success, code, letter_key, letter_variables,
  compose, message,
}

catalog-template_problems :
    (k : TemplateKey) → template_problems k (catalog k).subject (catalog k).body ≡ []
unfolding template_problems includes
catalog-template_problems verify_email = refl
catalog-template_problems email_verified = refl
catalog-template_problems reset_password = refl
catalog-template_problems registration_code = refl

template_key-key_name : (k : TemplateKey) → template_key (key_name k) ≡ some k
unfolding template_key key_name
template_key-key_name verify_email = refl
template_key-key_name email_verified = refl
template_key-key_name reset_password = refl
template_key-key_name registration_code = refl

abbrev pub texts : Letter → Db → String × String
texts letter s = source (letter_key letter) (find_by_key (key_name (letter_key letter)) s)

abbrev pub all_variables : MailEnv → Letter → Variables
all_variables e letter = letter_variables e letter ++ ("app_name", e.app_name) ∷ []

source-Sendable :
    (k : TemplateKey) (s : Db)
    → TemplatesOk s
    → Sendable k (source k (find_by_key (key_name k) s)).0 (source k (find_by_key (key_name k) s)).1
unfolding find_by_key
source-Sendable k s i = by_row (find_by_key (key_name k) s) refl
  where
    built_in : Sendable k (catalog k).subject (catalog k).body
    built_in = (template_problems_iff k _ _).0 (catalog-template_problems k)

    by_row :
        (o : Option EmailTemplate)
        → find_by_key (key_name k) s ≡ o
        → Sendable k (source k o).0 (source k o).1
    by_row none e = built_in
    by_row (some r) e =
        let same =
          (eq_iff r.key (key_name k)).0
            (find_first-sat (has_key (key_name k)) s.email_templates r e) in
        let row_ok =
          All-found (λ r. RowOk (template_key r.key) r) (has_key (key_name k)) s.email_templates r e
            i.sendable in
        let good : Sendable k r.subject r.body =
          subst (λ o. RowOk o r) (ap template_key same ∙ template_key-key_name k) row_ok in
        elim (Bool-cases r.is_active) [ inl on ↦ rw on good | inr off ↦ rw off built_in ]

-- Every variable that an edit may use has a value.
letter-covered :
    (e : MailEnv) (letter : Letter) (n : String)
    → includes (allowed_variables (letter_key letter)) n ≡ true
    → is_some (value_of n (all_variables e letter)) ≡ true
unfolding includes letter_variables letter_key catalog value_of
letter-covered e (verification name link) n h = ground arith
letter-covered e (reset name link) n h = ground arith
letter-covered e (verification_success name) n h = ground arith
letter-covered e (code digits minutes) n h = ground arith

-- When template keys are unique and each template of the catalogue has only known placeholders and
-- every required one, a letter is rendered from a subject and a body in which each placeholder has
-- a value, whether the texts are stored or built in.
pub compose-filled :
    (layout : String → String) (e : MailEnv) (to : String) (letter : Letter) (s : Db)
    → TemplatesOk s
    → (subject : String) × (body : String) × (compose layout e to letter s
        ≡ message to (render_template layout subject body (all_variables e letter)))
      × (unfilled (all_variables e letter) (scan zero subject) ≡ [])
      × (unfilled (all_variables e letter) (scan zero body) ≡ [])
unfolding compose render
compose-filled layout e to letter s i =
    let good = source-Sendable (letter_key letter) s i in
    (
      (texts letter s).0,
      (texts letter s).1,
      refl,
      unfilled-nil (all_variables e letter) _ _ (letter-covered e letter) good.subject_known,
      unfilled-nil (all_variables e letter) _ _ (letter-covered e letter) good.body_known,
    )
