-- ===== src/Seeders/Twice.antt =====
-- The seeders, run again (src/seeders, src/scripts/seed.ts).
use express_core.Base.{
  String, Bool, true, none, List, [], ◌∷◌, ◌≡◌, refl, ap, ◌∙◌, inl, inr, ◌||◌, ◌==ₛ◌, is_some, All,
  find_first, delete_where, Bool-cases, Option-cases, arith, eq_refl, not,
}
use express_core.Store.{Db}
use express_core.Store.Exec.{ok}
use express_core.Crypto.{Crypto}
use express_core.Accounts.{find_role_by_slug, role_has_slug, find_user_by_email, has_user_email}
use express_core.Rbac.{includes}
use express_core.Templates.Catalog.{
  TemplateKey, verify_email, email_verified, reset_password, registration_code, key_name,
}
use express_core.Templates.Service.{find_by_key}
use express_core.Seeders.{
  seed_admin, seed_template, seed_templates, Seeder, seeders, selected, names, run_seeders,
  run_known, run,
}
use express_core.Seeders.Granting.{
  RoleSeeded, RoleSeeded-again, seed_role-RoleSeeded, AdminSeeded, seed_admin-AdminSeeded,
}

abbrev Present : TemplateKey → Db → Type 0
Present k s = is_some (find_by_key (key_name k) s) ≡ true

Present-added :
    (k j : TemplateKey) (s : Db)
    → find_by_key (key_name k) s ≡ none
    → Present j s
    → Present j (seed_template k s)
unfolding seed_template find_by_key find_first
Present-added k j s missing h = elim (Bool-cases (key_name k ==ₛ key_name j)) [
  | inl e ↦ rw (missing, seed_template) (rw e refl)
  | inr e ↦ rw (missing, seed_template) (rw e h)
]

seed_template-kept : (k j : TemplateKey) (s : Db) → Present j s → Present j (seed_template k s)
unfolding seed_template
seed_template-kept k j s h = elim (Option-cases (find_by_key (key_name k) s)) [
  | inr (r, found) ↦ rw (found, seed_template) h
  | inl missing ↦ Present-added k j s missing h
]

seed_template-there : (k : TemplateKey) (s : Db) → Present k (seed_template k s)
unfolding seed_template
seed_template-there k s = elim (Option-cases (find_by_key (key_name k) s)) [
  | inr (r, found) ↦ rw (found, seed_template) (rw found refl)
  | inl missing ↦
      unfold find_by_key find_first in rw (missing, seed_template) (rw (eq_refl (key_name k)) refl)
]

seed_template-again : (k : TemplateKey) (s : Db) → Present k s → seed_template k s ≡ s
unfolding seed_template
seed_template-again k s h = elim (Option-cases (find_by_key (key_name k) s)) [
  | inr (r, found) ↦ rw (found, seed_template) refl
  | inl missing ↦ ground arith
]

-- What the seeding of a template leaves as it is.
seed_template-roles : (k : TemplateKey) (s : Db) → (seed_template k s).roles ≡ s.roles
unfolding seed_template
seed_template-roles k s = elim (Option-cases (find_by_key (key_name k) s)) [
  | inr (r, found) ↦ rw (found, seed_template) refl
  | inl missing ↦ rw (missing, seed_template) refl
]

seed_template-users : (k : TemplateKey) (s : Db) → (seed_template k s).users ≡ s.users
unfolding seed_template
seed_template-users k s = elim (Option-cases (find_by_key (key_name k) s)) [
  | inr (r, found) ↦ rw (found, seed_template) refl
  | inl missing ↦ rw (missing, seed_template) refl
]

-- A database with everything that the seeders add.
pub record Seeded (s : Db) : Type 0 where
  role : RoleSeeded s
  admin : AdminSeeded s
  templates : (k : TemplateKey) → Present k s

RoleSeeded-kept : (k : TemplateKey) (s : Db) → RoleSeeded s → RoleSeeded (seed_template k s)
unfolding find_role_by_slug
RoleSeeded-kept k s r = record {
  role = r.role;
  found = ap (find_first (role_has_slug "super-admin")) (seed_template-roles k s) ∙ r.found;
  complete = r.complete;
}

AdminSeeded-kept : (k : TemplateKey) (s : Db) → AdminSeeded s → AdminSeeded (seed_template k s)
unfolding AdminSeeded find_user_by_email
AdminSeeded-kept k s a =
    ap (λ us. is_some (find_first (has_user_email "admin@admin.com") us)) (seed_template-users k s)
    ∙ a

abbrev after_templates : Db → Db
after_templates s =
    seed_template registration_code
      (seed_template reset_password (seed_template email_verified (seed_template verify_email s)))

after_templates-Present : (s : Db) (k : TemplateKey) → Present k (after_templates s)
after_templates-Present s verify_email = seed_template-kept registration_code verify_email _ (
    seed_template-kept reset_password verify_email _
      (seed_template-kept email_verified verify_email _ (seed_template-there verify_email s)))
after_templates-Present s email_verified =
    seed_template-kept registration_code email_verified _
      (seed_template-kept reset_password email_verified _ (seed_template-there email_verified _))
after_templates-Present s reset_password =
    seed_template-kept registration_code reset_password _ (seed_template-there reset_password _)
after_templates-Present s registration_code = seed_template-there registration_code _

after_templates-Seeded : (s : Db) → RoleSeeded s → AdminSeeded s → Seeded (after_templates s)
after_templates-Seeded s r a = record {
  role = RoleSeeded-kept registration_code _ (
      RoleSeeded-kept reset_password _
        (RoleSeeded-kept email_verified _ (RoleSeeded-kept verify_email s r)));
  admin = AdminSeeded-kept registration_code _ (
      AdminSeeded-kept reset_password _
        (AdminSeeded-kept email_verified _ (AdminSeeded-kept verify_email s a)));
  templates = after_templates-Present s;
}

after_templates-again : (s : Db) → ((k : TemplateKey) → Present k s) → after_templates s ≡ s
after_templates-again s there =
    ap
      (λ t.
        seed_template registration_code
          (seed_template reset_password (seed_template email_verified t)))
      (seed_template-again verify_email s (there verify_email))
    ∙ ap (λ t. seed_template registration_code (seed_template reset_password t))
        (seed_template-again email_verified s (there email_verified))
    ∙ ap (λ t. seed_template registration_code t)
        (seed_template-again reset_password s (there reset_password))
    ∙ seed_template-again registration_code s (there registration_code)

seeders-again :
    (c : Crypto) (to_lower : String → String) (s : Db)
    → Seeded s
    → All (λ (x : Seeder). x.run s ≡ ok (tt, s)) (seeders c to_lower)
unfolding seeders seed_admin seed_templates AdminSeeded
seeders-again c to_lower s h = (
  RoleSeeded-again s h.role,
  (rw (h.admin, seed_admin) refl, (ap (λ t. ok (tt, t)) (after_templates-again s h.templates), tt)),
)

All-delete :
    {A : Type 0} (P : A → Type 0) (p : A → Bool) (xs : List A)
    → All P xs
    → All P (delete_where p xs)
unfolding delete_where
All-delete P p [] h = tt
All-delete P p (x ∷ xs) h = elim (Bool-cases (p x)) [
  | inl e ↦ rw e (All-delete P p xs h.1)
  | inr e ↦ rw e (h.0, All-delete P p xs h.1)
]

run_seeders-quiet :
    (xs : List Seeder) (s : Db)
    → All (λ (x : Seeder). x.run s ≡ ok (tt, s)) xs
    → (run_seeders xs s).1 ≡ s
unfolding run_seeders
run_seeders-quiet [] s h = refl
run_seeders-quiet (x ∷ xs) s h = rw (h.0, run_seeders) (run_seeders-quiet xs s h.1)

selected-All :
    (P : Seeder → Type 0) (argv : List String) (xs : List Seeder)
    → All P xs
    → All P (selected argv xs)
selected-All P [] xs h = h
selected-All P (a ∷ argv) xs h = All-delete P (λ x. not (includes (a ∷ argv) x.name)) xs h

run_known-quiet :
    (unknown argv : List String) (xs : List Seeder) (s : Db)
    → All (λ (x : Seeder). x.run s ≡ ok (tt, s)) xs
    → (run_known unknown argv xs s).1 ≡ s
run_known-quiet [] argv xs s h = run_seeders-quiet (selected argv xs) s (selected-All _ argv xs h)
run_known-quiet (u ∷ unknown) argv xs s h = refl

run-quiet :
    (c : Crypto) (to_lower : String → String) (argv : List String) (s : Db)
    → Seeded s
    → (run c to_lower argv s).1 ≡ s
unfolding run
run-quiet c to_lower argv s h = elim (Bool-cases (includes argv "--help" || includes argv "-h")) [
  | inl e ↦ rw (e, run) refl
  | inr e ↦
      rw (e, run)
        (run_known-quiet (delete_where (includes (names (seeders c to_lower))) argv) argv
          (seeders c to_lower) s (seeders-again c to_lower s h))
]

run-Seeded :
    (c : Crypto) (to_lower : String → String) (s : Db)
    → (s' : Db) × (run c to_lower [] s ≡ (0, s')) × Seeded s'
unfolding run seeders run_seeders seed_templates includes delete_where
run-Seeded c to_lower s =
    let (s1, e1, r1) = seed_role-RoleSeeded s in
    let (s2, e2, r2, a2) = seed_admin-AdminSeeded c to_lower s1 r1 in
    (
      after_templates s2,
      rw (e1, run_seeders) (rw (e2, run_seeders) refl),
      after_templates-Seeded s2 r2 a2,
    )

-- On every database, a run of all the seeders ends with the exit code 0 and leaves an active
-- super-admin role with every permission, an active user with the administrator's address and a
-- row for each template of the catalogue; a second run, with any arguments, changes nothing.
pub run-twice :
    (c : Crypto) (to_lower : String → String) (argv : List String) (s : Db)
    → (s' : Db) × (run c to_lower [] s ≡ (0, s')) × Seeded s' × ((run c to_lower argv s').1 ≡ s')
run-twice c to_lower argv s =
    let (s', e, h) = run-Seeded c to_lower s in (s', e, h, run-quiet c to_lower argv s' h)
