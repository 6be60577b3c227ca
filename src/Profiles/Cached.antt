-- ===== src/Profiles/Cached.antt =====
-- The profile service without its cache, and any sequence of requests to both.
use express_core.Base.{
  ℕ, String, false, none, some, List, [], ◌∷◌, ◌≡◌, ◌≢◌, refl, sym, ap, ◌∙◌, ◌==◌, find_first,
  Bool-cases, Option-cases, inl, inr, arith, subst,
}
use express_core.Store.{User, Db}
use express_core.Store.Exec.{Result, ok, err, app, transaction, transaction-ok}
use express_core.Crypto.{Crypto}
use express_core.Rbac.{set}
use express_core.Redis.{Redis, ProfileData}
use express_core.Profiles.Views.{read_direct, read-own, read-other}
use express_core.Profiles.{
  UpdateProfileInput, has_id, profile_data, get_profile, update_profile, update_profile_steps,
  read_profile, store_profile, drop_profile,
}
use express_core.Profiles.Updating.{
  Saved, update_profile_steps-Saved, update_profile-answer, answered,
}

abbrev read_again : String → Result User × Db → Result ProfileData × Db
read_again base_url (ok u, s) = (read_direct base_url u.id s, s)
read_again base_url (err e, s) = (err e, s)

unfoldable pub update_direct :
    Crypto → (String → String) → String → ℕ → UpdateProfileInput → Db → Result ProfileData × Db
unfolding read_direct
update_direct c to_lower base_url user_id input s = elim (find_first (has_id user_id) s.users) [
  | none ↦ (err (app "Profile not found" 404), s)
  | some existing ↦
      read_again base_url (transaction (update_profile_steps c to_lower user_id existing input) s)
]

pub data Request : Type 0 where
  get : ℕ → Request
  update : ℕ → UpdateProfileInput → Request

module _ (c : Crypto) (to_lower : String → String) (base_url : String) where
  unfoldable pub serve : Request → Db × Redis → Result ProfileData × (Db × Redis)
  serve (get user_id) w = get_profile base_url user_id w
  serve (update user_id input) w = update_profile c to_lower base_url user_id input w

  unfoldable pub serve_direct : Request → Db → Result ProfileData × Db
  serve_direct (get user_id) s = (read_direct base_url user_id s, s)
  serve_direct (update user_id input) s = update_direct c to_lower base_url user_id input s

  unfoldable pub serve_all : List Request → Db × Redis → List (Result ProfileData)
  unfolding serve
  serve_all [] w = []
  serve_all (r ∷ rest) w = (serve r w).0 ∷ serve_all rest (serve r w).1

  unfoldable pub serve_all_direct : List Request → Db → List (Result ProfileData)
  unfolding serve_direct
  serve_all_direct [] s = []
  serve_all_direct (r ∷ rest) s = (serve_direct r s).0 ∷ serve_all_direct rest (serve_direct r s).1

  -- A cached profile is what the database gives.
  abbrev pub Coherent : Db × Redis → Type 0
  Coherent w =
      (user_id : ℕ) (p : ProfileData)
      → w.1.profiles user_id ≡ some p
      → read_direct base_url user_id w.0 ≡ ok p

  -- One request: the same answer and the same database, and the cache stays coherent.
  record Agrees (r : Request) (w : Db × Redis) : Type 0 where
    answer : (serve r w).0 ≡ (serve_direct r w.0).0
    database : (serve r w).1.0 ≡ (serve_direct r w.0).1
    coherent : Coherent (serve r w).1

  store-Coherent :
      (s : Db) (redis : Redis) (user_id : ℕ) (p : ProfileData)
      → read_direct base_url user_id s ≡ ok p
      → ((u : ℕ) (q : ProfileData)
          → u ≢ user_id
          → redis.profiles u ≡ some q
          → read_direct base_url u s ≡ ok q)
      → Coherent (s, store_profile user_id p redis)
  unfolding set
  store-Coherent s redis user_id p mine others u q h = elim (Bool-cases (u == user_id)) [
    | inl e ↦
        let same : u ≡ user_id = ground arith in
        let k : p ≡ q = ground arith in
        subst (λ v. read_direct base_url v s ≡ ok q) (sym same) (mine ∙ ap ok k)
    | inr e ↦ others u q (λ same. absurd (ground arith)) (ground arith)
  ]

  get-Agrees : (user_id : ℕ) (w : Db × Redis) → Coherent w → Agrees (get user_id) w
  unfolding serve serve_direct get_profile read_direct
  get-Agrees user_id w k = elim (Option-cases (w.1.profiles user_id)) [
    | inr (p, hit) ↦
        let cached : get_profile base_url user_id w ≡ (ok p, w) = rw (hit, get_profile) refl in
        record {
          answer =
              ap (λ (r : Result ProfileData × (Db × Redis)). r.0) cached ∙ sym (k user_id p hit);
          database = ap (λ (r : Result ProfileData × (Db × Redis)). r.1.0) cached;
          coherent = subst (λ (r : Result ProfileData × (Db × Redis)). Coherent r.1) (sym cached) k;
        }
    | inl miss ↦ elim (Option-cases (find_first (has_id user_id) w.0.users)) [
      | inl nobody ↦
          let missed : get_profile base_url user_id w ≡ (err (app "Profile not found" 404), w) =
            rw (miss, get_profile) (rw (nobody, read_profile) refl) in
          let direct : read_direct base_url user_id w.0 ≡ err (app "Profile not found" 404) =
            rw (nobody, read_direct) refl in
          record {
            answer = ap (λ (r : Result ProfileData × (Db × Redis)). r.0) missed ∙ sym direct;
            database = ap (λ (r : Result ProfileData × (Db × Redis)). r.1.0) missed;
            coherent =
                subst (λ (r : Result ProfileData × (Db × Redis)). Coherent r.1) (sym missed) k;
          }
      | inr (u, found) ↦
          let p = profile_data base_url u w.0 in
          let read : get_profile base_url user_id w ≡ (ok p, (w.0, store_profile user_id p w.1)) =
            rw (miss, get_profile) (rw (found, read_profile) refl) in
          let direct : read_direct base_url user_id w.0 ≡ ok p = rw (found, read_direct) refl in
          record {
            answer = ap (λ (r : Result ProfileData × (Db × Redis)). r.0) read ∙ sym direct;
            database = ap (λ (r : Result ProfileData × (Db × Redis)). r.1.0) read;
            coherent =
                subst (λ (r : Result ProfileData × (Db × Redis)). Coherent r.1) (sym read)
                  (store-Coherent w.0 w.1 user_id p direct (λ v q other h. k v q h));
          }
    ]
  ]

  update_direct-ok :
      (user_id : ℕ) (input : UpdateProfileInput) (s : Db) (existing : User)
      (saved : Saved c to_lower user_id existing input s)
      → find_first (has_id user_id) s.users ≡ some existing
      → update_direct c to_lower base_url user_id input s
        ≡ (ok (answered c to_lower base_url user_id input s existing saved), saved.after)
  unfolding update_direct
  update_direct-ok user_id input s existing saved found =
      let committed : transaction (update_profile_steps c to_lower user_id existing input) s
          ≡ (ok saved.row, saved.after) =
        transaction-ok (update_profile_steps c to_lower user_id existing input) s
          (saved.row, saved.after) saved.returned in
      let by_id : (read_direct base_url saved.row.id saved.after, saved.after)
          ≡ (read_direct base_url user_id saved.after, saved.after) =
        ap (λ (i : ℕ). (read_direct base_url i saved.after, saved.after)) saved.same_id in
      let mine = read-own c to_lower base_url user_id input s existing saved found in
      rw (found, update_direct)
        (ap (read_again base_url) committed
          ∙ by_id
          ∙ ap (λ (r : Result ProfileData). (r, saved.after)) mine)

  update-Agrees :
      (user_id : ℕ) (input : UpdateProfileInput) (w : Db × Redis)
      → Coherent w
      → Agrees (update user_id input) w
  unfolding serve serve_direct update_direct update_profile
  update-Agrees user_id input w k = elim (Option-cases (find_first (has_id user_id) w.0.users)) [
    | inl nobody ↦
        let missed : update_profile c to_lower base_url user_id input w
            ≡ (err (app "Profile not found" 404), w) =
          rw (nobody, update_profile) refl in
        let direct : update_direct c to_lower base_url user_id input w.0
            ≡ (err (app "Profile not found" 404), w.0) =
          rw (nobody, update_direct) refl in
        record {
          answer =
              ap (λ (r : Result ProfileData × (Db × Redis)). r.0) missed
              ∙ sym (ap (λ (r : Result ProfileData × Db). r.0) direct);
          database =
              ap (λ (r : Result ProfileData × (Db × Redis)). r.1.0) missed
              ∙ sym (ap (λ (r : Result ProfileData × Db). r.1) direct);
          coherent = subst (λ (r : Result ProfileData × (Db × Redis)). Coherent r.1) (sym missed) k;
        }
    | inr (existing, found) ↦
        let saved = update_profile_steps-Saved c to_lower user_id existing input w.0 found in
        let p = answered c to_lower base_url user_id input w.0 existing saved in
        let done =
          update_profile-answer c to_lower base_url user_id input w.0 w.1 existing found saved in
        let mine = read-own c to_lower base_url user_id input w.0 existing saved found in
        let direct = update_direct-ok user_id input w.0 existing saved found in
        record {
          answer =
              ap (λ (r : Result ProfileData × (Db × Redis)). r.0) done
              ∙ sym (ap (λ (r : Result ProfileData × Db). r.0) direct);
          database =
              ap (λ (r : Result ProfileData × (Db × Redis)). r.1.0) done
              ∙ sym (ap (λ (r : Result ProfileData × Db). r.1) direct);
          coherent =
              subst (λ (r : Result ProfileData × (Db × Redis)). Coherent r.1) (sym done)
                (store-Coherent saved.after (store_profile user_id p (drop_profile user_id w.1))
                  user_id p mine
                  (λ v q other h.
                    read-other c to_lower base_url user_id v input w.0 existing saved other
                    ∙ k v q (untouched v q p other h)));
        }
  ]
    where
      untouched :
          (v : ℕ) (q p : ProfileData)
          → v ≢ user_id
          → (store_profile user_id p (drop_profile user_id w.1)).profiles v ≡ some q
          → w.1.profiles v ≡ some q
      untouched v q p other h =
          let e : (v == user_id) ≡ false = ground arith in
          let kept : (store_profile user_id p (drop_profile user_id w.1)).profiles v
              ≡ w.1.profiles v =
            unfold set in rw e refl in
          sym kept ∙ h

  Agrees-all : (r : Request) (w : Db × Redis) → Coherent w → Agrees r w
  Agrees-all (get user_id) w k = get-Agrees user_id w k
  Agrees-all (update user_id input) w k = update-Agrees user_id input w k

  -- When every cached profile is what the database gives, the answers to any sequence of profile
  -- reads and profile updates are those of the service without a cache.
  pub serve_all-refines :
      (requests : List Request) (w : Db × Redis)
      → Coherent w
      → serve_all requests w ≡ serve_all_direct requests w.0
  unfolding serve_all serve_all_direct
  serve_all-refines [] w k = refl
  serve_all-refines (r ∷ rest) w k =
      let one = Agrees-all r w k in
      let later = serve_all-refines rest (serve r w).1 one.coherent in
      ap (λ x. x ∷ serve_all rest (serve r w).1) one.answer
      ∙ ap (λ xs. (serve_direct r w.0).0 ∷ xs) (later ∙ ap (serve_all_direct rest) one.database)
