-- ===== src/Rbac/Freshness.antt =====
-- Requests that refill the access cache while users and roles change (rbac-cache.service.ts).
use express_core.Base.{
  ℕ, ◌+◌, none, ◌≡◌, ◌≤◌, Option, Bool-cases, arith, some, ◌==◌, inl, subst, inr, ◌∙◌,
}
use express_core.Rbac.{
  Cache, Users, CachedUserData, Entry, read_user_access, cache_user_access, invalidate_access, set,
  version_of, current,
}

-- A request on its way through resolveRole: it has the version it read, then the user as well.
pub data Flight : Type 0 where
  idle : Flight
  reading : ℕ → ℕ → Flight
  filled : ℕ → ℕ → CachedUserData → Flight

-- `unannounced` counts the committed changes whose invalidateAccess is still to come.
pub record World : Type 0 where
  pub users : Users
  pub unannounced : ℕ
  pub cache : Cache
  pub flights : ℕ → Flight

abbrev evict : ℕ → Cache → Cache
evict user_id cache = record cache { entries = set cache.entries user_id none }

-- One step of the service: requests and changes interleave in any order.
pub data Step : World → World → Type 0 where
  commit :
      (w : World) (users : Users)
      → Step w (record w { users = users; unannounced = w.unannounced + 1 })
  announce :
      (w : World) (n : ℕ)
      → w.unannounced ≡ n + 1
      → Step w (record w { cache = invalidate_access w.cache; unannounced = n })
  read_version :
      (w : World) (i user_id : ℕ)
      → Step w (record w {
        flights = set w.flights i (reading user_id (read_user_access user_id w.cache).1);
      })
  read_user :
      (w : World) (i user_id version : ℕ) (user : CachedUserData)
      → w.flights i ≡ reading user_id version
      → w.users user_id ≡ some user
      → Step w (record w { flights = set w.flights i (filled user_id version user) })
  store :
      (w : World) (i user_id version : ℕ) (user : CachedUserData)
      → w.flights i ≡ filled user_id version user
      → Step w (record w {
        cache = cache_user_access user_id user version w.cache;
        flights = set w.flights i idle;
      })
  expire : (w : World) (user_id : ℕ) → Step w (record w { cache = evict user_id w.cache })

pub data Reachable (start : World) : World → Type 0 where
  here : Reachable start start
  step : (w w' : World) → Reachable start w → Step w w' → Reachable start w'

abbrev FlightOk : Users → ℕ → ℕ → Flight → Type 0
FlightOk users unannounced version idle = Unit {0}
FlightOk users unannounced version (reading u v) = v ≤ version
FlightOk users unannounced version (filled u v d) =
    (v ≤ version) × (unannounced ≡ 0 → v ≡ version → users u ≡ some d)

abbrev EntryOk : Users → ℕ → ℕ → ℕ → Option Entry → Type 0
EntryOk users unannounced version u none = Unit {0}
EntryOk users unannounced version u (some x) =
    (x.rbac_version ≤ version)
    × (unannounced ≡ 0 → x.rbac_version ≡ version → users u ≡ some x.user)

-- No stamp is newer than the version, and, when every change has been announced, what carries the
-- current version is what the database holds.
pub record Fresh (w : World) : Type 0 where
  pub flights : (i : ℕ) → FlightOk w.users w.unannounced (version_of w.cache) (w.flights i)
  pub entries : (u : ℕ) → EntryOk w.users w.unannounced (version_of w.cache) u (w.cache.entries u)

set-All {ℓ} :
    {A : Type ℓ} (P : ℕ → A → Type 0) (f : ℕ → A) (i : ℕ) (x : A)
    → ((j : ℕ) → P j (f j))
    → P i x
    → (j : ℕ) → P j (set f i x j)
unfolding set
set-All P f i x h p j = elim (Bool-cases (j == i)) [
  | inl e ↦ rw e (subst (λ k. P k x) (ground arith) p)
  | inr e ↦ rw e (h j)
]

committed-flight :
    (users users' : Users) (n version : ℕ) (f : Flight)
    → FlightOk users n version f
    → FlightOk users' (n + 1) version f
committed-flight users users' n version idle h = tt
committed-flight users users' n version (reading u v) h = h
committed-flight users users' n version (filled u v d) h =
    (h.0, λ none_left same. absurd (omega arith))

committed-entry :
    (users users' : Users) (n version u : ℕ) (x : Option Entry)
    → EntryOk users n version u x
    → EntryOk users' (n + 1) version u x
committed-entry users users' n version u none h = tt
committed-entry users users' n version u (some x) h = (h.0, λ none_left same. absurd (omega arith))

announced-flight :
    (users : Users) (n m version : ℕ) (f : Flight)
    → FlightOk users n version f
    → FlightOk users m (version + 1) f
announced-flight users n m version idle h = tt
announced-flight users n m version (reading u v) h = omega arith
announced-flight users n m version (filled u v d) h =
    let old = h.0 in (omega arith, λ none_left same. absurd (omega arith))

announced-entry :
    (users : Users) (n m version u : ℕ) (x : Option Entry)
    → EntryOk users n version u x
    → EntryOk users m (version + 1) u x
announced-entry users n m version u none h = tt
announced-entry users n m version u (some x) h =
    let old = h.0 in (omega arith, λ none_left same. absurd (omega arith))

Step-Fresh : (w w' : World) → Step w w' → Fresh w → Fresh w'
unfolding invalidate_access cache_user_access read_user_access
Step-Fresh _ _ (commit w users) h = record {
  flights = λ i. committed-flight w.users users w.unannounced _ (w.flights i) (h.flights i);
  entries = λ u. committed-entry w.users users w.unannounced _ u (w.cache.entries u) (h.entries u);
}
Step-Fresh _ _ (announce w n e) h = record {
  flights = λ i.
      announced-flight w.users w.unannounced n (version_of w.cache) (w.flights i) (h.flights i);
  entries = λ u.
      announced-entry w.users w.unannounced n (version_of w.cache) u (w.cache.entries u)
        (h.entries u);
}
Step-Fresh _ _ (read_version w i u) h = record {
  flights =
      set-All (λ j f. FlightOk w.users w.unannounced (version_of w.cache) f) w.flights i _ h.flights
        (omega arith);
  entries = h.entries;
}
Step-Fresh _ _ (read_user w i u v d e k) h =
    let known : FlightOk w.users w.unannounced (version_of w.cache) (reading u v) =
      subst (λ f. FlightOk w.users w.unannounced (version_of w.cache) f) e (h.flights i) in
    record {
      flights =
          set-All (λ j f. FlightOk w.users w.unannounced (version_of w.cache) f) w.flights i
            (filled u v d) h.flights (known, λ none_left same. k);
      entries = h.entries;
    }
Step-Fresh _ _ (store w i u v d e) h =
    let known : FlightOk w.users w.unannounced (version_of w.cache) (filled u v d) =
      subst (λ f. FlightOk w.users w.unannounced (version_of w.cache) f) e (h.flights i) in
    record {
      flights =
          set-All (λ j f. FlightOk w.users w.unannounced (version_of w.cache) f) w.flights i idle
            h.flights tt;
      entries =
          set-All (λ j x. EntryOk w.users w.unannounced (version_of w.cache) j x) w.cache.entries u
            (some (record { user = d; rbac_version = v })) h.entries known;
    }
Step-Fresh _ _ (expire w u) h = record {
  flights = h.flights;
  entries =
      set-All (λ j x. EntryOk w.users w.unannounced (version_of w.cache) j x) w.cache.entries u none
        h.entries tt;
}

Reachable-Fresh : (start w : World) → Fresh start → Reachable start w → Fresh w
Reachable-Fresh start _ h here = h
Reachable-Fresh start _ h (step v w r s) = Step-Fresh v w s (Reachable-Fresh start v h r)

-- From a fresh state, after any interleaving of requests that refill the cache, committed changes,
-- version bumps and expiries: when every committed change has been followed by its bump, an access
-- that is read from the cache is the one that the database holds.
pub cached-access_current :
    (start w : World) (user_id : ℕ) (user : CachedUserData)
    → Fresh start
    → Reachable start w
    → w.unannounced ≡ 0
    → (read_user_access user_id w.cache).0 ≡ some user
    → w.users user_id ≡ some user
unfolding read_user_access
cached-access_current start w user_id user fresh reach announced h =
    holds (w.cache.entries user_id) ((Reachable-Fresh start w fresh reach).entries user_id) h
  where
    holds :
        (x : Option Entry)
        → EntryOk w.users w.unannounced (version_of w.cache) user_id x
        → current (version_of w.cache) x ≡ some user
        → w.users user_id ≡ some user
    holds none k c = cc
    holds (some x) k c =
        let same : x.rbac_version ≡ version_of w.cache = ground arith in
        let served : some x.user ≡ some user = ground arith in k.1 announced same ∙ served
