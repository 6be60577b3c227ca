-- ===== src/Rbac/Gates.antt =====
-- The permission gate over the access cache (rbac.middleware.ts).
use express_core.Base.{
  String, Option, ℕ, ◌≡◌, some, none, true, Bool-cases, Option-cases, inl, arith, inr, refl,
}
use express_core.Rbac.{
  Cache, Users, CachedUserData, RoleData, Request, read_user_access, check_permission, resolve_role,
  includes, grant, answer_role, ok, resolve_user, cache_user_access,
}
use express_core.Rbac.Freshness.{World, Reachable, Fresh, cached-access_current}

granted :
    (permission : String) (r : Option RoleData) (req : Request) (cache : Cache)
    → (grant permission (answer_role r req cache)).0 ≡ ok tt
    → (role : RoleData) × (r ≡ some role) × (includes role.access permission ≡ true)
granted permission none req cache h = cc
granted permission (some role) req cache h = elim (Bool-cases (includes role.access permission)) [
  | inl e ↦ (role, refl, e)
  | inr e ↦ absurd (ground (arith, h))
]

granted-user :
    (permission : String) (users : Users) (u version : ℕ) (o : Option CachedUserData)
    (req : Request) (cache : Cache)
    → ((user : CachedUserData) → o ≡ some user → users u ≡ some user)
    → (grant permission (resolve_user users u (o, version) req cache)).0 ≡ ok tt
    → (user : CachedUserData) × (role : RoleData) × (users u ≡ some user)
      × (user.role ≡ some role)
      × (includes role.access permission ≡ true)
granted-user permission users u version (some user) req cache current h =
    let (role, has_role, listed) = granted permission user.role req cache h in
    (user, role, current user refl, has_role, listed)
granted-user permission users u version none req cache current h = elim (Option-cases (users u)) [
  | inl e ↦ absurd (ground (arith, h))
  | inr (user, e) ↦
      let (role, has_role, listed) =
        granted permission user.role req (cache_user_access u user version cache)
          (ground (arith, h)) in
      (user, role, e, has_role, listed)
]

-- From a fresh state, after any interleaving in which every committed change has been followed by
-- its version bump: if a request of an authenticated user that has no resolved role yet passes the
-- gate of a permission, then the database holds that user with a role whose access lists the
-- permission.
pub check_permission-current :
    (start w : World) (permission : String) (req : Request) (u : ℕ)
    → Fresh start
    → Reachable start w
    → w.unannounced ≡ 0
    → req.role ≡ none
    → req.sub ≡ some u
    → (check_permission permission w.users req w.cache).0 ≡ ok tt
    → (user : CachedUserData) × (role : RoleData) × (w.users u ≡ some user)
      × (user.role ≡ some role)
      × (includes role.access permission ≡ true)
unfolding check_permission resolve_role
check_permission-current start w permission req u fresh reach announced first subject h =
    granted-user permission w.users u (read_user_access u w.cache).1 (read_user_access u w.cache).0
      _ w.cache (λ user cached. cached-access_current start w u user fresh reach announced cached)
      (rw (first, subject) at h)
