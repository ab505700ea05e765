-- ===== src/IdentityAccess/Order/Operations.antt =====
-- The use-cases of identity-access on the same stores in two orders.
use cricket_drs_system.Prelude.{
  String, ◌≡◌, refl, ap, Bool, Option, string_eq, pair_eq, not, ◌||◌, ◌==◌, if◌then◌else◌,
}
use cricket_drs_system.Prelude.Int.{Time}
use cricket_drs_system.Exec.Related.{
  Relation, Related, pure-Related, lift-Related, raise_if-Related, reads-Related, bind-Related,
}
use cricket_drs_system.Table.Order.{put-SameMap}
use cricket_drs_system.Exec.{lift, pure, raise_if, ◌>>=◌}
use cricket_drs_system.Platformauth.{Role, organizer_admin, valid}
use cricket_drs_system.IdentityAccess.Domain.{
  OrganizationId, UserId, User, ConsentType, ConsentRecord, Organization, cross_tenant_access,
  permission_denied, invalid_role, invalid_credentials, manage_users, has_permission,
  new_organization, new_user, new_consent_record, grant_consent, revoke_consent,
}
use cricket_drs_system.IdentityAccess.Store
use cricket_drs_system.IdentityAccess.Service
use cricket_drs_system.IdentityAccess.Service.{
  State, Caller, Ports, Action, absent, on_orgs, on_users, on_consents, or_dependency, or_invalid,
  visible_consent, is_user, on_file_or_new, new_id,
}
use cricket_drs_system.IdentityAccess.Order.{
  SameState, get_organization-SameMap, get_by_email-SameMap, get_user-SameMap, get_consent-SameMap,
  create_user-SameMap, update_user-SameMap, create_user-Distinct, update_user-Distinct,
}
use cricket_drs_system.IdentityAccess.Invariant.Emails.{UniqueEmails}

-- The same stores, in which an email names one user.
abbrev pub Walked : Relation State
Walked s t = SameState s t × (UniqueEmails s.users × UniqueEmails t.users)

pub Same-Walked : (s t : State) → Walked s t → SameState s t
Same-Walked s t w = w.0

-- A read that finds the same in the same stores.
abbrev same_email :
    (o : OrganizationId) (email : String) (s t : State)
    → Walked s t
    → Store.get_by_email o email s.users ≡ Store.get_by_email o email t.users
same_email o email s t w =
    get_by_email-SameMap o email s.users t.users (w.0.distinct_left, w.1.0)
      (w.0.distinct_right, w.1.1) w.0.users

create-Related : (u : User) → Related SameState SameState (on_users (Store.create_user u))
create-Related u = record {
  agrees = λ s t same.
      let (equal, users) = create_user-SameMap u s.users t.users same.users in
      (
        equal,
        record {
          orgs = same.orgs;
          users = users;
          consents = same.consents;
          distinct_left = create_user-Distinct u s.users same.distinct_left;
          distinct_right = create_user-Distinct u t.users same.distinct_right;
        },
      );
}

update-Related : (u : User) → Related SameState SameState (on_users (Store.update_user u))
update-Related u = record {
  agrees = λ s t same.
      let (equal, users) = update_user-SameMap u s.users t.users same.users in
      (
        equal,
        record {
          orgs = same.orgs;
          users = users;
          consents = same.consents;
          distinct_left = update_user-Distinct u s.users same.distinct_left;
          distinct_right = update_user-Distinct u t.users same.distinct_right;
        },
      );
}

create_org-Related :
    (org : Organization) → Related Walked SameState (on_orgs (Store.create_organization org))
unfolding Store.create_organization
create_org-Related org = record {
  agrees = λ s t w. (
    refl,
    record {
      orgs = put-SameMap org.id org s.orgs t.orgs w.0.orgs;
      users = w.0.users;
      consents = w.0.consents;
      distinct_left = w.0.distinct_left;
      distinct_right = w.0.distinct_right;
    },
  );
}

upsert-Related :
    (c : ConsentRecord) → Related Walked SameState (on_consents (Store.upsert_consent c))
unfolding Store.upsert_consent
upsert-Related c = record {
  agrees = λ s t w. (
    refl,
    record {
      orgs = w.0.orgs;
      users = w.0.users;
      consents =
          put-SameMap (c.organization_id, c.user_id) (Store.clone_consent_record c) s.consents
            t.consents w.0.consents;
      distinct_left = w.0.distinct_left;
      distinct_right = w.0.distinct_right;
    },
  );
}

-- The test for another tenant, which every use-case begins with.
own_tenant-Related :
    {A : Type 0} (caller : Caller) (o : OrganizationId) {f : Unit {0} → Action A}
    → ((u : Unit {0}) → Related Walked SameState (f u))
    → Related Walked SameState
        (raise_if (not (caller.organization_id == o)) cross_tenant_access >>= f)
own_tenant-Related caller o next =
    bind-Related Same-Walked
      (raise_if-Related (not (caller.organization_id == o)) cross_tenant_access) next

may_manage-Related :
    {A : Type 0} (caller : Caller) {f : Unit {0} → Action A}
    → ((u : Unit {0}) → Related Walked SameState (f u))
    → Related Walked SameState
        (raise_if (not (has_permission caller.role manage_users)) permission_denied >>= f)
may_manage-Related caller next =
    bind-Related Same-Walked
      (raise_if-Related (not (has_permission caller.role manage_users)) permission_denied) next

pub get_user-Related :
    (caller : Caller) (o : OrganizationId) (i : UserId)
    → Related Walked SameState (Service.get_user caller o i)
unfolding Service.get_user
get_user-Related caller o i =
    own_tenant-Related caller o
      λ _. record { agrees = λ s t w. (get_user-SameMap o i s.users t.users w.0.users, w.0) }

pub get_consent-Related :
    (caller : Caller) (o : OrganizationId) (i : UserId)
    → Related Walked SameState (Service.get_consent caller o i)
unfolding Service.get_consent
get_consent-Related caller o i = own_tenant-Related caller o λ _. record {
  agrees = λ s t w. (
    ap (visible_consent caller i) (get_consent-SameMap o i s.consents t.consents w.0.consents),
    w.0,
  );
}

pub assign_role-Related :
    (caller : Caller) (o : OrganizationId) (i : UserId) (role : Role)
    → Related Walked SameState (Service.assign_role caller o i role)
unfolding Service.assign_role
assign_role-Related caller o i role = own_tenant-Related caller o λ _.
    may_manage-Related caller λ _.
      bind-Related Same-Walked (raise_if-Related (not (valid role)) invalid_role) λ _.
        bind-Related {Q = SameState} (λ s t same. same)
          (record { agrees = λ s t w. (get_user-SameMap o i s.users t.users w.0.users, w.0) })
          λ u.
            bind-Related (λ s t same. same) (update-Related (record u { role = role }))
              (λ _. pure-Related (record u { role = role }) (λ s t same. same))

pub capture_consent-Related :
    (caller : Caller) (o : OrganizationId) (i : UserId) (is_minor : Bool) (guardian : Option UserId)
    (type : ConsentType) (grant : Bool) (created now : Time)
    → Related Walked SameState
        (Service.capture_consent caller o i is_minor guardian type grant created now)
unfolding Service.capture_consent
capture_consent-Related caller o i is_minor guardian type grant created now =
    own_tenant-Related caller o λ _.
      bind-Related Same-Walked
        (raise_if-Related
          (not (
            caller.user_id == i
            || caller.role == organizer_admin
            || is_user caller.user_id guardian))
          permission_denied)
        λ _.
          bind-Related Same-Walked
            (reads-Related
              (λ s.
                on_file_or_new (Store.get_consent o i s.consents)
                  (new_consent_record i o is_minor guardian caller.user_id created))
              (λ s t w.
                ap
                  (λ r.
                    on_file_or_new r
                      (new_consent_record i o is_minor guardian caller.user_id created))
                  (get_consent-SameMap o i s.consents t.consents w.0.consents)))
            λ rec.
              let changed =
                if grant
                then grant_consent type caller.user_id now rec
                else revoke_consent type caller.user_id now rec in
              bind-Related (λ s t same. same) (upsert-Related changed)
                (λ _. pure-Related changed (λ s t same. same))

module _ (ports : Ports) where
  -- Hashing a password, making the user of the hash, and storing it.
  stores_user-Related :
      (id : UserId) (o : OrganizationId) (email password : String) (role : Role) {A : Type 0}
      (a : User → A)
      → Related SameState SameState (
          lift (or_dependency (ports.hash password) "hash") >>= (λ hash.
            lift (new_user id o email hash role)
            >>= (λ u. on_users (Store.create_user u) >>= (λ _. pure (a u)))))
  stores_user-Related id o email password role a =
      bind-Related (λ s t same. same) (lift-Related (or_dependency (ports.hash password) "hash"))
        λ hash.
          bind-Related (λ s t same. same) (lift-Related (new_user id o email hash role))
            λ u.
              bind-Related (λ s t same. same) (create-Related u)
                (λ _. pure-Related (a u) (λ s t same. same))

  pub login-Related :
      (o : OrganizationId) (email password : String)
      → Related Walked SameState (Service.login ports o email password)
  unfolding Service.login
  login-Related o email password =
      bind-Related Same-Walked
        (reads-Related (λ s. or_invalid (Store.get_by_email o email s.users))
          (λ s t w. ap or_invalid (same_email o email s t w)))
        λ u.
          bind-Related Same-Walked
            (raise_if-Related (not (ports.compare u.password_hash password)) invalid_credentials)
            (λ _. record { agrees = λ s t w. (refl, w.0) })

  pub invite_user-Related :
      (caller : Caller) (o : OrganizationId) (email password : String) (role : Role)
      (fresh : String)
      → Related Walked SameState (Service.invite_user ports caller o email password role fresh)
  unfolding Service.invite_user
  invite_user-Related caller o email password role fresh = own_tenant-Related caller o λ _.
      may_manage-Related caller λ _.
        bind-Related Same-Walked
          (reads-Related (λ s. Store.get_organization o s.orgs)
            (λ s t w. get_organization-SameMap o s.orgs t.orgs w.0.orgs))
          λ _.
            bind-Related {Q = SameState} (λ s t same. same)
              (record { agrees = λ s t w. (ap absent (same_email o email s t w), w.0) })
              λ _. stores_user-Related (new_id "user" fresh) o email password role (λ u. u)

  pub create_organization-Related :
      (name email password org_fresh user_fresh : String)
      → Related Walked SameState
          (Service.create_organization ports name email password org_fresh user_fresh)
  unfolding Service.create_organization
  create_organization-Related name email password org_fresh user_fresh =
      bind-Related Same-Walked (lift-Related (new_organization (new_id "org" org_fresh) name))
        λ org.
          bind-Related {Q = SameState} (λ s t same. same) (create_org-Related org)
            λ _.
              stores_user-Related (new_id "user" user_fresh) org.id email password organizer_admin
                (λ u. (org, u))
