-- ===== src/Domain/Organization/Vocabulary.antt =====
-- crates/domain/src/organization.rs: the roles of a reviewer. A value is written to the database by
-- `as_database_value` and read back by `from_database_value`.
use safe_cameroon.Common.{
  Eq, eq_of, String, List, [], ◌∷◌, Option, some, ◌≡◌, refl, match_arms, IsExact,
  match_arms-IsExact,
}

pub data Role : Type 0 where
  platform_admin org_admin member : Role

unfoldable pub Role-discrete : Discrete Role
Role-discrete = hlevel

instance abbrev pub Role_eq : Eq Role
Role_eq = eq_of Role-discrete

unfoldable pub role_as_database_value : Role → String
role_as_database_value Role.platform_admin = "PLATFORM_ADMIN"
role_as_database_value Role.org_admin = "ORG_ADMIN"
role_as_database_value Role.member = "MEMBER"

abbrev pub role_arms : List (String × Role)
role_arms =
    ("PLATFORM_ADMIN", Role.platform_admin)
    ∷ ("ORG_ADMIN", Role.org_admin)
    ∷ ("MEMBER", Role.member)
    ∷ []

unfoldable pub role_from_database_value : String → Option Role
role_from_database_value s = match_arms s role_arms

role_from_database_value-role_as_database_value :
    (v : Role) → role_from_database_value (role_as_database_value v) ≡ some v
unfolding role_from_database_value role_as_database_value
role_from_database_value-role_as_database_value Role.platform_admin = refl
role_from_database_value-role_as_database_value Role.org_admin = refl
role_from_database_value-role_as_database_value Role.member = refl

pub role-IsExact : IsExact role_as_database_value role_from_database_value
unfolding role_from_database_value role_as_database_value
role-IsExact =
    match_arms-IsExact role_as_database_value role_from_database_value role_arms (λ s. refl)
      (refl, (refl, (refl, tt))) role_from_database_value-role_as_database_value
