-- ===== src/Auth/Roles.antt =====
-- roles.guard.ts and roles.enum.ts.
use a2a_verification_network.Prelude.{
  List, [], ◌∷◌, Option, none, some, String, any, is_empty, str_eq, if◌then◌else◌,
}

pub data Role : Type 0 where
  admin validator coordinator submitter service : Role

abbrev pub role_text : Role → String
role_text admin = "admin"
role_text validator = "validator"
role_text coordinator = "coordinator"
role_text submitter = "submitter"
role_text service = "service"

-- How the guard ends: with `true` or a `ForbiddenException`.
pub data Admitted : Type 0 where
  admitted role_required wrong_role : Admitted

abbrev check_role : List Role → Option String → Admitted
check_role required none = role_required
check_role required (some role) =
    if is_empty role
    then role_required
    else if any (λ r. str_eq role (role_text r)) required
    then admitted
    else wrong_role

-- The roles that the handler asks for, if any, and the role of the user, if there is one.
unfoldable pub can_activate : Option (List Role) → Option String → Admitted
unfolding str_eq
can_activate none role = admitted
can_activate (some []) role = admitted
can_activate (some (r ∷ rs)) role = check_role (r ∷ rs) role
