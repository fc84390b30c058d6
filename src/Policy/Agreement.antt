-- ===== src/Policy/Agreement.antt =====
-- Who is an administrator for the policies and for the handlers, and the names that `list_policies`
-- gives to rules and `check_policies` reads.
use Prim.Native.String
use Prim.Native.Char.{Char, code}
use text.Mathlib.TextLemmas.{nil-append, cons-append}
use skyline_apiserver_extens.Common.{
  String, ◌≡◌, refl, ap, ◌∙◌, Bool, true, false, not, ◌&&◌, ◌||◌, some, List, [], ◌∷◌, map,
  contains, eqb, arith, eq_iff, if◌then◌else◌,
}
use skyline_apiserver_extens.Profile.{Profile, Role}
use skyline_apiserver_extens.Roles.{RoleConf, has_role, is_system_admin, is_system_admin_or_reader}
use skyline_apiserver_extens.Roles.Partition.{has_role-append}
use skyline_apiserver_extens.Policy.Context.{Access, has_one_of, user_context}
use skyline_apiserver_extens.Policy.Api.{split_colon, prefixed, join_colon}

has_one_of-nil : (names : List String) → has_one_of names [] ≡ false
unfolding has_one_of
has_one_of-nil [] = refl
has_one_of-nil (n ∷ names) = has_one_of-nil names

has_one_of-cons :
    (names roles : List String) (r : String)
    → has_one_of names (r ∷ roles) ≡ (contains r names || has_one_of names roles)
unfolding has_one_of
has_one_of-cons [] roles r = refl
has_one_of-cons (n ∷ names) roles r =
    ground (arith, eq_iff n r, eq_iff r n, has_one_of-cons names roles r)

-- The loop over the configured names and the intersection of sets find the same.
has_one_of_lem :
    (names : List String) (roles : List Role)
    → has_one_of names (map (λ r. r.name) roles) ≡ has_role roles names
has_one_of_lem names [] = has_one_of-nil names
has_one_of_lem names (r ∷ roles) =
    has_one_of-cons names (map (λ x. x.name) roles) r.name
    ∙ ap (λ b. contains r.name names || b) (has_one_of_lem names roles)

-- Where the token and the profile name the same roles, the context that policies are judged in calls
-- a user an administrator exactly if the handlers do, and an administrator or a reader exactly if
-- the handlers let the user see the whole system.
pub user_context-admin :
    (conf : RoleConf) (profile : Profile) (access : Access)
    → access.role_names ≡ map (λ r. r.name) profile.roles
    → ((user_context conf access).is_admin ≡ is_system_admin conf profile)
      × (((user_context conf access).is_admin || (user_context conf access).is_reader_admin)
          ≡ is_system_admin_or_reader conf profile)
unfolding user_context is_system_admin is_system_admin_or_reader
user_context-admin conf profile access h = rw h (
  has_one_of_lem conf.system_admin_roles profile.roles,
  ground (
    arith,
    has_one_of_lem conf.system_admin_roles profile.roles,
    has_one_of_lem conf.system_reader_roles profile.roles,
    has_role-append profile.roles conf.system_admin_roles conf.system_reader_roles,
  ),
)

-- No colon in a text.
unfoldable pub no_colon : String → Bool
no_colon String.[] = true
no_colon (String.◌∷◌ c s) = not (eqb (code c) b':') && no_colon s

split-colon-cons :
    (c : Char) (s : String)
    → split_colon (String.◌∷◌ c s) ≡ (
        if eqb (code c) b':'
        then some ("", s)
        else prefixed (String.◌∷◌ c String.[]) (split_colon s))
unfolding split_colon
split-colon-cons c s = refl

colon-append : (rule : String) → String.◌++◌ ":" rule ≡ String.◌∷◌ ":" rule
colon-append rule = cons-append ":" String.[] rule ∙ ap (String.◌∷◌ ":") (nil-append rule)

cons_text : (c : Char) (s : String) → String.◌++◌ (String.◌∷◌ c String.[]) s ≡ String.◌∷◌ c s
cons_text c s = cons-append c String.[] s ∙ ap (String.◌∷◌ c) (nil-append s)

-- Whatever the name of a rule is, colons included, the text that `list_policies` gives for it is
-- split by `check_policies` into the service and that name, if the service has no colon.
pub split_colon-join_colon :
    (service rule : String)
    → no_colon service ≡ true
    → split_colon (join_colon service rule) ≡ some (service, rule)
unfolding split_colon no_colon
split_colon-join_colon String.[] rule h =
    ap split_colon (nil-append (String.◌++◌ ":" rule) ∙ colon-append rule)
    ∙ split-colon-cons ":" rule
split_colon-join_colon (String.◌∷◌ c s) rule h =
    ap split_colon (cons-append c s (String.◌++◌ ":" rule))
    ∙ split-colon-cons c (String.◌++◌ s (String.◌++◌ ":" rule))
    ∙ step (split_colon-join_colon s rule (ground arith))
  where
    step :
        split_colon (join_colon s rule) ≡ some (s, rule)
        → (if eqb (code c) b':'
            then some ("", String.◌++◌ s (String.◌++◌ ":" rule))
            else prefixed (String.◌∷◌ c String.[]) (split_colon (join_colon s rule)))
          ≡ some (String.◌∷◌ c s, rule)
    step e = rw (e, cons_text c s) (ground arith)
