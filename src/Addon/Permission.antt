-- ===== src/Addon/Permission.antt =====
-- What the rules of a role grant, in the namespace of the role.
use managed_serviceaccount.Prelude.{String, ◌==◌, ◌||◌, ◌&&◌, Bool, false, List, [], ◌∷◌}
use managed_serviceaccount.Addon.{PolicyRule, Role}

abbrev pub contains : String → List String → Bool
contains x [] = false
contains x (y ∷ ys) = x == y || contains x ys

abbrev pub rule_allows : PolicyRule → String → String → String → Bool
rule_allows rule verb group resource =
    contains verb rule.verbs && contains group rule.api_groups && contains resource rule.resources

abbrev any_rule : List PolicyRule → String → String → String → Bool
any_rule [] verb group resource = false
any_rule (rule ∷ rules) verb group resource =
    rule_allows rule verb group resource || any_rule rules verb group resource

-- Whether a role grants a verb on a resource of an API group.
unfoldable pub allows : Role → String → String → String → Bool
allows role verb group resource = any_rule role.rules verb group resource

abbrev pub accounts_group : String
accounts_group = "authentication.open-cluster-management.io"
