-- ===== src/Signals/Examples.antt =====
-- Profiles, insider signals and routes on concrete inputs.
use c_e.Common.{true, false, String, List, [], ◌∷◌, ◌++◌, ◌≡◌, refl}
use c_e.Common.Float.{Micro, micro_float}
use c_e.Signals.Admin.{AdminActionEvent, abrupt_escalation}
use c_e.Signals.Decay.{InsiderEvent}

abbrev action : String → String → String → String → AdminActionEvent
action admin name family level = record {
  admin_id = admin;
  action = name;
  resource_family = family;
  privilege_level = level;
}

abbrev actions : List AdminActionEvent
actions =
    action "root-1" "read_ticket" "it-ops" "standard"
    ∷ action "root-2" "read_ticket" "it-ops" "standard"
    ∷ action "root-1" "read_ticket" "vault" "domain_admin"
    ∷ []

escalates : abrupt_escalation actions ≡ true
unfolding abrupt_escalation
escalates = refl

abbrev night : String → InsiderEvent
night identity = record {
  identity_id = identity;
  role = "clerk";
  expected_role = "clerk";
  justification_present = false;
  data_criticality = "high";
  hour_utc = 3;
  organization_context = "normal";
  legit_recovery = false;
}

abbrev five : List InsiderEvent
five = night "u-1" ∷ night "u-1" ∷ night "u-1" ∷ night "u-1" ∷ night "u-1" ∷ []

abbrev twenty : List InsiderEvent
twenty = five ++ five ++ five ++ five

abbrev quiet : InsiderEvent
quiet = record (night "u-1") { justification_present = true }

abbrev total : List Micro → Micro
total [] = micro_float.lit 0
total (x ∷ xs) = micro_float.add x (total xs)
