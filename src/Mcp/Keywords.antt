-- ===== src/Mcp/Keywords.antt =====
-- services/cortex-mcp-server/cortex_mcp_server/router.py: `FAST_PATH_KEYWORDS`, in order.
use c_e.Common.{String, List, [], ◌∷◌}

abbrev pub fast_path_keywords : List (String × String)
fast_path_keywords =
    ("generate rego", "generate_rego")
    ∷ ("write rego", "generate_rego")
    ∷ ("create policy", "generate_rego")
    ∷ ("rego test", "generate_rego_test")
    ∷ ("refactor rego", "refactor_rego")
    ∷ ("powershell script", "generate_script")
    ∷ ("ad script", "generate_script")
    ∷ ("classify threat", "classify_threat")
    ∷ ("threat event", "classify_threat")
    ∷ ("anomaly", "detect_anomaly")
    ∷ ("attack pattern", "analyze_attack")
    ∷ ("risk score", "score_risk")
    ∷ ("correlate", "correlate_events")
    ∷ ("investigate", "investigate")
    ∷ ("blast radius", "explain")
    ∷ ("graph path", "analyze_graph")
    ∷ ("attack path", "analyze_graph")
    ∷ ("remediation plan", "draft_plan")
    ∷ ("parse log", "parse_log")
    ∷ ("extract entities", "extract_entities")
    ∷ ("summarize", "summarize_short")
    ∷ ("bloodhound", "analyze_graph")
    ∷ ("tier 0", "analyze_graph")
    ∷ ("tier0", "analyze_graph")
    ∷ ("privilege path", "analyze_graph")
    ∷ ("privileged path", "analyze_graph")
    ∷ ("acl path", "analyze_graph")
    ∷ ("group membership risk", "analyze_graph")
    ∷ ("blast radius ad", "analyze_graph")
    ∷ ("resource exposure", "analyze_graph")
    ∷ ("visualize exposure", "analyze_graph")
    ∷ ("privilege question", "answer_soc")
    ∷ ("who can reach", "answer_soc")
    ∷ ("who has path", "answer_soc")
    ∷ ("ad drift", "investigate")
    ∷ ("gpo drift", "investigate")
    ∷ ("stale account", "investigate")
    ∷ ("orphan object", "investigate")
    ∷ ("dirsync", "detect_anomaly")
    ∷ ("ldap drift", "detect_anomaly")
    ∷ ("kerberoast", "analyze_attack")
    ∷ ("delegation risk", "analyze_attack")
    ∷ ("service account", "generate_script")
    ∷ ("ldap acl", "explain")
    ∷ ("security descriptor", "explain")
    ∷ ("restore deleted object", "high_risk_decision")
    ∷ ("recycle bin restore", "high_risk_decision")
    ∷ ("decision analysis", "high_risk_decision")
    ∷ ("high risk decision", "high_risk_decision")
    ∷ ("approval decision", "high_risk_decision")
    ∷ ("human approval", "human_explanation")
    ∷ ("executive summary", "human_explanation")
    ∷ ("decision memo", "human_explanation")
    ∷ []
