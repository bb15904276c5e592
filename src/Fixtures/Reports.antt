-- ===== src/Fixtures/Reports.antt =====
-- conftest.py: the hooks that add the backend's log to the report of a failed test.
use sas_tests.Prelude.{
  if◌then◌else◌, or_nil, Error, ok, raised, String, Bool, false, ◌&&◌, Option, none, some, List, [],
  ◌∷◌, ◌++◌, str_eq,
}
use sas_tests.Constants
use sas_tests.Prelude.Text.{codes}
use sas_tests.Remote.{Host, Backend, PrintedText, World, remote_backend, close}
use sas_tests.Remote.Calls.{get_backend_log}

-- The options that `pytest_addoption` adds.
pub record Options : Type 0 where
  pub ws_url : String
  pub ssh_host : Option String
  pub ssh_user : String
  pub ssh_password : Option String
  pub ssh_key : Option String

-- What they are by default.
abbrev pub default_options : Options
default_options = record {
  ws_url = Constants.default_ws_url;
  ssh_host = none;
  ssh_user = "pi";
  ssh_password = none;
  ssh_key = none;
}

pub record Report : Type 0 where
  pub when : String
  pub failed : Bool
  -- `_backend_log` of the report
  pub backend_log : Option PrintedText

pub record Item : Type 0 where
  -- `_backend_log` of the item
  pub backend_log : Option PrintedText
  pub user_properties : List (String × PrintedText)

-- The log, or what stands for it; `describe` is the text of an exception. A backend that raised is
-- not closed.
unfoldable pub capture {ℓ} :
    {M : Type ℓ} → Host M → (Error → PrintedText) → Backend → World M → PrintedText × World M
unfolding get_backend_log close
capture h describe b w =
    let (r, w') = get_backend_log h b 50 w in
    elim r [
      | ok log_text ↦ (log_text, close h b w')
      | raised e ↦ (codes "[conftest] Failed to capture backend log: " ++ describe e, w')
    ]

-- `pytest_runtest_makereport`
unfoldable pub makereport {ℓ} :
    {M : Type ℓ}
    → Host M
    → (Error → PrintedText)
    → Options
    → Report
    → Item
    → World M
    → Item × World M
unfolding capture
makereport h describe opts report item w =
    if str_eq report.when "call" && report.failed
    then elim opts.ssh_host [
      | none ↦ (item, w)
      | some host ↦
          (let (log_text, w') =
              capture h describe (remote_backend host opts.ssh_user opts.ssh_password opts.ssh_key)
                (record w { opened = false }) in
            (record item { backend_log = some log_text }, w'))
    ]
    else (item, w)

-- `pytest_html_results_table_row`: the cell, from the report's attribute, where `pytest_html` can be
-- imported.
unfoldable pub results_table_row : Bool → Report → List PrintedText → List PrintedText
results_table_row pytest_html report cells =
    if pytest_html
    then elim (or_nil report.backend_log) [
      | [] ↦ cells
      | c ∷ s ↦ cells ++ (codes "<td><pre>" ++ ((c ∷ s) ++ codes "</pre></td>")) ∷ []
    ]
    else cells

-- `pytest_runtest_protocol`, once the test has run.
unfoldable pub runtest_protocol : Item → Item
runtest_protocol item = elim item.backend_log [
  | none ↦ item
  | some log ↦ record item { user_properties = item.user_properties ++ ("backend_log", log) ∷ [] }
]
