-- ===== src/Lease/Tests.antt =====
-- Concrete uses of the control lease.
use smart_form.Base.{String, ◌≡◌, refl, none, some, List, [], ◌∷◌}
use smart_form.Base.Exec.{ok}
use smart_form.Lease.{
  playwright_runner, browser_use_sidecar, automation, human, BrowserProbe, Authority, Urls, fresh,
  resume_after_human,
}
use smart_form.Lease.Exclusion.{next_lease, holding}
use smart_form.Lease.History.{
  Call, acquires, transfers, resumes, releases, serve_all, IsFaithful, history-IsFaithful,
}

abbrev urls : Urls
urls = record { hostname = λ text. some text; lower = λ text. text }

abbrev held : Authority
held = record {
  lease =
      some (record { task_id = "t1"; holder = human; token = "k1"; epoch = 2; acquired_at = 5 });
  epoch = 2;
}

abbrev allowed : List String
allowed = "forms.example.com" ∷ []

abbrev page : BrowserProbe
page = record {
  url = "forms.example.com";
  title = none;
  fingerprint = none;
  active_target_id = some "tab";
}

resumes_to_runner :
    resume_after_human urls "k1" playwright_runner page page allowed "k2" 9 held
    ≡ (let l = next_lease held "t1" (automation playwright_runner) "k2" 9 in (ok l, holding held l))
unfolding resume_after_human
resumes_to_runner = refl

abbrev calls : List Call
calls =
    acquires "t1" playwright_runner "k0" 1
    ∷ acquires "t2" browser_use_sidecar "k9" 2
    ∷ transfers "k0" "k1" 3
    ∷ resumes "k1" playwright_runner page page allowed "k2" 4
    ∷ releases "k2"
    ∷ []

history-IsFaithful_example :
    IsFaithful (serve_all urls (record { authority = fresh; granted = [] }) calls)
history-IsFaithful_example = history-IsFaithful urls calls
